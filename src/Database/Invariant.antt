-- ===== src/Database/Invariant.antt =====
-- When the tables of schema.sql are well-formed.
use taxi_lab.Base.{
  ℤ, pos, int_eq, ◌<◌, ◌≡◌, ◌≢◌, Bool, true, false, ◌&&◌, Option, none, some, List, [], ◌∷◌, any,
  ◌==◌, if◌then◌else◌,
}
use taxi_lab.Database.Rows.{Database, UserRow, DriverRow, RideRow}
use taxi_lab.Database.Tables.{All, Falls, count_where, find_row, row_test}

abbrev pub user_id : UserRow → ℤ
user_id r = r.id

abbrev pub driver_id : DriverRow → ℤ
driver_id r = r.id

abbrev pub ride_id : RideRow → ℤ
ride_id r = r.id

-- The ids of each table are positive, below the next identity value, and fall along the table.
pub record HasFallingIds (db : Database) : Type 0 where
  pub users : Falls user_id (pos db.next_user_id) db.users
  pub drivers : Falls driver_id (pos db.next_driver_id) db.drivers
  pub rides : Falls ride_id (pos db.next_ride_id) db.rides
  pub starts : (0 < db.next_user_id) × (0 < db.next_driver_id) × (0 < db.next_ride_id)

-- An accepted ride has a driver.
abbrev pub IsDriven : RideRow → Type 0
IsDriven r = (r.status == "accepted") ≡ true → r.driver_id ≢ none

abbrev pub HasDrivenRides : Database → Type 0
HasDrivenRides db = All IsDriven db.rides

abbrev pub driver_eq : ℤ → Option ℤ → Bool
driver_eq d none = false
driver_eq d (some e) = int_eq e d

-- The rides that a driver is on.
abbrev pub drives : ℤ → RideRow → Bool
drives d r = r.status == "accepted" && driver_eq d r.driver_id

abbrev pub is_busy : DriverRow → Bool
is_busy r = r.status == "busy"

-- A driver is on one accepted ride while busy, and on none otherwise; nor is anyone else.
abbrev pub IsBalanced : Database → Type 0
IsBalanced db =
    (d : ℤ)
    → count_where (drives d) db.rides
      ≡ (if row_test is_busy (find_row driver_id d db.drivers) then 1 else 0)

abbrev pub HasUniqueLogins : List UserRow → Type 0
HasUniqueLogins [] = Unit {0}
HasUniqueLogins (r ∷ rows) = (any (λ q. q.login == r.login) rows ≡ false) × HasUniqueLogins rows

pub record WellFormed (db : Database) : Type 0 where
  pub ids : HasFallingIds db
  pub driven : HasDrivenRides db
  pub balance : IsBalanced db
  pub logins : HasUniqueLogins db.users
