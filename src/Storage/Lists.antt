-- ===== src/Storage/Lists.antt =====
-- The methods of TaxiStorage that return several rows: which rows, and in which order.
use mathlib.Core.List.{Perm}
use taxi_lab.Base.{
  ℤ, ◌↔◌, String, ◌+s◌, like, pos, negsuc, int_eq, int_le, ◌≡◌, refl, Bool, true, false, List, [],
  ◌∷◌, map, ◌==◌, select, order_by, IsOrdered, order_by-perm, order_by-IsOrdered, Result, ok, arith,
  ◌||◌, ◌&&◌, ltb, nat_eq, nat_eq_iff, IsOrdered-implies,
}
use taxi_lab.Database.Rows.{Database, UserRow, DriverRow, RideRow}
use taxi_lab.Database.Drivers.{driver_columns, select_active_drivers}
use taxi_lab.Database.Rides.{
  ride_columns, newer_first, is_active, select_rides_by_user_id, select_active_rides,
}
use taxi_lab.Storage.{
  find_users_by_name_mask, get_rides_by_user_id, get_active_rides, get_active_drivers,
}
use taxi_lab.Database.Users.{user_columns, find_users_by_mask}
use text.Mathlib.TextBridge.{IsInfix}
use taxi_lab.Storage.Masks.{is_plain, like-IsInfix}
use taxi_lab.Storage.Parse.{
  parse_user, parse_user-columns, user_of, parse_all, parse_driver, parse_ride,
  parse_driver-columns, parse_ride-columns, driver_of, ride_of,
}

parse_all-ride_columns :
    (rows : List RideRow) → parse_all parse_ride (map ride_columns rows) ≡ ok (map ride_of rows)
unfolding parse_all
parse_all-ride_columns [] = refl
parse_all-ride_columns (r ∷ rows) = rw (parse_ride-columns r, parse_all-ride_columns rows) refl

parse_all-driver_columns :
    (rows : List DriverRow)
    → parse_all parse_driver (map driver_columns rows) ≡ ok (map driver_of rows)
unfolding parse_all
parse_all-driver_columns [] = refl
parse_all-driver_columns (r ∷ rows) =
    rw (parse_driver-columns r, parse_all-driver_columns rows) refl

int_le_total : (a b : ℤ) → int_le a b ≡ false → int_le b a ≡ true
int_le_total (pos a) (pos b) h = ground arith
int_le_total (pos a) (negsuc b) h = ground arith
int_le_total (negsuc a) (pos b) h = ground arith
int_le_total (negsuc a) (negsuc b) h = ground arith

newer_first_total : (a b : RideRow) → newer_first a b ≡ false → newer_first b a ≡ true
unfolding newer_first
newer_first_total a b h = ground (arith, int_le_total b.id a.id)

-- kSelectRidesByUserId puts the later ride first, and of two at one time the one with the larger id.
newer_first_lem :
    (a b : RideRow)
    → newer_first a b ≡ true
    → (ltb b.created_at a.created_at || (nat_eq a.created_at b.created_at && int_le b.id a.id))
      ≡ true
unfolding newer_first
newer_first_lem a b h = ground (arith, nat_eq_iff a.created_at b.created_at)

-- The rows of a table that pass a test, in an order: what a method returns.
abbrev pub Lists :
    {R A : Type 0} → (R → A) → (R → Bool) → (R → R → Bool) → List R → Result (List A) → Type 0
Lists {R = R} of test before table result =
    (rows : List R) × (result ≡ ok (map of rows))
    × Perm rows (select test table)
    × IsOrdered before rows

-- GetRidesByUserId returns exactly the rides of the passenger, each as often as it stands in the
-- table, with the newest first and, of rides made at one time, the one with the larger id.
pub get_rides_by_user_id-Lists :
    (user_id : ℤ) (db : Database)
    → Lists ride_of
        (λ r. int_eq r.passenger_id user_id)
        (λ a b.
          ltb b.created_at a.created_at || (nat_eq a.created_at b.created_at && int_le b.id a.id))
        db.rides
        (get_rides_by_user_id user_id db).0
unfolding get_rides_by_user_id select_rides_by_user_id
get_rides_by_user_id-Lists user_id db =
    let rows = select (λ r. int_eq r.passenger_id user_id) db.rides in
    (
      order_by newer_first rows,
      parse_all-ride_columns _,
      order_by-perm newer_first rows,
      IsOrdered-implies newer_first _ newer_first_lem (order_by newer_first rows)
          (order_by-IsOrdered newer_first newer_first_total rows),
    )

-- GetActiveRides returns exactly the rides that are searching or accepted, each as often as it
-- stands in the table, by rising ids.
pub get_active_rides-Lists :
    (db : Database)
    → Lists ride_of
        (λ r. r.status == "searching" || r.status == "accepted")
        (λ a b. int_le a.id b.id)
        db.rides
        (get_active_rides db).0
unfolding get_active_rides select_active_rides is_active
get_active_rides-Lists db =
    let rows = select is_active db.rides in
    (
      order_by (λ a b. int_le a.id b.id) rows,
      parse_all-ride_columns _,
      order_by-perm (λ a b. int_le a.id b.id) rows,
      order_by-IsOrdered (λ a b. int_le a.id b.id) (λ a b. int_le_total a.id b.id) rows,
    )

-- GetActiveDrivers returns exactly the drivers that are online, each as often as it stands in the
-- table, by rising ids.
pub get_active_drivers-Lists :
    (db : Database)
    → Lists driver_of
        (λ r. r.status == "online")
        (λ a b. int_le a.id b.id)
        db.drivers
        (get_active_drivers db).0
unfolding get_active_drivers select_active_drivers
get_active_drivers-Lists db =
    let rows = select (λ r. r.status == "online") db.drivers in
    (
      order_by (λ a b. int_le a.id b.id) rows,
      parse_all-driver_columns _,
      order_by-perm (λ a b. int_le a.id b.id) rows,
      order_by-IsOrdered (λ a b. int_le a.id b.id) (λ a b. int_le_total a.id b.id) rows,
    )

parse_all-user_columns :
    (rows : List UserRow) → parse_all parse_user (map user_columns rows) ≡ ok (map user_of rows)
unfolding parse_all
parse_all-user_columns [] = refl
parse_all-user_columns (r ∷ rows) = rw (parse_user-columns r, parse_all-user_columns rows) refl

-- FindUsersByNameMask, with a mask that in lower case has no %, _ or backslash, returns exactly the
-- users whose name in lower case has that text as a part, each as often as it stands in the table,
-- by rising ids.
pub find_users_by_name_mask-Lists :
    (lower : String → String) (mask : String) (db : Database)
    → is_plain (lower mask) ≡ true
    → (has : UserRow → Bool) × (((r : UserRow)
          → (has r ≡ true) ↔ IsInfix (lower mask) (lower r.full_name))
        × Lists user_of has
            (λ a b. int_le a.id b.id)
            db.users
            (find_users_by_name_mask lower mask db).0)
unfolding find_users_by_name_mask find_users_by_mask
find_users_by_name_mask-Lists lower mask db plain =
    let has : UserRow → Bool = λ r. like ("%" +s lower mask +s "%") (lower r.full_name) in
    let rows = select has db.users in
    (
      has,
      (
        λ r. like-IsInfix (lower mask) (lower r.full_name) plain,
        (
          order_by (λ a b. int_le a.id b.id) rows,
          parse_all-user_columns _,
          order_by-perm (λ a b. int_le a.id b.id) rows,
          order_by-IsOrdered (λ a b. int_le a.id b.id) (λ a b. int_le_total a.id b.id) rows,
        ),
      ),
    )
