-- ===== src/Storage/Fleet/Accept.antt =====
-- AcceptRide against the abstract step.
use taxi_lab.Base.{
  ℤ, int_eq, int_eq_iff, ◌≡◌, refl, ap, ap₂, ◌∙◌, inl, inr, Bool, true, false, ◌&&◌, Option, none,
  some, List, [], ◌∷◌, ◌==◌, if◌then◌else◌, any, select, Result, ok, arith, Bool-cases,
}
use mathlib.Core.Option
use taxi_lab.Models.{Ride}
use taxi_lab.Database.Rows.{Database, DriverRow, RideRow}
use taxi_lab.Database.Tables.{
  find_row, row_list, row_test, update_where, select-and, update_where-and, select-find_row,
  any-find_row, find_row-update_where, find_row-id,
}
use taxi_lab.Database.Drivers.{with_status}
use taxi_lab.Database.Rides.{accept_ride_query, takes_ride, is_searching, is_online, accepted_by}
use taxi_lab.Database.Invariant.{HasFallingIds, driver_id, ride_id}
use taxi_lab.Storage.{accept_ride}
use taxi_lab.Storage.Parse.{ride_of, parse_ride-columns}
use taxi_lab.Storage.Fleet.Views.{ride_test, driver_test}
use taxi_lab.Storage.Fleet.{fleet_of, is_success, accept_step, assign_ride, assignment_of}

abbrev pub searching : RideRow → Bool
searching r = r.status == "searching"

abbrev pub online : DriverRow → Bool
online r = r.status == "online"

-- The database after a committed AcceptRide.
abbrev pub accepted_db : ℤ → ℤ → Database → Database
accepted_db r d db = record db {
  drivers = update_where (is_online d) (with_status "busy") db.drivers;
  rides = update_where (is_searching r) (accepted_by d) db.rides;
}

-- What AcceptRide does: nothing, or one ride and its driver change.
pub data Accepts (r d : ℤ) (db : Database) : Result (Option Ride) × Database → Type 0 where
  refused :
      (row_test online (find_row driver_id d db.drivers)
          && row_test searching (find_row ride_id r db.rides))
        ≡ false
      → Accepts r d db (ok none, db)
  accepted :
      (row : RideRow)
      → find_row ride_id r db.rides ≡ some row
      → searching row ≡ true
      → row_test online (find_row driver_id d db.drivers) ≡ true
      → Accepts r d db (ok (some (ride_of (accepted_by d row))), accepted_db r d db)

module _ (r d : ℤ) (db : Database) (ids : HasFallingIds db) where
  some_online : any (is_online d) db.drivers ≡ row_test online (find_row driver_id d db.drivers)
  unfolding is_online
  some_online = any-find_row driver_id online d _ db.drivers ids.drivers

  searching_rides :
      select (is_searching r) db.rides ≡ row_list searching (find_row ride_id r db.rides)
  unfolding is_searching
  searching_rides = select-find_row ride_id searching r _ db.rides ids.rides

  rolled_back : select (takes_ride r d db) db.rides ≡ [] → accept_ride r d db ≡ (ok none, db)
  unfolding accept_ride accept_ride_query
  rolled_back h = rw h refl

  committed :
      (row : RideRow)
      → any (is_online d) db.drivers ≡ true
      → select (takes_ride r d db) db.rides ≡ row ∷ []
      → accept_ride r d db ≡ (ok (some (ride_of (accepted_by d row))), accepted_db r d db)
  unfolding accept_ride accept_ride_query
  committed row o h =
      rw
        (h, update_where-and (is_searching r) (any (is_online d) db.drivers), o, parse_ride-columns)
        refl

  pub accept_ride-Accepts : Accepts r d db (accept_ride r d db)
  accept_ride-Accepts =
      decide (row_test online (find_row driver_id d db.drivers)) (find_row ride_id r db.rides) refl
        refl
    where
      decide :
          (b : Bool) (o : Option RideRow)
          → row_test online (find_row driver_id d db.drivers) ≡ b
          → find_row ride_id r db.rides ≡ o
          → Accepts r d db (accept_ride r d db)
      decide false o eb eo =
          rw
            (rolled_back (
              select-and (is_searching r) (any (is_online d) db.drivers) db.rides
              ∙ rw (some_online, eb)))
            (refused (rw eb))
      decide true none eb eo =
          rw
            (rolled_back (
              select-and (is_searching r) (any (is_online d) db.drivers) db.rides
              ∙ rw (some_online, eb, searching_rides, eo)))
            (refused (rw (eb, eo)))
      decide true (some row) eb eo =
          let found : select (takes_ride r d db) db.rides ≡ row_list searching (some row) =
            select-and (is_searching r) (any (is_online d) db.drivers) db.rides
            ∙ rw (some_online, eb, searching_rides, eo) refl in
          elim (Bool-cases (searching row)) [
            | inl e ↦ rw (committed row (some_online ∙ eb) (found ∙ rw e)) (accepted row eo e eb)
            | inr e ↦ rw (rolled_back (found ∙ rw e)) (refused (rw (eb, eo, e)))
          ]

-- A row that was found, and the row under the id that was changed, are one if the ids are equal.
module _ (r d j : ℤ) where
  ride_changed :
      (rows : List RideRow) (row : RideRow) (o : Option RideRow)
      → find_row ride_id r rows ≡ some row
      → searching row ≡ true
      → find_row ride_id j rows ≡ o
      → Option.map assignment_of
          (Option.map (λ x. if is_searching r x then accepted_by d x else x) o)
        ≡ (if int_eq j r
            then some (record { status = "accepted"; driver = some d })
            else Option.map assignment_of o)
  unfolding is_searching
  ride_changed rows row none found e h = ground (arith, int_eq_iff j r)
  ride_changed rows row (some x) found e h =
      ground (arith, int_eq_iff j r, find_row-id ride_id j rows h)

  driver_changed :
      (rows : List DriverRow) (o : Option DriverRow)
      → row_test online (find_row driver_id d rows) ≡ true
      → find_row driver_id j rows ≡ o
      → Option.map
          (λ x. x.status)
          (Option.map (λ x. if is_online d x then with_status "busy" x else x) o)
        ≡ (if int_eq j d
            then Option.map (λ _. "busy") (Option.map (λ x. x.status) o)
            else Option.map (λ x. x.status) o)
  unfolding is_online
  driver_changed rows none on h = ground arith
  driver_changed rows (some x) on h = ground (arith, int_eq_iff j d, find_row-id driver_id j rows h)

fleet_of-accepted_db :
    (r d : ℤ) (db : Database) (row : RideRow)
    → find_row ride_id r db.rides ≡ some row
    → searching row ≡ true
    → row_test online (find_row driver_id d db.drivers) ≡ true
    → fleet_of (accepted_db r d db) ≡ assign_ride r d (fleet_of db)
unfolding fleet_of
fleet_of-accepted_db r d db row found e on = λ i. record {
  ride = λ j.
      (ap (Option.map assignment_of)
            (find_row-update_where ride_id (is_searching r) (accepted_by d) j db.rides (λ x. refl))
          ∙ ride_changed r d j db.rides row _ found e refl)
        i;
  driver = λ j.
      (ap (Option.map (λ x. x.status)) (
            find_row-update_where driver_id (is_online d) (with_status "busy") j db.drivers
              (λ x. refl))
          ∙ driver_changed r d j db.drivers _ on refl)
        i;
}

accept_step_lem :
    (r d : ℤ) (db : Database)
    → accept_step r d (fleet_of db) ≡ (
        if row_test online (find_row driver_id d db.drivers)
          && row_test searching (find_row ride_id r db.rides)
        then (true, assign_ride r d (fleet_of db))
        else (false, fleet_of db))
unfolding accept_step fleet_of
accept_step_lem r d db =
    ap₂ (λ a b. if a && b then (true, assign_ride r d (fleet_of db)) else (false, fleet_of db))
      (driver_test "online" (find_row driver_id d db.drivers))
      (ride_test "searching" (find_row ride_id r db.rides))

Accepts-refines :
    (r d : ℤ) (db : Database) (o : Result (Option Ride) × Database)
    → Accepts r d db o
    → (is_success o.0, fleet_of o.1) ≡ accept_step r d (fleet_of db)
Accepts-refines r d db o (refused h) = rw (accept_step_lem r d db, h)
Accepts-refines r d db o (accepted row found e on) =
    rw (accept_step_lem r d db, on, found, e, fleet_of-accepted_db r d db row found e on)

-- AcceptRide, on tables whose ids fall, is one step of the abstract fleet: it returns a ride
-- exactly if the driver is online and the ride is searching, and then the ride is accepted by that
-- driver, the driver is busy, and no other ride or driver changes; otherwise no ride or driver
-- changes.
pub accept_ride-refines :
    (r d : ℤ) (db : Database)
    → HasFallingIds db
    → (is_success (accept_ride r d db).0, fleet_of (accept_ride r d db).1)
      ≡ accept_step r d (fleet_of db)
accept_ride-refines r d db ids = Accepts-refines r d db _ (accept_ride-Accepts r d db ids)
