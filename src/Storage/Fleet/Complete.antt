-- ===== src/Storage/Fleet/Complete.antt =====
-- CompleteRide against the abstract step.
use taxi_lab.Base.{
  ℤ, ℕ, int_eq, int_eq_iff, ◌≡◌, refl, ap, ◌∙◌, Bool, true, false, Option, none, some, List, [],
  ◌∷◌, ◌==◌, if◌then◌else◌, select, Result, ok, arith, Bool-cases, inl, inr,
}
use mathlib.Core.Option
use taxi_lab.Models.{Ride}
use taxi_lab.Database.Rows.{Database, DriverRow, RideRow}
use taxi_lab.Database.Tables.{
  find_row, row_list, row_test, update_where, select-find_row, find_row-update_where, find_row-id,
  find_row-All,
}
use taxi_lab.Database.Drivers.{with_status}
use taxi_lab.Database.Rides.{
  complete_ride_query, is_accepted, driver_is, completed_at_time, coalesce_zero, scalar_driver,
}
use taxi_lab.Database.Invariant.{HasFallingIds, HasDrivenRides, IsDriven, driver_id, ride_id}
use taxi_lab.Storage.{complete_ride}
use taxi_lab.Storage.Parse.{ride_of, parse_ride-columns}
use taxi_lab.Storage.Fleet.{
  Fleet, fleet_of, is_success, complete_step, finish_with, finish_ride, assignment_of,
}

abbrev pub under_way : RideRow → Bool
under_way r = r.status == "accepted"

-- The database after a committed CompleteRide of a ride of driver `d`.
abbrev pub completed_db : ℕ → ℤ → ℤ → Database → Database
completed_db now r d db = record db {
  drivers = update_where (driver_is (some d)) (with_status "online") db.drivers;
  rides = update_where (is_accepted r) (completed_at_time now) db.rides;
}

-- What CompleteRide does: nothing, or one ride and its driver change.
pub data Completes (now : ℕ) (r : ℤ) (db : Database)
    : Result (Option Ride) × Database → Type 0 where
  refused :
      row_test under_way (find_row ride_id r db.rides) ≡ false → Completes now r db (ok none, db)
  completed :
      (row : RideRow) (d : ℤ)
      → find_row ride_id r db.rides ≡ some row
      → under_way row ≡ true
      → row.driver_id ≡ some d
      → Completes now r db
          (ok (some (ride_of (completed_at_time now row))), completed_db now r d db)

module _ (now : ℕ) (r : ℤ) (db : Database) (ids : HasFallingIds db)
    (driven : HasDrivenRides db) where
  accepted_rides :
      (o : Option RideRow)
      → find_row ride_id r db.rides ≡ o
      → select (is_accepted r) db.rides ≡ row_list under_way o
  unfolding is_accepted
  accepted_rides o h =
      select-find_row ride_id under_way r _ db.rides ids.rides ∙ ap (row_list under_way) h

  rolled_back : select (is_accepted r) db.rides ≡ [] → complete_ride now r db ≡ (ok none, db)
  unfolding complete_ride complete_ride_query scalar_driver
  rolled_back h = rw h refl

  committed :
      (row : RideRow) (d : ℤ)
      → select (is_accepted r) db.rides ≡ row ∷ []
      → row.driver_id ≡ some d
      → complete_ride now r db
        ≡ (ok (some (ride_of (completed_at_time now row))), completed_db now r d db)
  unfolding complete_ride complete_ride_query scalar_driver
  committed row d h e = rw (h, parse_ride-columns) (ap outcome (ap coalesce_zero e))
    where
      outcome : ℤ → Result (Option Ride) × Database
      outcome k = (ok (some (ride_of (completed_at_time now row))), completed_db now r k db)

  pub complete_ride-Completes : Completes now r db (complete_ride now r db)
  complete_ride-Completes = decide (find_row ride_id r db.rides) refl
    where
      with_driver :
          (row : RideRow) (o : Option ℤ)
          → find_row ride_id r db.rides ≡ some row
          → under_way row ≡ true
          → row.driver_id ≡ o
          → Completes now r db (complete_ride now r db)
      with_driver row none found e h =
          absurd (find_row-All ride_id IsDriven r db.rides driven found e h)
      with_driver row (some d) found e h =
          rw (committed row d (accepted_rides (some row) found ∙ rw e) h)
            (completed row d found e h)

      decide :
          (o : Option RideRow)
          → find_row ride_id r db.rides ≡ o
          → Completes now r db (complete_ride now r db)
      decide none h = rw (rolled_back (accepted_rides none h)) (refused (rw h))
      decide (some row) h = elim (Bool-cases (under_way row)) [
        | inl e ↦ with_driver row row.driver_id h e refl
        | inr e ↦ rw (rolled_back (accepted_rides (some row) h ∙ rw e)) (refused (rw (h, e)))
      ]

-- A row that was found, and the row under the id that was changed, are one if the ids are equal.
module _ (now : ℕ) (r d j : ℤ) where
  ride_changed :
      (rows : List RideRow) (row : RideRow) (o : Option RideRow)
      → find_row ride_id r rows ≡ some row
      → under_way row ≡ true
      → row.driver_id ≡ some d
      → find_row ride_id j rows ≡ o
      → Option.map assignment_of
          (Option.map (λ x. if is_accepted r x then completed_at_time now x else x) o)
        ≡ (if int_eq j r
            then some (record { status = "completed"; driver = some d })
            else Option.map assignment_of o)
  unfolding is_accepted
  ride_changed rows row none found e k h = ground (arith, int_eq_iff j r)
  ride_changed rows row (some x) found e k h =
      ground (arith, int_eq_iff j r, find_row-id ride_id j rows h)

  driver_changed :
      (rows : List DriverRow) (o : Option DriverRow)
      → find_row driver_id j rows ≡ o
      → Option.map
          (λ x. x.status)
          (Option.map (λ x. if driver_is (some d) x then with_status "online" x else x) o)
        ≡ (if int_eq j d
            then Option.map (λ _. "online") (Option.map (λ x. x.status) o)
            else Option.map (λ x. x.status) o)
  driver_changed rows none h = ground arith
  driver_changed rows (some x) h = ground (arith, find_row-id driver_id j rows h)

fleet_of-completed_db :
    (now : ℕ) (r d : ℤ) (db : Database) (row : RideRow)
    → find_row ride_id r db.rides ≡ some row
    → under_way row ≡ true
    → row.driver_id ≡ some d
    → fleet_of (completed_db now r d db) ≡ finish_ride r d (fleet_of db)
unfolding fleet_of
fleet_of-completed_db now r d db row found e k = λ i. record {
  ride = λ j.
      (ap (Option.map assignment_of) (
            find_row-update_where ride_id (is_accepted r) (completed_at_time now) j db.rides
              (λ x. refl))
          ∙ ride_changed now r d j db.rides row _ found e k refl)
        i;
  driver = λ j.
      (ap (Option.map (λ x. x.status)) (
            find_row-update_where driver_id (driver_is (some d)) (with_status "online") j db.drivers
              (λ x. refl))
          ∙ driver_changed now r d j db.drivers _ refl)
        i;
}

-- The abstract step, by the row that is found.
abbrev found_step : ℤ → Database → Option RideRow → Bool × Fleet
found_step r db none = (false, fleet_of db)
found_step r db (some row) = elim row.driver_id [
  | none ↦ (false, fleet_of db)
  | some d ↦ if under_way row then (true, finish_ride r d (fleet_of db)) else (false, fleet_of db)
]

complete_step_lem :
    (r : ℤ) (db : Database)
    → complete_step r (fleet_of db) ≡ found_step r db (find_row ride_id r db.rides)
unfolding complete_step fleet_of
complete_step_lem r db = by_row (find_row ride_id r db.rides)
  where
    by_row :
        (o : Option RideRow)
        → finish_with (Option.map assignment_of o) r (fleet_of db) ≡ found_step r db o
    by_row none = refl
    by_row (some row) = refl

Completes-refines :
    (now : ℕ) (r : ℤ) (db : Database) (o : Result (Option Ride) × Database)
    → Completes now r db o
    → (is_success o.0, fleet_of o.1) ≡ complete_step r (fleet_of db)
Completes-refines now r db o (refused h) = rw (complete_step_lem r db) (ground arith)
Completes-refines now r db o (completed row d found e k) =
    rw (complete_step_lem r db, found, fleet_of-completed_db now r d db row found e k)
      (ground arith)

-- CompleteRide, on tables whose ids fall and where accepted rides have a driver, is one step of the
-- abstract fleet: it returns a ride exactly if the ride is accepted, and then the ride is completed
-- and keeps its driver, that driver is online, and no other ride or driver changes; otherwise no
-- ride or driver changes.
pub complete_ride-refines :
    (now : ℕ) (r : ℤ) (db : Database)
    → HasFallingIds db
    → HasDrivenRides db
    → (is_success (complete_ride now r db).0, fleet_of (complete_ride now r db).1)
      ≡ complete_step r (fleet_of db)
complete_ride-refines now r db ids driven =
    Completes-refines now r db _ (complete_ride-Completes now r db ids driven)
