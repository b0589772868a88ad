-- ===== src/Storage/Fleet.antt =====
-- AcceptRide and CompleteRide against an abstract fleet, which knows of a ride its status and its
-- driver, and of a driver its status.
mod Views
pub mod Accept
pub mod Complete
use taxi_lab.Base.{
  ℤ, pos, int_eq, Bool, true, false, Option, none, some, String, ◌==◌, if◌then◌else◌, ◌&&◌, Result,
  ok, throws,
}
use taxi_lab.Models.{Ride}
use mathlib.Core.Option
use taxi_lab.Database.Rows.{Database, DriverRow, RideRow}
use taxi_lab.Database.Tables.{find_row}
use taxi_lab.Database.Invariant.{driver_id, ride_id}

pub record Assignment : Type 0 where
  pub status : String
  pub driver : Option ℤ

pub record Fleet : Type 0 where
  pub ride : ℤ → Option Assignment
  pub driver : ℤ → Option String

abbrev pub assignment_of : RideRow → Assignment
assignment_of r = record { status = r.status; driver = r.driver_id }

-- What the abstract fleet knows of a database.
unfoldable pub fleet_of : Database → Fleet
fleet_of db = record {
  ride = λ j. Option.map assignment_of (find_row ride_id j db.rides);
  driver = λ j. Option.map (λ r. r.status) (find_row driver_id j db.drivers);
}

abbrev pub ride_has_status : String → Option Assignment → Bool
ride_has_status s none = false
ride_has_status s (some a) = a.status == s

abbrev pub driver_has_status : String → Option String → Bool
driver_has_status s none = false
driver_has_status s (some t) = t == s

-- A driver's new status; a driver that is not there stays so.
abbrev pub with_driver_status : ℤ → String → Fleet → ℤ → Option String
with_driver_status d s f j = if int_eq j d then Option.map (λ _. s) (f.driver j) else f.driver j

abbrev pub assign_ride : ℤ → ℤ → Fleet → Fleet
assign_ride ride_id driver_id f = record {
  ride = λ j.
      if int_eq j ride_id
      then some (record { status = "accepted"; driver = some driver_id })
      else f.ride j;
  driver = with_driver_status driver_id "busy" f;
}

abbrev pub finish_ride : ℤ → ℤ → Fleet → Fleet
finish_ride ride_id driver_id f = record {
  ride = λ j.
      if int_eq j ride_id
      then some (record { status = "completed"; driver = some driver_id })
      else f.ride j;
  driver = with_driver_status driver_id "online" f;
}

-- AcceptRide and CompleteRide as steps of the fleet: whether a ride was changed, and the fleet after.
unfoldable pub accept_step : ℤ → ℤ → Fleet → Bool × Fleet
accept_step ride_id driver_id f =
    if driver_has_status "online" (f.driver driver_id)
      && ride_has_status "searching" (f.ride ride_id)
    then (true, assign_ride ride_id driver_id f)
    else (false, f)

abbrev pub finish_with : Option Assignment → ℤ → Fleet → Bool × Fleet
finish_with none ride_id f = (false, f)
finish_with (some a) ride_id f = elim a.driver [
  | none ↦ (false, f)
  | some d ↦ if a.status == "accepted" then (true, finish_ride ride_id d f) else (false, f)
]

unfoldable pub complete_step : ℤ → Fleet → Bool × Fleet
complete_step ride_id f = finish_with (f.ride ride_id) ride_id f

-- Whether a method returned a ride.
abbrev pub is_success : Result (Option Ride) → Bool
is_success (ok (some ride)) = true
is_success (ok none) = false
is_success (throws e) = false
