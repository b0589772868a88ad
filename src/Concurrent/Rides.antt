-- ===== src/Concurrent/Rides.antt =====
-- A ride that is no longer searching, while requests arrive and take turns in any order
-- (src/storage/taxi_storage.cpp).
use mathlib.Core.Option
use taxi_lab.Base.{◌≡◌, ◌≢◌, refl, sym, ap, ◌∙◌, subst, ℤ, ℕ, inl, List, Option, none, some, ok}
use taxi_lab.Models.{Ride}
use taxi_lab.Database.Rows.{Database, RideRow}
use taxi_lab.Database.Tables.{find_row, find_row-id}
use taxi_lab.Database.Invariant.{WellFormed, ride_id}
use taxi_lab.Storage.{
  TaxiStorage, issue_token, get_user_by_login, find_users_by_name_mask, get_rides_by_user_id,
  get_active_rides, get_ride_by_id, accept_ride, create_user, create_driver,
}
use taxi_lab.Storage.Changes.{create_user-ChangesUsers, create_driver-users}
use taxi_lab.Storage.Parse.{ride_of}
use taxi_lab.Storage.Taken.{
  IsLater, HasRide, get_ride_by_id_lem, accept_ride-HasRide, complete_ride-HasRide,
  create_ride-HasRide, accept_ride-none,
}
use taxi_lab.Storage.WellFormed.{
  create_user-WellFormed, create_driver-WellFormed, create_ride-WellFormed, accept_ride-WellFormed,
  complete_ride-WellFormed,
}
use taxi_lab.Http.{Userver, Server}
use taxi_lab.Service.Sound.{IsSound}
use taxi_lab.Concurrent.Everywhere.{HoldsOfWrites, HoldsOfReads}
use taxi_lab.Concurrent.Everywhere.Run.{Counts, run_events-keeps}
use taxi_lab.Concurrent.History.Run.{run_events-WellFormed}
use taxi_lab.Concurrent.World.{idle, Event, run_events}

module _ (ride : Ride) (taken : ride.status ≢ "searching") where
  abbrev HasTaken : ℕ → TaxiStorage → Type 0
  HasTaken n t = WellFormed t.db × HasRide ride t.db

  HasRide-rides : (db db' : Database) → db.rides ≡ db'.rides → HasRide ride db → HasRide ride db'
  HasRide-rides db db' same (row, found, later) =
      (row, subst (λ rides. find_row ride_id ride.id rides ≡ some row) same found, later)

  writes : HoldsOfWrites (Counts HasTaken)
  unfolding issue_token get_user_by_login
  writes = record {
    creates_user = λ now a b c n s h. (
      create_user-WellFormed now a b c s.storage.db h.0,
      HasRide-rides s.storage.db (create_user now a b c s.storage.db).1
          (create_user-ChangesUsers now a b c s.storage.db).0 h.1,
    );
    creates_driver = λ owner a b c n s h. (
      create_driver-WellFormed owner a b c s.storage.db h.0,
      HasRide-rides s.storage.db (create_driver owner a b c s.storage.db).1
          (create_driver-users owner a b c s.storage.db).1 h.1,
    );
    creates_ride = λ now passenger a b n s h. (
      create_ride-WellFormed now passenger a b s.storage.db h.0,
      create_ride-HasRide ride taken now passenger a b s.storage.db h.0 h.1,
    );
    accepts = λ r d n s h. (
      accept_ride-WellFormed r d s.storage.db h.0,
      accept_ride-HasRide ride taken r d s.storage.db h.0.ids h.1,
    );
    completes = λ now r n s h. (
      complete_ride-WellFormed now r s.storage.db h.0,
      complete_ride-HasRide ride taken now r s.storage.db h.0 h.1,
    );
    finds_user = λ other n s h. h;
    issues = λ owner n s h. h;
    invalidates = λ p n s h. h;
  }

  reads : HoldsOfReads (Counts HasTaken)
  unfolding get_user_by_login find_users_by_name_mask get_rides_by_user_id get_active_rides
  reads = record {
    finds_user = λ other n s h. h;
    finds_users = λ lower mask n s h. h;
    finds_rides = λ owner n s h. h;
    finds_active = λ n s h. h;
    gets = λ k now n s h. h;
    sets = λ k v ttl now n s h. h;
    checks = λ k limit window now n s h. h;
    looks = λ n s h. h;
  }

found_none : {ride : Ride} → ok none ≢ ok (some ride)
found_none h = cc

same_ride : {a b : Ride} → ok (some a) ≡ ok (some b) → a ≡ b
same_ride h = cc

-- GetRideById finds the row of the ride.
found-HasRide :
    (r : ℤ) (ride : Ride) (db : Database)
    → WellFormed db
    → (get_ride_by_id r db).0 ≡ ok (some ride)
    → (ride.id ≡ r) × HasRide ride db
found-HasRide r ride db w h = of (find_row ride_id r db.rides) refl
  where
    looked :
        (o : Option RideRow)
        → find_row ride_id r db.rides ≡ o
        → (get_ride_by_id r db).0 ≡ ok (Option.map ride_of o)
    looked o e = get_ride_by_id_lem r db w.ids ∙ ap (λ o. ok (Option.map ride_of o)) e

    of : (o : Option RideRow) → find_row ride_id r db.rides ≡ o → (ride.id ≡ r) × HasRide ride db
    of none e = absurd (found_none (sym (looked none e) ∙ h))
    of (some row) e =
        let id : row.id ≡ r = find_row-id ride_id r db.rides e in
        subst (λ x. (x.id ≡ r) × HasRide x db) (same_ride (sym (looked (some row) e) ∙ h))
          (
            id,
            (row, subst (λ j. find_row ride_id j db.rides ≡ some row) (sym id) e, (refl, inl refl)),
          )

HasRide-found :
    (ride : Ride) (db : Database)
    → WellFormed db
    → HasRide ride db
    → (later : Ride) × ((get_ride_by_id ride.id db).0 ≡ ok (some later)) × IsLater ride later
HasRide-found ride db w (row, found, later) = (
  ride_of row,
  get_ride_by_id_lem ride.id db w.ids ∙ ap (λ o. ok (Option.map ride_of o)) found,
  later,
)

-- From a sound server and for any order in which requests arrive and take turns, one access at a
-- time, once GetRideById finds a ride that is not searching, it finds after any further events the
-- same ride with the same passenger, driver and addresses, in the same status or completed, and
-- AcceptRide gives that ride to no driver.
pub run_events-get_ride_by_id :
    (lib : Userver) (before after : List Event) (start : Server) (r : ℤ) (ride : Ride)
    → IsSound lib start
    → (get_ride_by_id r (run_events lib before (idle start)).server.storage.db).0 ≡ ok (some ride)
    → ride.status ≢ "searching"
    → let db = (run_events lib after (run_events lib before (idle start))).server.storage.db in
      ((later : Ride) × ((get_ride_by_id r db).0 ≡ ok (some later)) × IsLater ride later)
      × ((d : ℤ) → (accept_ride r d db).0 ≡ ok none)
run_events-get_ride_by_id lib before after start r ride sound found taken =
    let world = run_events lib before (idle start) in
    let last = (run_events lib after world).server.storage.db in
    let w = run_events-WellFormed lib before start sound in
    let (same, has) = found-HasRide r ride world.server.storage.db w found in
    let (w', has') =
      run_events-keeps (HasTaken ride taken) (λ n t h. h) (writes ride taken) (reads ride taken) lib
        before after start 0 (w, has) in
    subst
      (λ j.
        ((later : Ride) × ((get_ride_by_id j last).0 ≡ ok (some later)) × IsLater ride later)
        × ((d : ℤ) → (accept_ride j d last).0 ≡ ok none))
      same (HasRide-found ride last w' has', λ d. accept_ride-none ride taken d last w'.ids has')
