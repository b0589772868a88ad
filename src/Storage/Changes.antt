-- ===== src/Storage/Changes.antt =====
-- Which tables a method of TaxiStorage may change, and when.
use taxi_lab.Base.{
  ℤ, ℕ, ◌≡◌, refl, ◌⊎◌, inl, inr, Option, none, some, List, [], ◌∷◌, String, Result, ok, throws,
  Bool, true, false, if◌then◌else◌, select, Exception, lift, proceed, recover,
}
use taxi_lab.Models.{User, Driver, Ride}
use taxi_lab.Database.Rows.{Database, Row, RideRow}
use taxi_lab.Database.Users.{insert_user}
use taxi_lab.Database.Drivers.{insert_driver, driver_columns}
use taxi_lab.Database.Rides.{
  insert_ride, accept_ride_query, complete_ride_query, complete_with, scalar_driver, is_accepted,
}
use taxi_lab.Database.Inserts.{
  InsertsUser, insert_user-InsertsUser, used_driver_id, InsertsDriver, insert_driver-InsertsDriver,
  InsertsRide, insert_ride-InsertsRide,
}
use taxi_lab.Storage.{
  create_user, create_driver, create_ride, accept_ride, complete_ride, in_transaction, commit,
  is_unique_violation, is_unique_or_foreign_key_violation, is_foreign_key_violation,
}
use taxi_lab.Storage.Parse.{
  parse_first, parse_user, parse_driver, parse_ride, parse_user-columns, parse_ride-columns,
  user_of, ride_of,
}

abbrev pub Returns : {A : Type 0} → Result (Option A) → Type 0
Returns {A = A} r = (a : A) × (r ≡ ok (some a))

-- A method on users: the rides stay, and so do the users unless one is returned.
abbrev pub ChangesUsers : Database → Result (Option User) × Database → Type 0
ChangesUsers db o = (db.rides ≡ o.1.rides) × (Returns o.0 ⊎ (db.users ≡ o.1.users))

-- A method on rides: the users stay, and so do the rides unless one is returned.
abbrev pub ChangesRides : Database → Result (Option Ride) × Database → Type 0
ChangesRides db o = (db.users ≡ o.1.users) × (Returns o.0 ⊎ (db.rides ≡ o.1.rides))

-- What a `catch` makes of a throw.
recovered :
    {A : Type 0} (P : Result (Option A) × Database → Type 0) (caught : Exception → Bool)
    (e : Exception) (db : Database)
    → P (ok none, db)
    → P (throws e, db)
    → P (recover caught none (throws e, db))
recovered {A = A} P caught e db a b = of (caught e)
  where
    of : (t : Bool) → P (if t then (ok none, db) else (throws e, db))
    of true = a
    of false = b

pub create_user-ChangesUsers :
    (now : ℕ) (login password full_name : String) (db : Database)
    → ChangesUsers db (create_user now login password full_name db)
unfolding create_user parse_first
create_user-ChangesUsers now login password full_name db =
    of (insert_user now login password full_name db)
      (insert_user-InsertsUser now login password full_name db)
  where
    of :
        (o : Result (List Row) × Database)
        → InsertsUser login db o
        → ChangesUsers db (
            recover is_unique_violation none
              (proceed o (λ rows. lift (parse_first parse_user rows))))
    of o InsertsUser.exhausted = (refl, inr refl)
    of o (InsertsUser.refused e ne) =
        recovered (ChangesUsers db) is_unique_violation e _ (refl, inr refl) (refl, inr refl)
    of o (InsertsUser.clashes r id fits c) = (refl, inr refl)
    of o (InsertsUser.inserted r id fits c) =
        rw (parse_user-columns r) (refl, inl (user_of r, refl))

-- CreateDriver leaves users and rides alone.
pub create_driver-users :
    (user_id : ℤ) (car_model car_number license_number : String) (db : Database)
    → let db' = (create_driver user_id car_model car_number license_number db).1 in
      (db.users ≡ db'.users) × (db.rides ≡ db'.rides)
unfolding create_driver parse_first
create_driver-users user_id car_model car_number license_number db =
    of (insert_driver user_id car_model car_number license_number db)
      (insert_driver-InsertsDriver user_id car_model car_number license_number db)
  where
    Same : Result (Option Driver) × Database → Type 0
    Same o = (db.users ≡ o.1.users) × (db.rides ≡ o.1.rides)

    kept :
        (r : Result (List Row)) (db' : Database)
        → (db.users ≡ db'.users) × (db.rides ≡ db'.rides)
        → Same (
            recover is_unique_or_foreign_key_violation none
              (proceed (r, db') (λ rows. lift (parse_first parse_driver rows))))
    kept (throws e) db' h = recovered Same is_unique_or_foreign_key_violation e db' h h
    kept (ok rows) db' h = parsed (parse_first parse_driver rows)
      where
        parsed :
            (r : Result (Option Driver))
            → Same (recover is_unique_or_foreign_key_violation none (r, db'))
        parsed (ok d) = h
        parsed (throws e) = recovered Same is_unique_or_foreign_key_violation e db' h h

    of :
        (o : Result (List Row) × Database)
        → InsertsDriver user_id db o
        → Same (
            recover is_unique_or_foreign_key_violation none
              (proceed o (λ rows. lift (parse_first parse_driver rows))))
    of o InsertsDriver.exhausted = (refl, refl)
    of o (InsertsDriver.refused e) = kept (throws e) (used_driver_id db) (refl, refl)
    of o (InsertsDriver.inserted r a b c d e) =
        kept (ok (driver_columns r ∷ [])) (record (used_driver_id db) { drivers = r ∷ db.drivers })
          (refl, refl)

pub create_ride-ChangesRides :
    (now : ℕ) (passenger_id : ℤ) (pickup destination : String) (db : Database)
    → ChangesRides db (create_ride now passenger_id pickup destination db)
unfolding create_ride parse_first
create_ride-ChangesRides now passenger_id pickup destination db =
    of (insert_ride now passenger_id pickup destination db)
      (insert_ride-InsertsRide now passenger_id pickup destination db)
  where
    of :
        (o : Result (List Row) × Database)
        → InsertsRide passenger_id db o
        → ChangesRides db (
            recover is_foreign_key_violation none
              (proceed o (λ rows. lift (parse_first parse_ride rows))))
    of o InsertsRide.exhausted = (refl, inr refl)
    of o (InsertsRide.refused e) =
        recovered (ChangesRides db) is_foreign_key_violation e _ (refl, inr refl) (refl, inr refl)
    of o (InsertsRide.inserted r a b c d e) =
        rw (parse_ride-columns r) (refl, inl (ride_of r, refl))

-- A transaction returns a ride, or is rolled back.
transaction-ChangesRides :
    (before working : Database) (r : Result (List Row))
    → before.users ≡ working.users
    → ChangesRides before (in_transaction before (r, working))
transaction-ChangesRides before working (throws e) h = (refl, inr refl)
transaction-ChangesRides before working (ok []) h = (refl, inr refl)
transaction-ChangesRides before working (ok (row ∷ rows)) h = committed (parse_ride row)
  where
    committed : (r : Result Ride) → ChangesRides before (commit r before working)
    committed (throws e) = (refl, inr refl)
    committed (ok ride) = (h, inl (ride, refl))

pub accept_ride-ChangesRides :
    (ride_id driver_id : ℤ) (db : Database) → ChangesRides db (accept_ride ride_id driver_id db)
unfolding accept_ride accept_ride_query
accept_ride-ChangesRides ride_id driver_id db =
    transaction-ChangesRides db (accept_ride_query ride_id driver_id db).1
      (ok (accept_ride_query ride_id driver_id db).0) refl

pub complete_ride-ChangesRides :
    (now : ℕ) (ride_id : ℤ) (db : Database) → ChangesRides db (complete_ride now ride_id db)
unfolding complete_ride complete_ride_query complete_with
complete_ride-ChangesRides now ride_id db = of (scalar_driver rows)
  where
    rows : List RideRow
    rows = select (is_accepted ride_id) db.rides

    of :
        (d : Result (Option ℤ))
        → ChangesRides db (in_transaction db (complete_with now ride_id rows d db))
    of (throws e) = transaction-ChangesRides db db (throws e) refl
    of (ok d) =
        transaction-ChangesRides db (complete_with now ride_id rows (ok d) db).1
          (complete_with now ride_id rows (ok d) db).0 refl
