-- ===== src/Database/Inserts.antt =====
-- What the three INSERT statements can do.
use taxi_lab.Base.{
  ℤ, pos, ℕ, suc, ltb, ◌≡◌, ◌⊎◌, ◌≢◌, unique_violation, foreign_key_violation, refl, true, false,
  none, List, [], ◌∷◌, String, any, int_eq, Result, ok, throws, Exception, arith, Bool-cases, inl,
  inr, sequence_exhausted,
}
use taxi_lab.Database.Rows.{Database, UserRow, DriverRow, RideRow, Row, int_max, varchar}
use taxi_lab.Database.Users.{new_user, add_user, insert_user, user_columns, user_clashes}
use taxi_lab.Database.Drivers.{
  new_driver, add_driver, insert_driver, driver_columns, driver_clashes, user_exists,
}
use taxi_lab.Database.Rides.{new_ride, add_ride, insert_ride, ride_columns}

-- The row or the exception of a computed result.
pub Result-cases :
    {A : Type 0} (r : Result A) → ((e : Exception) × (r ≡ throws e)) ⊎ ((a : A) × (r ≡ ok a))
Result-cases (ok a) = inr (a, refl)
Result-cases (throws e) = inl (e, refl)

pub new_user-id :
    (id : ℤ) (now : ℕ) (login password full_name : String) (r : UserRow)
    → new_user id now login password full_name ≡ ok r
    → (r.id ≡ id)
unfolding new_user
new_user-id id now login password full_name r h = ground arith

pub new_driver-online :
    (id user_id : ℤ) (car_model car_number license_number : String) (r : DriverRow)
    → new_driver id user_id car_model car_number license_number ≡ ok r
    → (r.id ≡ id) × (r.user_id ≡ user_id) × (r.status ≡ "online")
unfolding new_driver
new_driver-online id user_id car_model car_number license_number r h = ground arith

pub new_ride-searching :
    (id : ℤ) (now : ℕ) (passenger_id : ℤ) (pickup_address destination_address : String)
    (r : RideRow)
    → new_ride id now passenger_id pickup_address destination_address ≡ ok r
    → (r.id ≡ id)
      × (r.passenger_id ≡ passenger_id)
      × (r.driver_id ≡ none)
      × (r.status ≡ "searching")
unfolding new_ride
new_ride-searching id now passenger_id pickup_address destination_address r h = ground arith

-- The database with one identity value used up.
abbrev pub used_user_id : Database → Database
used_user_id db = record db { next_user_id = suc db.next_user_id }

abbrev pub used_driver_id : Database → Database
used_driver_id db = record db { next_driver_id = suc db.next_driver_id }

abbrev pub used_ride_id : Database → Database
used_ride_id db = record db { next_ride_id = suc db.next_ride_id }

pub data InsertsUser (login : String) (db : Database) : Result (List Row) × Database → Type 0 where
  exhausted : InsertsUser login db (throws sequence_exhausted, db)
  refused :
      (e : Exception) → e ≢ unique_violation → InsertsUser login db (throws e, used_user_id db)
  clashes :
      (r : UserRow)
      → r.id ≡ pos db.next_user_id
      → varchar 100 login ≡ ok r.login
      → user_clashes r db.users ≡ true
      → InsertsUser login db (throws unique_violation, used_user_id db)
  inserted :
      (r : UserRow)
      → r.id ≡ pos db.next_user_id
      → varchar 100 login ≡ ok r.login
      → user_clashes r db.users ≡ false
      → InsertsUser login db
          (ok (user_columns r ∷ []), record (used_user_id db) { users = r ∷ db.users })

new_user-refused :
    (id : ℤ) (now : ℕ) (login password full_name : String) (e : Exception)
    → new_user id now login password full_name ≡ throws e
    → e ≢ unique_violation
unfolding new_user varchar
new_user-refused id now login password full_name e h = ground arith

new_user-login :
    (id : ℤ) (now : ℕ) (login password full_name : String) (r : UserRow)
    → new_user id now login password full_name ≡ ok r
    → varchar 100 login ≡ ok r.login
unfolding new_user
new_user-login id now login password full_name r h = ground arith

pub insert_user-InsertsUser :
    (now : ℕ) (login password full_name : String) (db : Database)
    → InsertsUser login db (insert_user now login password full_name db)
unfolding insert_user
insert_user-InsertsUser now login password full_name db =
    elim (Bool-cases (ltb int_max db.next_user_id)) [
      | inl e ↦ rw e exhausted
      | inr e ↦ rw e (formed (new_user (pos db.next_user_id) now login password full_name) refl)
    ]
  where
    formed :
        (f : Result UserRow)
        → new_user (pos db.next_user_id) now login password full_name ≡ f
        → InsertsUser login db (add_user f (used_user_id db))
    formed (throws e) h = refused e (new_user-refused _ now login password full_name e h)
    formed (ok r) h =
        let id = new_user-id _ now login password full_name r h in
        let same = new_user-login _ now login password full_name r h in
        elim (Bool-cases (user_clashes r db.users)) [
          | inl e ↦ rw (add_user, e) (clashes r id same e)
          | inr e ↦ rw (add_user, e) (inserted r id same e)
        ]

pub data InsertsDriver (user_id : ℤ) (db : Database) : Result (List Row) × Database → Type 0 where
  exhausted : InsertsDriver user_id db (throws sequence_exhausted, db)
  refused : (e : Exception) → InsertsDriver user_id db (throws e, used_driver_id db)
  inserted :
      (r : DriverRow)
      → r.id ≡ pos db.next_driver_id
      → r.user_id ≡ user_id
      → r.status ≡ "online"
      → driver_clashes r db.drivers ≡ false
      → user_exists user_id db.users ≡ true
      → InsertsDriver user_id db
          (ok (driver_columns r ∷ []), record (used_driver_id db) { drivers = r ∷ db.drivers })

pub insert_driver-InsertsDriver :
    (user_id : ℤ) (car_model car_number license_number : String) (db : Database)
    → InsertsDriver user_id db (insert_driver user_id car_model car_number license_number db)
unfolding insert_driver
insert_driver-InsertsDriver user_id car_model car_number license_number db =
    elim (Bool-cases (ltb int_max db.next_driver_id)) [
      | inl e ↦ rw e exhausted
      | inr e ↦ rw e (
          formed (new_driver (pos db.next_driver_id) user_id car_model car_number license_number)
            refl)
    ]
  where
    formed :
        (f : Result DriverRow)
        → new_driver (pos db.next_driver_id) user_id car_model car_number license_number ≡ f
        → InsertsDriver user_id db (add_driver f (used_driver_id db))
    formed (throws e) h = refused e
    formed (ok r) h =
        let (id, user, status) =
          new_driver-online _ user_id car_model car_number license_number r h in
        elim (Bool-cases (driver_clashes r db.drivers)) [
          | inl e ↦ rw (add_driver, e) (refused unique_violation)
          | inr e ↦ elim (Bool-cases (user_exists r.user_id db.users)) [
            | inl u ↦ rw (add_driver, e, u) (inserted r id user status e (rw (← user) u))
            | inr u ↦ rw (add_driver, e, u) (refused foreign_key_violation)
          ]
        ]

pub data InsertsRide (passenger_id : ℤ) (db : Database)
    : Result (List Row) × Database → Type 0 where
  exhausted : InsertsRide passenger_id db (throws sequence_exhausted, db)
  refused : (e : Exception) → InsertsRide passenger_id db (throws e, used_ride_id db)
  inserted :
      (r : RideRow)
      → r.id ≡ pos db.next_ride_id
      → r.passenger_id ≡ passenger_id
      → r.driver_id ≡ none
      → r.status ≡ "searching"
      → user_exists passenger_id db.users ≡ true
      → InsertsRide passenger_id db
          (ok (ride_columns r ∷ []), record (used_ride_id db) { rides = r ∷ db.rides })

pub insert_ride-InsertsRide :
    (now : ℕ) (passenger_id : ℤ) (pickup_address destination_address : String) (db : Database)
    → InsertsRide passenger_id db
        (insert_ride now passenger_id pickup_address destination_address db)
unfolding insert_ride
insert_ride-InsertsRide now passenger_id pickup_address destination_address db =
    elim (Bool-cases (ltb int_max db.next_ride_id)) [
      | inl e ↦ rw e exhausted
      | inr e ↦ rw e (
          formed
            (new_ride (pos db.next_ride_id) now passenger_id pickup_address destination_address)
            refl)
    ]
  where
    formed :
        (f : Result RideRow)
        → new_ride (pos db.next_ride_id) now passenger_id pickup_address destination_address ≡ f
        → InsertsRide passenger_id db (add_ride f (used_ride_id db))
    formed (throws e) h = refused e
    formed (ok r) h =
        let (id, passenger, driver, status) =
          new_ride-searching _ now passenger_id pickup_address destination_address r h in
        elim (Bool-cases (any (λ q. int_eq q.id r.id) db.rides)) [
          | inl e ↦ rw (add_ride, e) (refused unique_violation)
          | inr e ↦ elim (Bool-cases (user_exists r.passenger_id db.users)) [
            | inl u ↦
                rw (add_ride, e, u) (inserted r id passenger driver status (rw (← passenger) u))
            | inr u ↦ rw (add_ride, e, u) (refused foreign_key_violation)
          ]
        ]
