-- ===== src/Storage/WellFormed/Inserts.antt =====
-- CreateUser, CreateDriver and CreateRide, and the invariant of the database.
use taxi_lab.Base.{
  ℤ, pos, ℕ, int_eq, int_eq_iff, ◌≡◌, refl, sym, subst, ap, ◌∙◌, Bool, true, ◌||◌, none, List, [],
  ◌∷◌, String, ◌==◌, any, Result, ok, throws, Exception, lift, proceed, recover, arith, Bool-cases,
  inl, inr, if◌then◌else◌,
}
use taxi_lab.Database.Rows.{Database, UserRow, DriverRow, RideRow, Row}
use taxi_lab.Database.Tables.{
  Falls-mono, count_where, find_row, find_row_above, row_test, any-id_above,
}
use taxi_lab.Database.Users.{insert_user, user_clashes}
use taxi_lab.Database.Drivers.{insert_driver}
use taxi_lab.Database.Rides.{insert_ride}
use taxi_lab.Database.Inserts.{
  InsertsUser, InsertsDriver, InsertsRide, insert_user-InsertsUser, insert_driver-InsertsDriver,
  insert_ride-InsertsRide, used_user_id,
}
use taxi_lab.Database.Invariant.{WellFormed, drives, is_busy, user_id, driver_id, ride_id}
use taxi_lab.Storage.{
  create_user, create_driver, create_ride, is_unique_violation, is_unique_or_foreign_key_violation,
  is_foreign_key_violation,
}
use taxi_lab.Storage.Parse.{parse_first, parse_user, parse_driver, parse_ride}

-- `try { Execute; Parse } catch` leaves the state that Execute left.
pub state_of_try :
    {S A B : Type 0} (caught : Exception → Bool) (b : B) (o : Result A × S) (f : A → Result B)
    → (recover caught b (proceed o (λ a. lift (f a)))).1 ≡ o.1
state_of_try caught b (ok a, s) f = ground arith
state_of_try caught b (throws e, s) f = ground arith

any-or :
    {A : Type 0} (p q : A → Bool) (rows : List A)
    → any (λ r. p r || q r) rows ≡ (any p rows || any q rows)
any-or p q [] = refl
any-or p q (r ∷ rows) = ground (arith, any-or p q rows)

used_user_id-WellFormed : (db : Database) → WellFormed db → WellFormed (used_user_id db)
used_user_id-WellFormed db w = record {
  ids = record {
    users = Falls-mono user_id _ _ db.users (omega arith) w.ids.users;
    drivers = w.ids.drivers;
    rides = w.ids.rides;
    starts = omega arith;
  };
  driven = w.driven;
  balance = w.balance;
  logins = w.logins;
}

searching-ne-accepted : ("searching" == "accepted") ≡ true → ⊥
searching-ne-accepted h = cc

-- The new driver is not busy, and no driver had its id.
new_driver_free :
    (r : DriverRow) (db : Database) (d : ℤ)
    → WellFormed db
    → r.id ≡ pos db.next_driver_id
    → r.status ≡ "online"
    → row_test is_busy (find_row driver_id d (r ∷ db.drivers))
      ≡ row_test is_busy (find_row driver_id d db.drivers)
unfolding find_row
new_driver_free r db d w id s =
    let free = find_row_above driver_id r.id _ db.drivers w.ids.drivers (rw id (omega arith)) in
    elim (Bool-cases (int_eq r.id d)) [
      | inl e ↦ rw e (
          rw (ap (λ t. t == "busy") s) (
            sym (
              ap (row_test is_busy) (
                subst (λ k. find_row driver_id k db.drivers ≡ none) ((int_eq_iff r.id d).0 e)
                  free))))
      | inr e ↦ rw e
    ]

new_ride_counts :
    (r : RideRow) (db : Database) (d : ℤ)
    → r.status ≡ "searching"
    → count_where (drives d) (r ∷ db.rides) ≡ count_where (drives d) db.rides
unfolding count_where
new_ride_counts r db d s = rw (ap (λ t. t == "accepted") s) (omega arith)

-- A row with a new id clashes by its login alone.
pub user_clashes-login :
    (r : UserRow) (db : Database)
    → WellFormed db
    → r.id ≡ pos db.next_user_id
    → user_clashes r db.users ≡ any (λ q. q.login == r.login) db.users
unfolding user_clashes
user_clashes-login r db w e =
    any-or (λ q. int_eq q.id r.id) (λ q. q.login == r.login) db.users
    ∙ ap (λ b. b || any (λ q. q.login == r.login) db.users)
        (any-id_above user_id r.id _ db.users w.ids.users (rw e (omega arith)))

InsertsUser-WellFormed :
    (login : String) (db : Database) (o : Result (List Row) × Database)
    → InsertsUser login db o
    → WellFormed db
    → WellFormed o.1
InsertsUser-WellFormed login db o InsertsUser.exhausted w = w
InsertsUser-WellFormed login db o (InsertsUser.refused e ne) w = used_user_id-WellFormed db w
InsertsUser-WellFormed login db o (InsertsUser.clashes r id s c) w = used_user_id-WellFormed db w
InsertsUser-WellFormed login db o (InsertsUser.inserted r id s c) w = record {
  ids = record {
    users = (rw id (omega arith), rw id (omega arith), rw id w.ids.users);
    drivers = w.ids.drivers;
    rides = w.ids.rides;
    starts = omega arith;
  };
  driven = w.driven;
  balance = w.balance;
  logins = (sym (user_clashes-login r db w id) ∙ c, w.logins);
}

InsertsDriver-WellFormed :
    (user : ℤ) (db : Database) (o : Result (List Row) × Database)
    → InsertsDriver user db o
    → WellFormed db
    → WellFormed o.1
InsertsDriver-WellFormed user db o InsertsDriver.exhausted w = w
InsertsDriver-WellFormed user db o (InsertsDriver.refused e) w = record {
  ids = record {
    users = w.ids.users;
    drivers = Falls-mono driver_id _ _ db.drivers (omega arith) w.ids.drivers;
    rides = w.ids.rides;
    starts = omega arith;
  };
  driven = w.driven;
  balance = w.balance;
  logins = w.logins;
}
InsertsDriver-WellFormed user db o (InsertsDriver.inserted r id u s c x) w = record {
  ids = record {
    users = w.ids.users;
    drivers = (rw id (omega arith), rw id (omega arith), rw id w.ids.drivers);
    rides = w.ids.rides;
    starts = omega arith;
  };
  driven = w.driven;
  balance = λ d. w.balance d ∙ ap (λ b. if b then 1 else 0) (sym (new_driver_free r db d w id s));
  logins = w.logins;
}

InsertsRide-WellFormed :
    (passenger : ℤ) (db : Database) (o : Result (List Row) × Database)
    → InsertsRide passenger db o
    → WellFormed db
    → WellFormed o.1
InsertsRide-WellFormed passenger db o InsertsRide.exhausted w = w
InsertsRide-WellFormed passenger db o (InsertsRide.refused e) w = record {
  ids = record {
    users = w.ids.users;
    drivers = w.ids.drivers;
    rides = Falls-mono ride_id _ _ db.rides (omega arith) w.ids.rides;
    starts = omega arith;
  };
  driven = w.driven;
  balance = w.balance;
  logins = w.logins;
}
InsertsRide-WellFormed passenger db o (InsertsRide.inserted r id p n s x) w = record {
  ids = record {
    users = w.ids.users;
    drivers = w.ids.drivers;
    rides = (rw id (omega arith), rw id (omega arith), rw id w.ids.rides);
    starts = omega arith;
  };
  driven =
      ((λ k. absurd (searching-ne-accepted (sym (ap (λ t. t == "accepted") s) ∙ k))), w.driven);
  balance = λ d. new_ride_counts r db d s ∙ w.balance d;
  logins = w.logins;
}

-- CreateUser keeps a well-formed database well-formed, whatever it returns or throws.
pub create_user-WellFormed :
    (now : ℕ) (login password full_name : String) (db : Database)
    → WellFormed db
    → WellFormed (create_user now login password full_name db).1
unfolding create_user
create_user-WellFormed now login password full_name db w =
    rw
      (state_of_try is_unique_violation none (insert_user now login password full_name db)
        (parse_first parse_user))
      (InsertsUser-WellFormed login db _ (insert_user-InsertsUser now login password full_name db)
        w)

-- CreateDriver keeps a well-formed database well-formed, whatever it returns or throws.
pub create_driver-WellFormed :
    (user : ℤ) (car_model car_number license_number : String) (db : Database)
    → WellFormed db
    → WellFormed (create_driver user car_model car_number license_number db).1
unfolding create_driver
create_driver-WellFormed user car_model car_number license_number db w =
    rw
      (state_of_try is_unique_or_foreign_key_violation none
        (insert_driver user car_model car_number license_number db) (parse_first parse_driver))
      (InsertsDriver-WellFormed user db _
        (insert_driver-InsertsDriver user car_model car_number license_number db) w)

-- CreateRide keeps a well-formed database well-formed, whatever it returns or throws.
pub create_ride-WellFormed :
    (now : ℕ) (passenger : ℤ) (pickup destination : String) (db : Database)
    → WellFormed db
    → WellFormed (create_ride now passenger pickup destination db).1
unfolding create_ride
create_ride-WellFormed now passenger pickup destination db w =
    rw
      (state_of_try is_foreign_key_violation none (insert_ride now passenger pickup destination db)
        (parse_first parse_ride))
      (InsertsRide-WellFormed passenger db _
        (insert_ride-InsertsRide now passenger pickup destination db) w)
