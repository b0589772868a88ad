-- ===== src/Tests/Company.antt =====
-- A company with two users, a driver and a ride, built by the storage's own methods.
use taxi_lab.Base.{pos, refl, [], arith}
use taxi_lab.Database.Rows.{Database, empty_database}
use taxi_lab.Database.Tables.{count_where, find_row}
use taxi_lab.Database.Invariant.{WellFormed, IsBalanced}
use taxi_lab.Storage.{TaxiStorage, create_user, create_driver, create_ride, accept_ride}
use taxi_lab.Storage.WellFormed.{
  create_user-WellFormed, create_driver-WellFormed, create_ride-WellFormed, accept_ride-WellFormed,
}

balanced : IsBalanced empty_database
unfolding count_where find_row
balanced d = refl

pub empty_database-WellFormed : WellFormed empty_database
empty_database-WellFormed = record {
  ids = record {
    users = tt;
    drivers = tt;
    rides = tt;
    starts = (omega arith, omega arith, omega arith);
  };
  driven = tt;
  balance = balanced;
  logins = tt;
}

abbrev pub with_users : Database
with_users = (create_user 10 "bob" "pw2" "Bob" (create_user 5 "ann" "pw1" "Ann" empty_database).1).1

abbrev pub with_driver : Database
with_driver = (create_driver (pos 2) "Lada" "A1" "L1" with_users).1

abbrev pub requested : Database
requested = (create_ride 20 (pos 1) "A" "B" with_driver).1

abbrev pub under_way : Database
under_way = (accept_ride (pos 1) (pos 1) requested).1

pub requested-WellFormed : WellFormed requested
requested-WellFormed = create_ride-WellFormed 20 (pos 1) "A" "B" with_driver (
    create_driver-WellFormed (pos 2) "Lada" "A1" "L1" with_users (
      create_user-WellFormed 10 "bob" "pw2" "Bob" _
        (create_user-WellFormed 5 "ann" "pw1" "Ann" empty_database empty_database-WellFormed)))

pub under_way-WellFormed : WellFormed under_way
under_way-WellFormed = accept_ride-WellFormed (pos 1) (pos 1) requested requested-WellFormed

abbrev pub with_ann : Database
with_ann = (create_user 5 "ann" "pw1" "Ann" empty_database).1

pub with_ann-WellFormed : WellFormed with_ann
with_ann-WellFormed =
    create_user-WellFormed 5 "ann" "pw1" "Ann" empty_database empty_database-WellFormed

abbrev pub started : TaxiStorage
started = record { db = with_ann; next_token_id = pos 1; tokens = [] }
