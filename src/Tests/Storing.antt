-- ===== src/Tests/Storing.antt =====
-- TaxiStorage at concrete inputs.
use taxi_lab.Base.{
  int_le, pos, int_eq, find, store_varchar, is_blank, to_string, to_string_onto, print_onto,
  digit_char, ◌≡◌, ◌≢◌, ◌↔◌, refl, true, false, none, some, String, ◌==◌, ◌||◌, ◌&&◌, ltb, nat_eq,
  ok,
}
use taxi_lab.Models.{User}
use taxi_lab.Database.Rows.{varchar, int_column, string_column}
use taxi_lab.Database.Tables.{update_where}
use taxi_lab.Database.Users.{
  user_columns, new_user, user_clashes, add_user, insert_user, select_user_by_login,
}
use taxi_lab.Database.Drivers.{
  driver_columns, new_driver, driver_clashes, user_exists, add_driver, insert_driver,
}
use taxi_lab.Database.Rides.{
  ride_columns, new_ride, add_ride, insert_ride, is_online, is_searching, accept_ride_query,
}
use taxi_lab.Database.Invariant.{WellFormed}
use taxi_lab.Storage.{
  create_user, create_driver, create_ride, accept_ride, complete_ride, get_user_by_login, login,
  issue_token, make_token, is_token_valid,
}
use taxi_lab.Storage.Parse.{parse_first, parse_user, parse_driver, parse_ride}
use taxi_lab.Storage.Fleet.{is_success, fleet_of, accept_step, complete_step}
use taxi_lab.Storage.Fleet.Accept.{accept_ride-refines}
use taxi_lab.Storage.Fleet.Complete.{complete_ride-refines}
use taxi_lab.Storage.WellFormed.{
  create_user-WellFormed, create_driver-WellFormed, create_ride-WellFormed, accept_ride-WellFormed,
  complete_ride-WellFormed,
}
use taxi_lab.Storage.Users.{IsAdded, create_user-IsAdded, create_user-none}
use taxi_lab.Storage.Tokens.Issue.{HasOldTokens}
use taxi_lab.Storage.Tokens.Login.{login_iff, login-is_token_valid, login-none, login_fresh}
use taxi_lab.Storage.{get_rides_by_user_id, get_active_rides, get_active_drivers}
use taxi_lab.Storage.Parse.{user_of, ride_of, driver_of}
use text.Mathlib.TextBridge.{IsInfix}
use taxi_lab.Base.{Bool}
use taxi_lab.Database.Rows.{UserRow}
use taxi_lab.Storage.{find_users_by_name_mask}
use taxi_lab.Storage.Masks.{is_plain, is_plain_char}
use taxi_lab.Storage.Lists.{
  find_users_by_name_mask-Lists, Lists, get_rides_by_user_id-Lists, get_active_rides-Lists,
  get_active_drivers-Lists,
}
use taxi_lab.Tests.Company.{
  with_users, requested, under_way, requested-WellFormed, under_way-WellFormed, with_ann,
  with_ann-WellFormed, started,
}

-- The driver is online and the ride searching, so AcceptRide returns the ride.
requested_ride : is_success (accept_ride (pos 1) (pos 1) requested).0 ≡ true
unfolding create_user insert_user new_user varchar store_varchar is_blank user_clashes add_user
    user_columns int_eq find parse_first parse_user int_column string_column create_driver
    insert_driver new_driver driver_clashes user_exists add_driver driver_columns parse_driver
    create_ride insert_ride new_ride add_ride ride_columns parse_ride accept_ride accept_ride_query
    is_online is_searching update_where
requested_ride = refl

accept_ride-refines_example :
    (
      is_success (accept_ride (pos 1) (pos 1) requested).0,
      fleet_of (accept_ride (pos 1) (pos 1) requested).1,
    )
    ≡ accept_step (pos 1) (pos 1) (fleet_of requested)
accept_ride-refines_example = accept_ride-refines (pos 1) (pos 1) requested requested-WellFormed.ids

complete_ride-refines_example :
    (
      is_success (complete_ride 30 (pos 1) under_way).0,
      fleet_of (complete_ride 30 (pos 1) under_way).1,
    )
    ≡ complete_step (pos 1) (fleet_of under_way)
complete_ride-refines_example =
    complete_ride-refines 30 (pos 1) under_way under_way-WellFormed.ids under_way-WellFormed.driven

accept_ride-WellFormed_example : WellFormed (accept_ride (pos 1) (pos 1) requested).1
accept_ride-WellFormed_example =
    accept_ride-WellFormed (pos 1) (pos 1) requested requested-WellFormed

complete_ride-WellFormed_example : WellFormed (complete_ride 30 (pos 1) under_way).1
complete_ride-WellFormed_example =
    complete_ride-WellFormed 30 (pos 1) under_way under_way-WellFormed

create_ride-WellFormed_example : WellFormed (create_ride 40 (pos 2) "B" "C" under_way).1
create_ride-WellFormed_example =
    create_ride-WellFormed 40 (pos 2) "B" "C" under_way under_way-WellFormed

create_driver-WellFormed_example : WellFormed (create_driver (pos 1) "Volga" "A2" "L2" under_way).1
create_driver-WellFormed_example =
    create_driver-WellFormed (pos 1) "Volga" "A2" "L2" under_way under_way-WellFormed

create_user-WellFormed_example : WellFormed (create_user 40 "eve" "pw3" "Eve" under_way).1
create_user-WellFormed_example =
    create_user-WellFormed 40 "eve" "pw3" "Eve" under_way under_way-WellFormed

abbrev bob : User
bob = record { id = pos 2; login = "bob"; password = "pw2"; full_name = "Bob" }

abbrev ann : User
ann = record { id = pos 1; login = "ann"; password = "pw1"; full_name = "Ann" }

creates_bob : (create_user 10 "bob" "pw2" "Bob" with_ann).0 ≡ ok (some bob)
unfolding create_user insert_user new_user varchar store_varchar is_blank user_clashes add_user
    user_columns int_eq find parse_first parse_user int_column string_column
creates_bob = refl

create_user-IsAdded_example : IsAdded bob with_ann (create_user 10 "bob" "pw2" "Bob" with_ann).1
create_user-IsAdded_example =
    create_user-IsAdded 10 "bob" "pw2" "Bob" with_ann bob with_ann-WellFormed creates_bob

refuses_ann : (create_user 10 "ann" "pw2" "Bob" with_ann).0 ≡ ok none
unfolding create_user insert_user new_user varchar store_varchar is_blank user_clashes add_user
    user_columns int_eq find parse_first parse_user int_column string_column
refuses_ann = refl

create_user-none_example :
    (stored : String) × (varchar 100 "ann" ≡ ok stored)
    × ((get_user_by_login stored with_ann).0 ≢ ok none)
    × ((create_user 10 "ann" "pw2" "Bob" with_ann).1.users ≡ with_ann.users)
create_user-none_example =
    create_user-none 10 "ann" "pw2" "Bob" with_ann with_ann-WellFormed refuses_ann

abbrev started-HasOldTokens : HasOldTokens started
started-HasOldTokens = record { next = 1; counter = refl; old = tt }

logs_in : (login "ann" "pw1" started).0 ≡ ok (some "token-1-1")
unfolding login get_user_by_login select_user_by_login issue_token make_token to_string
    to_string_onto print_onto digit_char create_user insert_user new_user varchar store_varchar
    is_blank user_clashes add_user user_columns int_eq find parse_first parse_user int_column
    string_column
logs_in = refl

login_iff_example :
    ((token : String) × ((login "ann" "pw1" started).0 ≡ ok (some token)))
    ↔ ((u : User) × ((get_user_by_login "ann" started.db).0 ≡ ok (some u)) × (u.password ≡ "pw1"))
login_iff_example = login_iff "ann" "pw1" started

login-is_token_valid_example :
    ((login "ann" "pw1" started).1.db ≡ started.db)
    × ((other : String)
        → is_token_valid other (login "ann" "pw1" started).1
          ≡ ("token-1-1" == other || is_token_valid other started))
login-is_token_valid_example = login-is_token_valid "ann" "pw1" started "token-1-1" logs_in

wrong_password : (login "ann" "pw9" started).0 ≡ ok none
unfolding login get_user_by_login select_user_by_login create_user insert_user new_user varchar
    store_varchar is_blank user_clashes add_user user_columns int_eq find parse_first parse_user
    int_column string_column
wrong_password = refl

login-none_example : (login "ann" "pw9" started).1 ≡ started
login-none_example = login-none "ann" "pw9" started wrong_password

login_fresh_example : is_token_valid "token-1-1" started ≡ false
login_fresh_example = login_fresh "ann" "pw1" started "token-1-1" started-HasOldTokens logs_in

get_rides_by_user_id-Lists_example :
    Lists ride_of
      (λ r. int_eq r.passenger_id (pos 1))
      (λ a b.
        ltb b.created_at a.created_at || (nat_eq a.created_at b.created_at && int_le b.id a.id))
      under_way.rides
      (get_rides_by_user_id (pos 1) under_way).0
get_rides_by_user_id-Lists_example = get_rides_by_user_id-Lists (pos 1) under_way

get_active_rides-Lists_example :
    Lists ride_of
      (λ r. r.status == "searching" || r.status == "accepted")
      (λ a b. int_le a.id b.id)
      under_way.rides
      (get_active_rides under_way).0
get_active_rides-Lists_example = get_active_rides-Lists under_way

get_active_drivers-Lists_example :
    Lists driver_of
      (λ r. r.status == "online")
      (λ a b. int_le a.id b.id)
      requested.drivers
      (get_active_drivers requested).0
get_active_drivers-Lists_example = get_active_drivers-Lists requested

-- The users whose names have an "n" in them: Ann.
find_users_by_name_mask-Lists_example :
    (has : UserRow → Bool) × (((r : UserRow) → (has r ≡ true) ↔ IsInfix "n" r.full_name)
      × Lists user_of has
          (λ a b. int_le a.id b.id)
          with_users.users
          (find_users_by_name_mask (λ s. s) "n" with_users).0)
unfolding is_plain is_plain_char
find_users_by_name_mask-Lists_example = find_users_by_name_mask-Lists (λ s. s) "n" with_users refl
