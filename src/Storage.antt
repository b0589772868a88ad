-- ===== src/Storage.antt =====
-- storage/taxi_storage.cpp: the methods of TaxiStorage. A method that only uses the database is an
-- action on it; `now` is the transaction's NOW().
pub mod Masks
pub mod Parse
pub mod Fleet
pub mod WellFormed
pub mod Users
pub mod Logins
pub mod Taken
pub mod Tokens
pub mod Changes
pub mod Lists
use taxi_lab.Base.{
  ℤ, pos, negsuc, ℕ, suc, zero, Bool, true, false, Option, none, some, List, [], ◌∷◌, String, ◌+s◌,
  ◌==◌, not, nat_eq, if◌then◌else◌, Exception, unique_violation, foreign_key_violation, Result, ok,
  throws, Action, lift, ◌>>=◌, try_catch, find, assign, to_string,
}
use taxi_lab.Models.{User, Driver, Ride}
use taxi_lab.Database.Rows.{Database, Row}
use taxi_lab.Database.Users.{
  insert_user, select_user_by_id, select_user_by_login, find_users_by_mask,
}
use taxi_lab.Database.Drivers.{
  insert_driver, select_driver_by_id, select_driver_by_user_id, select_active_drivers,
  update_driver_status as update_driver_status_query,
}
use taxi_lab.Database.Rides.{
  insert_ride, select_ride_by_id, select_rides_by_user_id, select_active_rides, accept_ride_query,
  complete_ride_query,
}
use Parse.{parse_user, parse_driver, parse_ride, parse_first, parse_all}

-- Execute with a statement that only reads.
abbrev pub query : (Database → List Row) → Action Database (List Row)
query statement db = (ok (statement db), db)

abbrev pub is_unique_violation : Exception → Bool
is_unique_violation unique_violation = true
is_unique_violation _ = false

abbrev pub is_unique_or_foreign_key_violation : Exception → Bool
is_unique_or_foreign_key_violation unique_violation = true
is_unique_or_foreign_key_violation foreign_key_violation = true
is_unique_or_foreign_key_violation _ = false

abbrev pub is_foreign_key_violation : Exception → Bool
is_foreign_key_violation foreign_key_violation = true
is_foreign_key_violation _ = false

unfoldable pub create_user : ℕ → String → String → String → Action Database (Option User)
create_user now login password full_name =
    try_catch is_unique_violation none
      do res ← insert_user now login password full_name; lift (parse_first parse_user res)

unfoldable pub get_user_by_id : ℤ → Action Database (Option User)
get_user_by_id user_id = do
  res ← query (select_user_by_id user_id)
  lift (parse_first parse_user res)

unfoldable pub get_user_by_login : String → Action Database (Option User)
get_user_by_login login = do
  res ← query (select_user_by_login login)
  lift (parse_first parse_user res)

-- `lower` is SQL's, for the server's locale.
unfoldable pub find_users_by_name_mask : (String → String) → String → Action Database (List User)
find_users_by_name_mask lower name_mask = do
  res ← query (find_users_by_mask lower name_mask)
  lift (parse_all parse_user res)

unfoldable pub create_driver : ℤ → String → String → String → Action Database (Option Driver)
create_driver user_id car_model car_number license_number =
    try_catch is_unique_or_foreign_key_violation none do
      res ← insert_driver user_id car_model car_number license_number
      lift (parse_first parse_driver res)

unfoldable pub get_driver_by_id : ℤ → Action Database (Option Driver)
get_driver_by_id driver_id = do
  res ← query (select_driver_by_id driver_id)
  lift (parse_first parse_driver res)

unfoldable pub get_driver_by_user_id : ℤ → Action Database (Option Driver)
get_driver_by_user_id user_id = do
  res ← query (select_driver_by_user_id user_id)
  lift (parse_first parse_driver res)

unfoldable pub get_active_drivers : Action Database (List Driver)
get_active_drivers = do res ← query select_active_drivers; lift (parse_all parse_driver res)

unfoldable pub update_driver_status : ℤ → String → Action Database (Option Driver)
update_driver_status driver_id status = do
  res ← update_driver_status_query driver_id status
  lift (parse_first parse_driver res)

unfoldable pub create_ride : ℕ → ℤ → String → String → Action Database (Option Ride)
create_ride now passenger_id pickup_address destination_address =
    try_catch is_foreign_key_violation none do
      res ← insert_ride now passenger_id pickup_address destination_address
      lift (parse_first parse_ride res)

unfoldable pub get_ride_by_id : ℤ → Action Database (Option Ride)
get_ride_by_id ride_id = do
  res ← query (select_ride_by_id ride_id)
  lift (parse_first parse_ride res)

unfoldable pub get_rides_by_user_id : ℤ → Action Database (List Ride)
get_rides_by_user_id user_id = do
  res ← query (select_rides_by_user_id user_id)
  lift (parse_all parse_ride res)

unfoldable pub get_active_rides : Action Database (List Ride)
get_active_rides = do res ← query select_active_rides; lift (parse_all parse_ride res)

-- Commit: the transaction's work becomes the database. A throw leaves the transaction, which is
-- rolled back.
abbrev pub commit : Result Ride → Database → Database → Result (Option Ride) × Database
commit (ok ride) before working = (ok (some ride), working)
commit (throws e) before working = (throws e, before)

-- The body of a transaction that began in the state `before`: rolled back if nothing was returned.
abbrev pub in_transaction :
    Database → Result (List Row) × Database → Result (Option Ride) × Database
in_transaction before (throws e, working) = (throws e, before)
in_transaction before (ok [], working) = (ok none, before)
in_transaction before (ok (row ∷ rows), working) = commit (parse_ride row) before working

unfoldable pub accept_ride : ℤ → ℤ → Action Database (Option Ride)
accept_ride ride_id driver_id db =
    let (rows, working) = accept_ride_query ride_id driver_id db in
    in_transaction db (ok rows, working)

unfoldable pub complete_ride : ℕ → ℤ → Action Database (Option Ride)
complete_ride now ride_id db = in_transaction db (complete_ride_query now ride_id db)

-- The members of TaxiStorage; `tokens_` maps a token to its user.
pub record TaxiStorage : Type 0 where
  pub db : Database
  pub next_token_id : ℤ
  pub tokens : List (String × ℤ)

-- A method that uses the database alone.
abbrev pub on_db : {A : Type 0} → Action Database A → Action TaxiStorage A
on_db m s = let (r, db') = m s.db in (r, record s { db = db' })

unfoldable pub make_token : ℤ → ℤ → String
make_token user_id token_id = "token-" +s to_string user_id +s "-" +s to_string token_id

-- `n++` on an `int`, with the wrap-around of two's complement.
unfoldable pub next_int : ℤ → ℤ
next_int (pos n) = if nat_eq n 2147483647 then negsuc 2147483647 else pos (suc n)
next_int (negsuc zero) = pos 0
next_int (negsuc (suc n)) = negsuc n

-- The part of Login under the lock.
unfoldable pub issue_token : ℤ → Action TaxiStorage (Option String)
unfolding make_token next_int
issue_token user_id s =
    let token = make_token user_id s.next_token_id in
    (
      ok (some token),
      record s { next_token_id = next_int s.next_token_id; tokens = assign token user_id s.tokens },
    )

abbrev pub check_password : String → Option User → Action TaxiStorage (Option String)
check_password password none s = (ok none, s)
check_password password (some user) s =
    if user.password == password then issue_token user.id s else (ok none, s)

unfoldable pub login : String → String → Action TaxiStorage (Option String)
login name password = do user ← on_db (get_user_by_login name); check_password password user

abbrev pub is_found : Option ℤ → Bool
is_found none = false
is_found (some user_id) = true

-- `tokens_.find(token) != tokens_.end()`
unfoldable pub is_token_valid : String → TaxiStorage → Bool
is_token_valid token s = is_found (find token s.tokens)
