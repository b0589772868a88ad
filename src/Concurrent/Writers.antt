-- ===== src/Concurrent/Writers.antt =====
-- The handlers that write, as tasks: src/handlers/*_create.cpp, auth_login.cpp, rides_accept.cpp and
-- rides_complete.cpp with each access to the server on its own.
use taxi_lab.Base.{
  ◌==◌, ◌||◌, Option, none, some, [], ◌∷◌, String, is_empty, is_nonpositive, if◌then◌else◌, stoi,
}
use taxi_lab.Models.{User, Driver, Ride}
use taxi_lab.Http.{
  created, bad_request, conflict, unauthorized, HttpRequest, object, text, Userver, Moment,
}
use taxi_lab.Performance.Cache.{invalidate_prefix}
use taxi_lab.Storage.{
  create_user, get_user_by_login, issue_token, create_driver, create_ride, accept_ride,
  complete_ride,
}
use taxi_lab.Handlers.UsersCreate.{user_object}
use taxi_lab.Handlers.DriversCreate.{driver_object}
use taxi_lab.Handlers.RidesCreate.{ride_object}
use taxi_lab.Concurrent.Task.{
  Steps, ◌>>=◌, ◌>>◌, pure, lift, with_storage, with_db, with_cache, set_status, set_content_type,
  refuse,
}

-- TaxiStorage::Login reads the user before it takes the lock (src/storage/taxi_storage.cpp).
unfoldable pub check_password_steps : String → Option User → Steps (Option String)
check_password_steps password none = pure none
check_password_steps password (some user) =
    if user.password == password then with_storage (issue_token user.id) else pure none

unfoldable pub storage_login_steps : String → String → Steps (Option String)
unfolding check_password_steps
storage_login_steps name password = do
  user ← with_db (get_user_by_login name)
  check_password_steps password user

module _ (lib : Userver) where
  unfoldable pub user_created : Option User → Steps String
  user_created none = refuse lib conflict "user already exists"
  user_created (some user) = do
    with_cache (λ c. (tt, invalidate_prefix "users:" c))
    set_status created
    pure (lib.print (object (user_object user)))

  unfoldable pub users_create_steps : Moment → HttpRequest → Steps String
  users_create_steps moment request = do
    set_content_type "application/json"
    json ← lift (lib.from_string request.body)
    login ← lift (lib.string_member json "login")
    password ← lift (lib.string_member json "password")
    full_name ← lift (lib.string_member json "full_name")
    if is_empty login || is_empty password || is_empty full_name
        then refuse lib bad_request "login, password and full_name are required"
        else do user ← with_db (create_user moment.now login password full_name); user_created user

  unfoldable pub driver_created : Option Driver → Steps String
  driver_created none = refuse lib conflict "driver cannot be created"
  driver_created (some driver) = do
    with_cache (λ c. (tt, invalidate_prefix "drivers:" c))
    set_status created
    pure (lib.print (object (driver_object driver)))

  unfoldable pub drivers_create_steps : HttpRequest → Steps String
  drivers_create_steps request = do
    set_content_type "application/json"
    json ← lift (lib.from_string request.body)
    user_id ← lift (lib.int_member json "user_id")
    car_model ← lift (lib.string_member json "car_model")
    car_number ← lift (lib.string_member json "car_number")
    license_number ← lift (lib.string_member json "license_number")
    if is_nonpositive user_id
          || is_empty car_model
          || is_empty car_number
          || is_empty license_number
        then refuse lib bad_request "user_id, car_model, car_number and license_number are required"
        else do
          driver ← with_db (create_driver user_id car_model car_number license_number)
          driver_created driver

  unfoldable pub ride_created : Option Ride → Steps String
  ride_created none = refuse lib conflict "ride cannot be created"
  ride_created (some ride) = do
    with_cache (λ c. (tt, invalidate_prefix "rides:" c))
    set_status created
    pure (lib.print (object (ride_object ride)))

  unfoldable pub rides_create_steps : Moment → HttpRequest → Steps String
  rides_create_steps moment request = do
    set_content_type "application/json"
    json ← lift (lib.from_string request.body)
    passenger_id ← lift (lib.int_member json "passenger_id")
    pickup_address ← lift (lib.string_member json "pickup_address")
    destination_address ← lift (lib.string_member json "destination_address")
    if is_nonpositive passenger_id || is_empty pickup_address || is_empty destination_address
        then refuse lib bad_request
            "passenger_id, pickup_address and destination_address are required"
        else do
          ride ← with_db (create_ride moment.now passenger_id pickup_address destination_address)
          ride_created ride

  -- The part of rides_accept.cpp and rides_complete.cpp behind the storage's answer.
  unfoldable pub ride_changed : String → Option Ride → Steps String
  ride_changed message none = refuse lib conflict message
  ride_changed message (some ride) = do
    with_cache (λ c. (tt, invalidate_prefix "rides:" c))
    pure (lib.print (object (ride_object ride)))

  unfoldable pub rides_accept_steps : HttpRequest → Steps String
  rides_accept_steps request = do
    set_content_type "application/json"
    json ← lift (lib.from_string request.body)
    driver_id ← lift (lib.int_member json "driver_id")
    if is_empty (request.path_arg "id")
        then refuse lib bad_request "ride id is required in path"
        else do
          ride_id ← lift (stoi (request.path_arg "id"))
          if is_nonpositive driver_id then refuse lib bad_request "driver_id is required" else do
            ride ← with_db (accept_ride ride_id driver_id)
            ride_changed "ride cannot be accepted" ride

  unfoldable pub rides_complete_steps : Moment → HttpRequest → Steps String
  rides_complete_steps moment request = do
    set_content_type "application/json"
    if is_empty (request.path_arg "id")
        then refuse lib bad_request "ride id is required in path"
        else do
          ride_id ← lift (stoi (request.path_arg "id"))
          ride ← with_db (complete_ride moment.now ride_id)
          ride_changed "ride cannot be completed" ride

  unfoldable pub logged_in : Option String → Steps String
  logged_in none = refuse lib unauthorized "invalid credentials"
  logged_in (some token) = pure (lib.print (object (("token", text token) ∷ [])))

  unfoldable pub auth_login_steps : HttpRequest → Steps String
  auth_login_steps request = do
    set_content_type "application/json"
    json ← lift (lib.from_string request.body)
    name ← lift (lib.string_member json "login")
    password ← lift (lib.string_member json "password")
    if is_empty name || is_empty password
        then refuse lib bad_request "login and password are required"
        else do token ← storage_login_steps name password; logged_in token
