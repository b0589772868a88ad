-- ===== src/Concurrent/Everywhere/Writers.antt =====
-- The handlers that write: each of their accesses.
use taxi_lab.Base.{Option, none, some, String}
use taxi_lab.Models.{User, Driver, Ride}
use taxi_lab.Http.{Userver, HttpRequest, Moment, Server}
use taxi_lab.Concurrent.Writers.{
  user_created, users_create_steps, driver_created, drivers_create_steps, ride_created,
  rides_create_steps, ride_changed, rides_accept_steps, rides_complete_steps, logged_in,
  check_password_steps, storage_login_steps, auth_login_steps,
}
use taxi_lab.Concurrent.Everywhere.{Does, HoldsOfWrites, does_rules}

module _ (Q : (Server → Server) → Type 0) (writes : HoldsOfWrites Q) (lib : Userver) where
  user_created-Does : (o : Option User) → Does Q (user_created lib o)
  unfolding user_created
  user_created-Does none = search does_rules depth 10
  user_created-Does (some user) = search (does_rules, writes.invalidates) depth 10

  driver_created-Does : (o : Option Driver) → Does Q (driver_created lib o)
  unfolding driver_created
  driver_created-Does none = search does_rules depth 10
  driver_created-Does (some driver) = search (does_rules, writes.invalidates) depth 10

  ride_created-Does : (o : Option Ride) → Does Q (ride_created lib o)
  unfolding ride_created
  ride_created-Does none = search does_rules depth 10
  ride_created-Does (some ride) = search (does_rules, writes.invalidates) depth 10

  ride_changed-Does : (message : String) (o : Option Ride) → Does Q (ride_changed lib message o)
  unfolding ride_changed
  ride_changed-Does message none = search does_rules depth 10
  ride_changed-Does message (some ride) = search (does_rules, writes.invalidates) depth 10

  logged_in-Does : (o : Option String) → Does Q (logged_in lib o)
  unfolding logged_in
  logged_in-Does none = search does_rules depth 10
  logged_in-Does (some token) = search does_rules depth 10

  check_password-Does :
      (password : String) (o : Option User) → Does Q (check_password_steps password o)
  unfolding check_password_steps
  check_password-Does password none = search does_rules
  check_password-Does password (some user) = search (does_rules, writes.issues) depth 10

  storage_login-Does : (name password : String) → Does Q (storage_login_steps name password)
  unfolding storage_login_steps
  storage_login-Does name password =
      search (does_rules, writes.finds_user, check_password-Does) depth 40

  pub users_create-Does :
      (moment : Moment) (request : HttpRequest) → Does Q (users_create_steps lib moment request)
  unfolding users_create_steps
  users_create-Does moment request =
      search (does_rules, writes.creates_user, user_created-Does) depth 40

  pub drivers_create-Does : (request : HttpRequest) → Does Q (drivers_create_steps lib request)
  unfolding drivers_create_steps
  drivers_create-Does request =
      search (does_rules, writes.creates_driver, driver_created-Does) depth 40

  pub rides_create-Does :
      (moment : Moment) (request : HttpRequest) → Does Q (rides_create_steps lib moment request)
  unfolding rides_create_steps
  rides_create-Does moment request =
      search (does_rules, writes.creates_ride, ride_created-Does) depth 40

  pub rides_accept-Does : (request : HttpRequest) → Does Q (rides_accept_steps lib request)
  unfolding rides_accept_steps
  rides_accept-Does request = search (does_rules, writes.accepts, ride_changed-Does) depth 40

  pub rides_complete-Does :
      (moment : Moment) (request : HttpRequest) → Does Q (rides_complete_steps lib moment request)
  unfolding rides_complete_steps
  rides_complete-Does moment request =
      search (does_rules, writes.completes, ride_changed-Does) depth 40

  pub auth_login-Does : (request : HttpRequest) → Does Q (auth_login_steps lib request)
  unfolding auth_login_steps
  auth_login-Does request = search (does_rules, storage_login-Does, logged_in-Does) depth 40
