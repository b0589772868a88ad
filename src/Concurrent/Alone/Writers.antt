-- ===== src/Concurrent/Alone/Writers.antt =====
-- The handlers that write, alone.
use taxi_lab.Base.{Option, none, some, String, ◌==◌}
use taxi_lab.Models.{User, Driver, Ride}
use taxi_lab.Http
use taxi_lab.Http.{Userver, HttpRequest, Moment}
use taxi_lab.Concurrent.Task.{with_db}
use taxi_lab.Concurrent.Writers.{
  user_created, users_create_steps, driver_created, drivers_create_steps, ride_created,
  rides_create_steps, ride_changed, rides_accept_steps, rides_complete_steps, logged_in,
  check_password_steps, storage_login_steps, auth_login_steps,
}
use taxi_lab.Handlers.AuthLogin.{auth_login, auth_login_reply}
use taxi_lab.Storage.{login, on_db, check_password, issue_token, get_user_by_login}
use taxi_lab.Concurrent.Alone.{
  Agrees-pure, Agrees-if_storage, Agrees-storage_bind, Agrees, agree_rules,
}
use taxi_lab.Handlers.UsersCreate.{users_create, users_create_reply}
use taxi_lab.Handlers.DriversCreate.{drivers_create, drivers_create_reply}
use taxi_lab.Handlers.RidesCreate.{rides_create, rides_create_reply}
use taxi_lab.Handlers.RidesAccept.{rides_accept, rides_accept_reply}
use taxi_lab.Handlers.RidesComplete.{rides_complete, rides_complete_reply}

check_password-Agrees :
    (password : String) (o : Option User)
    → Agrees (check_password_steps password o) (Http.with_storage (check_password password o))
unfolding check_password_steps
check_password-Agrees password none = Agrees-pure none
check_password-Agrees password (some user) =
    Agrees-if_storage (user.password == password) (issue_token user.id) none

storage_login-Agrees :
    (name password : String)
    → Agrees (storage_login_steps name password) (Http.with_storage (login name password))
unfolding storage_login_steps login with_db
storage_login-Agrees name password =
    Agrees-storage_bind (on_db (get_user_by_login name)) (check_password_steps password)
      (check_password password) (check_password-Agrees password)

module _ (lib : Userver) where
  user_created-Agrees : (o : Option User) → Agrees (user_created lib o) (users_create_reply lib o)
  unfolding user_created users_create_reply
  user_created-Agrees none = search agree_rules
  user_created-Agrees (some user) = search agree_rules

  pub users_create-Agrees :
      (moment : Moment) (request : HttpRequest)
      → Agrees (users_create_steps lib moment request) (users_create lib moment request)
  unfolding users_create_steps users_create with_db
  users_create-Agrees moment request = search (agree_rules, user_created-Agrees) depth 30

  driver_created-Agrees :
      (o : Option Driver) → Agrees (driver_created lib o) (drivers_create_reply lib o)
  unfolding driver_created drivers_create_reply
  driver_created-Agrees none = search agree_rules
  driver_created-Agrees (some driver) = search agree_rules

  pub drivers_create-Agrees :
      (request : HttpRequest)
      → Agrees (drivers_create_steps lib request) (drivers_create lib request)
  unfolding drivers_create_steps drivers_create with_db
  drivers_create-Agrees request = search (agree_rules, driver_created-Agrees) depth 30

  ride_created-Agrees : (o : Option Ride) → Agrees (ride_created lib o) (rides_create_reply lib o)
  unfolding ride_created rides_create_reply
  ride_created-Agrees none = search agree_rules
  ride_created-Agrees (some ride) = search agree_rules

  pub rides_create-Agrees :
      (moment : Moment) (request : HttpRequest)
      → Agrees (rides_create_steps lib moment request) (rides_create lib moment request)
  unfolding rides_create_steps rides_create with_db
  rides_create-Agrees moment request = search (agree_rules, ride_created-Agrees) depth 30

  rides_accept_reply-Agrees :
      (o : Option Ride)
      → Agrees (ride_changed lib "ride cannot be accepted" o) (rides_accept_reply lib o)
  unfolding ride_changed rides_accept_reply
  rides_accept_reply-Agrees none = search agree_rules
  rides_accept_reply-Agrees (some ride) = search agree_rules

  pub rides_accept-Agrees :
      (request : HttpRequest) → Agrees (rides_accept_steps lib request) (rides_accept lib request)
  unfolding rides_accept_steps rides_accept with_db
  rides_accept-Agrees request = search (agree_rules, rides_accept_reply-Agrees) depth 30

  rides_complete_reply-Agrees :
      (o : Option Ride)
      → Agrees (ride_changed lib "ride cannot be completed" o) (rides_complete_reply lib o)
  unfolding ride_changed rides_complete_reply
  rides_complete_reply-Agrees none = search agree_rules
  rides_complete_reply-Agrees (some ride) = search agree_rules

  pub rides_complete-Agrees :
      (moment : Moment) (request : HttpRequest)
      → Agrees (rides_complete_steps lib moment request) (rides_complete lib moment request)
  unfolding rides_complete_steps rides_complete with_db
  rides_complete-Agrees moment request = search (agree_rules, rides_complete_reply-Agrees) depth 30

  logged_in-Agrees : (o : Option String) → Agrees (logged_in lib o) (auth_login_reply lib o)
  unfolding logged_in auth_login_reply
  logged_in-Agrees none = search agree_rules
  logged_in-Agrees (some token) = search agree_rules

  pub auth_login-Agrees :
      (request : HttpRequest) → Agrees (auth_login_steps lib request) (auth_login lib request)
  unfolding auth_login_steps auth_login
  auth_login-Agrees request = search (agree_rules, storage_login-Agrees, logged_in-Agrees) depth 30
