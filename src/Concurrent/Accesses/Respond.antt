-- ===== src/Concurrent/Accesses/Respond.antt =====
-- How often a request accesses the server.
use taxi_lab.Base.{ℕ, Option, none, some, String}
use taxi_lab.Models.{User, Driver, Ride}
use taxi_lab.Performance.Limiter.{RateLimitResult}
use taxi_lab.Http.{Userver, HttpRequest, Moment, new_response}
use taxi_lab.Middlewares.Auth.{is_public_request, lacks_bearer}
use taxi_lab.Service.{
  Route, post_users, get_users, post_auth_login, post_drivers, post_rides, get_rides,
  patch_rides_accept, patch_rides_complete, Call,
}
use taxi_lab.Concurrent.Task.{then_task, Steps, ◌>>=◌, with_db, set_response}
use taxi_lab.Concurrent.Writers.{
  user_created, users_create_steps, driver_created, drivers_create_steps, ride_created,
  rides_create_steps, ride_changed, rides_accept_steps, rides_complete_steps, logged_in,
  check_password_steps, storage_login_steps, auth_login_steps,
}
use taxi_lab.Concurrent.Readers.{
  cached_or, rate_limit_headers, user_found, login_steps, mask_steps, users_get_steps,
  history_steps, active_steps, limited_steps, rides_get_query_steps, rides_get_steps, reject_steps,
  handle_request_steps,
}
use taxi_lab.Concurrent.Requests.{serve_steps, respond_steps}
use taxi_lab.Concurrent.Accesses.{
  Within, Makes, access_rules, more, Makes-bind, Makes-if, Makes-with_storage_bind,
}

check_password-Makes :
    (password : String) (o : Option User) → Makes 1 (check_password_steps password o)
unfolding check_password_steps
check_password-Makes password none = search access_rules
check_password-Makes password (some user) = search access_rules

storage_login-Makes : (name password : String) → Makes 2 (storage_login_steps name password)
unfolding storage_login_steps with_db
storage_login-Makes name password = search (access_rules, check_password-Makes)

reject-Makes : (n : ℕ) (message : String) → Makes n (reject_steps message)
reject-Makes n message = search access_rules depth 10

module _ (lib : Userver) where
  user_created-Makes : (o : Option User) → Makes 3 (user_created lib o)
  unfolding user_created
  user_created-Makes none = search access_rules depth 10
  user_created-Makes (some user) = search access_rules depth 10

  driver_created-Makes : (o : Option Driver) → Makes 3 (driver_created lib o)
  unfolding driver_created
  driver_created-Makes none = search access_rules depth 10
  driver_created-Makes (some driver) = search access_rules depth 10

  ride_created-Makes : (o : Option Ride) → Makes 3 (ride_created lib o)
  unfolding ride_created
  ride_created-Makes none = search access_rules depth 10
  ride_created-Makes (some ride) = search access_rules depth 10

  ride_changed-Makes : (message : String) (o : Option Ride) → Makes 3 (ride_changed lib message o)
  unfolding ride_changed
  ride_changed-Makes message none = search access_rules depth 10
  ride_changed-Makes message (some ride) = search access_rules depth 10

  users_create-Makes :
      (moment : Moment) (request : HttpRequest) → Makes 4 (users_create_steps lib moment request)
  unfolding users_create_steps with_db
  users_create-Makes moment request = search (access_rules, user_created-Makes) depth 30

  drivers_create-Makes : (request : HttpRequest) → Makes 4 (drivers_create_steps lib request)
  unfolding drivers_create_steps with_db
  drivers_create-Makes request = search (access_rules, driver_created-Makes) depth 30

  rides_create-Makes :
      (moment : Moment) (request : HttpRequest) → Makes 4 (rides_create_steps lib moment request)
  unfolding rides_create_steps with_db
  rides_create-Makes moment request = search (access_rules, ride_created-Makes) depth 30

  rides_accept-Makes : (request : HttpRequest) → Makes 4 (rides_accept_steps lib request)
  unfolding rides_accept_steps with_db
  rides_accept-Makes request = search (access_rules, ride_changed-Makes) depth 30

  rides_complete-Makes :
      (moment : Moment) (request : HttpRequest) → Makes 4 (rides_complete_steps lib moment request)
  unfolding rides_complete_steps with_db
  rides_complete-Makes moment request = search (access_rules, ride_changed-Makes) depth 30

  logged_in-Makes : (o : Option String) → Makes 2 (logged_in lib o)
  unfolding logged_in
  logged_in-Makes none = search access_rules depth 10
  logged_in-Makes (some token) = search access_rules depth 10

  answer_login-Makes :
      (name password : String) → Makes 4 (storage_login_steps name password >>= logged_in lib)
  answer_login-Makes name password =
      Makes-bind 2 2 _ _ (storage_login-Makes name password) logged_in-Makes

  auth_login-Makes : (request : HttpRequest) → Makes 4 (auth_login_steps lib request)
  unfolding auth_login_steps
  auth_login-Makes request = search (access_rules, answer_login-Makes) depth 30

  user_found-Makes :
      (moment : Moment) (login : String) (o : Option User) → Makes 1 (user_found lib moment login o)
  unfolding user_found
  user_found-Makes moment login none = search access_rules
  user_found-Makes moment login (some user) = search access_rules

  login-Makes : (moment : Moment) (login : String) → Makes 2 (login_steps lib moment login)
  unfolding login_steps with_db
  login-Makes moment login = search (access_rules, user_found-Makes) depth 10

  mask-Makes : (moment : Moment) (mask : String) → Makes 2 (mask_steps lib moment mask)
  unfolding mask_steps with_db
  mask-Makes moment mask = search access_rules depth 10

  cached_or-Makes :
      (n : ℕ) (m : Steps String) (o : Option String) → Makes n m → Makes n (cached_or m o)
  unfolding cached_or
  cached_or-Makes n m none p = p
  cached_or-Makes n m (some body) p = search access_rules

  users_get-Makes :
      (moment : Moment) (request : HttpRequest) → Makes 3 (users_get_steps lib moment request)
  unfolding users_get_steps
  users_get-Makes moment request =
      search (access_rules, cached_or-Makes, login-Makes, mask-Makes) depth 20

  history-Makes : (moment : Moment) (id : String) → Makes 3 (history_steps lib moment id)
  unfolding history_steps with_db
  history-Makes moment id = search access_rules depth 10

  active-Makes : (moment : Moment) → Makes 2 (active_steps lib moment)
  unfolding active_steps with_db
  active-Makes moment = search access_rules depth 10

  rate_limit_bind-Makes :
      (n : ℕ) (result : RateLimitResult) (f : Unit {0} → Steps String)
      → Makes n (f tt)
      → Makes n (rate_limit_headers result >>= f)
  unfolding rate_limit_headers ◌>>=◌ set_response then_task
  rate_limit_bind-Makes n result f h = record { within = λ r. h.within _ }

  rides_get-Makes :
      (moment : Moment) (request : HttpRequest) → Makes 4 (rides_get_steps lib moment request)
  unfolding rides_get_steps rides_get_query_steps limited_steps
  rides_get-Makes moment request =
      search (access_rules, cached_or-Makes, history-Makes, active-Makes, rate_limit_bind-Makes)
        depth 40

  serve-Makes :
      (route : Route) (moment : Moment) (request : HttpRequest)
      → Makes 4 (serve_steps lib route moment request)
  unfolding serve_steps
  serve-Makes post_users moment request = users_create-Makes moment request
  serve-Makes get_users moment request = more 3 _ (users_get-Makes moment request)
  serve-Makes post_auth_login moment request = auth_login-Makes request
  serve-Makes post_drivers moment request = drivers_create-Makes request
  serve-Makes post_rides moment request = rides_create-Makes moment request
  serve-Makes get_rides moment request = rides_get-Makes moment request
  serve-Makes patch_rides_accept moment request = rides_accept-Makes request
  serve-Makes patch_rides_complete moment request = rides_complete-Makes moment request

  handle_request-Makes :
      (next : Steps String) (request : HttpRequest)
      → Makes 4 next
      → Makes 5 (handle_request_steps next request)
  unfolding handle_request_steps
  handle_request-Makes next request h = Makes-if 5 (is_public_request request) _ _ (more 4 next h) (
      Makes-if 5 (lacks_bearer (request.header "Authorization")) _ _
        (reject-Makes 5 "{\"error\":\"missing or invalid Authorization header\"}")
        (Makes-with_storage_bind 4 _
          (λ invalid. Makes-if 4 invalid _ _ (reject-Makes 4 "{\"error\":\"invalid token\"}") h) _))

  -- Every request ends after at most five accesses to the server, whatever they find there.
  pub respond-Within : (call : Call) → Within 5 (respond_steps lib call)
  unfolding respond_steps
  respond-Within call =
      (handle_request-Makes _ call.request (serve-Makes call.route call.moment call.request)).within
        new_response
