-- ===== src/Concurrent/Everywhere/Readers.antt =====
-- The handlers that read, the middleware and every request: each of their accesses.
use taxi_lab.Base.{Option, none, some, String, not}
use taxi_lab.Models.{User}
use taxi_lab.Performance.Limiter.{RateLimitResult}
use taxi_lab.Http.{Userver, HttpRequest, Moment, Server, new_response}
use taxi_lab.Middlewares.Auth.{is_public_request, lacks_bearer}
use taxi_lab.Service.{
  Route, post_users, get_users, post_auth_login, post_drivers, post_rides, get_rides,
  patch_rides_accept, patch_rides_complete, Call,
}
use taxi_lab.Concurrent.Task.{Steps}
use taxi_lab.Concurrent.Readers.{
  cached_or, rate_limit_headers, user_found, login_steps, mask_steps, users_get_steps,
  history_steps, active_steps, limited_steps, rides_get_query_steps, rides_get_steps, reject_steps,
  handle_request_steps,
}
use taxi_lab.Concurrent.Requests.{serve_steps, respond_steps}
use taxi_lab.Concurrent.Everywhere.{
  Everywhere, Does, HoldsOfWrites, HoldsOfReads, Does-if, Does-bind, Does-with_storage, does_rules,
}
use taxi_lab.Concurrent.Everywhere.Writers.{
  users_create-Does, drivers_create-Does, rides_create-Does, rides_accept-Does, rides_complete-Does,
  auth_login-Does,
}

module _ (Q : (Server → Server) → Type 0) (reads : HoldsOfReads Q) (lib : Userver) where
  user_found-Does :
      (moment : Moment) (login : String) (o : Option User) → Does Q (user_found lib moment login o)
  unfolding user_found
  user_found-Does moment login none = search does_rules depth 10
  user_found-Does moment login (some user) = search (does_rules, reads.sets) depth 10

  cached_or-Does : (m : Steps String) (o : Option String) → Does Q m → Does Q (cached_or m o)
  unfolding cached_or
  cached_or-Does m none h = h
  cached_or-Does m (some body) h = search does_rules depth 10

  login-Does : (moment : Moment) (login : String) → Does Q (login_steps lib moment login)
  unfolding login_steps
  login-Does moment login = search (does_rules, reads.finds_user, user_found-Does) depth 40

  mask-Does : (moment : Moment) (mask : String) → Does Q (mask_steps lib moment mask)
  unfolding mask_steps
  mask-Does moment mask = search (does_rules, reads.finds_users, reads.sets) depth 40

  users_get-Does :
      (moment : Moment) (request : HttpRequest) → Does Q (users_get_steps lib moment request)
  unfolding users_get_steps
  users_get-Does moment request =
      search (does_rules, reads.gets, cached_or-Does, login-Does, mask-Does) depth 40

  history-Does : (moment : Moment) (id : String) → Does Q (history_steps lib moment id)
  unfolding history_steps
  history-Does moment id = search (does_rules, reads.finds_rides, reads.sets) depth 40

  active-Does : (moment : Moment) → Does Q (active_steps lib moment)
  unfolding active_steps
  active-Does moment = search (does_rules, reads.finds_active, reads.sets) depth 40

  rate_limit_headers-Does : (result : RateLimitResult) → Does Q (rate_limit_headers result)
  unfolding rate_limit_headers
  rate_limit_headers-Does result = search does_rules depth 10

  limited-Does :
      (result : RateLimitResult) (m : Steps String) → Does Q m → Does Q (limited_steps lib result m)
  unfolding limited_steps
  limited-Does result m h = Does-if Q (not result.allowed) _ m (search does_rules depth 10) h

  rides_get-Does :
      (moment : Moment) (request : HttpRequest) → Does Q (rides_get_steps lib moment request)
  unfolding rides_get_steps rides_get_query_steps
  rides_get-Does moment request =
      search
        (
          does_rules, reads.checks, reads.gets, cached_or-Does, history-Does, active-Does,
          limited-Does, rate_limit_headers-Does,
        )
        depth 40

  reject-Does : (message : String) → Does Q (reject_steps message)
  reject-Does message = search does_rules depth 10

  handle_request-Does :
      (next : Steps String) (request : HttpRequest)
      → Does Q next
      → Does Q (handle_request_steps next request)
  unfolding handle_request_steps
  handle_request-Does next request h = Does-if Q (is_public_request request) _ _ h (
      Does-if Q (lacks_bearer (request.header "Authorization")) _ _
        (reject-Does "{\"error\":\"missing or invalid Authorization header\"}")
        (Does-bind Q _ _ (Does-with_storage Q _ reads.looks)
          (λ invalid. Does-if Q invalid _ _ (reject-Does "{\"error\":\"invalid token\"}") h)))

  module _ (writes : HoldsOfWrites Q) where
    serve-Does :
        (route : Route) (moment : Moment) (request : HttpRequest)
        → Does Q (serve_steps lib route moment request)
    unfolding serve_steps
    serve-Does post_users moment request = users_create-Does Q writes lib moment request
    serve-Does get_users moment request = users_get-Does moment request
    serve-Does post_auth_login moment request = auth_login-Does Q writes lib request
    serve-Does post_drivers moment request = drivers_create-Does Q writes lib request
    serve-Does post_rides moment request = rides_create-Does Q writes lib moment request
    serve-Does get_rides moment request = rides_get-Does moment request
    serve-Does patch_rides_accept moment request = rides_accept-Does Q writes lib request
    serve-Does patch_rides_complete moment request = rides_complete-Does Q writes lib moment request

    pub respond-Everywhere : (call : Call) → Everywhere Q (respond_steps lib call)
    unfolding respond_steps
    respond-Everywhere call =
        (handle_request-Does _ call.request
            (serve-Does call.route call.moment call.request)).everywhere
          new_response
