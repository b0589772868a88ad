-- ===== src/Concurrent/Readers.antt =====
-- The handlers that read, as tasks (src/handlers/users_get.cpp, rides_get.cpp), and the middleware
-- before every handler (src/middlewares/auth_middleware.cpp).
use taxi_lab.Base.{
  not, ◌&&◌, bool_eq, ◌==◌, Option, none, some, String, is_empty, if◌then◌else◌, stoi, to_string,
  pos, ok,
}
use taxi_lab.Models.{User}
use taxi_lab.Http.{
  bad_request, not_found, too_many_requests, unauthorized, HttpRequest, Userver, Moment,
}
use taxi_lab.Performance.Cache.{get, set, seconds}
use taxi_lab.Performance.Limiter.{RateLimitResult, check}
use taxi_lab.Storage.{
  get_user_by_login, find_users_by_name_mask, get_rides_by_user_id, get_active_rides,
  is_token_valid,
}
use taxi_lab.Middlewares.Auth.{is_public_request, lacks_bearer, bearer_token}
use taxi_lab.Handlers.UsersGet.{login_key, name_mask_key, user_body, users_body}
use taxi_lab.Handlers.RidesGet.{history_key, active_key, active_rides_limit_per_minute, rides_body}
use taxi_lab.Concurrent.Task.{
  Steps, ◌>>=◌, ◌>>◌, pure, lift, with_storage, with_db, with_cache, with_limiter, set_status,
  set_content_type, set_header, refuse,
}

unfoldable pub cached_or : Steps String → Option String → Steps String
cached_or compute none = compute
cached_or compute (some body) = do set_header "X-Cache" "HIT"; pure body

unfoldable pub rate_limit_headers : RateLimitResult → Steps (Unit {0})
rate_limit_headers result = do
  set_header "X-RateLimit-Limit" (to_string (pos result.limit))
  set_header "X-RateLimit-Remaining" (to_string (pos result.remaining))
  set_header "X-RateLimit-Reset" (to_string (pos result.reset_epoch_seconds))

module _ (lib : Userver) where
  unfoldable pub user_found : Moment → String → Option User → Steps String
  user_found moment login none = refuse lib not_found "user not found"
  user_found moment login (some user) = do
    with_cache (λ c. (tt, set (login_key login) (user_body lib user) (seconds 60) moment.write c))
    pure (user_body lib user)

  unfoldable pub login_steps : Moment → String → Steps String
  login_steps moment login = do
    set_header "X-Cache" "MISS"
    user ← with_db (get_user_by_login login)
    user_found moment login user

  unfoldable pub mask_steps : Moment → String → Steps String
  mask_steps moment mask = do
    set_header "X-Cache" "MISS"
    users ← with_db (find_users_by_name_mask lib.lower mask)
    with_cache
        (λ c. (tt, set (name_mask_key mask) (users_body lib users) (seconds 60) moment.write c))
    pure (users_body lib users)

  unfoldable pub users_get_steps : Moment → HttpRequest → Steps String
  users_get_steps moment request = do
    set_content_type "application/json"
    let login = request.arg "login"
    let mask = request.arg "name_mask"
    let has_login = not (is_empty login)
    let has_mask = not (is_empty mask)
    if bool_eq has_login has_mask
        then refuse lib bad_request "use exactly one query parameter: login or name_mask"
        else do
          cached ←
              with_cache
                (get (if has_login then login_key login else name_mask_key mask) moment.read)
          cached_or (if has_login then login_steps moment login else mask_steps moment mask) cached

  unfoldable pub history_steps : Moment → String → Steps String
  history_steps moment user_id_arg = do
    set_header "X-Cache" "MISS"
    user_id ← lift (stoi user_id_arg)
    rides ← with_db (get_rides_by_user_id user_id)
    with_cache (λ c.
        (tt, set (history_key user_id_arg) (rides_body lib rides) (seconds 60) moment.write c))
    pure (rides_body lib rides)

  unfoldable pub active_steps : Moment → Steps String
  active_steps moment = do
    set_header "X-Cache" "MISS"
    rides ← with_db get_active_rides
    with_cache (λ c. (tt, set active_key (rides_body lib rides) (seconds 15) moment.write c))
    pure (rides_body lib rides)

  unfoldable pub limited_steps : RateLimitResult → Steps String → Steps String
  limited_steps result serve =
      if not result.allowed
      then (do set_header "Retry-After" "60"; refuse lib too_many_requests "too many requests")
      else serve

  unfoldable pub rides_get_query_steps : Moment → HttpRequest → Steps String
  rides_get_query_steps moment request =
      if not (is_empty (request.arg "user_id"))
      then (do
        cached ← with_cache (get (history_key (request.arg "user_id")) moment.read)
        cached_or (history_steps moment (request.arg "user_id")) cached)
      else do
        result ←
            with_limiter
              (check "GET:/rides?status=active" active_rides_limit_per_minute 60 moment.system)
        rate_limit_headers result
        limited_steps result do
          cached ← with_cache (get active_key moment.read)
          cached_or (active_steps moment) cached

  unfoldable pub rides_get_steps : Moment → HttpRequest → Steps String
  rides_get_steps moment request = do
    set_content_type "application/json"
    if is_empty (request.arg "user_id") && not (request.arg "status" == "active")
        then refuse lib bad_request "user_id or status=active query parameter is required"
        else rides_get_query_steps moment request

abbrev pub reject_steps : String → Steps String
reject_steps message = do set_status unauthorized; set_content_type "application/json"; pure message

unfoldable pub handle_request_steps : Steps String → HttpRequest → Steps String
handle_request_steps next request =
    if is_public_request request
    then next
    else if lacks_bearer (request.header "Authorization")
    then reject_steps "{\"error\":\"missing or invalid Authorization header\"}"
    else do
      invalid ←
          with_storage
            (λ s. (ok (not (is_token_valid (bearer_token (request.header "Authorization")) s)), s))
      if invalid then reject_steps "{\"error\":\"invalid token\"}" else next
