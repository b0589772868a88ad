-- ===== src/Handlers/RidesGet.antt =====
-- RidesGet::HandleRequestThrow of src/handlers/rides_get.cpp.
use taxi_lab.Base.{
  ℕ, not, ◌&&◌, List, map, String, ◌+s◌, ◌==◌, is_empty, if◌then◌else◌, pure, lift, ◌>>=◌, ◌>>◌,
  stoi, to_string, pos,
}
use taxi_lab.Models.{Ride}
use taxi_lab.Http.{
  bad_request, too_many_requests, HttpRequest, array, Userver, Moment, Handler, set_content_type,
  set_header, with_db, with_cache, with_limiter, refuse,
}
use taxi_lab.Performance.Cache.{get, set, seconds}
use taxi_lab.Performance.Limiter.{RateLimitResult, check}
use taxi_lab.Storage.{get_rides_by_user_id, get_active_rides}
use taxi_lab.Handlers.UsersGet.{or_cached}
use taxi_lab.Handlers.RidesCreate.{ride_object}

abbrev pub history_key : String → String
history_key user_id_arg = "rides:history:" +s user_id_arg

abbrev pub active_key : String
active_key = "rides:active"

abbrev pub active_rides_limit_per_minute : ℕ
active_rides_limit_per_minute = 100

unfoldable pub set_rate_limit_headers : RateLimitResult → Handler (Unit {0})
set_rate_limit_headers result = do
  set_header "X-RateLimit-Limit" (to_string (pos result.limit))
  set_header "X-RateLimit-Remaining" (to_string (pos result.remaining))
  set_header "X-RateLimit-Reset" (to_string (pos result.reset_epoch_seconds))

module _ (lib : Userver) where
  abbrev pub rides_body : List Ride → String
  rides_body rides = lib.print (array (map ride_object rides))

  unfoldable pub rides_get_history : Moment → String → Handler String
  rides_get_history moment user_id_arg = do
    set_header "X-Cache" "MISS"
    user_id ← lift (stoi user_id_arg)
    rides ← with_db (get_rides_by_user_id user_id)
    with_cache
        (λ c. (tt, set (history_key user_id_arg) (rides_body rides) (seconds 60) moment.write c))
    pure (rides_body rides)

  unfoldable pub rides_get_active : Moment → Handler String
  rides_get_active moment = do
    set_header "X-Cache" "MISS"
    rides ← with_db get_active_rides
    with_cache (λ c. (tt, set active_key (rides_body rides) (seconds 15) moment.write c))
    pure (rides_body rides)

  -- What the rate limiter refuses, and what it lets through to `serve`.
  unfoldable pub limited : RateLimitResult → Handler String → Handler String
  limited result serve =
      if not result.allowed
      then (do set_header "Retry-After" "60"; refuse lib too_many_requests "too many requests")
      else serve

  unfoldable pub rides_get_query : Moment → HttpRequest → Handler String
  unfolding limited rides_get_history rides_get_active set_rate_limit_headers
  rides_get_query moment request =
      if not (is_empty (request.arg "user_id"))
      then (do
        cached ← with_cache (get (history_key (request.arg "user_id")) moment.read)
        or_cached (rides_get_history moment (request.arg "user_id")) cached)
      else do
        result ←
            with_limiter
              (check "GET:/rides?status=active" active_rides_limit_per_minute 60 moment.system)
        set_rate_limit_headers result
        limited result do
          cached ← with_cache (get active_key moment.read)
          or_cached (rides_get_active moment) cached

  unfoldable pub rides_get : Moment → HttpRequest → Handler String
  unfolding rides_get_query
  rides_get moment request = do
    set_content_type "application/json"
    if is_empty (request.arg "user_id") && not (request.arg "status" == "active")
        then refuse lib bad_request "user_id or status=active query parameter is required"
        else rides_get_query moment request
