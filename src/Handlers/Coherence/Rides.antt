-- ===== src/Handlers/Coherence/Rides.antt =====
-- GET /rides through the cache (src/handlers/rides_get.cpp).
use taxi_lab.Base.{
  Bool, subst, ℕ, ℤ, ◌≡◌, refl, sym, inl, inr, true, false, not, some, List, String, Result, ok,
  throws, is_empty, ◌==◌, Bool-cases, if◌then◌else◌, stoi,
}
use taxi_lab.Models.{Ride}
use taxi_lab.Database.Rows.{Database}
use taxi_lab.Performance.Cache.{get}
use taxi_lab.Performance.Limiter.{RateLimiter, RateLimitResult, check}
use taxi_lab.Http.{
  Userver, HttpRequest, HttpStatus, bad_request, too_many_requests, Moment, Exchange, error_body,
}
use taxi_lab.Storage.{get_rides_by_user_id, get_active_rides}
use taxi_lab.Handlers.Keys.{
  login-ne-history, login-ne-active, name_mask-ne-history, name_mask-ne-active,
  history_key-injective, history-ne-active,
}
use taxi_lab.Handlers.UsersGet.{or_cached}
use taxi_lab.Handlers.RidesGet.{
  history_key, active_key, rides_body, rides_get_history, rides_get_active, limited,
  rides_get_query, rides_get, set_rate_limit_headers, active_rides_limit_per_minute,
}
use taxi_lab.Handlers.Coherence.{Holds-hit, Coherent-get, Coherent-set, HistorySays, ActiveSays}
use taxi_lab.Handlers.Coherence.Writes.{IsCoherent}
use taxi_lab.Handlers.Coherence.Answers.{Serves, list_answer, or_cached-Serves}

pub get_rides_by_user_id-db : (id : ℤ) (db : Database) → (get_rides_by_user_id id db).1 ≡ db
unfolding get_rides_by_user_id
get_rides_by_user_id-db id db = refl

pub get_active_rides-db : (db : Database) → (get_active_rides db).1 ≡ db
unfolding get_active_rides
get_active_rides-db db = refl

module _ (lib : Userver) where
  -- What GET /rides answers by the database and the rate limiter; `st` is the status before.
  abbrev pub history_answer : Result ℤ → Database → HttpStatus → Result String × HttpStatus
  history_answer (throws e) db st = (throws e, st)
  history_answer (ok id) db st = list_answer lib (rides_body lib) (get_rides_by_user_id id db).0 st

  abbrev pub is_allowed : Moment → RateLimiter → Bool
  is_allowed moment limiter =
      (check "GET:/rides?status=active" active_rides_limit_per_minute 60 moment.system
        limiter).0.allowed

  abbrev pub active_answer : Bool → Database → HttpStatus → Result String × HttpStatus
  active_answer false db st = (ok (error_body lib "too many requests"), too_many_requests)
  active_answer true db st = list_answer lib (rides_body lib) (get_active_rides db).0 st

  abbrev pub rides_answer :
      Moment → HttpRequest → Database → RateLimiter → HttpStatus → Result String × HttpStatus
  rides_answer moment request db limiter st =
      if not (is_empty (request.arg "user_id"))
      then history_answer (stoi (request.arg "user_id")) db st
      else if request.arg "status" == "active"
      then active_answer (is_allowed moment limiter) db st
      else (ok (error_body lib "user_id or status=active query parameter is required"), bad_request)

  rides_get_history-Serves :
      (moment : Moment) (arg : String) (x : Exchange)
      → IsCoherent lib x
      → Serves lib
          (history_answer (stoi arg) x.server.storage.db x.response.status)
          (rides_get_history lib moment arg x)
  unfolding rides_get_history
  rides_get_history-Serves moment arg x h = of (stoi arg) refl
    where
      found_rides :
          (id : ℤ)
          → stoi arg ≡ ok id
          → (r : Result (List Ride)) → (get_rides_by_user_id id x.server.storage.db).0 ≡ r
          → Serves lib
              (list_answer lib (rides_body lib) r x.response.status)
              (rides_get_history lib moment arg x)
      found_rides id parsed (throws e) found =
          rw (parsed, found, get_rides_by_user_id-db id x.server.storage.db) (h, refl)
      found_rides id parsed (ok rides) found =
          rw (parsed, found, get_rides_by_user_id-db id x.server.storage.db)
            (
              Coherent-set lib _ (history_key arg) (rides_body lib rides) _ moment.write
                  x.server.cache (λ n same. absurd (login-ne-history n arg (sym same)))
                  (λ n same. absurd (name_mask-ne-history n arg (sym same)))
                  (λ n same. (
                    id,
                    subst (λ a. stoi a ≡ ok id) (history_key-injective arg n same) parsed,
                    (rides, found, refl),
                  ))
                  (λ n same. absurd (history-ne-active arg same)) h,
              refl,
            )

      of :
          (r : Result ℤ)
          → stoi arg ≡ r
          → Serves lib
              (history_answer r x.server.storage.db x.response.status)
              (rides_get_history lib moment arg x)
      of (throws e) parsed = rw parsed (h, refl)
      of (ok id) parsed = found_rides id parsed (get_rides_by_user_id id x.server.storage.db).0 refl

  rides_get_active-Serves :
      (moment : Moment) (x : Exchange)
      → IsCoherent lib x
      → Serves lib
          (list_answer lib
            (rides_body lib)
            (get_active_rides x.server.storage.db).0
            x.response.status)
          (rides_get_active lib moment x)
  unfolding rides_get_active
  rides_get_active-Serves moment x h = of (get_active_rides x.server.storage.db).0 refl
    where
      of :
          (r : Result (List Ride))
          → (get_active_rides x.server.storage.db).0 ≡ r
          → Serves lib
              (list_answer lib (rides_body lib) r x.response.status)
              (rides_get_active lib moment x)
      of (throws e) found = rw (found, get_active_rides-db x.server.storage.db) (h, refl)
      of (ok rides) found =
          rw (found, get_active_rides-db x.server.storage.db)
            (
              Coherent-set lib _ active_key (rides_body lib rides) _ moment.write x.server.cache
                  (λ n same. absurd (login-ne-active n (sym same)))
                  (λ n same. absurd (name_mask-ne-active n (sym same)))
                  (λ n same. absurd (history-ne-active n (sym same)))
                  (λ n same. (rides, found, refl)) h,
              refl,
            )

  history_hit :
      (arg v : String) (x : Exchange) (now : ℕ)
      → IsCoherent lib x
      → (get (history_key arg) now x.server.cache).0 ≡ some v
      → (ok v, x.response.status) ≡ history_answer (stoi arg) x.server.storage.db x.response.status
  history_hit arg v x now h hit =
      let (id, parsed, (rides, found, body)) =
        Holds-hit history_key (HistorySays lib x.server.storage.db) arg now x.server.cache v
          h.history hit in
      rw (parsed, found, body) refl

  active_hit :
      (v : String) (x : Exchange) (now : ℕ)
      → IsCoherent lib x
      → (get active_key now x.server.cache).0 ≡ some v
      → (ok v, x.response.status)
        ≡ list_answer lib
            (rides_body lib)
            (get_active_rides x.server.storage.db).0
            x.response.status
  active_hit v x now h hit =
      let (rides, found, body) =
        Holds-hit (λ unused. active_key) (ActiveSays lib x.server.storage.db) "" now x.server.cache
          v h.active hit in
      rw (found, body) refl

  -- The part of an active query behind the rate limiter.
  limited-Serves :
      (moment : Moment) (result : RateLimitResult) (x : Exchange)
      → IsCoherent lib x
      → Serves lib (active_answer result.allowed x.server.storage.db x.response.status) (
          limited lib result
            (λ y.
              or_cached
                (rides_get_active lib moment)
                (get active_key moment.read y.server.cache).0
                (record y {
                  server = record y.server {
                    cache = (get active_key moment.read y.server.cache).1;
                  };
                }))
            x)
  unfolding limited
  limited-Serves moment result x h = elim (Bool-cases result.allowed) [
    | inl a ↦ rw a (
        or_cached-Serves lib _ _ _ _ (Coherent-get lib _ active_key moment.read x.server.cache h)
          (λ v hit. active_hit v x moment.read h hit)
          (rides_get_active-Serves moment _
            (Coherent-get lib _ active_key moment.read x.server.cache h)))
    | inr a ↦ rw a (h, refl)
  ]

  pub rides_get-Serves :
      (moment : Moment) (request : HttpRequest) (x : Exchange)
      → IsCoherent lib x
      → Serves lib
          (rides_answer moment request x.server.storage.db x.server.limiter x.response.status)
          (rides_get lib moment request x)
  unfolding rides_get rides_get_query set_rate_limit_headers
  rides_get-Serves moment request x h = elim (Bool-cases (is_empty (request.arg "user_id"))) [
    | inl a ↦ elim (Bool-cases (request.arg "status" == "active")) [
      | inl b ↦
          rw (a, b)
            (limited-Serves moment
              (check "GET:/rides?status=active" active_rides_limit_per_minute 60 moment.system
                x.server.limiter).0
              _ h)
      | inr b ↦ rw (a, b) (h, refl)
    ]
    | inr a ↦ rw a (
        or_cached-Serves lib _ _ _ _
          (Coherent-get lib _ (history_key (request.arg "user_id")) moment.read x.server.cache h)
          (λ v hit. history_hit (request.arg "user_id") v x moment.read h hit)
          (rides_get_history-Serves moment (request.arg "user_id") _ (
            Coherent-get lib _ (history_key (request.arg "user_id")) moment.read x.server.cache h)))
  ]
