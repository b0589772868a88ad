-- ===== src/Concurrent/History/Rides/Get.antt =====
-- GET /rides as a whole, between other requests (src/handlers/rides_get.cpp).
use taxi_lab.Base.{
  ◌≡◌, ◌∙◌, refl, List, String, Result, true, false, ◌==◌, is_empty, inl, inr, Bool-cases, Mem,
  mem-cons_self,
}
use taxi_lab.Database.Rows.{Database}
use taxi_lab.Performance.Cache.{get}
use taxi_lab.Performance.Limiter.{RateLimiter, empty_limiter, check}
use taxi_lab.Http.{Userver, HttpRequest, HttpStatus, Moment, HttpResponse}
use taxi_lab.Handlers.RidesGet.{history_key, active_key, active_rides_limit_per_minute}
use taxi_lab.Handlers.Coherence.Rides.{is_allowed, rides_answer}
use taxi_lab.Concurrent.Task.{◌>>=◌, ◌>>◌, then_task, pure, with_cache, with_limiter, set_response}
use taxi_lab.Concurrent.Readers.{
  cached_or, history_steps, active_steps, rate_limit_headers, limited_steps, rides_get_query_steps,
  rides_get_steps,
}
use taxi_lab.Concurrent.History.{Meets, Meets-weaker, IsLive-limiter}
use taxi_lab.Concurrent.History.Reads.{Outcome, Reads}
use taxi_lab.Concurrent.History.Rides.{HistoryReads, ActiveReads, history_cached, limited-Meets}

module _ (lib : Userver) (moment : Moment) where
  -- Some limiter let the request through or refused it.
  abbrev pub RidesReads : HttpRequest → HttpStatus → List Database → Outcome → Type 0
  RidesReads request st past o =
      (limiter : RateLimiter) × Reads (λ db. rides_answer lib moment request db limiter st) past o

  Reads-same :
      (answer other : Database → Result String × HttpStatus)
      → ((db : Database) → answer db ≡ other db)
      → (past : List Database) (o : Outcome) → Reads answer past o
      → Reads other past o
  Reads-same answer other same past o (db, was, is) = (db, was, is ∙ same db)

  module _ (request : HttpRequest) (r : HttpResponse) where
    history_query :
        (past : List Database) (db : Database)
        → is_empty (request.arg "user_id") ≡ false
        → Mem db past
        → Meets lib (RidesReads request r.status) past (
            (with_cache (get (history_key (request.arg "user_id")) moment.read)
                >>= cached_or (history_steps lib moment (request.arg "user_id")))
              (record r { content_type = "application/json" }))
    history_query past db a was =
        Meets-weaker lib (HistoryReads lib moment (request.arg "user_id") r.status)
          (RidesReads request r.status)
          (λ past o reads. (empty_limiter, Reads-same _ _ (λ db. rw a refl) past o reads)) past _
          (history_cached lib moment (request.arg "user_id") past _ db was)

    active_query :
        (past : List Database) (db : Database)
        → is_empty (request.arg "user_id") ≡ true
        → (request.arg "status" == "active") ≡ true
        → Meets lib (RidesReads request r.status) past (
            (with_limiter
                  (check "GET:/rides?status=active" active_rides_limit_per_minute 60 moment.system)
                >>= λ result.
                    rate_limit_headers result
                    >> limited_steps lib result (
                        with_cache (get active_key moment.read)
                        >>= cached_or (active_steps lib moment)))
              (record r { content_type = "application/json" }))
    unfolding Meets with_limiter rate_limit_headers set_response ◌>>=◌ then_task
    active_query past db a b = λ later s ext live. (
      IsLive-limiter lib later s _ live,
      Meets-weaker lib (ActiveReads lib moment (is_allowed lib moment s.limiter) r.status)
          (RidesReads request r.status)
          (λ past o reads. (s.limiter, Reads-same _ _ (λ db. rw (a, b) refl) past o reads)) _ _
          (limited-Meets lib moment _ _ _ s.storage.db mem-cons_self),
    )

  pub rides_get-Meets :
      (request : HttpRequest) (past : List Database) (r : HttpResponse) (db : Database)
      → Mem db past
      → Meets lib (RidesReads request r.status) past (rides_get_steps lib moment request r)
  unfolding rides_get_steps rides_get_query_steps set_response ◌>>=◌ then_task Meets pure
  rides_get-Meets request past r db was = elim (Bool-cases (is_empty (request.arg "user_id"))) [
    | inl a ↦ elim (Bool-cases (request.arg "status" == "active")) [
      | inl b ↦ rw (a, b) (active_query request r past db a b)
      | inr b ↦ rw (a, b) (empty_limiter, (db, was, rw (a, b) refl))
    ]
    | inr a ↦ rw a (history_query request r past db a was)
  ]
