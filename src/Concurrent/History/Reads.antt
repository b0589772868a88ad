-- ===== src/Concurrent/History/Reads.antt =====
-- The middleware, and a handler that answers from the cache or computes, between other requests.
use taxi_lab.Base.{
  ◌≡◌, refl, ℕ, List, ◌∷◌, Option, none, some, String, Result, ok, Bool, true, false, not,
  if◌then◌else◌, Mem, mem-cons_of_mem,
}
use taxi_lab.Database.Rows.{Database}
use taxi_lab.Storage.{is_token_valid}
use taxi_lab.Performance.Cache.{get}
use taxi_lab.Http.{Userver, HttpRequest, HttpStatus, unauthorized, HttpResponse, Server}
use taxi_lab.Middlewares.Auth.{is_public_request, lacks_bearer, bearer_token}
use taxi_lab.Concurrent.Task.{then_task, Steps, ◌>>=◌, pure, with_storage, with_cache, set_response}
use taxi_lab.Concurrent.Readers.{cached_or, reject_steps, handle_request_steps}
use taxi_lab.Concurrent.History.{
  Extends, Meets, IsLive, IsLive-storage, IsLive-cache, WasCoherent-get,
}

abbrev pub Outcome : Type 0
Outcome = Result String × HttpResponse

-- The answer is the one that some database of the past gives.
abbrev pub Reads : (Database → Result String × HttpStatus) → List Database → Outcome → Type 0
Reads answer past o = (db : Database) × Mem db past × ((o.0, o.1.status) ≡ answer db)

module _ (lib : Userver) (Post : List Database → Outcome → Type 0) where
  reject-Meets :
      (message : String) (past : List Database) (r : HttpResponse)
      → ((o : Outcome) → o.1.status ≡ unauthorized → Post past o)
      → Meets lib Post past (reject_steps message r)
  unfolding Meets set_response pure ◌>>=◌ then_task
  reject-Meets message past r refused = refused _ refl

  choice-Meets :
      (b : Bool) (m m' : Steps String) (past : List Database) (r : HttpResponse)
      → Meets lib Post past (m r)
      → Meets lib Post past (m' r)
      → Meets lib Post past ((if b then m else m') r)
  choice-Meets true m m' past r p q = p
  choice-Meets false m m' past r p q = q

  pub handle_request-Meets :
      (next : Steps String) (request : HttpRequest) (past : List Database) (r : HttpResponse)
      → ((later : List Database) (o : Outcome) → o.1.status ≡ unauthorized → Post later o)
      → ((later : List Database) → Extends past later → Meets lib Post later (next r))
      → Meets lib Post past (handle_request_steps next request r)
  unfolding handle_request_steps Meets with_storage ◌>>=◌ then_task
  handle_request-Meets next request past r refused serves =
      choice-Meets (is_public_request request) _ _ past r (serves past (λ db was. was)) (
        choice-Meets (lacks_bearer (request.header "Authorization")) _ _ past r
          (reject-Meets _ past r (refused past))
          (λ later s ext live. (
            IsLive-storage lib later s s.storage live.well_formed live,
            choice-Meets
                (not (is_token_valid (bearer_token (request.header "Authorization")) s.storage)) _ _
                _ r (reject-Meets _ _ r (refused _))
                (serves _ (λ db was. mem-cons_of_mem _ (ext db was))),
          )))

  -- What the cache has is answered; on a miss the answer is computed.
  pub cached-Meets :
      (compute : Steps String) (key : String) (now : ℕ) (past : List Database) (r : HttpResponse)
      → ((later : List Database) (s : Server) (v : String) (h : HttpResponse)
          → IsLive lib later s
          → (get key now s.cache).0 ≡ some v
          → h.status ≡ r.status
          → Post (s.storage.db ∷ later) (ok v, h))
      → ((later : List Database) → Extends past later → Meets lib Post later (compute r))
      → Meets lib Post past ((with_cache (get key now) >>= cached_or compute) r)
  unfolding Meets with_cache ◌>>=◌ then_task cached_or set_response pure
  cached-Meets compute key now past r hit miss = λ later s ext live. (
    IsLive-cache lib later s _ (WasCoherent-get lib later key now s.cache live.was_coherent) live,
    of later s (get key now s.cache).0 refl live ext,
  )
    where
      of :
          (later : List Database) (s : Server) (o : Option String)
          → (get key now s.cache).0 ≡ o
          → IsLive lib later s
          → Extends past later
          → Meets lib Post (s.storage.db ∷ later) (cached_or compute o r)
      of later s none found live ext = miss _ (λ db was. mem-cons_of_mem _ (ext db was))
      of later s (some v) found live ext = hit later s v _ live found refl
