-- ===== src/Concurrent/History/Rides.antt =====
-- GET /rides between other requests (src/handlers/rides_get.cpp).
pub mod Get
use taxi_lab.Base.{
  ◌≡◌, ◌∙◌, refl, sym, subst, ℤ, List, ◌∷◌, some, String, Result, ok, throws, Bool, true, false,
  ◌==◌, is_empty, inl, inr, Bool-cases, Mem, mem-cons_self, mem-cons_of_mem, stoi,
}
use taxi_lab.Models.{Ride}
use taxi_lab.Database.Rows.{Database}
use taxi_lab.Performance.Cache.{get, set, seconds}
use taxi_lab.Performance.Limiter.{RateLimiter, empty_limiter, RateLimitResult, check}
use taxi_lab.Http.{Userver, HttpRequest, HttpStatus, Moment, HttpResponse, Server}
use taxi_lab.Storage.{get_rides_by_user_id, get_active_rides}
use taxi_lab.Handlers.Keys.{
  login-ne-history, login-ne-active, name_mask-ne-history, name_mask-ne-active,
  history_key-injective, history-ne-active,
}
use taxi_lab.Handlers.RidesGet.{history_key, active_key, rides_body, active_rides_limit_per_minute}
use taxi_lab.Handlers.Coherence.{Holds-hit, HistorySays, ActiveSays}
use taxi_lab.Handlers.Coherence.Rides.{
  is_allowed, history_answer, active_answer, rides_answer, get_rides_by_user_id-db,
  get_active_rides-db,
}
use taxi_lab.Concurrent.Task.{
  go_on, ◌>>=◌, ◌>>◌, then_task, pure, lift, with_storage, with_db, with_cache, with_limiter,
  set_response,
}
use taxi_lab.Concurrent.Readers.{
  cached_or, history_steps, active_steps, rate_limit_headers, limited_steps, rides_get_query_steps,
  rides_get_steps,
}
use taxi_lab.Concurrent.History.{
  Once, Meets, Meets-weaker, IsLive, IsLive-storage, IsLive-cache, IsLive-limiter, WasCoherent-set,
}
use taxi_lab.Concurrent.History.Reads.{Outcome, Reads, cached-Meets}

module _ (lib : Userver) (moment : Moment) where
  abbrev pub HistoryReads : String → HttpStatus → List Database → Outcome → Type 0
  HistoryReads arg st = Reads (λ db. history_answer lib (stoi arg) db st)

  abbrev pub ActiveReads : Bool → HttpStatus → List Database → Outcome → Type 0
  ActiveReads allowed st = Reads (λ db. active_answer lib allowed db st)

  -- What the database answered is told and kept.
  history_found-Meets :
      (arg : String) (id : ℤ) (o : Result (List Ride)) (db : Database) (past : List Database)
      (r : HttpResponse)
      → Mem db past
      → stoi arg ≡ ok id
      → (get_rides_by_user_id id db).0 ≡ o
      → Meets lib (Reads (λ db. history_answer lib (ok id) db r.status)) past (
          go_on
            (λ rides.
              with_cache (λ c.
                (tt, set (history_key arg) (rides_body lib rides) (seconds 60) moment.write c))
              >>= λ _. pure (rides_body lib rides))
            (o, r))
  unfolding Meets set_response pure with_cache ◌>>=◌ then_task
  history_found-Meets arg id (throws e) db past r was parsed found = (db, was, rw found refl)
  history_found-Meets arg id (ok rides) db past r was parsed found = λ later s ext live. (
    IsLive-cache lib later s _
        (WasCoherent-set lib later (history_key arg) (rides_body lib rides) _ moment.write s.cache
          (λ n same. absurd (login-ne-history n arg (sym same)))
          (λ n same. absurd (name_mask-ne-history n arg (sym same)))
          (λ n same. (
            db,
            ext db was,
            (
              id,
              subst (λ a. stoi a ≡ ok id) (history_key-injective arg n same) parsed,
              (rides, found, refl),
            ),
          ))
          (λ n same. absurd (history-ne-active arg same)) live.was_coherent)
        live,
    (db, mem-cons_of_mem _ (ext db was), rw found refl),
  )

  history-Meets :
      (arg : String) (past : List Database) (r : HttpResponse) (db : Database)
      → Mem db past
      → Meets lib (HistoryReads arg r.status) past (history_steps lib moment arg r)
  unfolding Meets history_steps with_db with_storage set_response lift ◌>>=◌ then_task
  history-Meets arg past r db was = of (stoi arg) refl
    where
      of :
          (o : Result ℤ)
          → stoi arg ≡ o
          → Meets lib (HistoryReads arg r.status) past (history_steps lib moment arg r)
      of (throws e) parsed = rw parsed (db, was, refl)
      of (ok id) parsed = rw parsed λ later s ext live. (
        rw (get_rides_by_user_id-db id s.storage.db)
            (IsLive-storage lib later s s.storage live.well_formed live),
        history_found-Meets arg id (get_rides_by_user_id id s.storage.db).0 s.storage.db _ _
            (mem-cons_of_mem _ live.now) parsed refl,
      )

  active_found-Meets :
      (o : Result (List Ride)) (db : Database) (past : List Database) (r : HttpResponse)
      → Mem db past
      → (get_active_rides db).0 ≡ o
      → Meets lib (ActiveReads true r.status) past (
          go_on
            (λ rides.
              with_cache
                (λ c. (tt, set active_key (rides_body lib rides) (seconds 15) moment.write c))
              >>= λ _. pure (rides_body lib rides))
            (o, r))
  unfolding Meets set_response pure with_cache ◌>>=◌ then_task
  active_found-Meets (throws e) db past r was found = (db, was, rw found refl)
  active_found-Meets (ok rides) db past r was found = λ later s ext live. (
    IsLive-cache lib later s _
        (WasCoherent-set lib later active_key (rides_body lib rides) _ moment.write s.cache
          (λ n same. absurd (login-ne-active n (sym same)))
          (λ n same. absurd (name_mask-ne-active n (sym same)))
          (λ n same. absurd (history-ne-active n (sym same)))
          (λ n same. (db, ext db was, (rides, found, refl))) live.was_coherent)
        live,
    (db, mem-cons_of_mem _ (ext db was), rw found refl),
  )

  active-Meets :
      (past : List Database) (r : HttpResponse)
      → Meets lib (ActiveReads true r.status) past (active_steps lib moment r)
  unfolding Meets active_steps with_db with_storage set_response ◌>>=◌ then_task
  active-Meets past r = λ later s ext live. (
    rw (get_active_rides-db s.storage.db)
        (IsLive-storage lib later s s.storage live.well_formed live),
    active_found-Meets (get_active_rides s.storage.db).0 s.storage.db _ _
        (mem-cons_of_mem _ live.now) refl,
  )

  history_hit :
      (arg v : String) (h : HttpResponse) (later : List Database) (s : Server)
      → IsLive lib later s
      → (get (history_key arg) moment.read s.cache).0 ≡ some v
      → HistoryReads arg h.status (s.storage.db ∷ later) (ok v, h)
  history_hit arg v h later s live hit =
      let (db, was, (id, parsed, (rides, found, body))) =
        Holds-hit history_key (Once later (HistorySays lib)) arg moment.read s.cache v
          live.was_coherent.history hit in
      (db, mem-cons_of_mem _ was, rw (parsed, found, body) refl)

  active_hit :
      (v : String) (h : HttpResponse) (later : List Database) (s : Server)
      → IsLive lib later s
      → (get active_key moment.read s.cache).0 ≡ some v
      → ActiveReads true h.status (s.storage.db ∷ later) (ok v, h)
  active_hit v h later s live hit =
      let (db, was, (rides, found, body)) =
        Holds-hit (λ unused. active_key) (Once later (ActiveSays lib)) "" moment.read s.cache v
          live.was_coherent.active hit in
      (db, mem-cons_of_mem _ was, rw (found, body) refl)

  pub history_cached :
      (arg : String) (past : List Database) (r : HttpResponse) (db : Database)
      → Mem db past
      → Meets lib (HistoryReads arg r.status) past (
          (with_cache (get (history_key arg) moment.read)
              >>= cached_or (history_steps lib moment arg))
            r)
  history_cached arg past r db was =
      cached-Meets lib (HistoryReads arg r.status) (history_steps lib moment arg) (history_key arg)
        moment.read past r
        (λ later s v h live found same.
          subst (λ st. HistoryReads arg st (s.storage.db ∷ later) (ok v, h)) same
            (history_hit arg v h later s live found))
        (λ later more. history-Meets arg later r db (more db was))

  active_cached :
      (past : List Database) (r : HttpResponse)
      → Meets lib
          (ActiveReads true r.status)
          past
          ((with_cache (get active_key moment.read) >>= cached_or (active_steps lib moment)) r)
  active_cached past r =
      cached-Meets lib (ActiveReads true r.status) (active_steps lib moment) active_key moment.read
        past r
        (λ later s v h live found same.
          subst (λ st. ActiveReads true st (s.storage.db ∷ later) (ok v, h)) same
            (active_hit v h later s live found))
        (λ later more. active-Meets later r)

  pub limited-Meets :
      (result : RateLimitResult) (past : List Database) (r : HttpResponse) (db : Database)
      → Mem db past
      → Meets lib (ActiveReads result.allowed r.status) past (
          limited_steps lib result
            (with_cache (get active_key moment.read) >>= cached_or (active_steps lib moment))
            r)
  unfolding Meets limited_steps set_response pure ◌>>=◌ then_task
  limited-Meets result past r db was = elim (Bool-cases result.allowed) [
    | inl a ↦ rw a (active_cached past r)
    | inr a ↦ rw a (db, was, refl)
  ]
