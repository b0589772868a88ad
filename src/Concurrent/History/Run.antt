-- ===== src/Concurrent/History/Run.antt =====
-- Any order of arrivals and turns: the servers and the answers.
use taxi_lab.Base.{◌≡◌, subst, ℕ, zero, suc, List, [], ◌∷◌, some, Mem, ◌⊎◌}
use taxi_lab.Database.Rows.{Database}
use taxi_lab.Database.Invariant.{WellFormed}
use taxi_lab.Performance.Limiter.{RateLimiter}
use taxi_lab.Http.{Userver, HttpRequest, Server, Moment, unauthorized, status_ok}
use taxi_lab.Service.{get_users, get_rides, Call}
use taxi_lab.Service.Sound.{IsSound}
use taxi_lab.Handlers.Coherence.Users.{users_answer}
use taxi_lab.Handlers.Coherence.Rides.{rides_answer}
use taxi_lab.Concurrent.Task.{finished}
use taxi_lab.Concurrent.World.{Request, idle, Event, run_events, databases, request_at}
use taxi_lab.Concurrent.History.{Meets}
use taxi_lab.Concurrent.History.Reads.{Outcome}
use taxi_lab.Concurrent.History.Respond.{Answered}
use taxi_lab.Concurrent.History.Good.{Behaves, AllBehave, run_events-IsGood, sound-IsGood}

module _ (lib : Userver) where
  request_at-Answered :
      (n : ℕ) (past : List Database) (requests : List Request) (call : Call) (o : Outcome)
      → AllBehave lib past requests
      → request_at n requests ≡ some (record { call = call; task = finished o })
      → Answered lib call.route call.moment call.request past o
  unfolding AllBehave request_at Meets
  request_at-Answered n past [] call o h is = cc
  request_at-Answered zero past (request ∷ requests) call o h is =
      let same : request ≡ record { call = call; task = finished o } = cc in
      subst (Behaves lib past) same h.0
  request_at-Answered (suc n) past (request ∷ requests) call o h is =
      request_at-Answered n past requests call o h.1 is

  -- From a sound server and for any order in which requests arrive and take turns, one access at a
  -- time, the database is well-formed at every moment.
  pub run_events-WellFormed :
      (events : List Event) (start : Server)
      → IsSound lib start
      → WellFormed (run_events lib events (idle start)).server.storage.db
  run_events-WellFormed events start sound =
      (run_events-IsGood lib events _ (idle start) (sound-IsGood lib start sound)).live.well_formed

  -- From a sound server and for any order in which requests arrive and take turns, one access at a
  -- time, a GET /users that is finished was refused by the middleware, or answered, in body and
  -- status, what one of the databases that there were gives: the user with the login, the users
  -- whose names fit the mask, or the refusal.
  pub run_events-users_answer :
      (events : List Event) (start : Server) (n : ℕ) (moment : Moment) (request : HttpRequest)
      (o : Outcome)
      → IsSound lib start
      → request_at n (run_events lib events (idle start)).requests
        ≡ some (record {
          call = record { route = get_users; moment = moment; request = request };
          task = finished o;
        })
      → (o.1.status ≡ unauthorized)
        ⊎ ((db : Database) × Mem db (databases lib events (idle start) (start.storage.db ∷ []))
            × ((o.0, o.1.status) ≡ users_answer lib request db status_ok))
  unfolding Answered
  run_events-users_answer events start n moment request o sound is =
      request_at-Answered n _ _ (record { route = get_users; moment = moment; request = request }) o
        (run_events-IsGood lib events _ (idle start) (sound-IsGood lib start sound)).all is

  -- From a sound server and for any order in which requests arrive and take turns, one access at a
  -- time, a GET /rides that is finished was refused by the middleware, or answered, in body and
  -- status, what one of the databases that there were gives with some state of the rate limiter:
  -- the history of the user_id, the active rides, or the refusal. So the cache may give an old
  -- answer, but no answer that never was one.
  pub run_events-rides_answer :
      (events : List Event) (start : Server) (n : ℕ) (moment : Moment) (request : HttpRequest)
      (o : Outcome)
      → IsSound lib start
      → request_at n (run_events lib events (idle start)).requests
        ≡ some (record {
          call = record { route = get_rides; moment = moment; request = request };
          task = finished o;
        })
      → (o.1.status ≡ unauthorized)
        ⊎ ((limiter : RateLimiter) × ((db : Database) × Mem db
                (databases lib events (idle start) (start.storage.db ∷ []))
              × ((o.0, o.1.status) ≡ rides_answer lib moment request db limiter status_ok)))
  unfolding Answered
  run_events-rides_answer events start n moment request o sound is =
      request_at-Answered n _ _ (record { route = get_rides; moment = moment; request = request }) o
        (run_events-IsGood lib events _ (idle start) (sound-IsGood lib start sound)).all is
