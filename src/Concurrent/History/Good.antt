-- ===== src/Concurrent/History/Good.antt =====
-- A server and the requests on it, over any order of arrivals and turns.
use taxi_lab.Base.{ℕ, zero, suc, List, [], ◌∷◌, ◌++◌, mem-cons_self, mem-cons_of_mem}
use taxi_lab.Database.Rows.{Database}
use taxi_lab.Http.{Userver, Server}
use taxi_lab.Service.{Call}
use taxi_lab.Service.Sound.{IsSound}
use taxi_lab.Concurrent.Task.{Task, finished, access}
use taxi_lab.Concurrent.Requests.{respond_steps}
use taxi_lab.Concurrent.World.{
  Request, World, Event, arrives, turn, turn_of, take_turn, happens, run_events, databases,
}
use taxi_lab.Concurrent.History.{Extends, Meets, Meets-more, IsLive, WasCoherent-more}
use taxi_lab.Concurrent.History.Reads.{Outcome}
use taxi_lab.Concurrent.History.Respond.{Answered, Answered-more, respond-Meets}

module _ (lib : Userver) where
  -- What is left of a request behaves.
  abbrev pub Behaves : List Database → Request → Type 0
  Behaves past request =
      Meets lib (Answered lib request.call.route request.call.moment request.call.request) past
        request.task

  unfoldable pub AllBehave : List Database → List Request → Type 0
  AllBehave past [] = Unit
  AllBehave past (request ∷ requests) = Behaves past request × AllBehave past requests

  pub record IsGood (past : List Database) (requests : List Request) (server : Server)
      : Type 0 where
    pub live : IsLive lib past server
    pub all : AllBehave past requests

  Behaves-more :
      (past later : List Database) (request : Request)
      → Extends past later
      → Behaves past request
      → Behaves later request
  Behaves-more past later request more h =
      Meets-more lib _
        (λ p q o.
          Answered-more lib request.call.route request.call.moment request.call.request p q o)
        past later request.task more h

  AllBehave-more :
      (past later : List Database) (requests : List Request)
      → Extends past later
      → AllBehave past requests
      → AllBehave later requests
  unfolding AllBehave
  AllBehave-more past later [] more h = tt
  AllBehave-more past later (request ∷ requests) more h =
      (Behaves-more past later request more h.0, AllBehave-more past later requests more h.1)

  earlier : (db : Database) (past : List Database) → Extends past (db ∷ past)
  earlier db past was h = mem-cons_of_mem db h

  IsLive-again :
      (past : List Database) (s : Server) → IsLive lib past s → IsLive lib (s.storage.db ∷ past) s
  IsLive-again past s live = record {
    well_formed = live.well_formed;
    now = mem-cons_self;
    was_coherent = WasCoherent-more lib past _ s.cache (earlier _ past) live.was_coherent;
  }

  turn_of-Behaves :
      (past : List Database) (call : Call) (task : Task Outcome) (s : Server)
      → IsLive lib past s
      → Behaves past (record { call = call; task = task })
      → IsLive lib ((turn_of task s).1.storage.db ∷ past) (turn_of task s).1
        × Behaves
            ((turn_of task s).1.storage.db ∷ past)
            (record { call = call; task = (turn_of task s).0 })
  unfolding Meets
  turn_of-Behaves past call (finished a) s live h = (
    IsLive-again past s live,
    Behaves-more past _ (record { call = call; task = finished a }) (earlier _ past) h,
  )
  turn_of-Behaves past call (access effect rest) s live h = h past s (λ db was. was) live

  take_turn-IsGood :
      (n : ℕ) (past : List Database) (requests : List Request) (s : Server)
      → IsGood past requests s
      → IsGood
          ((take_turn n requests s).1.storage.db ∷ past)
          (take_turn n requests s).0
          (take_turn n requests s).1
  unfolding take_turn AllBehave
  take_turn-IsGood n past [] s good = record { live = IsLive-again past s good.live; all = tt }
  take_turn-IsGood zero past (request ∷ requests) s good =
      let (live, behaves) = turn_of-Behaves past request.call request.task s good.live good.all.0 in
      record {
        live = live;
        all = (behaves, AllBehave-more past _ requests (earlier _ past) good.all.1);
      }
  take_turn-IsGood (suc n) past (request ∷ requests) s good =
      let next =
        take_turn-IsGood n past requests s (record { live = good.live; all = good.all.1 }) in
      record {
        live = next.live;
        all = (Behaves-more past _ request (earlier _ past) good.all.0, next.all);
      }

  append-AllBehave :
      (past : List Database) (requests : List Request) (request : Request)
      → AllBehave past requests
      → Behaves past request
      → AllBehave past (requests ++ (request ∷ []))
  unfolding AllBehave
  append-AllBehave past [] request h k = (k, tt)
  append-AllBehave past (first ∷ requests) request h k =
      (h.0, append-AllBehave past requests request h.1 k)

  pub happens-IsGood :
      (event : Event) (past : List Database) (world : World)
      → IsGood past world.requests world.server
      → IsGood
          ((happens lib event world).server.storage.db ∷ past)
          (happens lib event world).requests
          (happens lib event world).server
  unfolding happens
  happens-IsGood (arrives call) past world good = record {
    live = IsLive-again past world.server good.live;
    all =
        append-AllBehave _ world.requests (record { call = call; task = respond_steps lib call })
          (AllBehave-more past _ world.requests (earlier _ past) good.all)
          (respond-Meets lib call _ world.server.storage.db mem-cons_self);
  }
  happens-IsGood (turn n) past world good = take_turn-IsGood n past world.requests world.server good

  pub run_events-IsGood :
      (events : List Event) (past : List Database) (world : World)
      → IsGood past world.requests world.server
      → IsGood
          (databases lib events world past)
          (run_events lib events world).requests
          (run_events lib events world).server
  unfolding run_events databases
  run_events-IsGood [] past world good = good
  run_events-IsGood (event ∷ events) past world good =
      run_events-IsGood events _ (happens lib event world) (happens-IsGood event past world good)

  pub sound-IsGood :
      (server : Server) → IsSound lib server → IsGood (server.storage.db ∷ []) [] server
  unfolding AllBehave
  sound-IsGood server sound = record {
    live = record {
      well_formed = sound.well_formed;
      now = mem-cons_self;
      was_coherent = record {
        login = λ n e found. (server.storage.db, mem-cons_self, sound.coherent.login n e found);
        mask = λ n e found. (server.storage.db, mem-cons_self, sound.coherent.mask n e found);
        history = λ n e found. (server.storage.db, mem-cons_self, sound.coherent.history n e found);
        active = λ n e found. (server.storage.db, mem-cons_self, sound.coherent.active n e found);
      };
    };
    all = tt;
  }
