-- ===== src/Concurrent/Everywhere/Run.antt =====
-- From each access of the requests to the storage over time (the tasks of World).
use taxi_lab.Base.{
  ◌≡◌, subst, arith, ℕ, zero, suc, ◌+◌, List, [], ◌∷◌, ◌++◌, length, String, Result,
}
use taxi_lab.Storage.{TaxiStorage}
use taxi_lab.Http.{Userver, HttpResponse, Server}
use taxi_lab.Concurrent.Task.{Task, finished, access}
use taxi_lab.Concurrent.World.{
  Request, World, idle, Event, arrives, turn, turn_of, take_turn, happens, run_events,
}
use taxi_lab.Concurrent.Everywhere.{Everywhere, HoldsOfWrites, HoldsOfReads}
use taxi_lab.Concurrent.Everywhere.Readers.{respond-Everywhere}

-- An access takes `P n` to `P (suc n)`.
abbrev pub Counts : (ℕ → TaxiStorage → Type 0) → (Server → Server) → Type 0
Counts P effect = (n : ℕ) (s : Server) → P n s.storage → P (suc n) (effect s).storage

module _ (P : ℕ → TaxiStorage → Type 0) (again : (n : ℕ) (t : TaxiStorage) → P n t → P (suc n) t)
    (writes : HoldsOfWrites (Counts P)) (reads : HoldsOfReads (Counts P)) (lib : Userver) where
  unfoldable pub EachCounts : List Request → Type 0
  EachCounts [] = Unit
  EachCounts (request ∷ requests) = Everywhere (Counts P) request.task × EachCounts requests

  turn_of-P :
      (n : ℕ) (task : Task (Result String × HttpResponse)) (s : Server)
      → Everywhere (Counts P) task
      → P n s.storage
      → P (suc n) (turn_of task s).1.storage
  unfolding Everywhere
  turn_of-P n (finished a) s c h = again n s.storage h
  turn_of-P n (access effect rest) s c h = c.0 n s h

  turn_of-Everywhere :
      (task : Task (Result String × HttpResponse)) (s : Server)
      → Everywhere (Counts P) task
      → Everywhere (Counts P) (turn_of task s).0
  unfolding Everywhere
  turn_of-Everywhere (finished a) s c = c
  turn_of-Everywhere (access effect rest) s c = c.1 s

  take_turn-P :
      (m n : ℕ) (requests : List Request) (s : Server)
      → EachCounts requests
      → P n s.storage
      → P (suc n) (take_turn m requests s).1.storage
  unfolding take_turn EachCounts
  take_turn-P m n [] s c h = again n s.storage h
  take_turn-P zero n (request ∷ requests) s c h = turn_of-P n request.task s c.0 h
  take_turn-P (suc m) n (request ∷ requests) s c h = take_turn-P m n requests s c.1 h

  take_turn-EachCounts :
      (m : ℕ) (requests : List Request) (s : Server)
      → EachCounts requests
      → EachCounts (take_turn m requests s).0
  unfolding take_turn EachCounts
  take_turn-EachCounts m [] s c = tt
  take_turn-EachCounts zero (request ∷ requests) s c = (turn_of-Everywhere request.task s c.0, c.1)
  take_turn-EachCounts (suc m) (request ∷ requests) s c =
      (c.0, take_turn-EachCounts m requests s c.1)

  append-EachCounts :
      (requests : List Request) (request : Request)
      → EachCounts requests
      → Everywhere (Counts P) request.task
      → EachCounts (requests ++ (request ∷ []))
  unfolding EachCounts
  append-EachCounts [] request c d = (d, tt)
  append-EachCounts (first ∷ requests) request c d = (c.0, append-EachCounts requests request c.1 d)

  pub happens-EachCounts :
      (event : Event) (world : World)
      → EachCounts world.requests
      → EachCounts (happens lib event world).requests
  unfolding happens
  happens-EachCounts (arrives call) world c =
      append-EachCounts world.requests _ c (respond-Everywhere (Counts P) reads lib writes call)
  happens-EachCounts (turn m) world c = take_turn-EachCounts m world.requests world.server c

  pub happens-P :
      (event : Event) (n : ℕ) (world : World)
      → EachCounts world.requests
      → P n world.server.storage
      → P (suc n) (happens lib event world).server.storage
  unfolding happens
  happens-P (arrives call) n world c h = again n world.server.storage h
  happens-P (turn m) n world c h = take_turn-P m n world.requests world.server c h

  run_events-EachCounts :
      (events : List Event) (world : World)
      → EachCounts world.requests
      → EachCounts (run_events lib events world).requests
  unfolding run_events
  run_events-EachCounts [] world c = c
  run_events-EachCounts (event ∷ events) world c =
      run_events-EachCounts events _ (happens-EachCounts event world c)

  run_events-P :
      (events : List Event) (n : ℕ) (world : World)
      → EachCounts world.requests
      → P n world.server.storage
      → P (n + length events) (run_events lib events world).server.storage
  unfolding run_events
  run_events-P [] n world c h =
      let same : n ≡ n + 0 = omega arith in subst (λ k. P k world.server.storage) same h
  run_events-P (event ∷ events) n world c h =
      let same : suc n + length events ≡ n + length (event ∷ events) = omega arith in
      subst (λ k. P k (run_events lib events (happens lib event world)).server.storage) same
        (run_events-P events (suc n) _ (happens-EachCounts event world c)
          (happens-P event n world c h))

  -- From a server that works on nothing, at any later moment.
  pub run_events-keeps :
      (before after : List Event) (start : Server) (n : ℕ)
      → P n (run_events lib before (idle start)).server.storage
      → P
          (n + length after)
          (run_events lib after (run_events lib before (idle start))).server.storage
  unfolding EachCounts
  run_events-keeps before after start n h =
      run_events-P after n _ (run_events-EachCounts before (idle start) tt) h
