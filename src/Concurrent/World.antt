-- ===== src/Concurrent/World.antt =====
-- The requests that the server works on at once. Any of them may have the next turn: a turn is one
-- access of its task.
use taxi_lab.Base.{ℕ, zero, suc, List, [], ◌∷◌, ◌++◌, Option, none, some, String, Result}
use taxi_lab.Database.Rows.{Database}
use taxi_lab.Http.{Userver, HttpResponse, Server}
use taxi_lab.Service.{Call}
use taxi_lab.Concurrent.Task.{Task, finished, access}
use taxi_lab.Concurrent.Requests.{respond_steps}

-- A request that came in, and what is left of it.
pub record Request : Type 0 where
  pub call : Call
  pub task : Task (Result String × HttpResponse)

pub record World : Type 0 where
  pub server : Server
  pub requests : List Request

-- A server that works on nothing yet.
abbrev pub idle : Server → World
idle server = record { server = server; requests = [] }

pub data Event : Type 0 where
  arrives : Call → Event
  turn : ℕ → Event

abbrev pub turn_of :
    Task (Result String × HttpResponse) → Server → Task (Result String × HttpResponse) × Server
turn_of (finished a) server = (finished a, server)
turn_of (access effect rest) server = (rest server, effect server)

-- The turn of the request number `n`.
unfoldable pub take_turn : ℕ → List Request → Server → List Request × Server
take_turn n [] server = ([], server)
take_turn zero (request ∷ requests) server =
    let (task, server') = turn_of request.task server in
    (record request { task = task } ∷ requests, server')
take_turn (suc n) (request ∷ requests) server =
    let (requests', server') = take_turn n requests server in (request ∷ requests', server')

unfoldable pub request_at : ℕ → List Request → Option Request
request_at n [] = none
request_at zero (request ∷ requests) = some request
request_at (suc n) (request ∷ requests) = request_at n requests

module _ (lib : Userver) where
  unfoldable pub happens : Event → World → World
  unfolding take_turn
  happens (arrives call) world = record world {
    requests = world.requests ++ (record { call = call; task = respond_steps lib call } ∷ []);
  }
  happens (turn n) world =
      let (requests, server) = take_turn n world.requests world.server in
      record { server = server; requests = requests }

  unfoldable pub run_events : List Event → World → World
  run_events [] world = world
  run_events (event ∷ events) world = run_events events (happens event world)

  -- The databases that there were, the latest first, before `past`.
  unfoldable pub databases : List Event → World → List Database → List Database
  databases [] world past = past
  databases (event ∷ events) world past =
      let world' = happens event world in databases events world' (world'.server.storage.db ∷ past)
