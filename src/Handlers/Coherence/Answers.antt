-- ===== src/Handlers/Coherence/Answers.antt =====
-- What a handler that reads has to do: keep the cache coherent, and answer as a specification says.
use taxi_lab.Base.{◌≡◌, refl, Option, none, some, String, Result, ok, throws}
use taxi_lab.Http.{Userver, HttpStatus, Exchange, Handler}
use taxi_lab.Handlers.UsersGet.{or_cached}
use taxi_lab.Handlers.Coherence.Writes.{IsCoherent}

-- The body or the throw of a handler, and the status.
abbrev pub answer : Result String × Exchange → Result String × HttpStatus
answer o = (o.0, o.1.response.status)

module _ (lib : Userver) where
  -- A handler's outcome: the cache is coherent, and the answer is as specified.
  abbrev pub Serves : Result String × HttpStatus → Result String × Exchange → Type 0
  Serves a o = IsCoherent lib o.1 × (answer o ≡ a)

  -- A list from the database, printed by `body`; `st` is the response's status before.
  abbrev pub list_answer :
      {A : Type 0} → (A → String) → Result A → HttpStatus → Result String × HttpStatus
  list_answer body (throws e) st = (throws e, st)
  list_answer body (ok items) st = (ok (body items), st)

  -- A hit answers what is computed on a miss.
  pub or_cached-Serves :
      (a : Result String × HttpStatus) (compute : Handler String) (o : Option String) (x : Exchange)
      → IsCoherent lib x
      → ((v : String) → o ≡ some v → (ok v, x.response.status) ≡ a)
      → Serves a (compute x)
      → Serves a (or_cached compute o x)
  or_cached-Serves a compute none x h hit miss = miss
  or_cached-Serves a compute (some v) x h hit miss = (h, hit v refl)
