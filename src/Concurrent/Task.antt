-- ===== src/Concurrent/Task.antt =====
-- A task accesses the server, which other tasks may change between two of its accesses. Its response
-- is its own.
use taxi_lab.Base.{String, Result, ok, throws, Action, assign}
use taxi_lab.Database.Rows.{Database}
use taxi_lab.Storage.{TaxiStorage, on_db}
use taxi_lab.Performance.Cache.{ResponseCache}
use taxi_lab.Performance.Limiter.{RateLimiter}
use taxi_lab.Http.{Server, HttpStatus, HttpResponse, Userver, error_body}

-- Done, or an access: what it makes of the server, and the rest by what it saw there.
pub data Task (A : Type 0) : Type 0 where
  finished : A → Task A
  access : (Server → Server) → (Server → Task A) → Task A

unfoldable pub then_task : {A B : Type 0} → Task A → (A → Task B) → Task B
then_task (finished a) f = f a
then_task (access effect rest) f = access effect (λ s. then_task (rest s) f)

-- A task that nothing interrupts.
unfoldable pub run_alone : {A : Type 0} → Task A → Server → A × Server
run_alone (finished a) s = (a, s)
run_alone (access effect rest) s = run_alone (rest s) (effect s)

-- Code that may throw, with the response that it fills.
abbrev pub Steps : Type 0 → Type 0
Steps A = HttpResponse → Task (Result A × HttpResponse)

module _ {A B : Type 0} where
  abbrev pub go_on : (A → Steps B) → Result A × HttpResponse → Task (Result B × HttpResponse)
  go_on f (ok a, r) = f a r
  go_on f (throws e, r) = finished (throws e, r)

  infixl 5 ◌>>=◌ ◌>>◌
  unfoldable pub ◌>>=◌ : Steps A → (A → Steps B) → Steps B
  unfolding then_task
  ◌>>=◌ m f r = then_task (m r) (go_on f)

  abbrev pub ◌>>◌ : Steps A → Steps B → Steps B
  m >> n = m >>= λ _. n

module _ {A : Type 0} where
  unfoldable pub pure : A → Steps A
  pure a r = finished (ok a, r)

  unfoldable pub lift : Result A → Steps A
  lift result r = finished (result, r)

  -- One call under a lock, or one statement.
  unfoldable pub atomically : (Server → Result A × Server) → Steps A
  atomically m r = access (λ s. (m s).1) (λ s. finished ((m s).0, r))

  abbrev pub on_storage : Action TaxiStorage A → Server → Result A × Server
  on_storage m s = let (a, t) = m s.storage in (a, record s { storage = t })

  abbrev pub on_cache : (ResponseCache → A × ResponseCache) → Server → Result A × Server
  on_cache m s = let (a, c) = m s.cache in (ok a, record s { cache = c })

  abbrev pub on_limiter : (RateLimiter → A × RateLimiter) → Server → Result A × Server
  on_limiter m s = let (a, l) = m s.limiter in (ok a, record s { limiter = l })

  unfoldable pub with_storage : Action TaxiStorage A → Steps A
  unfolding atomically
  with_storage m = atomically (on_storage m)

  unfoldable pub with_db : Action Database A → Steps A
  unfolding with_storage
  with_db m = with_storage (on_db m)

  unfoldable pub with_cache : (ResponseCache → A × ResponseCache) → Steps A
  unfolding atomically
  with_cache m = atomically (on_cache m)

  unfoldable pub with_limiter : (RateLimiter → A × RateLimiter) → Steps A
  unfolding atomically
  with_limiter m = atomically (on_limiter m)

unfoldable pub set_response : (HttpResponse → HttpResponse) → Steps (Unit {0})
set_response f r = finished (ok tt, f r)

abbrev pub set_status : HttpStatus → Steps (Unit {0})
set_status code = set_response (λ r. record r { status = code })

abbrev pub set_content_type : String → Steps (Unit {0})
set_content_type t = set_response (λ r. record r { content_type = t })

abbrev pub set_header : String → String → Steps (Unit {0})
set_header name value = set_response (λ r. record r { headers = assign name value r.headers })

abbrev pub refuse : Userver → HttpStatus → String → Steps String
refuse lib code message = do set_status code; pure (error_body lib message)
