-- ===== src/Concurrent/Everywhere.antt =====
-- What is said of every access of a task, whatever the accesses find.
pub mod Writers
pub mod Readers
pub mod Run
use taxi_lab.Base.{
  ◌≡◌, ◌≢◌, refl, sym, ap, ◌∙◌, arith, ℕ, zero, suc, ◌+◌, ◌≤◌, ◌<◌, ℤ, List, [], ◌∷◌, ◌++◌, length,
  Option, none, some, String, Result, ok, throws, Bool, true, false, not, Action, if◌then◌else◌,
  ◌==◌, ◌||◌, subst,
}
use taxi_lab.Database.Rows.{Database}
use taxi_lab.Storage.{
  TaxiStorage, on_db, issue_token, create_user, create_driver, create_ride, accept_ride,
  complete_ride, get_user_by_login, find_users_by_name_mask, get_rides_by_user_id, get_active_rides,
}
use taxi_lab.Performance.Cache.{ResponseCache, get, set, invalidate_prefix}
use taxi_lab.Performance.Limiter.{RateLimiter, check}
use taxi_lab.Http.{HttpResponse, Server}
use taxi_lab.Concurrent.Task.{
  Task, finished, access, then_task, Steps, go_on, ◌>>=◌, pure, lift, on_storage, on_cache,
  on_limiter, with_storage, with_db, with_cache, with_limiter, set_response,
}

-- What a call makes of the server.
abbrev pub storage_effect : {A : Type 0} → Action TaxiStorage A → Server → Server
storage_effect m s = (on_storage m s).1

abbrev pub db_effect : {A : Type 0} → Action Database A → Server → Server
db_effect m = storage_effect (on_db m)

abbrev pub cache_effect : {A : Type 0} → (ResponseCache → A × ResponseCache) → Server → Server
cache_effect m s = (on_cache m s).1

abbrev pub limiter_effect : {A : Type 0} → (RateLimiter → A × RateLimiter) → Server → Server
limiter_effect m s = (on_limiter m s).1

module _ (Q : (Server → Server) → Type 0) where
  unfoldable pub Everywhere : {A : Type 0} → Task A → Type 0
  Everywhere (finished a) = Unit
  Everywhere (access effect rest) = Q effect × ((s : Server) → Everywhere (rest s))

  pub record Does {A : Type 0} (m : Steps A) : Type 0 where
    pub everywhere : (r : HttpResponse) → Everywhere (m r)

  -- The calls of the handlers that write.
  pub record HoldsOfWrites : Type 0 where
    pub creates_user : (now : ℕ) (a b c : String) → Q (db_effect (create_user now a b c))
    pub creates_driver : (user : ℤ) (a b c : String) → Q (db_effect (create_driver user a b c))
    pub creates_ride :
        (now : ℕ) (user : ℤ) (a b : String) → Q (db_effect (create_ride now user a b))
    pub accepts : (ride driver : ℤ) → Q (db_effect (accept_ride ride driver))
    pub completes : (now : ℕ) (ride : ℤ) → Q (db_effect (complete_ride now ride))
    pub finds_user : (login : String) → Q (db_effect (get_user_by_login login))
    pub issues : (user : ℤ) → Q (storage_effect (issue_token user))
    pub invalidates : (p : String) → Q (cache_effect (λ c. (tt {0}, invalidate_prefix p c)))

  -- The calls of the handlers that read, and of the middleware.
  pub record HoldsOfReads : Type 0 where
    pub finds_user : (login : String) → Q (db_effect (get_user_by_login login))
    pub finds_users :
        (lower : String → String) (mask : String)
        → Q (db_effect (find_users_by_name_mask lower mask))
    pub finds_rides : (user : ℤ) → Q (db_effect (get_rides_by_user_id user))
    pub finds_active : Q (db_effect get_active_rides)
    pub gets : (k : String) (now : ℕ) → Q (cache_effect (get k now))
    pub sets : (k v : String) (ttl now : ℕ) → Q (cache_effect (λ c. (tt {0}, set k v ttl now c)))
    pub checks : (k : String) (limit window now : ℕ) → Q (limiter_effect (check k limit window now))
    pub looks : Q (λ s. s)

  module _ {A B : Type 0} where
    then_task-Everywhere :
        (t : Task A) (f : A → Task B)
        → Everywhere t
        → ((a : A) → Everywhere (f a))
        → Everywhere (then_task t f)
    unfolding Everywhere then_task
    then_task-Everywhere (finished a) f h k = k a
    then_task-Everywhere (access effect rest) f h k =
        (h.0, λ s. then_task-Everywhere (rest s) f (h.1 s) k)

  module _ {A B : Type 0} where
    goes_on :
        (f : A → Steps B)
        → ((a : A) → Does (f a))
        → (o : Result A × HttpResponse) → Everywhere (go_on f o)
    unfolding Everywhere
    goes_on f h (ok a, r) = (h a).everywhere r
    goes_on f h (throws e, r) = tt

    pub Does-bind :
        (m : Steps A) (f : A → Steps B) → Does m → ((a : A) → Does (f a)) → Does (m >>= f)
    unfolding ◌>>=◌
    Does-bind m f h k = record {
      everywhere = λ r. then_task-Everywhere (m r) (go_on f) (h.everywhere r) (goes_on f k);
    }

  module _ {A : Type 0} where
    pub Does-pure : (a : A) → Does (pure a)
    unfolding Everywhere pure
    Does-pure a = record { everywhere = λ r. tt }

    pub Does-lift : (a : Result A) → Does (lift a)
    unfolding Everywhere lift
    Does-lift a = record { everywhere = λ r. tt }

    pub Does-if : (b : Bool) (m m' : Steps A) → Does m → Does m' → Does (if b then m else m')
    Does-if true m m' p q = p
    Does-if false m m' p q = q

    pub Does-with_storage :
        (m : Action TaxiStorage A) → Q (storage_effect m) → Does (with_storage m)
    unfolding Everywhere with_storage
    Does-with_storage m k = record { everywhere = λ r. (k, λ s. tt) }

    pub Does-with_db : (m : Action Database A) → Q (db_effect m) → Does (with_db m)
    unfolding with_db
    Does-with_db m k = Does-with_storage (on_db m) k

    pub Does-with_cache :
        (m : ResponseCache → A × ResponseCache) → Q (cache_effect m) → Does (with_cache m)
    unfolding Everywhere with_cache
    Does-with_cache m k = record { everywhere = λ r. (k, λ s. tt) }

    pub Does-with_limiter :
        (m : RateLimiter → A × RateLimiter) → Q (limiter_effect m) → Does (with_limiter m)
    unfolding Everywhere with_limiter
    Does-with_limiter m k = record { everywhere = λ r. (k, λ s. tt) }

  pub Does-set_response : (f : HttpResponse → HttpResponse) → Does (set_response f)
  unfolding Everywhere set_response
  Does-set_response f = record { everywhere = λ r. tt }

pub ruleset does_rules = (
  Does-bind, Does-pure, Does-lift, Does-if, Does-set_response, Does-with_storage, Does-with_db,
  Does-with_cache, Does-with_limiter,
)
