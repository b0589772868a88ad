-- ===== src/Concurrent/Accesses.antt =====
-- How often a task accesses the server, whatever other tasks do in between.
pub mod Respond
use taxi_lab.Base.{
  ◌≡◌, subst, arith, ℕ, zero, suc, ◌+◌, Bool, true, false, Option, none, some, String, Result, ok,
  throws, Action, if◌then◌else◌,
}
use taxi_lab.Models.{User, Driver, Ride}
use taxi_lab.Storage.{TaxiStorage}
use taxi_lab.Performance.Cache.{ResponseCache}
use taxi_lab.Performance.Limiter.{RateLimiter, RateLimitResult}
use taxi_lab.Http.{Userver, HttpRequest, HttpResponse, Server, Moment, new_response}
use taxi_lab.Middlewares.Auth.{is_public_request, lacks_bearer}
use taxi_lab.Service.{
  Route, post_users, get_users, post_auth_login, post_drivers, post_rides, get_rides,
  patch_rides_accept, patch_rides_complete, Call,
}
use taxi_lab.Concurrent.Task.{
  Task, finished, access, then_task, Steps, go_on, ◌>>=◌, pure, lift, with_storage, with_db,
  with_cache, with_limiter, set_response,
}
use taxi_lab.Concurrent.Writers.{
  user_created, users_create_steps, driver_created, drivers_create_steps, ride_created,
  rides_create_steps, ride_changed, rides_accept_steps, rides_complete_steps, logged_in,
  check_password_steps, storage_login_steps, auth_login_steps,
}
use taxi_lab.Concurrent.Readers.{
  cached_or, rate_limit_headers, user_found, login_steps, mask_steps, users_get_steps,
  history_steps, active_steps, limited_steps, rides_get_query_steps, rides_get_steps, reject_steps,
  handle_request_steps,
}
use taxi_lab.Concurrent.Requests.{serve_steps, respond_steps}

-- At most `n` accesses, whatever they find.
unfoldable pub Within : {A : Type 0} → ℕ → Task A → Type 0
Within n (finished a) = Unit
Within zero (access effect rest) = ⊥
Within (suc n) (access effect rest) = (s : Server) → Within n (rest s)

pub record Makes {A : Type 0} (n : ℕ) (m : Steps A) : Type 0 where
  pub within : (r : HttpResponse) → Within n (m r)

module _ {A B : Type 0} (n : ℕ) (f : A → Steps B) (h : (a : A) → Makes n (f a)) where
  goes_on : (p : Result A × HttpResponse) → Within n (go_on f p)
  unfolding Within
  goes_on (ok a, r) = (h a).within r
  goes_on (throws e, r) = tt

  pub Makes-lift_bind : (result : Result A) → Makes n (lift result >>= f)
  unfolding lift ◌>>=◌ then_task
  Makes-lift_bind result = record { within = λ r. goes_on (result, r) }

  pub Makes-with_storage_bind : (m : Action TaxiStorage A) → Makes (suc n) (with_storage m >>= f)
  unfolding with_storage ◌>>=◌ then_task Within
  Makes-with_storage_bind m = record { within = λ r s. goes_on _ }

  pub Makes-with_cache_bind :
      (m : ResponseCache → A × ResponseCache) → Makes (suc n) (with_cache m >>= f)
  unfolding with_cache ◌>>=◌ then_task Within
  Makes-with_cache_bind m = record { within = λ r s. (h (m s.cache).0).within r }

  pub Makes-with_limiter_bind :
      (m : RateLimiter → A × RateLimiter) → Makes (suc n) (with_limiter m >>= f)
  unfolding with_limiter ◌>>=◌ then_task Within
  Makes-with_limiter_bind m = record { within = λ r s. (h (m s.limiter).0).within r }

module _ {A : Type 0} (n : ℕ) where
  pub Makes-set_bind :
      (g : HttpResponse → HttpResponse) (f : Unit {0} → Steps A)
      → Makes n (f tt)
      → Makes n (set_response g >>= f)
  unfolding set_response ◌>>=◌ then_task
  Makes-set_bind g f h = record { within = λ r. h.within (g r) }

  pub Makes-pure : (a : A) → Makes n (pure a)
  unfolding pure Within
  Makes-pure a = record { within = λ r. tt }

  pub Makes-with_storage : (m : Action TaxiStorage A) → Makes (suc n) (with_storage m)
  unfolding with_storage Within
  Makes-with_storage m = record { within = λ r s. tt }

  pub Makes-if :
      (b : Bool) (m m' : Steps A) → Makes n m → Makes n m' → Makes n (if b then m else m')
  Makes-if true m m' p q = p
  Makes-if false m m' p q = q

Within-suc : {A : Type 0} (n : ℕ) (t : Task A) → Within n t → Within (suc n) t
unfolding Within
Within-suc n (finished a) h = tt
Within-suc zero (access effect rest) h = elim h [ ]
Within-suc (suc n) (access effect rest) h = λ s. Within-suc n (rest s) (h s)

Within-then_task :
    {A B : Type 0} (n k : ℕ) (t : Task A) (f : A → Task B)
    → Within n t
    → ((a : A) → Within k (f a))
    → Within (n + k) (then_task t f)
unfolding Within then_task
Within-then_task zero k (finished a) f h g =
    let same : k ≡ 0 + k = omega arith in subst (λ n. Within n (f a)) same (g a)
Within-then_task zero k (access effect rest) f h g = elim h [ ]
Within-then_task (suc n) k (finished a) f h g =
    let same : suc (n + k) ≡ suc n + k = omega arith in
    subst (λ n. Within n (f a)) same
      (Within-suc (n + k) (f a) (Within-then_task n k (finished a) f tt g))
Within-then_task (suc n) k (access effect rest) f h g =
    let same : suc (n + k) ≡ suc n + k = omega arith in
    subst (λ n. Within n (access effect (λ s. then_task (rest s) f))) same
      (λ s. Within-then_task n k (rest s) f (h s) g)

pub more : {A : Type 0} (n : ℕ) (m : Steps A) → Makes n m → Makes (suc n) m
more n m h = record { within = λ r. Within-suc n (m r) (h.within r) }

pub Makes-bind :
    {A B : Type 0} (n k : ℕ) (m : Steps A) (f : A → Steps B)
    → Makes n m
    → ((a : A) → Makes k (f a))
    → Makes (n + k) (m >>= f)
unfolding ◌>>=◌
Makes-bind n k m f h g = record {
  within = λ r. Within-then_task n k (m r) (go_on f) (h.within r) (goes_on k f g);
}

pub ruleset access_rules = (
  Makes-pure, Makes-if, Makes-set_bind, Makes-lift_bind, Makes-with_storage_bind,
  Makes-with_storage, Makes-with_cache_bind, Makes-with_limiter_bind,
)
