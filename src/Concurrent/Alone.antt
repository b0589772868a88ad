-- ===== src/Concurrent/Alone.antt =====
-- A task that nothing interrupts against the handler that is one action.
pub mod Writers
pub mod Readers
pub mod Respond
use taxi_lab.Base.{
  ◌≡◌, refl, ap, ◌∙◌, Bool, true, false, Option, none, some, String, Result, ok, throws, Action,
  proceed, if◌then◌else◌, ◌>>=◌ as bind,
}
use taxi_lab.Base
use taxi_lab.Storage.{TaxiStorage}
use taxi_lab.Performance.Cache.{ResponseCache}
use taxi_lab.Performance.Limiter.{RateLimiter}
use taxi_lab.Http.{Server, HttpResponse, Exchange, Handler}
use taxi_lab.Http
use taxi_lab.Concurrent.Task.{
  Task, finished, access, then_task, run_alone, Steps, go_on, ◌>>=◌, pure, lift, atomically,
  on_storage, on_cache, on_limiter, with_storage, with_cache, with_limiter, set_response,
}

run_alone-then_task :
    {A B : Type 0} (t : Task A) (f : A → Task B) (s : Server)
    → run_alone (then_task t f) s ≡ run_alone (f (run_alone t s).0) (run_alone t s).1
unfolding run_alone then_task
run_alone-then_task (finished a) f s = refl
run_alone-then_task (access effect rest) f s = run_alone-then_task (rest s) f (effect s)

abbrev pub parts : {A : Type 0} → Result A × Exchange → (Result A × HttpResponse) × Server
parts (r, x) = ((r, x.response), x.server)

abbrev pub at : Server → HttpResponse → Exchange
at s r = record { server = s; response = r }

pub record Agrees {A : Type 0} (m : Steps A) (h : Handler A) : Type 0 where
  pub runs : (s : Server) (r : HttpResponse) → run_alone (m r) s ≡ parts (h (at s r))

module _ {A B : Type 0} where
  bind_runs :
      (f : A → Steps B) (g : A → Handler B)
      → ((a : A) → Agrees (f a) (g a))
      → (o : Result A × Exchange)
      → run_alone (go_on f (parts o).0) (parts o).1 ≡ parts (proceed o g)
  unfolding run_alone
  bind_runs f g h (ok a, x) = (h a).runs x.server x.response
  bind_runs f g h (throws e, x) = refl

  pub Agrees-bind :
      (m : Steps A) (n : Handler A) (f : A → Steps B) (g : A → Handler B)
      → Agrees m n
      → ((a : A) → Agrees (f a) (g a))
      → Agrees (m >>= f) (bind n g)
  unfolding ◌>>=◌
  Agrees-bind m n f g h k = record {
    runs = λ s r.
        run_alone-then_task (m r) (go_on f) s
        ∙ ap (λ p. run_alone (go_on f p.0) p.1) (h.runs s r)
        ∙ bind_runs f g k (n (at s r));
  }

  storage_bind_runs :
      (f : A → Steps B) (g : A → Action TaxiStorage B)
      → ((a : A) → Agrees (f a) (Http.with_storage (g a)))
      → (o : Result A × TaxiStorage) (s : Server) (r : HttpResponse)
      → run_alone (go_on f (o.0, r)) (record s { storage = o.1 })
        ≡ ((((proceed o g).0, r), record s { storage = (proceed o g).1 }))
  unfolding run_alone
  storage_bind_runs f g h (ok a, t) s r = (h a).runs (record s { storage = t }) r
  storage_bind_runs f g h (throws e, t) s r = refl

  -- One method of the storage, in two accesses.
  pub Agrees-storage_bind :
      (m : Action TaxiStorage A) (f : A → Steps B) (g : A → Action TaxiStorage B)
      → ((a : A) → Agrees (f a) (Http.with_storage (g a)))
      → Agrees (with_storage m >>= f) (Http.with_storage (bind m g))
  unfolding ◌>>=◌ with_storage run_alone then_task
  Agrees-storage_bind m f g h = record { runs = λ s r. storage_bind_runs f g h (m s.storage) s r }

module _ {A : Type 0} where
  pub Agrees-pure : (a : A) → Agrees (pure a) (Base.pure a)
  unfolding pure run_alone
  Agrees-pure a = record { runs = λ s r. refl }

  pub Agrees-lift : (a : Result A) → Agrees (lift a) (Base.lift a)
  unfolding lift run_alone
  Agrees-lift a = record { runs = λ s r. refl }

  pub Agrees-with_storage :
      (m : Action TaxiStorage A) → Agrees (with_storage m) (Http.with_storage m)
  unfolding with_storage run_alone
  Agrees-with_storage m = record { runs = λ s r. refl }

  pub Agrees-with_cache :
      (m : ResponseCache → A × ResponseCache) → Agrees (with_cache m) (Http.with_cache m)
  unfolding with_cache run_alone
  Agrees-with_cache m = record { runs = λ s r. refl }

  pub Agrees-with_limiter :
      (m : RateLimiter → A × RateLimiter) → Agrees (with_limiter m) (Http.with_limiter m)
  unfolding with_limiter run_alone
  Agrees-with_limiter m = record { runs = λ s r. refl }

  pub Agrees-if :
      (b : Bool) (m m' : Steps A) (h h' : Handler A)
      → Agrees m h
      → Agrees m' h'
      → Agrees (if b then m else m') (if b then h else h')
  Agrees-if true m m' h h' p q = p
  Agrees-if false m m' h h' p q = q

  pub Agrees-if_storage :
      (b : Bool) (m : Action TaxiStorage A) (a : A)
      → Agrees
          (if b then with_storage m else pure a)
          (Http.with_storage (λ s. if b then m s else (ok a, s)))
  unfolding pure run_alone
  Agrees-if_storage true m a = Agrees-with_storage m
  Agrees-if_storage false m a = record { runs = λ s r. refl }

pub Agrees-set_response :
    (f : HttpResponse → HttpResponse)
    → Agrees (set_response f) (λ x. (ok tt, record x { response = f x.response }))
unfolding set_response run_alone
Agrees-set_response f = record { runs = λ s r. refl }

pub ruleset agree_rules = (
  Agrees-pure, Agrees-lift, Agrees-with_storage, Agrees-with_cache, Agrees-with_limiter, Agrees-if,
  Agrees-set_response, Agrees-bind,
)
