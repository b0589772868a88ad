-- ===== src/Concurrent/Alone/Readers.antt =====
-- The handlers that read, and the middleware, alone.
use taxi_lab.Base.{not, Option, none, some, String, Bool, true, false, ok, if◌then◌else◌}
use taxi_lab.Models.{User}
use taxi_lab.Http.{Userver, HttpRequest, Moment, Handler}
use taxi_lab.Concurrent.Task.{Steps, with_db, with_storage, run_alone, ◌>>=◌, then_task}
use taxi_lab.Concurrent.Readers.{
  cached_or, rate_limit_headers, user_found, login_steps, mask_steps, users_get_steps,
  history_steps, active_steps, limited_steps, rides_get_query_steps, rides_get_steps, reject_steps,
  handle_request_steps,
}
use taxi_lab.Concurrent.Alone.{Agrees, Agrees-if, agree_rules}
use taxi_lab.Performance.Limiter.{RateLimitResult}
use taxi_lab.Handlers.UsersGet.{or_cached, found_user, users_get_login, users_get_mask, users_get}
use taxi_lab.Handlers.RidesGet.{
  set_rate_limit_headers, rides_get_history, rides_get_active, limited, rides_get_query, rides_get,
}
use taxi_lab.Middlewares.Auth.{
  reject, handle_request, is_public_request, lacks_bearer, bearer_token,
}
use taxi_lab.Storage.{TaxiStorage, is_token_valid}

cached_or-Agrees :
    (m : Steps String) (h : Handler String) (o : Option String)
    → Agrees m h
    → Agrees (cached_or m o) (or_cached h o)
unfolding cached_or
cached_or-Agrees m h none p = p
cached_or-Agrees m h (some body) p = search agree_rules

rate_limit_headers-Agrees :
    (result : RateLimitResult) → Agrees (rate_limit_headers result) (set_rate_limit_headers result)
unfolding rate_limit_headers set_rate_limit_headers
rate_limit_headers-Agrees result = search agree_rules depth 10

module _ (lib : Userver) (moment : Moment) where
  user_found-Agrees :
      (login : String) (o : Option User)
      → Agrees (user_found lib moment login o) (found_user lib moment login o)
  unfolding user_found found_user
  user_found-Agrees login none = search agree_rules
  user_found-Agrees login (some user) = search agree_rules

  login-Agrees :
      (login : String) → Agrees (login_steps lib moment login) (users_get_login lib moment login)
  unfolding login_steps users_get_login with_db
  login-Agrees login = search (agree_rules, user_found-Agrees) depth 10

  mask-Agrees :
      (mask : String) → Agrees (mask_steps lib moment mask) (users_get_mask lib moment mask)
  unfolding mask_steps users_get_mask with_db
  mask-Agrees mask = search agree_rules depth 10

  pub users_get-Agrees :
      (request : HttpRequest)
      → Agrees (users_get_steps lib moment request) (users_get lib moment request)
  unfolding users_get_steps users_get
  users_get-Agrees request =
      search (agree_rules, cached_or-Agrees, login-Agrees, mask-Agrees) depth 20

  history-Agrees :
      (id : String) → Agrees (history_steps lib moment id) (rides_get_history lib moment id)
  unfolding history_steps rides_get_history with_db
  history-Agrees id = search agree_rules depth 15

  active-Agrees : Agrees (active_steps lib moment) (rides_get_active lib moment)
  unfolding active_steps rides_get_active with_db
  active-Agrees = search agree_rules depth 10

  limited-Agrees :
      (result : RateLimitResult) (m : Steps String) (h : Handler String)
      → Agrees m h
      → Agrees (limited_steps lib result m) (limited lib result h)
  unfolding limited_steps limited
  limited-Agrees result m h p =
      Agrees-if (not result.allowed) _ m _ h (search agree_rules depth 10) p

  rides_get_query-Agrees :
      (request : HttpRequest)
      → Agrees (rides_get_query_steps lib moment request) (rides_get_query lib moment request)
  unfolding rides_get_query_steps rides_get_query
  rides_get_query-Agrees request =
      search
        (
          agree_rules, cached_or-Agrees, history-Agrees, active-Agrees, limited-Agrees,
          rate_limit_headers-Agrees,
        )
        depth 20

  pub rides_get-Agrees :
      (request : HttpRequest)
      → Agrees (rides_get_steps lib moment request) (rides_get lib moment request)
  unfolding rides_get_steps rides_get
  rides_get-Agrees request = search (agree_rules, rides_get_query-Agrees) depth 20

reject-Agrees : (message : String) → Agrees (reject_steps message) (reject message)
reject-Agrees message = search agree_rules depth 10

module _ (m m' : Steps String) (h h' : Handler String) (p : Agrees m h) (q : Agrees m' h') where
  -- The choice that the handler makes on its own, or by what it reads in the storage.
  Agrees-choice : (b : Bool) → Agrees (if b then m else m') (λ x. if b then h x else h' x)
  Agrees-choice true = p
  Agrees-choice false = q

  Agrees-read :
      (f : TaxiStorage → Bool)
      → Agrees
          (with_storage (λ s. (ok (f s), s)) >>= λ b. if b then m else m')
          (λ x. if f x.server.storage then h x else h' x)
  unfolding with_storage run_alone ◌>>=◌ then_task
  Agrees-read f = record { runs = λ s r. (Agrees-choice (f s.storage)).runs s r }

pub handle_request-Agrees :
    (m : Steps String) (h : Handler String) (request : HttpRequest)
    → Agrees m h
    → Agrees (handle_request_steps m request) (handle_request h request)
unfolding handle_request_steps handle_request
handle_request-Agrees m h request p =
    Agrees-choice _ _ _ _ p
      (Agrees-choice _ _ _ _ (reject-Agrees _)
        (Agrees-read _ _ _ _ (reject-Agrees _) p
          (λ s. not (is_token_valid (bearer_token (request.header "Authorization")) s)))
        (lacks_bearer (request.header "Authorization")))
      (is_public_request request)
