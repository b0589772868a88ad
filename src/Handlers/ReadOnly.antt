-- ===== src/Handlers/ReadOnly.antt =====
-- The handlers of GET (src/handlers/users_get.cpp, rides_get.cpp) and the storage.
use taxi_lab.Base.{
  ◌∙◌, ◌≡◌, refl, ap, Bool, true, false, not, ◌&&◌, Option, none, some, String, ◌==◌, is_empty,
  stoi,
}
use taxi_lab.Models.{User}
use taxi_lab.Performance.Cache.{get}
use taxi_lab.Performance.Limiter.{RateLimitResult, check}
use taxi_lab.Http.{Userver, HttpRequest, Moment, Exchange, Handler}
use taxi_lab.Storage.{
  TaxiStorage, get_user_by_login, find_users_by_name_mask, get_rides_by_user_id, get_active_rides,
}
use taxi_lab.Handlers.Rules.{proceed_keeps, if_keeps, or_cached_keeps}
use taxi_lab.Handlers.UsersGet.{
  users_get, users_get_login, users_get_mask, found_user, login_key, name_mask_key,
}
use taxi_lab.Handlers.RidesGet.{
  rides_get, rides_get_query, rides_get_history, rides_get_active, limited, set_rate_limit_headers,
  history_key, active_key, active_rides_limit_per_minute,
}

module _ (lib : Userver) (moment : Moment) (s : TaxiStorage) where
  abbrev HasStorage : Exchange → Type 0
  HasStorage y = y.server.storage ≡ s

  found_user-HasStorage :
      (login : String) (o : Option User) (x : Exchange)
      → HasStorage x
      → HasStorage (found_user lib moment login o x).1
  unfolding found_user
  found_user-HasStorage login none x h = h
  found_user-HasStorage login (some user) x h = h

  users_get_login-HasStorage :
      (login : String) (x : Exchange)
      → HasStorage x
      → HasStorage (users_get_login lib moment login x).1
  unfolding users_get_login get_user_by_login
  users_get_login-HasStorage login x h =
      proceed_keeps HasStorage (get_user_by_login login x.server.storage.db).0 _ _ h
        λ o. found_user-HasStorage login o _ h

  users_get_mask-HasStorage :
      (mask : String) (x : Exchange)
      → HasStorage x
      → HasStorage (users_get_mask lib moment mask x).1
  unfolding users_get_mask find_users_by_name_mask
  users_get_mask-HasStorage mask x h =
      proceed_keeps HasStorage (find_users_by_name_mask lib.lower mask x.server.storage.db).0 _ _ h
        λ users. h

  rides_get_history-HasStorage :
      (arg : String) (x : Exchange)
      → HasStorage x
      → HasStorage (rides_get_history lib moment arg x).1
  unfolding rides_get_history get_rides_by_user_id
  rides_get_history-HasStorage arg x h = proceed_keeps HasStorage (stoi arg) _ _ h λ id.
      proceed_keeps HasStorage (get_rides_by_user_id id x.server.storage.db).0 _ _ h λ rides. h

  rides_get_active-HasStorage :
      (x : Exchange) → HasStorage x → HasStorage (rides_get_active lib moment x).1
  unfolding rides_get_active get_active_rides
  rides_get_active-HasStorage x h =
      proceed_keeps HasStorage (get_active_rides x.server.storage.db).0 _ _ h λ rides. h

  limited-HasStorage :
      (result : RateLimitResult) (serve : Handler String) (x : Exchange)
      → HasStorage x
      → HasStorage (serve x).1
      → HasStorage (limited lib result serve x).1
  unfolding limited
  limited-HasStorage result serve x h k = if_keeps HasStorage (not result.allowed) _ _ x h k

  users_get-HasStorage :
      (request : HttpRequest) (x : Exchange)
      → HasStorage x
      → HasStorage (users_get lib moment request x).1
  unfolding users_get
  users_get-HasStorage request x h =
      of (not (is_empty (request.arg "login"))) (not (is_empty (request.arg "name_mask"))) refl refl
    where
      of :
          (a b : Bool)
          → not (is_empty (request.arg "login")) ≡ a
          → not (is_empty (request.arg "name_mask")) ≡ b
          → HasStorage (users_get lib moment request x).1
      of true true e f = rw (e, f) h
      of false false e f = rw (e, f) h
      of true false e f =
          rw (e, f)
            (or_cached_keeps HasStorage
              (get (login_key (request.arg "login")) moment.read x.server.cache).0 _ _
              (λ y same. ap (λ z. z.storage) same ∙ h)
              (users_get_login-HasStorage (request.arg "login") _ h))
      of false true e f =
          rw (e, f)
            (or_cached_keeps HasStorage
              (get (name_mask_key (request.arg "name_mask")) moment.read x.server.cache).0 _ _
              (λ y same. ap (λ z. z.storage) same ∙ h)
              (users_get_mask-HasStorage (request.arg "name_mask") _ h))

  rides_get-HasStorage :
      (request : HttpRequest) (x : Exchange)
      → HasStorage x
      → HasStorage (rides_get lib moment request x).1
  unfolding rides_get rides_get_query set_rate_limit_headers
  rides_get-HasStorage request x h =
      if_keeps HasStorage
        (is_empty (request.arg "user_id") && not (request.arg "status" == "active")) _ _ _ h
        (if_keeps HasStorage (not (is_empty (request.arg "user_id"))) _ _ _
          (or_cached_keeps HasStorage
            (get (history_key (request.arg "user_id")) moment.read x.server.cache).0 _ _
            (λ y same. ap (λ z. z.storage) same ∙ h)
            (rides_get_history-HasStorage (request.arg "user_id") _ h))
          (limited-HasStorage
            (check "GET:/rides?status=active" active_rides_limit_per_minute 60 moment.system
              x.server.limiter).0
            _ _ h
            (or_cached_keeps HasStorage (get active_key moment.read x.server.cache).0 _ _
              (λ y same. ap (λ z. z.storage) same ∙ h) (rides_get_active-HasStorage _ h))))

module _ (lib : Userver) (moment : Moment) (request : HttpRequest) (x : Exchange) where
  pub users_get-storage : (users_get lib moment request x).1.server.storage ≡ x.server.storage
  users_get-storage = users_get-HasStorage lib moment x.server.storage request x refl

  pub rides_get-storage : (rides_get lib moment request x).1.server.storage ≡ x.server.storage
  rides_get-storage = rides_get-HasStorage lib moment x.server.storage request x refl

  -- GET /users and GET /rides leave the storage as it was, on every branch.
  pub read_only :
      ((users_get lib moment request x).1.server.storage ≡ x.server.storage)
      × ((rides_get lib moment request x).1.server.storage ≡ x.server.storage)
  read_only = (users_get-storage, rides_get-storage)
