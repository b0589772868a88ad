-- ===== src/Handlers/Coherence/Users.antt =====
-- GET /users through the cache (src/handlers/users_get.cpp).
use taxi_lab.Base.{
  ℕ, subst, ◌≡◌, refl, sym, inl, inr, not, bool_eq, Option, none, some, List, String, Result, ok,
  throws, is_empty, Bool-cases, if◌then◌else◌,
}
use taxi_lab.Models.{User}
use taxi_lab.Database.Rows.{Database}
use taxi_lab.Performance.Cache.{get}
use taxi_lab.Http.{
  Userver, HttpRequest, HttpStatus, bad_request, not_found, Moment, Exchange, error_body,
}
use taxi_lab.Storage.{get_user_by_login, find_users_by_name_mask}
use taxi_lab.Handlers.Keys.{
  login_key-injective, name_mask_key-injective, login-ne-name_mask, login-ne-history,
  login-ne-active, name_mask-ne-history, name_mask-ne-active,
}
use taxi_lab.Handlers.UsersGet.{
  login_key, name_mask_key, user_body, users_body, found_user, users_get_login, users_get_mask,
  users_get,
}
use taxi_lab.Handlers.Coherence.{Holds-hit, Coherent-get, Coherent-set, LoginSays, MaskSays}
use taxi_lab.Handlers.Coherence.Writes.{IsCoherent}
use taxi_lab.Handlers.Coherence.Answers.{Serves, list_answer, or_cached-Serves}

pub get_user_by_login-db : (login : String) (db : Database) → (get_user_by_login login db).1 ≡ db
unfolding get_user_by_login
get_user_by_login-db login db = refl

pub find_users_by_name_mask-db :
    (lib : Userver) (mask : String) (db : Database)
    → (find_users_by_name_mask lib.lower mask db).1 ≡ db
unfolding find_users_by_name_mask
find_users_by_name_mask-db lib mask db = refl

module _ (lib : Userver) where
  -- What GET /users answers by the database alone; `st` is the response's before.
  abbrev pub login_answer : Result (Option User) → HttpStatus → Result String × HttpStatus
  login_answer (throws e) st = (throws e, st)
  login_answer (ok none) st = (ok (error_body lib "user not found"), not_found)
  login_answer (ok (some user)) st = (ok (user_body lib user), st)

  abbrev pub users_answer : HttpRequest → Database → HttpStatus → Result String × HttpStatus
  users_answer request db st =
      if bool_eq (not (is_empty (request.arg "login"))) (not (is_empty (request.arg "name_mask")))
      then (ok (error_body lib "use exactly one query parameter: login or name_mask"), bad_request)
      else if not (is_empty (request.arg "login"))
      then login_answer (get_user_by_login (request.arg "login") db).0 st
      else list_answer lib (users_body lib)
          (find_users_by_name_mask lib.lower (request.arg "name_mask") db).0 st

  users_get_login-Serves :
      (moment : Moment) (login : String) (x : Exchange)
      → IsCoherent lib x
      → Serves lib
          (login_answer (get_user_by_login login x.server.storage.db).0 x.response.status)
          (users_get_login lib moment login x)
  unfolding users_get_login found_user
  users_get_login-Serves moment login x h = of (get_user_by_login login x.server.storage.db).0 refl
    where
      of :
          (r : Result (Option User))
          → (get_user_by_login login x.server.storage.db).0 ≡ r
          → Serves lib (login_answer r x.response.status) (users_get_login lib moment login x)
      of (throws e) found = rw (found, get_user_by_login-db login x.server.storage.db) (h, refl)
      of (ok none) found = rw (found, get_user_by_login-db login x.server.storage.db) (h, refl)
      of (ok (some user)) found =
          rw (found, get_user_by_login-db login x.server.storage.db)
            (
              Coherent-set lib _ (login_key login) (user_body lib user) _ moment.write
                  x.server.cache
                  (λ n same. (
                    user,
                    subst (λ l. (get_user_by_login l x.server.storage.db).0 ≡ ok (some user))
                        (login_key-injective login n same) found,
                    refl,
                  ))
                  (λ n same. absurd (login-ne-name_mask login n same))
                  (λ n same. absurd (login-ne-history login n same))
                  (λ n same. absurd (login-ne-active login same)) h,
              refl,
            )

  users_get_mask-Serves :
      (moment : Moment) (mask : String) (x : Exchange)
      → IsCoherent lib x
      → Serves lib
          (list_answer lib
            (users_body lib)
            (find_users_by_name_mask lib.lower mask x.server.storage.db).0
            x.response.status)
          (users_get_mask lib moment mask x)
  unfolding users_get_mask
  users_get_mask-Serves moment mask x h =
      of (find_users_by_name_mask lib.lower mask x.server.storage.db).0 refl
    where
      of :
          (r : Result (List User))
          → (find_users_by_name_mask lib.lower mask x.server.storage.db).0 ≡ r
          → Serves lib
              (list_answer lib (users_body lib) r x.response.status)
              (users_get_mask lib moment mask x)
      of (throws e) found =
          rw (found, find_users_by_name_mask-db lib mask x.server.storage.db) (h, refl)
      of (ok users) found =
          rw (found, find_users_by_name_mask-db lib mask x.server.storage.db)
            (
              Coherent-set lib _ (name_mask_key mask) (users_body lib users) _ moment.write
                  x.server.cache (λ n same. absurd (login-ne-name_mask n mask (sym same)))
                  (λ n same. (
                    users,
                    subst
                        (λ l.
                          (find_users_by_name_mask lib.lower l x.server.storage.db).0 ≡ ok users)
                        (name_mask_key-injective mask n same) found,
                    refl,
                  ))
                  (λ n same. absurd (name_mask-ne-history mask n same))
                  (λ n same. absurd (name_mask-ne-active mask same)) h,
              refl,
            )

  login_hit :
      (login v : String) (x : Exchange) (now : ℕ)
      → IsCoherent lib x
      → (get (login_key login) now x.server.cache).0 ≡ some v
      → (ok v, x.response.status)
        ≡ login_answer (get_user_by_login login x.server.storage.db).0 x.response.status
  login_hit login v x now h hit =
      let (user, found, body) =
        Holds-hit login_key (LoginSays lib x.server.storage.db) login now x.server.cache v h.login
          hit in
      rw (found, body) refl

  mask_hit :
      (mask v : String) (x : Exchange) (now : ℕ)
      → IsCoherent lib x
      → (get (name_mask_key mask) now x.server.cache).0 ≡ some v
      → (ok v, x.response.status)
        ≡ list_answer lib
            (users_body lib)
            (find_users_by_name_mask lib.lower mask x.server.storage.db).0
            x.response.status
  mask_hit mask v x now h hit =
      let (users, found, body) =
        Holds-hit name_mask_key (MaskSays lib x.server.storage.db) mask now x.server.cache v h.mask
          hit in
      rw (found, body) refl

  pub users_get-Serves :
      (moment : Moment) (request : HttpRequest) (x : Exchange)
      → IsCoherent lib x
      → Serves lib
          (users_answer request x.server.storage.db x.response.status)
          (users_get lib moment request x)
  unfolding users_get
  users_get-Serves moment request x h = elim (Bool-cases (is_empty (request.arg "login"))) [
    | inl a ↦ elim (Bool-cases (is_empty (request.arg "name_mask"))) [
      | inl b ↦ rw (a, b) (h, refl)
      | inr b ↦
          rw (a, b)
            (or_cached-Serves lib _ _ _ _
              (Coherent-get lib _ (name_mask_key (request.arg "name_mask")) moment.read
                x.server.cache h)
              (λ v hit. mask_hit (request.arg "name_mask") v x moment.read h hit)
              (users_get_mask-Serves moment (request.arg "name_mask") _ (
                Coherent-get lib _ (name_mask_key (request.arg "name_mask")) moment.read
                  x.server.cache h)))
    ]
    | inr a ↦ elim (Bool-cases (is_empty (request.arg "name_mask"))) [
      | inl b ↦
          rw (a, b)
            (or_cached-Serves lib _ _ _ _
              (Coherent-get lib _ (login_key (request.arg "login")) moment.read x.server.cache h)
              (λ v hit. login_hit (request.arg "login") v x moment.read h hit)
              (users_get_login-Serves moment (request.arg "login") _ (
                Coherent-get lib _ (login_key (request.arg "login")) moment.read x.server.cache h)))
      | inr b ↦ rw (a, b) (h, refl)
    ]
  ]
