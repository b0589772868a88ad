-- ===== src/Concurrent/History/Users.antt =====
-- GET /users between other requests (src/handlers/users_get.cpp).
use taxi_lab.Base.{
  ◌≡◌, refl, sym, subst, List, ◌∷◌, Option, none, some, String, Result, ok, throws, is_empty, inl,
  inr, Bool-cases, Mem, mem-cons_of_mem,
}
use taxi_lab.Models.{User}
use taxi_lab.Database.Rows.{Database}
use taxi_lab.Performance.Cache.{get, set, seconds}
use taxi_lab.Http.{Userver, HttpRequest, HttpStatus, Moment, HttpResponse, Server}
use taxi_lab.Storage.{get_user_by_login, find_users_by_name_mask}
use taxi_lab.Handlers.Keys.{
  login_key-injective, name_mask_key-injective, login-ne-name_mask, login-ne-history,
  login-ne-active, name_mask-ne-history, name_mask-ne-active,
}
use taxi_lab.Handlers.UsersGet.{login_key, name_mask_key, user_body, users_body}
use taxi_lab.Handlers.Coherence.{Holds-hit, LoginSays, MaskSays}
use taxi_lab.Handlers.Coherence.Answers.{list_answer}
use taxi_lab.Handlers.Coherence.Users.{
  login_answer, users_answer, get_user_by_login-db, find_users_by_name_mask-db,
}
use taxi_lab.Concurrent.Task.{
  go_on, ◌>>=◌, then_task, pure, with_storage, with_db, with_cache, set_response,
}
use taxi_lab.Concurrent.Readers.{cached_or, user_found, login_steps, mask_steps, users_get_steps}
use taxi_lab.Concurrent.History.{Once, Meets, IsLive, IsLive-storage, IsLive-cache, WasCoherent-set}
use taxi_lab.Concurrent.History.Reads.{Outcome, Reads, cached-Meets}

module _ (lib : Userver) (moment : Moment) where
  abbrev LoginReads : String → HttpStatus → List Database → Outcome → Type 0
  LoginReads login st = Reads (λ db. login_answer lib (get_user_by_login login db).0 st)

  abbrev MaskReads : String → HttpStatus → List Database → Outcome → Type 0
  MaskReads mask st =
      Reads
        (λ db. list_answer lib (users_body lib) (find_users_by_name_mask lib.lower mask db).0 st)

  -- What the database answered is told, and kept if it is a user.
  user_found-Meets :
      (login : String) (o : Result (Option User)) (db : Database) (past : List Database)
      (r : HttpResponse)
      → Mem db past
      → (get_user_by_login login db).0 ≡ o
      → Meets lib (LoginReads login r.status) past (go_on (user_found lib moment login) (o, r))
  unfolding Meets user_found set_response pure with_cache ◌>>=◌ then_task
  user_found-Meets login (throws e) db past r was found = (db, was, rw found refl)
  user_found-Meets login (ok none) db past r was found = (db, was, rw found refl)
  user_found-Meets login (ok (some user)) db past r was found = λ later s ext live. (
    IsLive-cache lib later s _
        (WasCoherent-set lib later (login_key login) (user_body lib user) _ moment.write s.cache
          (λ n same. (
            db,
            ext db was,
            (
              user,
              subst (λ l. (get_user_by_login l db).0 ≡ ok (some user))
                  (login_key-injective login n same) found,
              refl,
            ),
          ))
          (λ n same. absurd (login-ne-name_mask login n same))
          (λ n same. absurd (login-ne-history login n same))
          (λ n same. absurd (login-ne-active login same)) live.was_coherent)
        live,
    (db, mem-cons_of_mem _ (ext db was), rw found refl),
  )

  login-Meets :
      (login : String) (past : List Database) (r : HttpResponse)
      → Meets lib (LoginReads login r.status) past (login_steps lib moment login r)
  unfolding Meets login_steps with_db with_storage set_response ◌>>=◌ then_task
  login-Meets login past r = λ later s ext live. (
    rw (get_user_by_login-db login s.storage.db)
        (IsLive-storage lib later s s.storage live.well_formed live),
    user_found-Meets login (get_user_by_login login s.storage.db).0 s.storage.db _ _
        (mem-cons_of_mem _ live.now) refl,
  )

  mask_found-Meets :
      (mask : String) (o : Result (List User)) (db : Database) (past : List Database)
      (r : HttpResponse)
      → Mem db past
      → (find_users_by_name_mask lib.lower mask db).0 ≡ o
      → Meets lib (MaskReads mask r.status) past (
          go_on
            (λ users.
              with_cache (λ c.
                (tt, set (name_mask_key mask) (users_body lib users) (seconds 60) moment.write c))
              >>= λ _. pure (users_body lib users))
            (o, r))
  unfolding Meets set_response pure with_cache ◌>>=◌ then_task
  mask_found-Meets mask (throws e) db past r was found = (db, was, rw found refl)
  mask_found-Meets mask (ok users) db past r was found = λ later s ext live. (
    IsLive-cache lib later s _
        (WasCoherent-set lib later (name_mask_key mask) (users_body lib users) _ moment.write
          s.cache (λ n same. absurd (login-ne-name_mask n mask (sym same)))
          (λ n same. (
            db,
            ext db was,
            (
              users,
              subst (λ l. (find_users_by_name_mask lib.lower l db).0 ≡ ok users)
                  (name_mask_key-injective mask n same) found,
              refl,
            ),
          ))
          (λ n same. absurd (name_mask-ne-history mask n same))
          (λ n same. absurd (name_mask-ne-active mask same)) live.was_coherent)
        live,
    (db, mem-cons_of_mem _ (ext db was), rw found refl),
  )

  mask-Meets :
      (mask : String) (past : List Database) (r : HttpResponse)
      → Meets lib (MaskReads mask r.status) past (mask_steps lib moment mask r)
  unfolding Meets mask_steps with_db with_storage set_response ◌>>=◌ then_task
  mask-Meets mask past r = λ later s ext live. (
    rw (find_users_by_name_mask-db lib mask s.storage.db)
        (IsLive-storage lib later s s.storage live.well_formed live),
    mask_found-Meets mask (find_users_by_name_mask lib.lower mask s.storage.db).0 s.storage.db _ _
        (mem-cons_of_mem _ live.now) refl,
  )

  login_hit :
      (login v : String) (h : HttpResponse) (later : List Database) (s : Server)
      → IsLive lib later s
      → (get (login_key login) moment.read s.cache).0 ≡ some v
      → LoginReads login h.status (s.storage.db ∷ later) (ok v, h)
  login_hit login v h later s live hit =
      let (db, was, (user, found, body)) =
        Holds-hit login_key (Once later (LoginSays lib)) login moment.read s.cache v
          live.was_coherent.login hit in
      (db, mem-cons_of_mem _ was, rw (found, body) refl)

  mask_hit :
      (mask v : String) (h : HttpResponse) (later : List Database) (s : Server)
      → IsLive lib later s
      → (get (name_mask_key mask) moment.read s.cache).0 ≡ some v
      → MaskReads mask h.status (s.storage.db ∷ later) (ok v, h)
  mask_hit mask v h later s live hit =
      let (db, was, (users, found, body)) =
        Holds-hit name_mask_key (Once later (MaskSays lib)) mask moment.read s.cache v
          live.was_coherent.mask hit in
      (db, mem-cons_of_mem _ was, rw (found, body) refl)

  login_cached :
      (login : String) (past : List Database) (r : HttpResponse)
      → Meets lib (LoginReads login r.status) past (
          (with_cache (get (login_key login) moment.read)
              >>= cached_or (login_steps lib moment login))
            r)
  login_cached login past r =
      cached-Meets lib (LoginReads login r.status) (login_steps lib moment login) (login_key login)
        moment.read past r
        (λ later s v h live found same.
          subst (λ st. LoginReads login st (s.storage.db ∷ later) (ok v, h)) same
            (login_hit login v h later s live found))
        (λ later more. login-Meets login later r)

  mask_cached :
      (mask : String) (past : List Database) (r : HttpResponse)
      → Meets lib (MaskReads mask r.status) past (
          (with_cache (get (name_mask_key mask) moment.read)
              >>= cached_or (mask_steps lib moment mask))
            r)
  mask_cached mask past r =
      cached-Meets lib (MaskReads mask r.status) (mask_steps lib moment mask) (name_mask_key mask)
        moment.read past r
        (λ later s v h live found same.
          subst (λ st. MaskReads mask st (s.storage.db ∷ later) (ok v, h)) same
            (mask_hit mask v h later s live found))
        (λ later more. mask-Meets mask later r)

  pub users_get-Meets :
      (request : HttpRequest) (past : List Database) (r : HttpResponse) (db : Database)
      → Mem db past
      → Meets lib
          (Reads (λ db. users_answer lib request db r.status))
          past
          (users_get_steps lib moment request r)
  unfolding users_get_steps Meets pure set_response ◌>>=◌ then_task
  users_get-Meets request past r db was = elim (Bool-cases (is_empty (request.arg "login"))) [
    | inl a ↦ elim (Bool-cases (is_empty (request.arg "name_mask"))) [
      | inl b ↦ rw (a, b) (db, was, refl)
      | inr b ↦ rw (a, b) (mask_cached (request.arg "name_mask") past _)
    ]
    | inr a ↦ elim (Bool-cases (is_empty (request.arg "name_mask"))) [
      | inl b ↦ rw (a, b) (login_cached (request.arg "login") past _)
      | inr b ↦ rw (a, b) (db, was, refl)
    ]
  ]
