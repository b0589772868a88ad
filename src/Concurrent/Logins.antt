-- ===== src/Concurrent/Logins.antt =====
-- The user of a login, while requests arrive and take turns in any order (src/handlers/users_get.cpp,
-- users_create.cpp).
use taxi_lab.Base.{
  ◌≡◌, ◌≢◌, refl, sym, ap, ◌∙◌, subst, ℕ, true, false, inl, inr, Bool-cases, List, [], ◌∷◌, Mem,
  eq-or-mem_of_mem-cons, not-mem-nil, Option, none, some, String, Result, ok, throws, Exception,
  is_empty,
}
use mathlib.Core.Logic.{∥∥₁_elim}
use text.Mathlib.TextEquality.{IsScalar-prop}
use taxi_lab.Models.{User}
use taxi_lab.Database.Rows.{Database}
use taxi_lab.Database.Invariant.{WellFormed}
use taxi_lab.Storage.{
  TaxiStorage, issue_token, get_user_by_login, find_users_by_name_mask, get_rides_by_user_id,
  get_active_rides,
}
use taxi_lab.Storage.Users.{get_user_by_login_lem}
use taxi_lab.Storage.Changes.{
  create_driver-users, create_ride-ChangesRides, accept_ride-ChangesRides,
  complete_ride-ChangesRides,
}
use taxi_lab.Storage.WellFormed.{
  create_user-WellFormed, create_driver-WellFormed, create_ride-WellFormed, accept_ride-WellFormed,
  complete_ride-WellFormed,
}
use taxi_lab.Storage.Logins.{Finds, Finds-users, create_user-Finds}
use taxi_lab.Http.{Userver, Server, HttpRequest, Moment, status_ok, not_found, unauthorized}
use taxi_lab.Service.{get_users}
use taxi_lab.Service.Sound.{IsSound}
use taxi_lab.Handlers.Coherence.Users.{login_answer, users_answer}
use taxi_lab.Concurrent.Task.{finished}
use taxi_lab.Concurrent.Everywhere.{HoldsOfWrites, HoldsOfReads}
use taxi_lab.Concurrent.Everywhere.Run.{Counts, EachCounts, happens-EachCounts, happens-P}
use taxi_lab.Concurrent.History.Reads.{Outcome}
use taxi_lab.Concurrent.History.Good.{IsGood, happens-IsGood, sound-IsGood}
use taxi_lab.Concurrent.History.Run.{run_events-users_answer}
use taxi_lab.Concurrent.World.{World, idle, Event, happens, run_events, databases, request_at}

module _ (login : String) (user : User) where
  abbrev HasUser : ℕ → TaxiStorage → Type 0
  HasUser n t = WellFormed t.db × Finds login user t.db

  writes : HoldsOfWrites (Counts HasUser)
  unfolding issue_token get_user_by_login
  writes = record {
    creates_user = λ now a b c n s h. (
      create_user-WellFormed now a b c s.storage.db h.0,
      create_user-Finds login user now a b c s.storage.db h.0 h.1,
    );
    creates_driver = λ owner a b c n s h. (
      create_driver-WellFormed owner a b c s.storage.db h.0,
      Finds-users login user s.storage.db _ (create_driver-users owner a b c s.storage.db).0 h.1,
    );
    creates_ride = λ now passenger a b n s h. (
      create_ride-WellFormed now passenger a b s.storage.db h.0,
      Finds-users login user s.storage.db _
          (create_ride-ChangesRides now passenger a b s.storage.db).0 h.1,
    );
    accepts = λ ride driver n s h. (
      accept_ride-WellFormed ride driver s.storage.db h.0,
      Finds-users login user s.storage.db _ (accept_ride-ChangesRides ride driver s.storage.db).0
          h.1,
    );
    completes = λ now ride n s h. (
      complete_ride-WellFormed now ride s.storage.db h.0,
      Finds-users login user s.storage.db _ (complete_ride-ChangesRides now ride s.storage.db).0
          h.1,
    );
    finds_user = λ other n s h. h;
    issues = λ owner n s h. h;
    invalidates = λ p n s h. h;
  }

  reads : HoldsOfReads (Counts HasUser)
  unfolding get_user_by_login find_users_by_name_mask get_rides_by_user_id get_active_rides
  reads = record {
    finds_user = λ other n s h. h;
    finds_users = λ lower mask n s h. h;
    finds_rides = λ owner n s h. h;
    finds_active = λ n s h. h;
    gets = λ k now n s h. h;
    sets = λ k v ttl now n s h. h;
    checks = λ k limit window now n s h. h;
    looks = λ n s h. h;
  }

  module _ (lib : Userver) where
    Known : World → Type 0
    Known world = EachCounts HasUser (λ n t h. h) writes reads lib world.requests

    happens-Finds :
        (event : Event) (world : World)
        → Known world
        → WellFormed world.server.storage.db
        → Finds login user world.server.storage.db
        → Finds login user (happens lib event world).server.storage.db
    unfolding Known
    happens-Finds event world known w found =
        (happens-P HasUser (λ n t h. h) writes reads lib event 0 world known (w, found)).1

    -- A user that some database had, the last one has.
    databases-Finds :
        (events : List Event) (past : List Database) (world : World)
        → IsGood lib past world.requests world.server
        → Known world
        → ((db : Database)
            → Mem db past
            → Finds login user db
            → Finds login user world.server.storage.db)
        → (db : Database) → Mem db (databases lib events world past)
        → Finds login user db
        → Finds login user (run_events lib events world).server.storage.db
    unfolding databases run_events Known
    databases-Finds [] past world good known h db was found = h db was found
    databases-Finds (event ∷ events) past world good known h db was found =
        databases-Finds events _ (happens lib event world)
          (happens-IsGood lib event past world good)
          (happens-EachCounts HasUser (λ n t h. h) writes reads lib event world known) still db was
          found
      where
        next : Database
        next = (happens lib event world).server.storage.db

        still : (d : Database) → Mem d (next ∷ past) → Finds login user d → Finds login user next
        still d m f = ∥∥₁_elim (eq-or-mem_of_mem-cons m) (hlevel (IsScalar-prop)) λ o. elim o [
          | inl same ↦ subst (Finds login user) same f
          | inr earlier ↦ happens-Finds event world known good.live.well_formed (h d earlier f)
        ]

    idle-Known : (start : Server) → Known (idle start)
    unfolding Known EachCounts
    idle-Known start = tt

    idle-Finds :
        (events : List Event) (start : Server)
        → IsSound lib start
        → (db : Database) → Mem db (databases lib events (idle start) (start.storage.db ∷ []))
        → Finds login user db
        → Finds login user (run_events lib events (idle start)).server.storage.db
    idle-Finds events start sound =
        databases-Finds events _ (idle start) (sound-IsGood lib start sound) (idle-Known start)
          λ db m found. ∥∥₁_elim (eq-or-mem_of_mem-cons m) (hlevel (IsScalar-prop)) λ o. elim o [
            | inl same ↦ subst (Finds login user) same found
            | inr earlier ↦ absurd (not-mem-nil earlier)
          ]

fine_is_found : status_ok ≢ not_found
fine_is_found h = cc

fine_is_allowed : status_ok ≢ unauthorized
fine_is_allowed h = cc

-- One more database answers a login query as this one, if this one told a user.
login_answer-later :
    (lib : Userver) (login : String) (db last : Database) (o : Outcome)
    → ((user : User) → Finds login user db → Finds login user last)
    → o.1.status ≡ status_ok
    → (o.0, o.1.status) ≡ login_answer lib (get_user_by_login login db).0 status_ok
    → (o.0, o.1.status) ≡ login_answer lib (get_user_by_login login last).0 status_ok
login_answer-later lib login db last o keeps fine is = of (get_user_by_login login db).0 refl is
  where
    of :
        (r : Result (Option User))
        → (get_user_by_login login db).0 ≡ r
        → (o.0, o.1.status) ≡ login_answer lib r status_ok
        → (o.0, o.1.status) ≡ login_answer lib (get_user_by_login login last).0 status_ok
    of (throws e) found told =
        absurd (never e (sym (ap (λ p. p.0) (get_user_by_login_lem login db)) ∙ found))
      where
        never : (e : Exception) {u : Option User} → ok u ≢ throws e
        never e h = cc
    of (ok none) found told = absurd (fine_is_found (sym fine ∙ ap (λ p. p.1) told))
    of (ok (some user)) found told =
        told ∙ ap (λ r. login_answer lib r status_ok) (sym (keeps user found))

module _ (lib : Userver) (request : HttpRequest) (db last : Database) where
  with_login :
      is_empty (request.arg "name_mask") ≡ true
      → is_empty (request.arg "login") ≡ false
      → users_answer lib request db status_ok
        ≡ login_answer lib (get_user_by_login (request.arg "login") db).0 status_ok
  with_login only a = rw (only, a) refl

  without_login :
      is_empty (request.arg "name_mask") ≡ true
      → is_empty (request.arg "login") ≡ true
      → users_answer lib request db status_ok ≡ users_answer lib request last status_ok
  without_login only a = rw (only, a) refl

-- From a sound server and for any order in which requests arrive and take turns, one access at a
-- time, a GET /users without a name_mask that is finished with status 200 answered what the
-- database gives at the end, however many events came behind it: a user that was told, cached or
-- not, stays right.
pub run_events-login_answer :
    (lib : Userver) (events : List Event) (start : Server) (n : ℕ) (moment : Moment)
    (request : HttpRequest) (o : Outcome)
    → IsSound lib start
    → request_at n (run_events lib events (idle start)).requests
      ≡ some (record {
        call = record { route = get_users; moment = moment; request = request };
        task = finished o;
      })
    → is_empty (request.arg "name_mask") ≡ true
    → o.1.status ≡ status_ok
    → (o.0, o.1.status)
      ≡ users_answer lib request (run_events lib events (idle start)).server.storage.db status_ok
run_events-login_answer lib events start n moment request o sound is only fine =
    let last = (run_events lib events (idle start)).server.storage.db in
    elim (run_events-users_answer lib events start n moment request o sound is) [
      | inl refused ↦ absurd (fine_is_allowed (sym fine ∙ refused))
      | inr (db, was, told) ↦ elim (Bool-cases (is_empty (request.arg "login"))) [
        | inl a ↦ told ∙ without_login lib request db last only a
        | inr a ↦
            login_answer-later lib (request.arg "login") db last o
              (λ user. idle-Finds (request.arg "login") user lib events start sound db was) fine
              (told ∙ with_login lib request db db only a)
            ∙ sym (with_login lib request last last only a)
      ]
    ]
