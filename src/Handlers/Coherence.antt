-- ===== src/Handlers/Coherence.antt =====
-- The bodies in the cache against the database: what an entry of each kind of key must say.
pub mod Writes
pub mod Answers
pub mod Users
pub mod Rides
use taxi_lab.Base.{
  subst, ◌≡◌, ◌≢◌, refl, sym, ap, ◌∙◌, false, true, Bool-cases, inl, inr, not, Option, some, none,
  List, String, starts_with, ◌==◌, ℕ, ◌+◌, ok, stoi, ℤ, find, assign, erase, keep_keys, find-assign,
  find-erase, find-keep_keys, map, eq_iff, arith, leb, if◌then◌else◌,
}
use taxi_lab.Models.{User, Ride}
use taxi_lab.Database.Rows.{Database}
use taxi_lab.Database.Users.{select_user_by_login, find_users_by_mask}
use taxi_lab.Database.Rides.{select_rides_by_user_id, select_active_rides}
use taxi_lab.Performance.Cache.{
  ResponseCache, Entry, empty_cache, get, get_found, set, invalidate_prefix,
}
use taxi_lab.Http.{Userver}
use taxi_lab.Storage.{
  get_user_by_login, find_users_by_name_mask, get_rides_by_user_id, get_active_rides,
}
use taxi_lab.Handlers.UsersGet.{login_key, name_mask_key, user_body, users_body}
use taxi_lab.Handlers.RidesGet.{history_key, active_key, rides_body}
use taxi_lab.Handlers.Keys.{
  login_key-users, name_mask_key-users, history_key-rides, active_key-rides,
}

-- Whatever the cache holds for the keys of one kind is said of their names.
abbrev pub Holds : (String → String) → (String → String → Type 0) → ResponseCache → Type 0
Holds key Says c = (n : String) (e : Entry) → find (key n) c.entries ≡ some e → Says n e.value

module _ (key : String → String) (Says : String → String → Type 0) where
  pub Holds-get :
      (k : String) (now : ℕ) (c : ResponseCache) → Holds key Says c → Holds key Says (get k now c).1
  unfolding get get_found
  Holds-get k now c h n e = of (find k c.entries)
    where
      of :
          (o : Option Entry)
          → find (key n) (get_found o k now c).1.entries ≡ some e
          → Says n e.value
      of none found = h n e found
      of (some entry) found = h n e (ground (arith, find-erase k (key n) c.entries))

  -- What a hit returns was said of the key's name.
  pub Holds-hit :
      (n : String) (now : ℕ) (c : ResponseCache) (v : String)
      → Holds key Says c
      → (get (key n) now c).0 ≡ some v
      → Says n v
  unfolding get get_found
  Holds-hit n now c v h hit = of (find (key n) c.entries) refl hit
    where
      of :
          (o : Option Entry)
          → find (key n) c.entries ≡ o
          → (get_found o (key n) now c).0 ≡ some v
          → Says n v
      of none found hit = cc
      of (some entry) found hit =
          let value : entry.value ≡ v = ground arith in subst (Says n) value (h n entry found)

  pub Holds-set :
      (k v : String) (ttl now : ℕ) (c : ResponseCache)
      → ((n : String) → k ≡ key n → Says n v)
      → Holds key Says c
      → Holds key Says (set k v ttl now c)
  unfolding set
  Holds-set k v ttl now c says h n e found = elim (Bool-cases (k == key n)) [
    | inl same ↦
        let is : some (record { value = v; expires_at = now + ttl }) ≡ some e =
          ground (
            arith,
            find-assign k (key n) (record { value = v; expires_at = now + ttl }) c.entries,
          ) in
        let value : v ≡ e.value = cc in subst (Says n) value (says n ((eq_iff k (key n)).0 same))
    | inr other ↦ h n e (
        ground
          (arith, find-assign k (key n) (record { value = v; expires_at = now + ttl }) c.entries))
  ]

  pub Holds-invalidate_prefix :
      (p : String) (c : ResponseCache) → Holds key Says c → Holds key Says (invalidate_prefix p c)
  unfolding invalidate_prefix
  Holds-invalidate_prefix p c h n e found =
      h n e (ground (arith, find-keep_keys (λ k. not (starts_with k p)) (key n) c.entries))

  -- After its prefix was invalidated, no key of the kind is there.
  pub Holds-invalidated :
      (p : String) (c : ResponseCache)
      → ((n : String) → starts_with (key n) p ≡ true)
      → Holds key Says (invalidate_prefix p c)
  unfolding invalidate_prefix
  Holds-invalidated p c begins n e found =
      absurd
        (ground (arith, find-keep_keys (λ k. not (starts_with k p)) (key n) c.entries, begins n))

module _ (lib : Userver) where
  -- The body for a login, a name mask, a ride history or the active rides is what the database
  -- answers, printed.
  abbrev pub LoginSays : Database → String → String → Type 0
  LoginSays db name body =
      (u : User) × ((get_user_by_login name db).0 ≡ ok (some u)) × (body ≡ user_body lib u)

  abbrev pub MaskSays : Database → String → String → Type 0
  MaskSays db mask body =
      (us : List User) × ((find_users_by_name_mask lib.lower mask db).0 ≡ ok us)
      × (body ≡ users_body lib us)

  abbrev pub HistorySays : Database → String → String → Type 0
  HistorySays db arg body =
      (id : ℤ) × (stoi arg ≡ ok id)
      × ((rides : List Ride) × ((get_rides_by_user_id id db).0 ≡ ok rides)
          × (body ≡ rides_body lib rides))

  abbrev pub ActiveSays : Database → String → String → Type 0
  ActiveSays db unused body =
      (rides : List Ride) × ((get_active_rides db).0 ≡ ok rides) × (body ≡ rides_body lib rides)

  pub record Coherent (db : Database) (c : ResponseCache) : Type 0 where
    pub login : Holds login_key (LoginSays db) c
    pub mask : Holds name_mask_key (MaskSays db) c
    pub history : Holds history_key (HistorySays db) c
    pub active : Holds (λ unused. active_key) (ActiveSays db) c

  module _ (db db' : Database) where
    LoginSays-users : db.users ≡ db'.users → (n v : String) → LoginSays db n v → LoginSays db' n v
    unfolding get_user_by_login select_user_by_login
    LoginSays-users e n v (u, found, body) = rw (← e) (u, found, body)

    MaskSays-users : db.users ≡ db'.users → (n v : String) → MaskSays db n v → MaskSays db' n v
    unfolding find_users_by_name_mask find_users_by_mask
    MaskSays-users e n v (us, found, body) = rw (← e) (us, found, body)

    HistorySays-rides :
        db.rides ≡ db'.rides → (n v : String) → HistorySays db n v → HistorySays db' n v
    unfolding get_rides_by_user_id select_rides_by_user_id
    HistorySays-rides e n v h = rw (← e) h

    ActiveSays-rides :
        db.rides ≡ db'.rides → (n v : String) → ActiveSays db n v → ActiveSays db' n v
    unfolding get_active_rides select_active_rides
    ActiveSays-rides e n v h = rw (← e) h

    -- A database with the same users and rides.
    pub Coherent-same :
        (c : ResponseCache)
        → db.users ≡ db'.users
        → db.rides ≡ db'.rides
        → Coherent db c
        → Coherent db' c
    Coherent-same c users rides h = record {
      login = λ n e found. LoginSays-users users n e.value (h.login n e found);
      mask = λ n e found. MaskSays-users users n e.value (h.mask n e found);
      history = λ n e found. HistorySays-rides rides n e.value (h.history n e found);
      active = λ n e found. ActiveSays-rides rides n e.value (h.active n e found);
    }

    -- Other users, and the keys of users invalidated.
    pub Coherent-users :
        (c : ResponseCache)
        → db.rides ≡ db'.rides
        → Coherent db c
        → Coherent db' (invalidate_prefix "users:" c)
    Coherent-users c rides h = record {
      login = Holds-invalidated login_key (LoginSays db') "users:" c login_key-users;
      mask = Holds-invalidated name_mask_key (MaskSays db') "users:" c name_mask_key-users;
      history =
          Holds-invalidate_prefix history_key (HistorySays db') "users:" c
            (λ n e found. HistorySays-rides rides n e.value (h.history n e found));
      active =
          Holds-invalidate_prefix (λ unused. active_key) (ActiveSays db') "users:" c
            (λ n e found. ActiveSays-rides rides n e.value (h.active n e found));
    }

    -- Other rides, and the keys of rides invalidated.
    pub Coherent-rides :
        (c : ResponseCache)
        → db.users ≡ db'.users
        → Coherent db c
        → Coherent db' (invalidate_prefix "rides:" c)
    Coherent-rides c users h = record {
      login =
          Holds-invalidate_prefix login_key (LoginSays db') "rides:" c
            (λ n e found. LoginSays-users users n e.value (h.login n e found));
      mask =
          Holds-invalidate_prefix name_mask_key (MaskSays db') "rides:" c
            (λ n e found. MaskSays-users users n e.value (h.mask n e found));
      history = Holds-invalidated history_key (HistorySays db') "rides:" c history_key-rides;
      active =
          Holds-invalidated (λ unused. active_key) (ActiveSays db') "rides:" c
            (λ _. active_key-rides);
    }

  module _ (db : Database) where
    -- Any prefix may be invalidated, and any key read.
    pub Coherent-invalidate_prefix :
        (p : String) (c : ResponseCache) → Coherent db c → Coherent db (invalidate_prefix p c)
    Coherent-invalidate_prefix p c h = record {
      login = Holds-invalidate_prefix login_key (LoginSays db) p c h.login;
      mask = Holds-invalidate_prefix name_mask_key (MaskSays db) p c h.mask;
      history = Holds-invalidate_prefix history_key (HistorySays db) p c h.history;
      active = Holds-invalidate_prefix (λ unused. active_key) (ActiveSays db) p c h.active;
    }

    pub Coherent-get :
        (k : String) (now : ℕ) (c : ResponseCache) → Coherent db c → Coherent db (get k now c).1
    Coherent-get k now c h = record {
      login = Holds-get login_key (LoginSays db) k now c h.login;
      mask = Holds-get name_mask_key (MaskSays db) k now c h.mask;
      history = Holds-get history_key (HistorySays db) k now c h.history;
      active = Holds-get (λ unused. active_key) (ActiveSays db) k now c h.active;
    }

    -- A body may be kept that says, for each kind of key, what the database answers.
    pub Coherent-set :
        (k v : String) (ttl now : ℕ) (c : ResponseCache)
        → ((n : String) → k ≡ login_key n → LoginSays db n v)
        → ((n : String) → k ≡ name_mask_key n → MaskSays db n v)
        → ((n : String) → k ≡ history_key n → HistorySays db n v)
        → ((n : String) → k ≡ active_key → ActiveSays db n v)
        → Coherent db c
        → Coherent db (set k v ttl now c)
    Coherent-set k v ttl now c a b d e h = record {
      login = Holds-set login_key (LoginSays db) k v ttl now c a h.login;
      mask = Holds-set name_mask_key (MaskSays db) k v ttl now c b h.mask;
      history = Holds-set history_key (HistorySays db) k v ttl now c d h.history;
      active = Holds-set (λ unused. active_key) (ActiveSays db) k v ttl now c e h.active;
    }

  -- An empty cache.
  pub empty_cache-Coherent : (db : Database) → Coherent db empty_cache
  unfolding find
  empty_cache-Coherent db = record {
    login = λ n e found. cc;
    mask = λ n e found. cc;
    history = λ n e found. cc;
    active = λ n e found. cc;
  }
