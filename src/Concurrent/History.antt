-- ===== src/Concurrent/History.antt =====
-- The servers that requests leave to each other: the database as it must be, and the cache against
-- the databases that there were.
pub mod Writers
pub mod Reads
pub mod Users
pub mod Rides
pub mod Respond
pub mod Good
pub mod Run
use taxi_lab.Base.{◌≡◌, ℕ, List, ◌∷◌, String, Mem, mem-cons_self, mem-cons_of_mem}
use taxi_lab.Database.Rows.{Database}
use taxi_lab.Database.Invariant.{WellFormed}
use taxi_lab.Storage.{TaxiStorage}
use taxi_lab.Performance.Cache.{ResponseCache, get, set, invalidate_prefix}
use taxi_lab.Performance.Limiter.{RateLimiter}
use taxi_lab.Http.{Userver, Server}
use taxi_lab.Handlers.UsersGet.{login_key, name_mask_key}
use taxi_lab.Handlers.RidesGet.{history_key, active_key}
use taxi_lab.Handlers.Coherence.{
  Holds, LoginSays, MaskSays, HistorySays, ActiveSays, Holds-get, Holds-set,
  Holds-invalidate_prefix,
}
use taxi_lab.Concurrent.Task.{Task, finished, access}

abbrev pub Extends : List Database → List Database → Type 0
Extends past later = (db : Database) → Mem db past → Mem db later

-- Said of the name by one of the databases.
abbrev pub Once : List Database → (Database → String → String → Type 0) → String → String → Type 0
Once past Says name body = (db : Database) × Mem db past × Says db name body

module _ (lib : Userver) where
  pub record WasCoherent (past : List Database) (c : ResponseCache) : Type 0 where
    pub login : Holds login_key (Once past (LoginSays lib)) c
    pub mask : Holds name_mask_key (Once past (MaskSays lib)) c
    pub history : Holds history_key (Once past (HistorySays lib)) c
    pub active : Holds (λ unused. active_key) (Once past (ActiveSays lib)) c

  -- The server while `past` are the databases that there were.
  pub record IsLive (past : List Database) (s : Server) : Type 0 where
    pub well_formed : WellFormed s.storage.db
    pub now : Mem s.storage.db past
    pub was_coherent : WasCoherent past s.cache

  module _ (past : List Database) where
    pub WasCoherent-more :
        (later : List Database) (c : ResponseCache)
        → Extends past later
        → WasCoherent past c
        → WasCoherent later c
    WasCoherent-more later c more h = record {
      login = λ n e found. let (db, was, says) = h.login n e found in (db, more db was, says);
      mask = λ n e found. let (db, was, says) = h.mask n e found in (db, more db was, says);
      history = λ n e found. let (db, was, says) = h.history n e found in (db, more db was, says);
      active = λ n e found. let (db, was, says) = h.active n e found in (db, more db was, says);
    }

    pub WasCoherent-get :
        (k : String) (now : ℕ) (c : ResponseCache)
        → WasCoherent past c
        → WasCoherent past (get k now c).1
    WasCoherent-get k now c h = record {
      login = Holds-get login_key _ k now c h.login;
      mask = Holds-get name_mask_key _ k now c h.mask;
      history = Holds-get history_key _ k now c h.history;
      active = Holds-get (λ unused. active_key) _ k now c h.active;
    }

    pub WasCoherent-invalidate_prefix :
        (p : String) (c : ResponseCache)
        → WasCoherent past c
        → WasCoherent past (invalidate_prefix p c)
    WasCoherent-invalidate_prefix p c h = record {
      login = Holds-invalidate_prefix login_key _ p c h.login;
      mask = Holds-invalidate_prefix name_mask_key _ p c h.mask;
      history = Holds-invalidate_prefix history_key _ p c h.history;
      active = Holds-invalidate_prefix (λ unused. active_key) _ p c h.active;
    }

    pub WasCoherent-set :
        (k v : String) (ttl now : ℕ) (c : ResponseCache)
        → ((n : String) → k ≡ login_key n → Once past (LoginSays lib) n v)
        → ((n : String) → k ≡ name_mask_key n → Once past (MaskSays lib) n v)
        → ((n : String) → k ≡ history_key n → Once past (HistorySays lib) n v)
        → ((n : String) → k ≡ active_key → Once past (ActiveSays lib) n v)
        → WasCoherent past c
        → WasCoherent past (set k v ttl now c)
    WasCoherent-set k v ttl now c a b d e h = record {
      login = Holds-set login_key _ k v ttl now c a h.login;
      mask = Holds-set name_mask_key _ k v ttl now c b h.mask;
      history = Holds-set history_key _ k v ttl now c d h.history;
      active = Holds-set (λ unused. active_key) _ k v ttl now c e h.active;
    }

    -- The server after an access to the cache, to the limiter, or to the storage.
    pub IsLive-cache :
        (s : Server) (c : ResponseCache)
        → WasCoherent past c
        → IsLive past s
        → IsLive (s.storage.db ∷ past) (record s { cache = c })
    IsLive-cache s c h live = record {
      well_formed = live.well_formed;
      now = mem-cons_self;
      was_coherent = WasCoherent-more (s.storage.db ∷ past) c (λ db was. mem-cons_of_mem _ was) h;
    }

    pub IsLive-limiter :
        (s : Server) (l : RateLimiter)
        → IsLive past s
        → IsLive (s.storage.db ∷ past) (record s { limiter = l })
    IsLive-limiter s l live = record {
      well_formed = live.well_formed;
      now = mem-cons_self;
      was_coherent =
          WasCoherent-more (s.storage.db ∷ past) s.cache (λ db was. mem-cons_of_mem _ was)
            live.was_coherent;
    }

    pub IsLive-storage :
        (s : Server) (t : TaxiStorage)
        → WellFormed t.db
        → IsLive past s
        → IsLive (t.db ∷ past) (record s { storage = t })
    IsLive-storage s t w live = record {
      well_formed = w;
      now = mem-cons_self;
      was_coherent =
          WasCoherent-more (t.db ∷ past) s.cache (λ db was. mem-cons_of_mem _ was)
            live.was_coherent;
    }

  module _ {A : Type 0} (Post : List Database → A → Type 0) where
    -- The task leaves every server live that it finds live, and ends as `Post` says.
    unfoldable pub Meets : List Database → Task A → Type 0
    Meets past (finished a) = Post past a
    Meets past (access effect rest) =
        (later : List Database) (s : Server)
        → Extends past later
        → IsLive later s
        → IsLive ((effect s).storage.db ∷ later) (effect s)
          × Meets ((effect s).storage.db ∷ later) (rest s)

    pub Meets-more :
        ((past later : List Database) (a : A) → Extends past later → Post past a → Post later a)
        → (past later : List Database) (t : Task A) → Extends past later
        → Meets past t
        → Meets later t
    unfolding Meets
    Meets-more keeps past later (finished a) more h = keeps past later a more h
    Meets-more keeps past later (access effect rest) more h =
        λ last s ext live. h last s (λ db was. ext db (more db was)) live

  module _ {A : Type 0} (Post Weaker : List Database → A → Type 0) where
    pub Meets-weaker :
        ((past : List Database) (a : A) → Post past a → Weaker past a)
        → (past : List Database) (t : Task A) → Meets Post past t
        → Meets Weaker past t
    unfolding Meets
    Meets-weaker weaker past (finished a) h = weaker past a h
    Meets-weaker weaker past (access effect rest) h = λ later s ext live.
        let (live', h') = h later s ext live in (live', Meets-weaker weaker _ (rest s) h')
