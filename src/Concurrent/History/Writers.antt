-- ===== src/Concurrent/History/Writers.antt =====
-- What the handlers that write leave to other requests.
use taxi_lab.Base.{List, ◌∷◌}
use taxi_lab.Database.Rows.{Database}
use taxi_lab.Storage.{issue_token, get_user_by_login}
use taxi_lab.Storage.WellFormed.{
  create_user-WellFormed, create_driver-WellFormed, create_ride-WellFormed, accept_ride-WellFormed,
  complete_ride-WellFormed,
}
use taxi_lab.Http.{Userver, Server}
use taxi_lab.Concurrent.Task.{Task, finished, access}
use taxi_lab.Concurrent.Everywhere.{Everywhere, HoldsOfWrites}
use taxi_lab.Concurrent.History.{
  Meets, IsLive, IsLive-storage, IsLive-cache, WasCoherent-invalidate_prefix,
}

abbrev pub Anything : {A : Type 0} → List Database → A → Type 0
Anything past a = Unit

module _ (lib : Userver) where
  -- A live server stays live.
  abbrev pub LeavesLive : (Server → Server) → Type 0
  LeavesLive effect =
      (past : List Database) (s : Server)
      → IsLive lib past s
      → IsLive lib ((effect s).storage.db ∷ past) (effect s)

  pub Everywhere-Meets :
      {A : Type 0} (past : List Database) (t : Task A)
      → Everywhere LeavesLive t
      → Meets lib Anything past t
  unfolding Everywhere Meets
  Everywhere-Meets past (finished a) h = tt
  Everywhere-Meets past (access effect rest) h =
      λ later s ext live. (h.0 later s live, Everywhere-Meets _ (rest s) (h.1 s))

  pub LeavesLive-writes : HoldsOfWrites LeavesLive
  unfolding issue_token get_user_by_login
  LeavesLive-writes = record {
    creates_user = λ now a b c past s live.
        IsLive-storage lib past s _ (create_user-WellFormed now a b c s.storage.db live.well_formed)
          live;
    creates_driver = λ user a b c past s live.
        IsLive-storage lib past s _
          (create_driver-WellFormed user a b c s.storage.db live.well_formed) live;
    creates_ride = λ now user a b past s live.
        IsLive-storage lib past s _
          (create_ride-WellFormed now user a b s.storage.db live.well_formed) live;
    accepts = λ ride driver past s live.
        IsLive-storage lib past s _
          (accept_ride-WellFormed ride driver s.storage.db live.well_formed) live;
    completes = λ now ride past s live.
        IsLive-storage lib past s _
          (complete_ride-WellFormed now ride s.storage.db live.well_formed) live;
    finds_user = λ login past s live. IsLive-storage lib past s _ live.well_formed live;
    issues = λ user past s live. IsLive-storage lib past s _ live.well_formed live;
    invalidates = λ p past s live.
        IsLive-cache lib past s _
          (WasCoherent-invalidate_prefix lib past p s.cache live.was_coherent) live;
  }
