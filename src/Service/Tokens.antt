-- ===== src/Service/Tokens.antt =====
-- The tokens that the service gives over many requests.
use taxi_lab.Base.{
  ℕ, suc, ◌+◌, ◌≤◌, ◌<◌, ◌≡◌, sym, subst, false, some, List, [], ◌∷◌, length, String, ok, arith,
}
use taxi_lab.Database.Rows.{Database}
use taxi_lab.Http.{Userver, HttpRequest, Moment, Server, Exchange}
use taxi_lab.Storage.{TaxiStorage, login, is_token_valid}
use taxi_lab.Storage.Tokens.Issue.{HasOldTokens, HasTokensBelow}
use taxi_lab.Storage.Tokens.Login.{login-HasTokensBelow, login_fresh}
use taxi_lab.Handlers.Writes.{
  users_create-keeps, drivers_create-keeps, rides_create-keeps, rides_accept-keeps,
  rides_complete-keeps, auth_login-keeps,
}
use taxi_lab.Handlers.ReadOnly.{users_get-storage, rides_get-storage}
use taxi_lab.Service.{
  Route, post_users, get_users, post_auth_login, post_drivers, post_rides, get_rides,
  patch_rides_accept, patch_rides_complete, Call, incoming, serve, respond, run,
}
use taxi_lab.Service.Sound.{handle_request-keeps}

-- Another database, and a later bound.
later :
    (n : ℕ) (s : TaxiStorage) (db : Database)
    → HasTokensBelow n s
    → HasTokensBelow (suc n) (record s { db = db })
later n s db (h, le) = (record { next = h.next; counter = h.counter; old = h.old }, omega arith)

module _ (lib : Userver) where
  serve-HasTokensBelow :
      (route : Route) (moment : Moment) (request : HttpRequest) (x : Exchange) (n : ℕ)
      → n < 2147483647
      → HasTokensBelow n x.server.storage
      → HasTokensBelow (suc n) (serve lib route moment request x).1.server.storage
  unfolding serve
  serve-HasTokensBelow post_users moment request x n lt h =
      users_create-keeps (HasTokensBelow (suc n)) lib moment request x (later n _ _ h)
        (λ a b c. later n _ _ h)
  serve-HasTokensBelow get_users moment request x n lt h =
      subst (HasTokensBelow (suc n)) (sym (users_get-storage lib moment request x)) (later n _ _ h)
  serve-HasTokensBelow post_auth_login moment request x n lt h =
      auth_login-keeps (HasTokensBelow (suc n)) lib moment request x (later n _ _ h)
        (λ a b. login-HasTokensBelow a b n x.server.storage lt h)
  serve-HasTokensBelow post_drivers moment request x n lt h =
      drivers_create-keeps (HasTokensBelow (suc n)) lib moment request x (later n _ _ h)
        (λ a b c d. later n _ _ h)
  serve-HasTokensBelow post_rides moment request x n lt h =
      rides_create-keeps (HasTokensBelow (suc n)) lib moment request x (later n _ _ h)
        (λ a b c. later n _ _ h)
  serve-HasTokensBelow get_rides moment request x n lt h =
      subst (HasTokensBelow (suc n)) (sym (rides_get-storage lib moment request x)) (later n _ _ h)
  serve-HasTokensBelow patch_rides_accept moment request x n lt h =
      rides_accept-keeps (HasTokensBelow (suc n)) lib moment request x (later n _ _ h)
        (λ a b. later n _ _ h)
  serve-HasTokensBelow patch_rides_complete moment request x n lt h =
      rides_complete-keeps (HasTokensBelow (suc n)) lib moment request x (later n _ _ h)
        (λ a. later n _ _ h)

  respond-HasTokensBelow :
      (call : Call) (server : Server) (n : ℕ)
      → n < 2147483647
      → HasTokensBelow n server.storage
      → HasTokensBelow (suc n) (respond lib call server).1.server.storage
  unfolding respond
  respond-HasTokensBelow call server n lt h =
      handle_request-keeps (λ t. HasTokensBelow (suc n) t.storage)
        (serve lib call.route call.moment call.request) call.request (incoming server)
        (later n server.storage server.storage.db h)
        (serve-HasTokensBelow call.route call.moment call.request (incoming server) n lt h)

  run-HasTokensBelow :
      (calls : List Call) (server : Server) (n : ℕ)
      → n + length calls ≤ 2147483647
      → HasTokensBelow n server.storage
      → HasOldTokens (run lib calls server).storage
  unfolding run
  run-HasTokensBelow [] server n le h = h.0
  run-HasTokensBelow (call ∷ calls) server n le h =
      run-HasTokensBelow calls _ (suc n) (omega arith)
        (respond-HasTokensBelow call server n (omega arith) h)

  -- If at the start every token was made with an earlier counter, and the counter and the number of
  -- requests together stay within an int, then after those requests a login gives no token that is
  -- valid already.
  pub run-login_fresh :
      (calls : List Call) (start : Server) (name password token : String)
      (h : HasOldTokens start.storage)
      → h.next + length calls ≤ 2147483647
      → (login name password (run lib calls start).storage).0 ≡ ok (some token)
      → is_token_valid token (run lib calls start).storage ≡ false
  run-login_fresh calls start name password token h le given =
      login_fresh name password (run lib calls start).storage token
        (run-HasTokensBelow calls start h.next le (h, omega arith)) given
