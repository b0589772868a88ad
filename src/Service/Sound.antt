-- ===== src/Service/Sound.antt =====
-- The servers that the service reaches: their database and their cache.
use taxi_lab.Base.{◌≡◌, sym, subst, inl, inr, Bool-cases, List, [], ◌∷◌, String}
use taxi_lab.Database.Invariant.{WellFormed}
use taxi_lab.Http.{Userver, HttpRequest, Moment, Server, Exchange, Handler, status_ok}
use taxi_lab.Middlewares.Auth.{handle_request, is_public_request, lacks_bearer, bearer_token}
use taxi_lab.Middlewares.Auth.Laws.{Admits, handle_request_lem}
use taxi_lab.Storage.{is_token_valid}
use taxi_lab.Handlers.Coherence.{Coherent}
use taxi_lab.Handlers.Coherence.Writes.{
  users_create-IsCoherent, drivers_create-IsCoherent, rides_create-IsCoherent,
  rides_accept-IsCoherent, rides_complete-IsCoherent, auth_login-IsCoherent,
}
use taxi_lab.Handlers.Coherence.Answers.{answer}
use taxi_lab.Handlers.Coherence.Users.{users_answer, users_get-Serves}
use taxi_lab.Handlers.Coherence.Rides.{rides_answer, rides_get-Serves}
use taxi_lab.Handlers.UsersGet.{users_get}
use taxi_lab.Handlers.RidesGet.{rides_get}
use taxi_lab.Handlers.ReadOnly.{users_get-storage, rides_get-storage}
use taxi_lab.Handlers.Writes.{
  users_create-keeps, drivers_create-keeps, rides_create-keeps, rides_accept-keeps,
  rides_complete-keeps, auth_login-keeps,
}
use taxi_lab.Storage.WellFormed.{
  create_user-WellFormed, create_driver-WellFormed, create_ride-WellFormed, accept_ride-WellFormed,
  complete_ride-WellFormed,
}
use taxi_lab.Storage.Tokens.Login.{login-db}
use taxi_lab.Service.{
  Route, post_users, get_users, post_auth_login, post_drivers, post_rides, get_rides,
  patch_rides_accept, patch_rides_complete, Call, incoming, serve, respond, run,
}

-- The invariant of the service.
pub record IsSound (lib : Userver) (server : Server) : Type 0 where
  pub well_formed : WellFormed server.storage.db
  pub coherent : Coherent lib server.storage.db server.cache

-- The middleware runs the handler, or leaves the server alone.
pub handle_request-keeps :
    (P : Server → Type 0) (next : Handler String) (request : HttpRequest) (x : Exchange)
    → P x.server
    → P (next x).1.server
    → P (handle_request next request x).1.server
unfolding handle_request
handle_request-keeps P next request x s t = elim (Bool-cases (is_public_request request)) [
  | inl a ↦ rw a t
  | inr a ↦ elim (Bool-cases (lacks_bearer (request.header "Authorization"))) [
    | inl b ↦ rw (a, b) s
    | inr b ↦
        elim (Bool-cases
          (is_token_valid (bearer_token (request.header "Authorization")) x.server.storage)) [
            | inl c ↦ rw (a, b, c) t
            | inr c ↦ rw (a, b, c) s
          ]
  ]
]

module _ (lib : Userver) where
  serve-IsSound :
      (route : Route) (moment : Moment) (request : HttpRequest) (x : Exchange)
      → IsSound lib x.server
      → IsSound lib (serve lib route moment request x).1.server
  unfolding serve
  serve-IsSound post_users moment request x s = record {
    well_formed =
        users_create-keeps (λ t. WellFormed t.db) lib moment request x s.well_formed
          (λ a b c. create_user-WellFormed moment.now a b c x.server.storage.db s.well_formed);
    coherent = users_create-IsCoherent lib moment request x s.coherent;
  }
  serve-IsSound get_users moment request x s = record {
    well_formed =
        subst (λ t. WellFormed t.db) (sym (users_get-storage lib moment request x)) s.well_formed;
    coherent = (users_get-Serves lib moment request x s.coherent).0;
  }
  serve-IsSound post_auth_login moment request x s = record {
    well_formed =
        auth_login-keeps (λ t. WellFormed t.db) lib moment request x s.well_formed
          (λ a b. subst WellFormed (sym (login-db a b x.server.storage)) s.well_formed);
    coherent = auth_login-IsCoherent lib request x s.coherent;
  }
  serve-IsSound post_drivers moment request x s = record {
    well_formed =
        drivers_create-keeps (λ t. WellFormed t.db) lib moment request x s.well_formed
          (λ a b c d. create_driver-WellFormed a b c d x.server.storage.db s.well_formed);
    coherent = drivers_create-IsCoherent lib request x s.coherent;
  }
  serve-IsSound post_rides moment request x s = record {
    well_formed =
        rides_create-keeps (λ t. WellFormed t.db) lib moment request x s.well_formed
          (λ a b c. create_ride-WellFormed moment.now a b c x.server.storage.db s.well_formed);
    coherent = rides_create-IsCoherent lib moment request x s.coherent;
  }
  serve-IsSound get_rides moment request x s = record {
    well_formed =
        subst (λ t. WellFormed t.db) (sym (rides_get-storage lib moment request x)) s.well_formed;
    coherent = (rides_get-Serves lib moment request x s.coherent).0;
  }
  serve-IsSound patch_rides_accept moment request x s = record {
    well_formed =
        rides_accept-keeps (λ t. WellFormed t.db) lib moment request x s.well_formed
          (λ a b. accept_ride-WellFormed a b x.server.storage.db s.well_formed);
    coherent = rides_accept-IsCoherent lib request x s.coherent;
  }
  serve-IsSound patch_rides_complete moment request x s = record {
    well_formed =
        rides_complete-keeps (λ t. WellFormed t.db) lib moment request x s.well_formed
          (λ a. complete_ride-WellFormed moment.now a x.server.storage.db s.well_formed);
    coherent = rides_complete-IsCoherent lib moment request x s.coherent;
  }

  respond-IsSound :
      (call : Call) (server : Server)
      → IsSound lib server
      → IsSound lib (respond lib call server).1.server
  unfolding respond
  respond-IsSound call server s =
      handle_request-keeps (IsSound lib) (serve lib call.route call.moment call.request)
        call.request (incoming server) s
        (serve-IsSound call.route call.moment call.request (incoming server) s)

  -- Any sequence of requests, each through the middleware to its handler, leaves a sound server
  -- sound: its database well-formed, and every cached body of the known keys what the database
  -- answers now.
  pub run-IsSound :
      (calls : List Call) (server : Server)
      → IsSound lib server
      → IsSound lib (run lib calls server)
  unfolding run
  run-IsSound [] server s = s
  run-IsSound (call ∷ calls) server s = run-IsSound calls _ (respond-IsSound call server s)

  -- From a sound server and after any requests, an admitted GET /users answers, in body and status,
  -- what the database gives without any cache: the user with the login, the users whose names fit
  -- the mask, or the refusal.
  pub respond-users_answer :
      (calls : List Call) (start : Server) (moment : Moment) (request : HttpRequest)
      → IsSound lib start
      → Admits request (run lib calls start).storage
      → answer (
          respond lib
            (record { route = get_users; moment = moment; request = request })
            (run lib calls start))
        ≡ users_answer lib request (run lib calls start).storage.db status_ok
  unfolding respond serve
  respond-users_answer calls start moment request s admits =
      rw
        ((handle_request_lem (users_get lib moment request) request
            (incoming (run lib calls start))).0
          admits)
        (users_get-Serves lib moment request (incoming (run lib calls start))
          (run-IsSound calls start s).coherent).1

  -- From a sound server and after any requests, an admitted GET /rides answers, in body and status,
  -- what the database and the rate limiter give without any cache: the history of the user_id, the
  -- active rides if the limiter allows it, or the refusal.
  pub respond-rides_answer :
      (calls : List Call) (start : Server) (moment : Moment) (request : HttpRequest)
      → IsSound lib start
      → Admits request (run lib calls start).storage
      → answer (
          respond lib
            (record { route = get_rides; moment = moment; request = request })
            (run lib calls start))
        ≡ rides_answer lib moment request
            (run lib calls start).storage.db
            (run lib calls start).limiter
            status_ok
  unfolding respond serve
  respond-rides_answer calls start moment request s admits =
      rw
        ((handle_request_lem (rides_get lib moment request) request
            (incoming (run lib calls start))).0
          admits)
        (rides_get-Serves lib moment request (incoming (run lib calls start))
          (run-IsSound calls start s).coherent).1
