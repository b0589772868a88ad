-- ===== src/Concurrent/Alone/Respond.antt =====
-- A whole request alone.
use taxi_lab.Base.{◌≡◌}
use taxi_lab.Http.{Userver, HttpRequest, Server, Moment, new_response}
use taxi_lab.Service.{
  Route, post_users, get_users, post_auth_login, post_drivers, post_rides, get_rides,
  patch_rides_accept, patch_rides_complete, Call, serve, respond,
}
use taxi_lab.Concurrent.Task.{run_alone}
use taxi_lab.Concurrent.Requests.{serve_steps, respond_steps}
use taxi_lab.Concurrent.Alone.{Agrees, parts}
use taxi_lab.Concurrent.Alone.Writers.{
  users_create-Agrees, drivers_create-Agrees, rides_create-Agrees, rides_accept-Agrees,
  rides_complete-Agrees, auth_login-Agrees,
}
use taxi_lab.Concurrent.Alone.Readers.{users_get-Agrees, rides_get-Agrees, handle_request-Agrees}

module _ (lib : Userver) where
  serve-Agrees :
      (route : Route) (moment : Moment) (request : HttpRequest)
      → Agrees (serve_steps lib route moment request) (serve lib route moment request)
  unfolding serve_steps serve
  serve-Agrees post_users moment request = users_create-Agrees lib moment request
  serve-Agrees get_users moment request = users_get-Agrees lib moment request
  serve-Agrees post_auth_login moment request = auth_login-Agrees lib request
  serve-Agrees post_drivers moment request = drivers_create-Agrees lib request
  serve-Agrees post_rides moment request = rides_create-Agrees lib moment request
  serve-Agrees get_rides moment request = rides_get-Agrees lib moment request
  serve-Agrees patch_rides_accept moment request = rides_accept-Agrees lib request
  serve-Agrees patch_rides_complete moment request = rides_complete-Agrees lib moment request

  -- A request whose accesses nothing interrupts gives the answer, the response and the server of
  -- the handler as one action, behind the middleware.
  pub respond-alone :
      (call : Call) (server : Server)
      → run_alone (respond_steps lib call) server ≡ parts (respond lib call server)
  unfolding respond_steps respond
  respond-alone call server =
      (handle_request-Agrees _ _ call.request
          (serve-Agrees call.route call.moment call.request)).runs
        server new_response
