-- ===== src/Concurrent/Requests.antt =====
-- A request as a task: the middleware and the handler of its route, each access to the server on its
-- own (src/main.cpp, src/middlewares/auth_middleware.cpp).
use taxi_lab.Base.{String, Result}
use taxi_lab.Http.{Userver, HttpRequest, HttpResponse, Moment, new_response}
use taxi_lab.Service.{
  Route, post_users, get_users, post_auth_login, post_drivers, post_rides, get_rides,
  patch_rides_accept, patch_rides_complete, Call,
}
use taxi_lab.Concurrent.Task.{Task, Steps}
use taxi_lab.Concurrent.Writers.{
  users_create_steps, auth_login_steps, drivers_create_steps, rides_create_steps,
  rides_accept_steps, rides_complete_steps,
}
use taxi_lab.Concurrent.Readers.{users_get_steps, rides_get_steps, handle_request_steps}

module _ (lib : Userver) where
  unfoldable pub serve_steps : Route → Moment → HttpRequest → Steps String
  serve_steps post_users moment request = users_create_steps lib moment request
  serve_steps get_users moment request = users_get_steps lib moment request
  serve_steps post_auth_login moment request = auth_login_steps lib request
  serve_steps post_drivers moment request = drivers_create_steps lib request
  serve_steps post_rides moment request = rides_create_steps lib moment request
  serve_steps get_rides moment request = rides_get_steps lib moment request
  serve_steps patch_rides_accept moment request = rides_accept_steps lib request
  serve_steps patch_rides_complete moment request = rides_complete_steps lib moment request

  unfoldable pub respond_steps : Call → Task (Result String × HttpResponse)
  respond_steps call =
      handle_request_steps (serve_steps call.route call.moment call.request) call.request
        new_response
