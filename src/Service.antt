-- ===== src/Service.antt =====
-- The service: a request goes through the middleware to the handler of its route
-- (configs/static_config.yaml, src/main.cpp), one request at a time.
pub mod Sound
pub mod Tokens
use taxi_lab.Base.{List, [], ◌∷◌, String, Result}
use taxi_lab.Http.{Userver, HttpRequest, Moment, Server, Exchange, Handler, new_response}
use taxi_lab.Middlewares.Auth.{handle_request}
use taxi_lab.Handlers.UsersCreate.{users_create}
use taxi_lab.Handlers.UsersGet.{users_get}
use taxi_lab.Handlers.AuthLogin.{auth_login}
use taxi_lab.Handlers.DriversCreate.{drivers_create}
use taxi_lab.Handlers.RidesCreate.{rides_create}
use taxi_lab.Handlers.RidesGet.{rides_get}
use taxi_lab.Handlers.RidesAccept.{rides_accept}
use taxi_lab.Handlers.RidesComplete.{rides_complete}

-- The handlers over PostgreSQL that main.cpp adds, each named by its method and path. userver chooses
-- one for a request; here any request may go to any of them.
pub data Route : Type 0 where
  post_users get_users post_auth_login post_drivers post_rides get_rides : Route
  patch_rides_accept patch_rides_complete : Route

pub record Call : Type 0 where
  pub route : Route
  pub moment : Moment
  pub request : HttpRequest

-- A request that comes in, before any handler.
abbrev pub incoming : Server → Exchange
incoming server = record { server = server; response = new_response }

module _ (lib : Userver) where
  unfoldable pub serve : Route → Moment → HttpRequest → Handler String
  serve post_users moment request = users_create lib moment request
  serve get_users moment request = users_get lib moment request
  serve post_auth_login moment request = auth_login lib request
  serve post_drivers moment request = drivers_create lib request
  serve post_rides moment request = rides_create lib moment request
  serve get_rides moment request = rides_get lib moment request
  serve patch_rides_accept moment request = rides_accept lib request
  serve patch_rides_complete moment request = rides_complete lib moment request

  unfoldable pub respond : Call → Server → Result String × Exchange
  respond call server =
      handle_request (serve call.route call.moment call.request) call.request (incoming server)

  unfoldable pub run : List Call → Server → Server
  run [] server = server
  run (call ∷ calls) server = run calls (respond call server).1.server
