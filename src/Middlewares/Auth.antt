-- ===== src/Middlewares/Auth.antt =====
-- AuthMiddleware of src/middlewares/auth_middleware.cpp. `next` is the rest of the pipeline.
pub mod Laws
use Prim.Native.String.{len, slice}
use taxi_lab.Base.{
  Bool, true, false, not, ◌||◌, String, ◌==◌, starts_with, leb, if◌then◌else◌, Action, pure, ◌>>◌,
  ok, proceed,
}
use taxi_lab.Storage.{is_token_valid}
use taxi_lab.Http.{HttpRequest, Exchange, Handler, unauthorized, set_status, set_content_type}

unfoldable pub is_public_request : HttpRequest → Bool
is_public_request request =
    if request.path == "/ping"
    then true
    else if request.path == "/users"
    then true
    else if request.path == "/auth/login"
    then true
    else if request.path == "/mongo/users"
    then true
    else if starts_with request.path "/tests/"
    then true
    else false

-- The response of a refusal; the next handler is not called.
abbrev pub reject : String → Handler String
reject message = do set_status unauthorized; set_content_type "application/json"; pure message

abbrev pub bearer_prefix : String
bearer_prefix = "Bearer "

-- The test of the header: too short, or of another scheme.
unfoldable pub lacks_bearer : String → Bool
lacks_bearer auth_header =
    leb (len auth_header) (len bearer_prefix) || not (starts_with auth_header bearer_prefix)

-- `auth_header.substr(kBearerPrefix.size())`
unfoldable pub bearer_token : String → String
bearer_token auth_header = slice auth_header (len bearer_prefix) (len auth_header)

unfoldable pub handle_request : Handler String → HttpRequest → Handler String
unfolding is_public_request lacks_bearer bearer_token
handle_request next request x =
    if is_public_request request
    then next x
    else if lacks_bearer (request.header "Authorization")
    then reject "{\"error\":\"missing or invalid Authorization header\"}" x
    else if not (is_token_valid (bearer_token (request.header "Authorization")) x.server.storage)
    then reject "{\"error\":\"invalid token\"}" x
    else next x
