-- ===== src/Handlers/AuthLogin.antt =====
-- AuthLogin::HandleRequestThrow of src/handlers/auth_login.cpp.
use taxi_lab.Base.{
  ◌||◌, Option, none, some, [], ◌∷◌, String, is_empty, if◌then◌else◌, pure, lift, ◌>>=◌, ◌>>◌,
}
use taxi_lab.Http.{
  bad_request, unauthorized, HttpRequest, object, text, Userver, Handler, set_content_type,
  with_storage, refuse,
}
use taxi_lab.Storage.{login}

module _ (lib : Userver) where
  unfoldable pub auth_login_reply : Option String → Handler String
  auth_login_reply none = refuse lib unauthorized "invalid credentials"
  auth_login_reply (some token) = pure (lib.print (object (("token", text token) ∷ [])))

  unfoldable pub auth_login : HttpRequest → Handler String
  unfolding auth_login_reply
  auth_login request = do
    set_content_type "application/json"
    json ← lift (lib.from_string request.body)
    name ← lift (lib.string_member json "login")
    password ← lift (lib.string_member json "password")
    if is_empty name || is_empty password
        then refuse lib bad_request "login and password are required"
        else do token ← with_storage (login name password); auth_login_reply token
