-- ===== src/Handlers/UsersCreate.antt =====
-- UsersCreate::HandleRequestThrow of src/handlers/users_create.cpp.
use taxi_lab.Base.{
  ◌||◌, Option, none, some, [], ◌∷◌, String, is_empty, if◌then◌else◌, pure, lift, ◌>>=◌, ◌>>◌,
}
use taxi_lab.Models.{User}
use taxi_lab.Http.{
  created, bad_request, conflict, HttpRequest, Object, object, number, text, Userver, Moment,
  Handler, set_status, set_content_type, with_db, with_cache, refuse,
}
use taxi_lab.Performance.Cache.{invalidate_prefix}
use taxi_lab.Storage.{create_user}

-- The members of a user that a response shows.
abbrev pub user_object : User → Object
user_object user =
    ("id", number user.id) ∷ ("login", text user.login) ∷ ("full_name", text user.full_name) ∷ []

module _ (lib : Userver) where
  -- The part behind the call of CreateUser.
  unfoldable pub users_create_reply : Option User → Handler String
  users_create_reply none = refuse lib conflict "user already exists"
  users_create_reply (some user) = do
    with_cache (λ c. (tt, invalidate_prefix "users:" c))
    set_status created
    pure (lib.print (object (user_object user)))

  unfoldable pub users_create : Moment → HttpRequest → Handler String
  unfolding users_create_reply
  users_create moment request = do
    set_content_type "application/json"
    json ← lift (lib.from_string request.body)
    login ← lift (lib.string_member json "login")
    password ← lift (lib.string_member json "password")
    full_name ← lift (lib.string_member json "full_name")
    if is_empty login || is_empty password || is_empty full_name
        then refuse lib bad_request "login, password and full_name are required"
        else do
          user ← with_db (create_user moment.now login password full_name)
          users_create_reply user
