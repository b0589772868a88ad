-- ===== src/Handlers/UsersGet.antt =====
-- UsersGet::HandleRequestThrow of src/handlers/users_get.cpp.
use taxi_lab.Base.{
  not, Option, none, some, List, map, String, ◌+s◌, bool_eq, is_empty, if◌then◌else◌, pure, ◌>>=◌,
  ◌>>◌,
}
use taxi_lab.Models.{User}
use taxi_lab.Http.{
  bad_request, not_found, HttpRequest, object, array, Userver, Moment, Handler, set_content_type,
  set_header, with_db, with_cache, refuse,
}
use taxi_lab.Performance.Cache.{get, set, seconds}
use taxi_lab.Storage.{get_user_by_login, find_users_by_name_mask}
use taxi_lab.Handlers.UsersCreate.{user_object}

abbrev pub login_key : String → String
login_key login = "users:login:" +s login

abbrev pub name_mask_key : String → String
name_mask_key mask = "users:name_mask:" +s mask

-- `if (cached) … return *cached;`
abbrev pub or_cached : Handler String → Option String → Handler String
or_cached compute none = compute
or_cached compute (some body) = do set_header "X-Cache" "HIT"; pure body

module _ (lib : Userver) where
  abbrev pub user_body : User → String
  user_body user = lib.print (object (user_object user))

  abbrev pub users_body : List User → String
  users_body users = lib.print (array (map user_object users))

  -- A cache miss on a login: ask the database and keep the answer.
  unfoldable pub found_user : Moment → String → Option User → Handler String
  found_user moment login none = refuse lib not_found "user not found"
  found_user moment login (some user) = do
    with_cache (λ c. (tt, set (login_key login) (user_body user) (seconds 60) moment.write c))
    pure (user_body user)

  unfoldable pub users_get_login : Moment → String → Handler String
  unfolding found_user
  users_get_login moment login = do
    set_header "X-Cache" "MISS"
    user ← with_db (get_user_by_login login)
    found_user moment login user

  unfoldable pub users_get_mask : Moment → String → Handler String
  users_get_mask moment mask = do
    set_header "X-Cache" "MISS"
    users ← with_db (find_users_by_name_mask lib.lower mask)
    with_cache (λ c. (tt, set (name_mask_key mask) (users_body users) (seconds 60) moment.write c))
    pure (users_body users)

  unfoldable pub users_get : Moment → HttpRequest → Handler String
  unfolding users_get_login users_get_mask
  users_get moment request = do
    set_content_type "application/json"
    let login = request.arg "login"
    let mask = request.arg "name_mask"
    let has_login = not (is_empty login)
    let has_mask = not (is_empty mask)
    if bool_eq has_login has_mask
        then refuse lib bad_request "use exactly one query parameter: login or name_mask"
        else do
          cached ←
              with_cache
                (get (if has_login then login_key login else name_mask_key mask) moment.read)
          or_cached (if has_login then users_get_login moment login else users_get_mask moment mask)
              cached
