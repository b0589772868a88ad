-- ===== src/Mongo/Create.antt =====
-- MongoUsersCreate::HandleRequestThrow of src/handlers/mongo_users_create.cpp.
pub mod Logins
pub mod Laws
use Prim.Native.Char.{Char, code}
use Prim.Native.String
use Prim.Native.String.{len}
use taxi_lab.Base.{
  ℕ, Bool, true, false, not, ◌&&◌, ◌||◌, ltb, leb, nat_eq, Option, none, some, List, [], ◌∷◌,
  String, ◌+s◌, ◌==◌, is_empty, if◌then◌else◌, Result, ok, throws, pure, lift, ◌>>=◌, ◌>>◌,
}
use taxi_lab.Http.{HttpRequest, HttpStatus, created, bad_request, conflict, internal_server_error}
use taxi_lab.Mongo.{
  Field, text_field, profile_field, Profile, UserDocument, Builder, MongoLibrary, MongoExchange,
  MongoHandler, set_type, answer_with, try_or,
}

-- A character of [a-z0-9._-].
abbrev pub is_login_char : ℕ → Bool
is_login_char c =
    (leb b'a' c && leb c b'z')
    || (leb b'0' c && leb c b'9')
    || nat_eq c b'.'
    || nat_eq c b'_'
    || nat_eq c b'-'

abbrev pub all_login_chars : String → Bool
all_login_chars String.[] = true
all_login_chars (String.◌∷◌ c s) = is_login_char (code c) && all_login_chars s

-- The whole text matches ^[a-z0-9._-]+$.
unfoldable pub is_valid_login : String → Bool
is_valid_login login = not (is_empty login) && all_login_chars login

-- The values that the handler has checked.
pub record NewUser : Type 0 where
  pub login : String
  pub password : String
  pub first_name : String
  pub last_name : String
  pub status : String
  pub email : String
  pub phone : String

abbrev pub user_document : ℕ → NewUser → UserDocument
user_document now u = record {
  login = some (text_field u.login);
  password = some (text_field u.password);
  first_name = some (text_field u.first_name);
  last_name = some (text_field u.last_name);
  created_at = now;
  status = some (text_field u.status);
  profile = some (
      profile_field
        (record { email = some (text_field u.email); phone = some (text_field u.phone) }));
}

abbrev pub created_body : NewUser → Builder
created_body u =
    (("login" ∷ []), u.login)
    ∷ (("first_name" ∷ []), u.first_name)
    ∷ (("last_name" ∷ []), u.last_name)
    ∷ (("status" ∷ []), u.status)
    ∷ (("profile" ∷ "email" ∷ []), u.email)
    ∷ (("profile" ∷ "phone" ∷ []), u.phone)
    ∷ (("source" ∷ []), "mongo")
    ∷ []

module _ (lib : MongoLibrary) where
  -- A member, or a default where it is missing.
  abbrev pub member_or : String → lib.Value → String → Result String
  member_or default body name =
      if lib.has_member body name then lib.string_member body name else ok default

  abbrev insert : ℕ → NewUser → MongoHandler lib (Unit {0})
  insert now u x =
      let (r, c) = lib.insert_one (user_document now u) x.collection in
      (r, record x { collection = c })

  -- The part from FindOne on.
  unfoldable pub store_user : ℕ → NewUser → Option UserDocument → MongoHandler lib String
  store_user now u (some found) =
      answer_with lib conflict "{\"error\":\"mongo user already exists\"}"
  store_user now u none = do insert now u; answer_with lib created (lib.print (created_body u))

  abbrev find_login : String → MongoHandler lib (Option UserDocument)
  find_login login x = (lib.find_one login x.collection, x)

  -- The part with the optional fields, behind the checks of the required ones.
  unfoldable pub check_optional :
      ℕ → lib.Value → String → String → String → String → MongoHandler lib String
  unfolding store_user
  check_optional now body login password first_name last_name = do
    status ← lift (member_or "active" body "status")
    if not (status == "active") && not (status == "blocked")
        then answer_with lib bad_request "{\"error\":\"status must be active or blocked\"}"
        else do
          email ← lift (member_or (login +s "@example.com") body "email")
          phone ← lift (member_or "+79990000000" body "phone")
          found ← find_login login
          store_user now
              (record {
                login = login;
                password = password;
                first_name = first_name;
                last_name = last_name;
                status = status;
                email = email;
                phone = phone;
              })
              found

  unfoldable pub check_required : ℕ → lib.Value → MongoHandler lib String
  unfolding check_optional is_valid_login
  check_required now body =
      if not (lib.has_member body "login")
        || not (lib.has_member body "password")
        || not (lib.has_member body "first_name")
        || not (lib.has_member body "last_name")
      then answer_with lib bad_request
          "{\"error\":\"login, password, first_name and last_name are required\"}"
      else do
        login ← lift (lib.string_member body "login")
        password ← lift (lib.string_member body "password")
        first_name ← lift (lib.string_member body "first_name")
        last_name ← lift (lib.string_member body "last_name")
        if is_empty login || is_empty password || is_empty first_name || is_empty last_name
            then answer_with lib bad_request "{\"error\":\"fields must not be empty\"}"
            else if not (is_valid_login login)
            then answer_with lib bad_request
                "{\"error\":\"login must contain only a-z, 0-9, ., _, -\"}"
            else if ltb (len password) 6
            then answer_with lib bad_request
                "{\"error\":\"password must be at least 6 characters\"}"
            else check_optional now body login password first_name last_name

  abbrev parsed : ℕ → Result lib.Value → MongoHandler lib String
  parsed now (throws e) = answer_with lib bad_request "{\"error\":\"invalid json\"}"
  parsed now (ok body) =
      try_or lib (check_required now body)
        (answer_with lib internal_server_error "{\"error\":\"failed to create mongo user\"}")

  unfoldable pub mongo_users_create : ℕ → HttpRequest → MongoHandler lib String
  unfolding check_required
  mongo_users_create now request = do
    set_type lib "application/json"
    parsed now (lib.from_string request.body)
