-- ===== src/Mongo/Get.antt =====
-- MongoUsersGet::HandleRequestThrow of src/handlers/mongo_users_get.cpp.
pub mod Laws
use taxi_lab.Base.{
  not, bool_eq, Option, none, some, List, [], ◌∷◌, String, is_empty, if◌then◌else◌, Result, ok,
  throws, bad_column, proceed, lift, ◌>>=◌, ◌>>◌,
}
use taxi_lab.Http.{HttpRequest, status_ok, bad_request, not_found, internal_server_error}
use taxi_lab.Mongo.{
  Field, text_field, other_field, ProfileField, profile_field, other_profile, Profile, UserDocument,
  Builder, MongoLibrary, MongoHandler, set_type, answer_with, try_or,
}

abbrev prefixed : List String × String → Result Builder → Result Builder
prefixed entry (ok b) = ok (entry ∷ b)
prefixed entry (throws e) = throws e

-- `if (doc.HasMember(name)) builder[path] = doc[name].As<std::string>();` before the rest.
abbrev put : List String → Option Field → Result Builder → Result Builder
put path none rest = rest
put path (some (text_field t)) rest = prefixed (path, t) rest
put path (some other_field) rest = throws bad_column

abbrev put_profile : Option ProfileField → Result Builder → Result Builder
put_profile none rest = rest
put_profile (some other_profile) rest = throws bad_column
put_profile (some (profile_field p)) rest =
    put ("profile" ∷ "email" ∷ []) p.email (put ("profile" ∷ "phone" ∷ []) p.phone rest)

unfoldable pub make_user_json : UserDocument → Result Builder
make_user_json doc = put ("login" ∷ []) doc.login (
    put ("first_name" ∷ []) doc.first_name (
      put ("last_name" ∷ []) doc.last_name (
        put ("status" ∷ []) doc.status
          (put_profile doc.profile (ok ((("source" ∷ []), "mongo") ∷ []))))))

abbrev pushed : Result Builder → Result (List Builder) → Result (List Builder)
pushed (throws e) rest = throws e
pushed (ok b) (throws e) = throws e
pushed (ok b) (ok bs) = ok (b ∷ bs)

-- The documents that a cursor gives, one after the other.
unfoldable pub make_user_jsons : List UserDocument → Result (List Builder)
make_user_jsons [] = ok []
make_user_jsons (doc ∷ docs) = pushed (make_user_json doc) (make_user_jsons docs)

module _ (lib : MongoLibrary) where
  unfoldable pub found_document : Option UserDocument → MongoHandler lib String
  unfolding make_user_json
  found_document none = answer_with lib not_found "{\"error\":\"mongo user not found\"}"
  found_document (some doc) = do
    builder ← lift (make_user_json doc)
    answer_with lib status_ok (lib.print builder)

  unfoldable pub get_by_login : String → MongoHandler lib String
  unfolding found_document
  get_by_login login x = proceed (lib.find_one login x.collection, x) found_document

  unfoldable pub get_by_mask : String → MongoHandler lib String
  unfolding make_user_jsons
  get_by_mask name_mask x =
      proceed (lib.find name_mask x.collection, x)
        λ docs. do
          builders ← lift (make_user_jsons docs)
          answer_with lib status_ok (lib.print_array builders)

  unfoldable pub mongo_users_get : HttpRequest → MongoHandler lib String
  unfolding get_by_login get_by_mask
  mongo_users_get request = do
    set_type lib "application/json"
    let has_login = not (is_empty (request.arg "login"))
    let has_name_mask = not (is_empty (request.arg "name_mask"))
    if bool_eq has_login has_name_mask
        then answer_with lib bad_request
            "{\"error\":\"use exactly one query parameter: login or name_mask\"}"
        else try_or lib
            (if has_login
              then get_by_login (request.arg "login")
              else get_by_mask (request.arg "name_mask"))
            (answer_with lib internal_server_error "{\"error\":\"failed to read mongo users\"}")
