-- ===== src/Mongo.antt =====
-- The users in MongoDB: what the two handlers of src/handlers/mongo_users_*.cpp share.
pub mod Create
pub mod Get
use taxi_lab.Base.{ℕ, Bool, Option, List, String, Result, ok, throws, Action}
use taxi_lab.Http.{HttpStatus, HttpResponse}

-- A field of a BSON document, which may have another type than the handler expects.
pub data Field : Type 0 where
  text_field : String → Field
  other_field : Field

pub record Profile : Type 0 where
  pub email : Option Field
  pub phone : Option Field

-- The member "profile", a document or another value.
pub data ProfileField : Type 0 where
  profile_field : Profile → ProfileField
  other_profile : ProfileField

-- A document of the collection, with the fields that the handlers read.
pub record UserDocument : Type 0 where
  pub login : Option Field
  pub password : Option Field
  pub first_name : Option Field
  pub last_name : Option Field
  pub created_at : ℕ
  pub status : Option Field
  pub profile : Option ProfileField

-- What a ValueBuilder was given: texts at paths of member names.
abbrev pub Builder : Type 0
Builder = List (List String × String)

-- What the handlers call of userver: JSON, and the collection "users". `find` is the query for a text
-- in the first or the last name.
pub record MongoLibrary : Type 1 where
  pub Value : Type 0
  pub from_string : String → Result Value
  pub has_member : Value → String → Bool
  pub string_member : Value → String → Result String
  pub print : Builder → String
  pub print_array : List Builder → String
  pub Collection : Type 0
  pub find_one : String → Collection → Result (Option UserDocument)
  pub find : String → Collection → Result (List UserDocument)
  pub insert_one : UserDocument → Collection → Result (Unit {0}) × Collection

module _ (lib : MongoLibrary) where
  pub record MongoExchange : Type 0 where
    pub collection : lib.Collection
    pub response : HttpResponse

  abbrev pub MongoHandler : Type 0 → Type 0
  MongoHandler A = Action MongoExchange A

  abbrev pub set_type : String → MongoHandler (Unit {0})
  set_type t x = (ok tt, record x { response = record x.response { content_type = t } })

  -- `response.SetStatus(status); return body;`
  abbrev pub answer_with : HttpStatus → String → MongoHandler String
  answer_with status_code body x =
      (ok body, record x { response = record x.response { status = status_code } })

  abbrev caught :
      MongoHandler String → Result String × MongoExchange → Result String × MongoExchange
  caught handler (ok body, x) = (ok body, x)
  caught handler (throws e, x) = handler x

  -- `try { m } catch (const std::exception&) { handler }`
  abbrev pub try_or : MongoHandler String → MongoHandler String → MongoHandler String
  try_or m handler x = caught handler (m x)
