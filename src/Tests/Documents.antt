-- ===== src/Tests/Documents.antt =====
-- The users in MongoDB at concrete inputs.
use taxi_lab.Base.{
  ◌≡◌, refl, true, false, Bool, Option, none, some, List, [], ◌∷◌, String, ◌==◌, if◌then◌else◌, ok,
  ne_of_eq_false,
}
use taxi_lab.Http.{HttpRequest, new_response, status_ok}
use taxi_lab.Mongo.{Field, text_field, other_field, UserDocument, MongoLibrary, MongoExchange}
use taxi_lab.Mongo.Create.{NewUser, user_document, created_body, mongo_users_create}
use taxi_lab.Mongo.Create.Laws.{Answers, mongo_users_create-Answers}
use taxi_lab.Mongo.Get.{mongo_users_get}
use taxi_lab.Mongo.Get.Laws.{mongo_users_get-user_document}

abbrev has_login : String → Option Field → Bool
has_login login none = false
has_login login (some (text_field t)) = t == login
has_login login (some other_field) = false

abbrev first_with : String → List UserDocument → Option UserDocument
first_with login [] = none
first_with login (doc ∷ docs) =
    if has_login login doc.login then some doc else first_with login docs

-- A collection is a list, and each member of a JSON text is "sample-1".
abbrev library : MongoLibrary
library = record {
  Value = Unit {0};
  from_string = λ s. ok tt;
  has_member = λ v name. if name == "status" then false else true;
  string_member = λ v name. ok "sample-1";
  print = λ b. "printed";
  print_array = λ bs. "printed";
  Collection = List UserDocument;
  find_one = λ login docs. ok (first_with login docs);
  find = λ mask docs. ok docs;
  insert_one = λ doc docs. (ok tt, doc ∷ docs);
}

abbrev sample : NewUser
sample = record {
  login = "sample-1";
  password = "sample-1";
  first_name = "sample-1";
  last_name = "sample-1";
  status = "active";
  email = "sample-1";
  phone = "sample-1";
}

abbrev request : HttpRequest
request = record {
  path = "/mongo/users";
  arg = λ name. if name == "login" then "sample-1" else "";
  path_arg = λ name. "";
  header = λ name. "";
  body = "{}";
}

abbrev before : MongoExchange library
before = record { collection = []; response = new_response }

abbrev after : MongoExchange library
after = record { collection = user_document 9 sample ∷ []; response = new_response }

mongo_users_create-Answers_example :
    Answers library 9 before.collection (mongo_users_create library 9 request before)
mongo_users_create-Answers_example = mongo_users_create-Answers library 9 request before

mongo_users_get-user_document_example :
    ((mongo_users_get library request after).0 ≡ ok (library.print (created_body sample)))
    × ((mongo_users_get library request after).1.response.status ≡ status_ok)
    × ((mongo_users_get library request after).1.collection ≡ after.collection)
mongo_users_get-user_document_example =
    mongo_users_get-user_document library 9 sample request after refl
      (ne_of_eq_false "sample-1" "" refl) refl refl
