-- ===== src/Mongo/Get/Laws.antt =====
-- What GET /mongo/users says of a user that POST /mongo/users stored.
use taxi_lab.Base.{ℕ, ◌≡◌, ◌≢◌, refl, false, some, is_empty, ok, eq_ne}
use taxi_lab.Http.{HttpRequest, status_ok}
use taxi_lab.Mongo.{MongoLibrary, MongoExchange}
use taxi_lab.Mongo.Create.{NewUser, user_document, created_body}
use taxi_lab.Mongo.Get.{make_user_json, found_document, get_by_login, mongo_users_get}

module _ (lib : MongoLibrary) (now : ℕ) (u : NewUser) (request : HttpRequest)
    (x : MongoExchange lib) where
  -- If the collection finds, for a login that is not empty, the document that POST /mongo/users
  -- stores, and no mask is asked for, then GET /mongo/users answers 200 with the very body of that
  -- POST and leaves the collection alone.
  pub mongo_users_get-user_document :
      request.arg "login" ≡ u.login
      → u.login ≢ ""
      → request.arg "name_mask" ≡ ""
      → lib.find_one u.login x.collection ≡ ok (some (user_document now u))
      → ((mongo_users_get lib request x).0 ≡ ok (lib.print (created_body u)))
        × ((mongo_users_get lib request x).1.response.status ≡ status_ok)
        × ((mongo_users_get lib request x).1.collection ≡ x.collection)
  unfolding mongo_users_get get_by_login found_document make_user_json
  mongo_users_get-user_document login some_login no_mask found =
      let full : is_empty u.login ≡ false = eq_ne u.login "" some_login in
      rw (login, no_mask, full, found) (refl, refl, refl)
