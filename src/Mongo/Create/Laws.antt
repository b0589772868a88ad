-- ===== src/Mongo/Create/Laws.antt =====
-- What POST /mongo/users stores, and when.
use Prim.Native.String.{len}
use taxi_lab.Base.{
  ℕ, ◌≤◌, ◌≡◌, ◌≢◌, refl, ◌⊎◌, inl, inr, Bool, true, false, not, ◌||◌, ◌&&◌, ltb, Bool-cases,
  Option, none, some, String, ◌+s◌, ◌==◌, is_empty, if◌then◌else◌, Result, ok, throws, proceed,
  arith, Exception, eq_iff, ne_of_eq_false,
}
use taxi_lab.Http.{HttpRequest, created, internal_server_error}
use taxi_lab.Mongo.{UserDocument, MongoLibrary, MongoExchange, MongoHandler, try_or, answer_with}
use taxi_lab.Mongo.Create.Logins.{HasLoginChars, valid_login}
use taxi_lab.Mongo.Create.{
  NewUser, user_document, is_valid_login, store_user, check_optional, check_required,
  mongo_users_create, member_or,
}

-- What the handler has checked of a user that it stores.
pub record IsAcceptable (u : NewUser) : Type 0 where
  pub login : (u.login ≢ "") × HasLoginChars u.login
  pub password : 6 ≤ len u.password
  pub names : (u.first_name ≢ "") × (u.last_name ≢ "")
  pub status : (u.status ≡ "active") ⊎ (u.status ≡ "blocked")

one_status :
    (s : String)
    → (not (s == "active") && not (s == "blocked")) ≡ false
    → (s ≡ "active") ⊎ (s ≡ "blocked")
one_status s h = elim (Bool-cases (s == "active")) [
  | inl a ↦ inl ((eq_iff s "active").0 a)
  | inr a ↦ inr ((eq_iff s "blocked").0 (ground arith))
]

module _ (lib : MongoLibrary) (now : ℕ) where
  -- The handler's body before its `catch`: nothing is stored, or one acceptable user whose login was
  -- free.
  pub data Checks (c : lib.Collection) : Result String × MongoExchange lib → Type 0 where
    refused :
        (b : String) (y : MongoExchange lib)
        → y.collection ≡ c
        → y.response.status ≢ created
        → Checks c (ok b, y)
    threw : (e : Exception) (y : MongoExchange lib) → y.collection ≡ c → Checks c (throws e, y)
    stored :
        (u : NewUser) (b : String) (y : MongoExchange lib)
        → IsAcceptable u
        → lib.find_one u.login c ≡ ok none
        → lib.insert_one (user_document now u) c ≡ (ok tt, y.collection)
        → y.response.status ≡ created
        → Checks c (ok b, y)
    broke :
        (u : NewUser) (e : Exception) (y : MongoExchange lib)
        → IsAcceptable u
        → lib.find_one u.login c ≡ ok none
        → lib.insert_one (user_document now u) c ≡ (throws e, y.collection)
        → Checks c (throws e, y)

  -- The handler's answer: the same, with a throw answered 500.
  pub data Answers (c : lib.Collection) : Result String × MongoExchange lib → Type 0 where
    kept :
        (b : String) (y : MongoExchange lib)
        → y.collection ≡ c
        → y.response.status ≢ created
        → Answers c (ok b, y)
    inserted :
        (u : NewUser) (b : String) (y : MongoExchange lib)
        → IsAcceptable u
        → lib.find_one u.login c ≡ ok none
        → lib.insert_one (user_document now u) c ≡ (ok tt, y.collection)
        → y.response.status ≡ created
        → Answers c (ok b, y)
    insert_failed :
        (u : NewUser) (e : Exception) (b : String) (y : MongoExchange lib)
        → IsAcceptable u
        → lib.find_one u.login c ≡ ok none
        → lib.insert_one (user_document now u) c ≡ (throws e, y.collection)
        → y.response.status ≡ internal_server_error
        → Answers c (ok b, y)

  proceed_checks :
      {A : Type 0} (c : lib.Collection) (r : Result A) (x : MongoExchange lib)
      (f : A → MongoHandler lib String)
      → x.collection ≡ c
      → ((a : A) → r ≡ ok a → Checks c (f a x))
      → Checks c (proceed (r, x) f)
  proceed_checks c (ok a) x f same k = k a refl
  proceed_checks c (throws e) x f same k = threw e x same

  if_checks :
      (c : lib.Collection) (b : Bool) (m n : MongoHandler lib String) (x : MongoExchange lib)
      → (b ≡ true → Checks c (m x))
      → (b ≡ false → Checks c (n x))
      → Checks c ((if b then m else n) x)
  if_checks c true m n x h k = h refl
  if_checks c false m n x h k = k refl

  store_user-Checks :
      (u : NewUser) (o : Option UserDocument) (x : MongoExchange lib)
      → IsAcceptable u
      → lib.find_one u.login x.collection ≡ ok o
      → Checks x.collection (store_user lib now u o x)
  unfolding store_user
  store_user-Checks u (some found) x a h = refused _ _ refl (λ e. cc)
  store_user-Checks u none x a h = of (lib.insert_one (user_document now u) x.collection) refl
    where
      of :
          (o : Result (Unit {0}) × lib.Collection)
          → lib.insert_one (user_document now u) x.collection ≡ o
          → Checks x.collection (store_user lib now u none x)
      of (ok done, c) k = rw k (stored u _ _ a h k refl)
      of (throws e, c) k = rw k (broke u e _ a h k)

  module _ (body : lib.Value) where
    check_optional-Checks :
        (login password first_name last_name : String) (x : MongoExchange lib)
        → is_valid_login login ≡ true
        → 6 ≤ len password
        → first_name ≢ ""
        → last_name ≢ ""
        → Checks x.collection (check_optional lib now body login password first_name last_name x)
    unfolding check_optional
    check_optional-Checks login password first_name last_name x valid long first last =
        proceed_checks _ (member_or lib "active" body "status") x _ refl λ status e.
          if_checks _ (not (status == "active") && not (status == "blocked")) _ _ x
            (λ bad. refused _ _ refl (λ k. cc))
            λ good.
              proceed_checks _ (member_or lib (login +s "@example.com") body "email") x _ refl
                λ email e.
                  proceed_checks _ (member_or lib "+79990000000" body "phone") x _ refl λ phone e.
                    proceed_checks _ (lib.find_one login x.collection) x _ refl λ found h.
                      store_user-Checks _ found x
                        (record {
                          login = valid_login login valid;
                          password = long;
                          names = (first, last);
                          status = one_status status good;
                        })
                        h

    check_required-Checks :
        (x : MongoExchange lib) → Checks x.collection (check_required lib now body x)
    unfolding check_required
    check_required-Checks x =
        if_checks _
          (not (lib.has_member body "login")
            || not (lib.has_member body "password")
            || not (lib.has_member body "first_name")
            || not (lib.has_member body "last_name"))
          _ _ x (λ bad. refused _ _ refl (λ k. cc))
          λ has. proceed_checks _ (lib.string_member body "login") x _ refl λ login e.
            proceed_checks _ (lib.string_member body "password") x _ refl λ password e.
              proceed_checks _ (lib.string_member body "first_name") x _ refl λ first_name e.
                proceed_checks _ (lib.string_member body "last_name") x _ refl λ last_name e.
                  if_checks _
                    (is_empty login
                      || is_empty password
                      || is_empty first_name
                      || is_empty last_name)
                    _ _ x (λ bad. refused _ _ refl (λ k. cc))
                    λ full.
                      if_checks _ (not (is_valid_login login)) _ _ x
                        (λ bad. refused _ _ refl (λ k. cc))
                        λ valid.
                          if_checks _ (ltb (len password) 6) _ _ x
                            (λ bad. refused _ _ refl (λ k. cc))
                            λ long.
                              check_optional-Checks login password first_name last_name x
                                (ground arith) (ground arith)
                                (ne_of_eq_false first_name "" (ground arith))
                                (ne_of_eq_false last_name "" (ground arith))

  caught-Answers :
      (c : lib.Collection) (o : Result String × MongoExchange lib) (b : String)
      → Checks c o
      → Answers c (try_or lib (λ x. o) (answer_with lib internal_server_error b) o.1)
  caught-Answers c o b (refused d y same ne) = kept d y same ne
  caught-Answers c o b (threw e y same) = kept b _ same (λ k. cc)
  caught-Answers c o b (stored u d y a h i s) = inserted u d y a h i s
  caught-Answers c o b (broke u e y a h i) = insert_failed u e b _ a h i refl

  -- POST /mongo/users never throws. It answers other than 201 and leaves the collection alone, or
  -- it inserts one user, whose login was free, is not empty and has only a-z, 0-9, ".", "_" and
  -- "-", whose password has six bytes at least, whose names are not empty and whose status is
  -- active or blocked; then it answers 201 if the insertion succeeds and 500 if it throws.
  pub mongo_users_create-Answers :
      (request : HttpRequest) (x : MongoExchange lib)
      → Answers x.collection (mongo_users_create lib now request x)
  unfolding mongo_users_create
  mongo_users_create-Answers request x = of (lib.from_string request.body) refl
    where
      of :
          (r : Result lib.Value)
          → lib.from_string request.body ≡ r
          → Answers x.collection (mongo_users_create lib now request x)
      of (throws e) h = rw h (kept _ _ refl (λ k. cc))
      of (ok body) h = rw h (caught-Answers _ _ _ (check_required-Checks body _))
