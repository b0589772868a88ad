-- ===== src/Handlers/Writes.antt =====
-- The handlers that write (src/handlers): what holds of the storage after one, from what holds after
-- the method that it calls.
use taxi_lab.Base.{
  ℤ, ◌≡◌, refl, ◌||◌, Option, none, some, String, Result, ok, throws, is_empty, is_nonpositive,
  proceed, stoi,
}
use taxi_lab.Database.Rows.{Database}
use taxi_lab.Http.{Userver, HttpRequest, Moment, Exchange, Handler}
use taxi_lab.Storage.{
  TaxiStorage, create_user, create_driver, create_ride, accept_ride, complete_ride, login,
}
use taxi_lab.Handlers.Rules.{proceed_keeps, if_keeps, with_database, as_json}
use taxi_lab.Handlers.UsersCreate.{users_create, users_create_reply}
use taxi_lab.Handlers.AuthLogin.{auth_login, auth_login_reply}
use taxi_lab.Handlers.DriversCreate.{drivers_create, drivers_create_reply}
use taxi_lab.Handlers.RidesCreate.{rides_create, rides_create_reply}
use taxi_lab.Handlers.RidesAccept.{rides_accept, rides_accept_reply}
use taxi_lab.Handlers.RidesComplete.{rides_complete, rides_complete_reply}

module _ (Q : TaxiStorage → Type 0) where
  abbrev AfterQ : Exchange → Type 0
  AfterQ y = Q y.server.storage

  written :
      {A : Type 0} (reply : Option A → Handler String) (x : Exchange)
      (o : Result (Option A) × Database)
      → ((a : A) (y : Exchange) → (reply (some a) y).1.server.storage ≡ y.server.storage)
      → ((y : Exchange) → (reply none y).1.server.storage ≡ y.server.storage)
      → Q (record x.server.storage { db = o.1 })
      → AfterQ (proceed (o.0, with_database x o.1) reply).1
  written reply x (throws e, db) a b w = w
  written reply x (ok none, db) a b w = rw (b (with_database x db)) w
  written reply x (ok (some v), db) a b w = rw (a v (with_database x db)) w

  logged_in :
      (lib : Userver) (x : Exchange) (o : Result (Option String) × TaxiStorage)
      → Q o.1
      → AfterQ
          (proceed
            (o.0, record x { server = record x.server { storage = o.1 } })
            (auth_login_reply lib)).1
  unfolding auth_login_reply
  logged_in lib x (throws e, s) w = w
  logged_in lib x (ok none, s) w = w
  logged_in lib x (ok (some token), s) w = w

  module _ (lib : Userver) (moment : Moment) (request : HttpRequest) (x : Exchange) where
    pub users_create-keeps :
        Q x.server.storage
        → ((a b c : String)
            → Q (record x.server.storage {
              db = (create_user moment.now a b c x.server.storage.db).1;
            }))
        → AfterQ (users_create lib moment request x).1
    unfolding users_create users_create_reply
    users_create-keeps w k = proceed_keeps AfterQ (lib.from_string request.body) _ _ w λ json.
        proceed_keeps AfterQ (lib.string_member json "login") _ _ w λ login.
          proceed_keeps AfterQ (lib.string_member json "password") _ _ w λ password.
            proceed_keeps AfterQ (lib.string_member json "full_name") _ _ w λ full_name.
              if_keeps AfterQ (is_empty login || is_empty password || is_empty full_name) _ _ _ w (
                written (users_create_reply lib) (as_json x)
                  (create_user moment.now login password full_name x.server.storage.db)
                  (λ a y. refl) (λ y. refl) (k login password full_name))

    pub drivers_create-keeps :
        Q x.server.storage
        → ((a : ℤ) (b c d : String)
            → Q (record x.server.storage { db = (create_driver a b c d x.server.storage.db).1 }))
        → AfterQ (drivers_create lib request x).1
    unfolding drivers_create drivers_create_reply
    drivers_create-keeps w k = proceed_keeps AfterQ (lib.from_string request.body) _ _ w λ json.
        proceed_keeps AfterQ (lib.int_member json "user_id") _ _ w λ user_id.
          proceed_keeps AfterQ (lib.string_member json "car_model") _ _ w λ car_model.
            proceed_keeps AfterQ (lib.string_member json "car_number") _ _ w λ car_number.
              proceed_keeps AfterQ (lib.string_member json "license_number") _ _ w λ license_number.
                if_keeps AfterQ
                  (is_nonpositive user_id
                    || is_empty car_model
                    || is_empty car_number
                    || is_empty license_number)
                  _ _ _ w
                  (written (drivers_create_reply lib) (as_json x)
                    (create_driver user_id car_model car_number license_number x.server.storage.db)
                    (λ a y. refl) (λ y. refl) (k user_id car_model car_number license_number))

    pub rides_create-keeps :
        Q x.server.storage
        → ((a : ℤ) (b c : String)
            → Q (record x.server.storage {
              db = (create_ride moment.now a b c x.server.storage.db).1;
            }))
        → AfterQ (rides_create lib moment request x).1
    unfolding rides_create rides_create_reply
    rides_create-keeps w k = proceed_keeps AfterQ (lib.from_string request.body) _ _ w λ json.
        proceed_keeps AfterQ (lib.int_member json "passenger_id") _ _ w λ passenger_id.
          proceed_keeps AfterQ (lib.string_member json "pickup_address") _ _ w λ pickup_address.
            proceed_keeps AfterQ (lib.string_member json "destination_address") _ _ w
              λ destination_address.
                if_keeps AfterQ
                  (is_nonpositive passenger_id
                    || is_empty pickup_address
                    || is_empty destination_address)
                  _ _ _ w
                  (written (rides_create_reply lib) (as_json x)
                    (create_ride moment.now passenger_id pickup_address destination_address
                      x.server.storage.db)
                    (λ a y. refl) (λ y. refl) (k passenger_id pickup_address destination_address))

    pub rides_accept-keeps :
        Q x.server.storage
        → ((a b : ℤ) → Q (record x.server.storage { db = (accept_ride a b x.server.storage.db).1 }))
        → AfterQ (rides_accept lib request x).1
    unfolding rides_accept rides_accept_reply
    rides_accept-keeps w k = proceed_keeps AfterQ (lib.from_string request.body) _ _ w λ json.
        proceed_keeps AfterQ (lib.int_member json "driver_id") _ _ w λ driver_id.
          if_keeps AfterQ (is_empty (request.path_arg "id")) _ _ _ w (
            proceed_keeps AfterQ (stoi (request.path_arg "id")) _ _ w λ ride_id.
              if_keeps AfterQ (is_nonpositive driver_id) _ _ _ w (
                written (rides_accept_reply lib) (as_json x)
                  (accept_ride ride_id driver_id x.server.storage.db) (λ a y. refl) (λ y. refl)
                  (k ride_id driver_id)))

    pub rides_complete-keeps :
        Q x.server.storage
        → ((a : ℤ)
            → Q (record x.server.storage {
              db = (complete_ride moment.now a x.server.storage.db).1;
            }))
        → AfterQ (rides_complete lib moment request x).1
    unfolding rides_complete rides_complete_reply
    rides_complete-keeps w k = if_keeps AfterQ (is_empty (request.path_arg "id")) _ _ _ w (
        proceed_keeps AfterQ (stoi (request.path_arg "id")) _ _ w λ ride_id.
          written (rides_complete_reply lib) (as_json x)
            (complete_ride moment.now ride_id x.server.storage.db) (λ a y. refl) (λ y. refl)
            (k ride_id))

    pub auth_login-keeps :
        Q x.server.storage
        → ((a b : String) → Q (login a b x.server.storage).1)
        → AfterQ (auth_login lib request x).1
    unfolding auth_login
    auth_login-keeps w k = proceed_keeps AfterQ (lib.from_string request.body) _ _ w λ json.
        proceed_keeps AfterQ (lib.string_member json "login") _ _ w λ name.
          proceed_keeps AfterQ (lib.string_member json "password") _ _ w λ password.
            if_keeps AfterQ (is_empty name || is_empty password) _ _ _ w
              (logged_in lib (as_json x) (login name password x.server.storage) (k name password))
