-- ===== src/Handlers/Coherence/Writes.antt =====
-- The handlers that write (src/handlers/*_create.cpp, rides_accept.cpp, rides_complete.cpp,
-- auth_login.cpp) and the coherence of the cache.
use taxi_lab.Base.{
  ◌≡◌, refl, is_nonpositive, stoi, inl, inr, Option, none, some, ◌||◌, String, Result, ok, throws,
  is_empty, proceed,
}
use taxi_lab.Models.{Driver, Ride, User}
use taxi_lab.Database.Rows.{Database}
use taxi_lab.Performance.Cache.{invalidate_prefix}
use taxi_lab.Http.{Userver, HttpRequest, Moment, Exchange, Handler}
use taxi_lab.Storage.{create_user, create_driver, create_ride, accept_ride, complete_ride}
use taxi_lab.Storage.Changes.{
  ChangesUsers, ChangesRides, create_user-ChangesUsers, create_driver-users,
  create_ride-ChangesRides, accept_ride-ChangesRides, complete_ride-ChangesRides,
}
use taxi_lab.Handlers.UsersCreate.{users_create, users_create_reply}
use taxi_lab.Handlers.DriversCreate.{drivers_create, drivers_create_reply}
use taxi_lab.Handlers.RidesCreate.{rides_create, rides_create_reply}
use taxi_lab.Handlers.AuthLogin.{auth_login, auth_login_reply}
use taxi_lab.Storage.{TaxiStorage, login}
use taxi_lab.Storage.Tokens.Login.{login-db}
use taxi_lab.Handlers.RidesAccept.{rides_accept, rides_accept_reply}
use taxi_lab.Handlers.RidesComplete.{rides_complete, rides_complete_reply}
use taxi_lab.Handlers.Rules.{proceed_keeps, if_keeps, with_database, as_json}
use taxi_lab.Handlers.Coherence.{
  Coherent, Coherent-same, Coherent-users, Coherent-rides, Coherent-invalidate_prefix,
}

module _ (lib : Userver) where
  -- What the server holds after a handler.
  abbrev pub IsCoherent : Exchange → Type 0
  IsCoherent x = Coherent lib x.server.storage.db x.server.cache

  user_written :
      (x : Exchange) (o : Result (Option User) × Database)
      → IsCoherent x
      → ChangesUsers x.server.storage.db o
      → IsCoherent (proceed (o.0, with_database x o.1) (users_create_reply lib)).1
  unfolding users_create_reply
  user_written x (throws e, db) h (rides, inl (u, k)) = cc
  user_written x (throws e, db) h (rides, inr users) =
      Coherent-same lib _ db x.server.cache users rides h
  user_written x (ok none, db) h (rides, inl (u, k)) = cc
  user_written x (ok none, db) h (rides, inr users) =
      Coherent-same lib _ db x.server.cache users rides h
  user_written x (ok (some u), db) h (rides, c) = Coherent-users lib _ db x.server.cache rides h

  pub users_create-IsCoherent :
      (moment : Moment) (request : HttpRequest) (x : Exchange)
      → IsCoherent x
      → IsCoherent (users_create lib moment request x).1
  unfolding users_create
  users_create-IsCoherent moment request x h =
      proceed_keeps (IsCoherent) (lib.from_string request.body) _ _ h λ json.
        proceed_keeps (IsCoherent) (lib.string_member json "login") _ _ h λ login.
          proceed_keeps (IsCoherent) (lib.string_member json "password") _ _ h λ password.
            proceed_keeps (IsCoherent) (lib.string_member json "full_name") _ _ h λ full_name.
              if_keeps (IsCoherent) (is_empty login || is_empty password || is_empty full_name) _ _
                _ h
                (user_written _
                  (create_user moment.now login password full_name x.server.storage.db) h
                  (create_user-ChangesUsers moment.now login password full_name
                    x.server.storage.db))

  driver_written :
      (x : Exchange) (o : Result (Option Driver) × Database)
      → IsCoherent x
      → (x.server.storage.db.users ≡ o.1.users) × (x.server.storage.db.rides ≡ o.1.rides)
      → IsCoherent (proceed (o.0, with_database x o.1) (drivers_create_reply lib)).1
  unfolding drivers_create_reply
  driver_written x (throws e, db) h (users, rides) =
      Coherent-same lib _ db x.server.cache users rides h
  driver_written x (ok none, db) h (users, rides) =
      Coherent-same lib _ db x.server.cache users rides h
  driver_written x (ok (some d), db) h (users, rides) =
      Coherent-invalidate_prefix lib db "drivers:" x.server.cache
        (Coherent-same lib _ db x.server.cache users rides h)

  pub drivers_create-IsCoherent :
      (request : HttpRequest) (x : Exchange)
      → IsCoherent x
      → IsCoherent (drivers_create lib request x).1
  unfolding drivers_create
  drivers_create-IsCoherent request x h =
      proceed_keeps (IsCoherent) (lib.from_string request.body) _ _ h λ json.
        proceed_keeps (IsCoherent) (lib.int_member json "user_id") _ _ h λ user_id.
          proceed_keeps (IsCoherent) (lib.string_member json "car_model") _ _ h λ car_model.
            proceed_keeps (IsCoherent) (lib.string_member json "car_number") _ _ h λ car_number.
              proceed_keeps (IsCoherent) (lib.string_member json "license_number") _ _ h
                λ license_number.
                  if_keeps (IsCoherent)
                    (is_nonpositive user_id
                      || is_empty car_model
                      || is_empty car_number
                      || is_empty license_number)
                    _ _ _ h
                    (driver_written _
                      (create_driver user_id car_model car_number license_number
                        x.server.storage.db)
                      h
                      (create_driver-users user_id car_model car_number license_number
                        x.server.storage.db))

  -- The part of the three handlers of rides behind the storage's answer.
  ride_written :
      (reply : Option Ride → Handler String) (x : Exchange) (o : Result (Option Ride) × Database)
      → ((y : Exchange)
          → ((reply none y).1.server ≡ y.server)
            × ((ride : Ride)
                → (reply (some ride) y).1.server
                  ≡ record y.server { cache = invalidate_prefix "rides:" y.server.cache }))
      → IsCoherent x
      → ChangesRides x.server.storage.db o
      → IsCoherent (proceed (o.0, with_database x o.1) reply).1
  ride_written reply x (throws e, db) replies h (users, inl (u, k)) = cc
  ride_written reply x (throws e, db) replies h (users, inr rides) =
      Coherent-same lib _ db x.server.cache users rides h
  ride_written reply x (ok none, db) replies h (users, inl (u, k)) = cc
  ride_written reply x (ok none, db) replies h (users, inr rides) =
      rw ((replies (with_database x db)).0) (Coherent-same lib _ db x.server.cache users rides h)
  ride_written reply x (ok (some ride), db) replies h (users, c) =
      rw ((replies (with_database x db)).1 ride) (Coherent-rides lib _ db x.server.cache users h)

  pub rides_create-IsCoherent :
      (moment : Moment) (request : HttpRequest) (x : Exchange)
      → IsCoherent x
      → IsCoherent (rides_create lib moment request x).1
  unfolding rides_create rides_create_reply
  rides_create-IsCoherent moment request x h =
      proceed_keeps (IsCoherent) (lib.from_string request.body) _ _ h λ json.
        proceed_keeps (IsCoherent) (lib.int_member json "passenger_id") _ _ h λ passenger_id.
          proceed_keeps (IsCoherent) (lib.string_member json "pickup_address") _ _ h
            λ pickup_address.
              proceed_keeps (IsCoherent) (lib.string_member json "destination_address") _ _ h
                λ destination_address.
                  if_keeps (IsCoherent)
                    (is_nonpositive passenger_id
                      || is_empty pickup_address
                      || is_empty destination_address)
                    _ _ _ h
                    (ride_written (rides_create_reply lib) _
                      (create_ride moment.now passenger_id pickup_address destination_address
                        x.server.storage.db)
                      (λ y. (refl, λ ride. refl)) h
                      (create_ride-ChangesRides moment.now passenger_id pickup_address
                        destination_address x.server.storage.db))

  pub rides_accept-IsCoherent :
      (request : HttpRequest) (x : Exchange)
      → IsCoherent x
      → IsCoherent (rides_accept lib request x).1
  unfolding rides_accept rides_accept_reply
  rides_accept-IsCoherent request x h =
      proceed_keeps (IsCoherent) (lib.from_string request.body) _ _ h λ json.
        proceed_keeps (IsCoherent) (lib.int_member json "driver_id") _ _ h λ driver_id.
          if_keeps (IsCoherent) (is_empty (request.path_arg "id")) _ _ _ h (
            proceed_keeps (IsCoherent) (stoi (request.path_arg "id")) _ _ h λ ride_id.
              if_keeps (IsCoherent) (is_nonpositive driver_id) _ _ _ h (
                ride_written (rides_accept_reply lib) _
                  (accept_ride ride_id driver_id x.server.storage.db) (λ y. (refl, λ ride. refl)) h
                  (accept_ride-ChangesRides ride_id driver_id x.server.storage.db)))

  pub rides_complete-IsCoherent :
      (moment : Moment) (request : HttpRequest) (x : Exchange)
      → IsCoherent x
      → IsCoherent (rides_complete lib moment request x).1
  unfolding rides_complete rides_complete_reply
  rides_complete-IsCoherent moment request x h =
      if_keeps (IsCoherent) (is_empty (request.path_arg "id")) _ _ _ h (
        proceed_keeps (IsCoherent) (stoi (request.path_arg "id")) _ _ h λ ride_id.
          ride_written (rides_complete_reply lib) _
            (complete_ride moment.now ride_id x.server.storage.db) (λ y. (refl, λ ride. refl)) h
            (complete_ride-ChangesRides moment.now ride_id x.server.storage.db))

  logged_in :
      (x : Exchange) (o : Result (Option String) × TaxiStorage)
      → IsCoherent x
      → o.1.db ≡ x.server.storage.db
      → IsCoherent
          (proceed
            (o.0, record x { server = record x.server { storage = o.1 } })
            (auth_login_reply lib)).1
  unfolding auth_login_reply
  logged_in x (throws e, s) h same = rw same h
  logged_in x (ok none, s) h same = rw same h
  logged_in x (ok (some token), s) h same = rw same h

  pub auth_login-IsCoherent :
      (request : HttpRequest) (x : Exchange)
      → IsCoherent x
      → IsCoherent (auth_login lib request x).1
  unfolding auth_login
  auth_login-IsCoherent request x h =
      proceed_keeps (IsCoherent) (lib.from_string request.body) _ _ h λ json.
        proceed_keeps (IsCoherent) (lib.string_member json "login") _ _ h λ name.
          proceed_keeps (IsCoherent) (lib.string_member json "password") _ _ h λ password.
            if_keeps (IsCoherent) (is_empty name || is_empty password) _ _ _ h (
              logged_in (as_json x) (login name password x.server.storage) h
                (login-db name password x.server.storage))
