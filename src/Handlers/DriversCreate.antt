-- ===== src/Handlers/DriversCreate.antt =====
-- DriversCreate::HandleRequestThrow of src/handlers/drivers_create.cpp.
use taxi_lab.Base.{
  ◌||◌, Option, none, some, [], ◌∷◌, String, is_empty, is_nonpositive, if◌then◌else◌, pure, lift,
  ◌>>=◌, ◌>>◌,
}
use taxi_lab.Models.{Driver}
use taxi_lab.Http.{
  created, bad_request, conflict, HttpRequest, Object, object, number, text, Userver, Handler,
  set_status, set_content_type, with_db, with_cache, refuse,
}
use taxi_lab.Performance.Cache.{invalidate_prefix}
use taxi_lab.Storage.{create_driver}

abbrev pub driver_object : Driver → Object
driver_object driver =
    ("id", number driver.id)
    ∷ ("user_id", number driver.user_id)
    ∷ ("car_model", text driver.car_model)
    ∷ ("car_number", text driver.car_number)
    ∷ ("license_number", text driver.license_number)
    ∷ ("status", text driver.status)
    ∷ []

module _ (lib : Userver) where
  unfoldable pub drivers_create_reply : Option Driver → Handler String
  drivers_create_reply none = refuse lib conflict "driver cannot be created"
  drivers_create_reply (some driver) = do
    with_cache (λ c. (tt, invalidate_prefix "drivers:" c))
    set_status created
    pure (lib.print (object (driver_object driver)))

  unfoldable pub drivers_create : HttpRequest → Handler String
  unfolding drivers_create_reply
  drivers_create request = do
    set_content_type "application/json"
    json ← lift (lib.from_string request.body)
    user_id ← lift (lib.int_member json "user_id")
    car_model ← lift (lib.string_member json "car_model")
    car_number ← lift (lib.string_member json "car_number")
    license_number ← lift (lib.string_member json "license_number")
    if is_nonpositive user_id
          || is_empty car_model
          || is_empty car_number
          || is_empty license_number
        then refuse lib bad_request "user_id, car_model, car_number and license_number are required"
        else do
          driver ← with_db (create_driver user_id car_model car_number license_number)
          drivers_create_reply driver
