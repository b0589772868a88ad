-- ===== src/Handlers/RidesCreate.antt =====
-- RidesCreate::HandleRequestThrow of src/handlers/rides_create.cpp.
use taxi_lab.Base.{
  ◌||◌, Option, none, some, [], ◌∷◌, String, is_empty, is_nonpositive, if◌then◌else◌, pure, lift,
  ◌>>=◌, ◌>>◌,
}
use taxi_lab.Models.{Ride}
use taxi_lab.Http.{
  created, bad_request, conflict, HttpRequest, Object, object, number, text, Userver, Moment,
  Handler, set_status, set_content_type, with_db, with_cache, refuse,
}
use taxi_lab.Performance.Cache.{invalidate_prefix}
use taxi_lab.Storage.{create_ride}

abbrev pub ride_object : Ride → Object
ride_object ride =
    ("id", number ride.id)
    ∷ ("passenger_id", number ride.passenger_id)
    ∷ ("driver_id", number ride.driver_id)
    ∷ ("pickup_address", text ride.pickup_address)
    ∷ ("destination_address", text ride.destination_address)
    ∷ ("status", text ride.status)
    ∷ []

module _ (lib : Userver) where
  unfoldable pub rides_create_reply : Option Ride → Handler String
  rides_create_reply none = refuse lib conflict "ride cannot be created"
  rides_create_reply (some ride) = do
    with_cache (λ c. (tt, invalidate_prefix "rides:" c))
    set_status created
    pure (lib.print (object (ride_object ride)))

  unfoldable pub rides_create : Moment → HttpRequest → Handler String
  unfolding rides_create_reply
  rides_create moment request = do
    set_content_type "application/json"
    json ← lift (lib.from_string request.body)
    passenger_id ← lift (lib.int_member json "passenger_id")
    pickup_address ← lift (lib.string_member json "pickup_address")
    destination_address ← lift (lib.string_member json "destination_address")
    if is_nonpositive passenger_id || is_empty pickup_address || is_empty destination_address
        then refuse lib bad_request
            "passenger_id, pickup_address and destination_address are required"
        else do
          ride ← with_db (create_ride moment.now passenger_id pickup_address destination_address)
          rides_create_reply ride
