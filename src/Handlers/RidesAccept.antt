-- ===== src/Handlers/RidesAccept.antt =====
-- RidesAccept::HandleRequestThrow of src/handlers/rides_accept.cpp.
use taxi_lab.Base.{
  Option, none, some, String, is_empty, is_nonpositive, if◌then◌else◌, pure, lift, ◌>>=◌, ◌>>◌,
  stoi,
}
use taxi_lab.Models.{Ride}
use taxi_lab.Http.{
  bad_request, conflict, HttpRequest, object, Userver, Handler, set_content_type, with_db,
  with_cache, refuse,
}
use taxi_lab.Performance.Cache.{invalidate_prefix}
use taxi_lab.Storage.{accept_ride}
use taxi_lab.Handlers.RidesCreate.{ride_object}

module _ (lib : Userver) where
  unfoldable pub rides_accept_reply : Option Ride → Handler String
  rides_accept_reply none = refuse lib conflict "ride cannot be accepted"
  rides_accept_reply (some ride) = do
    with_cache (λ c. (tt, invalidate_prefix "rides:" c))
    pure (lib.print (object (ride_object ride)))

  unfoldable pub rides_accept : HttpRequest → Handler String
  unfolding rides_accept_reply
  rides_accept request = do
    set_content_type "application/json"
    json ← lift (lib.from_string request.body)
    driver_id ← lift (lib.int_member json "driver_id")
    if is_empty (request.path_arg "id")
        then refuse lib bad_request "ride id is required in path"
        else do
          ride_id ← lift (stoi (request.path_arg "id"))
          if is_nonpositive driver_id
              then refuse lib bad_request "driver_id is required"
              else do ride ← with_db (accept_ride ride_id driver_id); rides_accept_reply ride
