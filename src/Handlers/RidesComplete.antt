-- ===== src/Handlers/RidesComplete.antt =====
-- RidesComplete::HandleRequestThrow of src/handlers/rides_complete.cpp.
use taxi_lab.Base.{
  Option, none, some, String, is_empty, if◌then◌else◌, pure, lift, ◌>>=◌, ◌>>◌, stoi,
}
use taxi_lab.Models.{Ride}
use taxi_lab.Http.{
  bad_request, conflict, HttpRequest, object, Userver, Moment, Handler, set_content_type, with_db,
  with_cache, refuse,
}
use taxi_lab.Performance.Cache.{invalidate_prefix}
use taxi_lab.Storage.{complete_ride}
use taxi_lab.Handlers.RidesCreate.{ride_object}

module _ (lib : Userver) where
  unfoldable pub rides_complete_reply : Option Ride → Handler String
  rides_complete_reply none = refuse lib conflict "ride cannot be completed"
  rides_complete_reply (some ride) = do
    with_cache (λ c. (tt, invalidate_prefix "rides:" c))
    pure (lib.print (object (ride_object ride)))

  unfoldable pub rides_complete : Moment → HttpRequest → Handler String
  unfolding rides_complete_reply
  rides_complete moment request = do
    set_content_type "application/json"
    if is_empty (request.path_arg "id")
        then refuse lib bad_request "ride id is required in path"
        else do
          ride_id ← lift (stoi (request.path_arg "id"))
          ride ← with_db (complete_ride moment.now ride_id)
          rides_complete_reply ride
