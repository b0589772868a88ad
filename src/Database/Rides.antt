-- ===== src/Database/Rides.antt =====
-- The statements on `rides` (src/storage/taxi_storage.cpp), with the constraints of schema.sql.
use taxi_lab.Base.{
  ℤ, pos, int_eq, int_le, ℕ, suc, Bool, false, not, ◌||◌, ◌&&◌, Option, none, some, List, [], ◌∷◌,
  map, String, ◌==◌, ltb, leb, any, select, order_by, if◌then◌else◌, Result, ok, throws, is_blank,
  check_violation, unique_violation, foreign_key_violation, sequence_exhausted,
  cardinality_violation,
}
use taxi_lab.Base.Throwing.{◌>>=◌, ◌>>◌, require}
use taxi_lab.Database.Rows.{
  DriverRow, RideRow, Database, Row, int_cell, text_cell, int_max, varchar,
}
use taxi_lab.Database.Tables.{update_where}
use taxi_lab.Database.Drivers.{user_exists, with_status}

-- COALESCE(driver_id, 0)
abbrev pub coalesce_zero : Option ℤ → ℤ
coalesce_zero none = pos 0
coalesce_zero (some d) = d

-- id, passenger_id, COALESCE(driver_id, 0) AS driver_id, pickup_address, destination_address, status
unfoldable pub ride_columns : RideRow → Row
ride_columns r =
    ("id", int_cell r.id)
    ∷ ("passenger_id", int_cell r.passenger_id)
    ∷ ("driver_id", int_cell (coalesce_zero r.driver_id))
    ∷ ("pickup_address", text_cell r.pickup_address)
    ∷ ("destination_address", text_cell r.destination_address)
    ∷ ("status", text_cell r.status)
    ∷ []

-- The row that an INSERT forms, with the status 'searching' and no driver.
unfoldable pub new_ride : ℤ → ℕ → ℤ → String → String → Result RideRow
new_ride id now passenger_id pickup_address destination_address = do
  pickup_address' ← varchar 255 pickup_address
  destination_address' ← varchar 255 destination_address
  require (not (is_blank pickup_address')) check_violation
  require (not (is_blank destination_address')) check_violation
  ok (record {
    id = id;
    passenger_id = passenger_id;
    driver_id = none;
    pickup_address = pickup_address';
    destination_address = destination_address';
    status = "searching";
    created_at = now;
    completed_at = none;
  })

unfoldable pub add_ride : Result RideRow → Database → Result (List Row) × Database
unfolding user_exists
add_ride (throws e) db = (throws e, db)
add_ride (ok r) db =
    if any (λ q. int_eq q.id r.id) db.rides
    then (throws unique_violation, db)
    else if user_exists r.passenger_id db.users
    then (ok (ride_columns r ∷ []), record db { rides = r ∷ db.rides })
    else (throws foreign_key_violation, db)

-- kInsertRide
unfoldable pub insert_ride : ℕ → ℤ → String → String → Database → Result (List Row) × Database
unfolding add_ride
insert_ride now passenger_id pickup_address destination_address db =
    if ltb int_max db.next_ride_id
    then (throws sequence_exhausted, db)
    else add_ride
        (new_ride (pos db.next_ride_id) now passenger_id pickup_address destination_address)
        (record db { next_ride_id = suc db.next_ride_id })

-- kSelectRideById
unfoldable pub select_ride_by_id : ℤ → Database → List Row
select_ride_by_id id db = map ride_columns (select (λ r. int_eq r.id id) db.rides)

-- ORDER BY created_at DESC, id DESC
unfoldable pub newer_first : RideRow → RideRow → Bool
newer_first a b =
    ltb b.created_at a.created_at || (leb b.created_at a.created_at && int_le b.id a.id)

-- kSelectRidesByUserId
unfoldable pub select_rides_by_user_id : ℤ → Database → List Row
select_rides_by_user_id id db =
    map ride_columns (order_by newer_first (select (λ r. int_eq r.passenger_id id) db.rides))

unfoldable pub is_active : RideRow → Bool
is_active r = r.status == "searching" || r.status == "accepted"

-- kSelectActiveRides
unfoldable pub select_active_rides : Database → List Row
select_active_rides db =
    map ride_columns (order_by (λ a b. int_le a.id b.id) (select is_active db.rides))

-- WHERE id = ride_id AND status = 'searching'
unfoldable pub is_searching : ℤ → RideRow → Bool
is_searching ride_id r = int_eq r.id ride_id && r.status == "searching"

-- WHERE id = driver_id AND status = 'online'
unfoldable pub is_online : ℤ → DriverRow → Bool
is_online driver_id r = int_eq r.id driver_id && r.status == "online"

-- SET driver_id = d, status = 'accepted'
abbrev pub accepted_by : ℤ → RideRow → RideRow
accepted_by d r = record r { driver_id = some d; status = "accepted" }

-- The rides that the second UPDATE of kAcceptRide changes: AND EXISTS (a row of the first).
abbrev pub takes_ride : ℤ → ℤ → Database → RideRow → Bool
takes_ride ride_id driver_id db r = is_searching ride_id r && any (is_online driver_id) db.drivers

-- kAcceptRide: the two UPDATEs read one snapshot, and the second wants a row from the first.
unfoldable pub accept_ride_query : ℤ → ℤ → Database → List Row × Database
accept_ride_query ride_id driver_id db = (
  map ride_columns
      (map (accepted_by driver_id) (select (takes_ride ride_id driver_id db) db.rides)),
  record db {
    drivers = update_where (is_online driver_id) (with_status "busy") db.drivers;
    rides = update_where (takes_ride ride_id driver_id db) (accepted_by driver_id) db.rides;
  },
)

-- WHERE id = ride_id AND status = 'accepted'
unfoldable pub is_accepted : ℤ → RideRow → Bool
is_accepted ride_id r = int_eq r.id ride_id && r.status == "accepted"

-- SET status = 'completed', completed_at = NOW()
abbrev pub completed_at_time : ℕ → RideRow → RideRow
completed_at_time now r = record r { status = "completed"; completed_at = some now }

-- (SELECT driver_id FROM updated_ride): no row gives NULL, and several are an error.
unfoldable pub scalar_driver : List RideRow → Result (Option ℤ)
scalar_driver [] = ok none
scalar_driver (r ∷ []) = ok (some (coalesce_zero r.driver_id))
scalar_driver (r ∷ (q ∷ rows)) = throws cardinality_violation

-- id = x, where x may be NULL.
abbrev pub driver_is : Option ℤ → DriverRow → Bool
driver_is none r = false
driver_is (some d) r = int_eq r.id d

-- The rest of kCompleteRide, with the rows of `updated_ride` as they were.
unfoldable pub complete_with :
    ℕ → ℤ → List RideRow → Result (Option ℤ) → Database → Result (List Row) × Database
complete_with now ride_id updated (throws e) db = (throws e, db)
complete_with now ride_id updated (ok d) db = (
  ok (map ride_columns (map (completed_at_time now) updated)),
  record db {
    drivers = update_where (driver_is d) (with_status "online") db.drivers;
    rides = update_where (is_accepted ride_id) (completed_at_time now) db.rides;
  },
)

-- kCompleteRide
unfoldable pub complete_ride_query : ℕ → ℤ → Database → Result (List Row) × Database
unfolding complete_with
complete_ride_query now ride_id db =
    let updated = select (is_accepted ride_id) db.rides in
    complete_with now ride_id updated (scalar_driver updated) db
