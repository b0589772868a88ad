-- ===== src/Tests/Riding.antt =====
-- A ride that is under way, at concrete inputs.
use taxi_lab.Base.{
  ◌≡◌, ◌≢◌, refl, ℤ, pos, List, [], ◌∷◌, none, some, ok, int_eq, find, is_blank, store_varchar,
}
use taxi_lab.Models.{Ride}
use taxi_lab.Database.Rows.{varchar, int_column, string_column}
use taxi_lab.Database.Tables.{update_where}
use taxi_lab.Database.Users.{user_columns, new_user, user_clashes, add_user, insert_user}
use taxi_lab.Database.Drivers.{
  insert_driver, new_driver, driver_clashes, user_exists, add_driver, driver_columns,
}
use taxi_lab.Database.Rides.{
  insert_ride, new_ride, add_ride, ride_columns, accept_ride_query, is_online, is_searching,
  select_ride_by_id,
}
use taxi_lab.Storage.{create_user, create_driver, create_ride, get_ride_by_id, accept_ride}
use taxi_lab.Storage.Parse.{parse_first, parse_user, parse_driver, parse_ride}
use taxi_lab.Storage.Taken.{IsLater}
use taxi_lab.Http.{Server}
use taxi_lab.Handlers.Coherence.{empty_cache-Coherent}
use taxi_lab.Service.{patch_rides_complete}
use taxi_lab.Service.Sound.{IsSound}
use taxi_lab.Concurrent.World.{idle, Event, arrives, turn, run_events}
use taxi_lab.Concurrent.Rides.{run_events-get_ride_by_id}
use taxi_lab.Tests.Company.{under_way, under_way-WellFormed}
use taxi_lab.Tests.Serving.{lib, moment, rides_request, serving}

-- A server whose ride 1 has been accepted by driver 1.
abbrev riding : Server
riding = record serving { storage = record (serving.storage) { db = under_way } }

riding-IsSound : IsSound lib riding
riding-IsSound = record {
  well_formed = under_way-WellFormed;
  coherent = empty_cache-Coherent lib under_way;
}

abbrev ride : Ride
ride = record {
  id = pos 1;
  passenger_id = pos 1;
  driver_id = pos 1;
  pickup_address = "A";
  destination_address = "B";
  status = "accepted";
}

-- Somebody completes the ride.
abbrev completing : List Event
completing =
    arrives (record {
      route = patch_rides_complete;
      moment = moment;
      request = record rides_request { path_arg = λ name. "1" };
    })
    ∷ turn 0
    ∷ turn 0
    ∷ turn 0
    ∷ []

is_accepted_now : ride.status ≢ "searching"
is_accepted_now h = cc

finds_ride : (get_ride_by_id (pos 1) under_way).0 ≡ ok (some ride)
unfolding create_user insert_user new_user varchar store_varchar is_blank user_clashes add_user
    user_columns int_eq find parse_first parse_user int_column string_column create_driver
    insert_driver new_driver driver_clashes user_exists add_driver driver_columns parse_driver
    create_ride insert_ride new_ride add_ride ride_columns parse_ride accept_ride accept_ride_query
    is_online is_searching update_where get_ride_by_id select_ride_by_id
finds_ride = refl

run_events-get_ride_by_id_example :
    let db = (run_events lib completing (run_events lib [] (idle riding))).server.storage.db in
    ((later : Ride) × ((get_ride_by_id (pos 1) db).0 ≡ ok (some later)) × IsLater ride later)
    × ((d : ℤ) → (accept_ride (pos 1) d db).0 ≡ ok none)
unfolding run_events
run_events-get_ride_by_id_example =
    run_events-get_ride_by_id lib [] completing riding (pos 1) ride riding-IsSound finds_ride
      is_accepted_now
