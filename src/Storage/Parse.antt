-- ===== src/Storage/Parse.antt =====
-- ParseUser, ParseDriver and ParseRide of src/storage/taxi_storage.cpp. A missing column or one of
-- another type throws.
use taxi_lab.Base.{◌≡◌, refl, Option, none, some, List, [], ◌∷◌, Result, ok}
use taxi_lab.Base.Throwing.{◌>>=◌}
use taxi_lab.Models.{User, Driver, Ride}
use taxi_lab.Database.Rows.{Row, UserRow, DriverRow, RideRow, int_column, string_column}
use taxi_lab.Database.Users.{user_columns}
use taxi_lab.Database.Drivers.{driver_columns}
use taxi_lab.Database.Rides.{ride_columns, coalesce_zero}

unfoldable pub parse_user : Row → Result User
unfolding int_column string_column
parse_user row = do
  id ← int_column row "id"
  login ← string_column row "login"
  password ← string_column row "password"
  full_name ← string_column row "full_name"
  ok (record { id = id; login = login; password = password; full_name = full_name })

unfoldable pub parse_driver : Row → Result Driver
unfolding int_column string_column
parse_driver row = do
  id ← int_column row "id"
  user_id ← int_column row "user_id"
  car_model ← string_column row "car_model"
  car_number ← string_column row "car_number"
  license_number ← string_column row "license_number"
  status ← string_column row "status"
  ok (record {
    id = id;
    user_id = user_id;
    car_model = car_model;
    car_number = car_number;
    license_number = license_number;
    status = status;
  })

unfoldable pub parse_ride : Row → Result Ride
unfolding int_column string_column
parse_ride row = do
  id ← int_column row "id"
  passenger_id ← int_column row "passenger_id"
  driver_id ← int_column row "driver_id"
  pickup_address ← string_column row "pickup_address"
  destination_address ← string_column row "destination_address"
  status ← string_column row "status"
  ok (record {
    id = id;
    passenger_id = passenger_id;
    driver_id = driver_id;
    pickup_address = pickup_address;
    destination_address = destination_address;
    status = status;
  })

module _ {A : Type 0} (parse : Row → Result A) where
  -- `if (res.IsEmpty()) return std::nullopt; return Parse(res[0]);`
  unfoldable pub parse_first : List Row → Result (Option A)
  parse_first [] = ok none
  parse_first (row ∷ rows) = do a ← parse row; ok (some a)

  -- `for (const auto& row : res) result.push_back(Parse(row));`
  unfoldable pub parse_all : List Row → Result (List A)
  parse_all [] = ok []
  parse_all (row ∷ rows) = do a ← parse row; rest ← parse_all rows; ok (a ∷ rest)

-- The model of a table row, as the statements and the parsers give it.
abbrev pub user_of : UserRow → User
user_of r = record { id = r.id; login = r.login; password = r.password; full_name = r.full_name }

abbrev pub driver_of : DriverRow → Driver
driver_of r = record {
  id = r.id;
  user_id = r.user_id;
  car_model = r.car_model;
  car_number = r.car_number;
  license_number = r.license_number;
  status = r.status;
}

abbrev pub ride_of : RideRow → Ride
ride_of r = record {
  id = r.id;
  passenger_id = r.passenger_id;
  driver_id = coalesce_zero r.driver_id;
  pickup_address = r.pickup_address;
  destination_address = r.destination_address;
  status = r.status;
}

-- No column that a parser reads is missing from what the statements return.
pub parse_user-columns : (r : UserRow) → parse_user (user_columns r) ≡ ok (user_of r)
unfolding parse_user user_columns
parse_user-columns r = refl

pub parse_driver-columns : (r : DriverRow) → parse_driver (driver_columns r) ≡ ok (driver_of r)
unfolding parse_driver driver_columns
parse_driver-columns r = refl

pub parse_ride-columns : (r : RideRow) → parse_ride (ride_columns r) ≡ ok (ride_of r)
unfolding parse_ride ride_columns
parse_ride-columns r = refl
