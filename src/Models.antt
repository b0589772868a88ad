-- ===== src/Models.antt =====
-- models/user.hpp, models/driver.hpp and models/ride.hpp.
use taxi_lab.Base.{ℤ, String}

pub record User : Type 0 where
  pub id : ℤ
  pub login : String
  pub password : String
  pub full_name : String

pub record Driver : Type 0 where
  pub id : ℤ
  pub user_id : ℤ
  pub car_model : String
  pub car_number : String
  pub license_number : String
  pub status : String

pub record Ride : Type 0 where
  pub id : ℤ
  pub passenger_id : ℤ
  pub driver_id : ℤ
  pub pickup_address : String
  pub destination_address : String
  pub status : String
