-- ===== src/Database/Rows.antt =====
-- Table rows, and the result rows that a statement returns (schema.sql, src/storage/taxi_storage.cpp).
use taxi_lab.Base.{
  ℤ, ℕ, Option, none, some, List, [], String, Result, ok, throws, store_varchar, string_too_long,
  bad_column, find,
}

-- The newest row of a table stands first.
pub record UserRow : Type 0 where
  pub id : ℤ
  pub login : String
  pub password : String
  pub full_name : String
  pub created_at : ℕ

pub record DriverRow : Type 0 where
  pub id : ℤ
  pub user_id : ℤ
  pub car_model : String
  pub car_number : String
  pub license_number : String
  pub status : String

pub record RideRow : Type 0 where
  pub id : ℤ
  pub passenger_id : ℤ
  pub driver_id : Option ℤ
  pub pickup_address : String
  pub destination_address : String
  pub status : String
  pub created_at : ℕ
  pub completed_at : Option ℕ

-- Each table with the next value of its identity column.
pub record Database : Type 0 where
  pub users : List UserRow
  pub next_user_id : ℕ
  pub drivers : List DriverRow
  pub next_driver_id : ℕ
  pub rides : List RideRow
  pub next_ride_id : ℕ

abbrev pub empty_database : Database
empty_database = record {
  users = [];
  next_user_id = 1;
  drivers = [];
  next_driver_id = 1;
  rides = [];
  next_ride_id = 1;
}

-- The largest INTEGER.
abbrev pub int_max : ℕ
int_max = 2147483647

-- A result row: the columns by name.
pub data Cell : Type 0 where
  int_cell : ℤ → Cell
  text_cell : String → Cell

abbrev pub Row : Type 0
Row = List (String × Cell)

abbrev as_int : Option Cell → Result ℤ
as_int (some (int_cell n)) = ok n
as_int (some (text_cell t)) = throws bad_column
as_int none = throws bad_column

abbrev as_string : Option Cell → Result String
as_string (some (text_cell t)) = ok t
as_string (some (int_cell n)) = throws bad_column
as_string none = throws bad_column

-- `row[name].As<int>()` and `row[name].As<std::string>()`
unfoldable pub int_column : Row → String → Result ℤ
unfolding find
int_column row name = as_int (find name row)

unfoldable pub string_column : Row → String → Result String
unfolding find
string_column row name = as_string (find name row)

-- A text as a VARCHAR(n) column stores it.
abbrev stored : Option String → Result String
stored none = throws string_too_long
stored (some t) = ok t

unfoldable pub varchar : ℕ → String → Result String
varchar n s = stored (store_varchar n s)
