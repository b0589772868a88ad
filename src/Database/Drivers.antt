-- ===== src/Database/Drivers.antt =====
-- The statements on `drivers` (src/storage/taxi_storage.cpp), with the constraints of schema.sql.
use taxi_lab.Base.{
  ℤ, pos, int_eq, int_le, suc, Bool, not, ◌||◌, List, [], ◌∷◌, map, String, ◌==◌, ltb, any, select,
  order_by, if◌then◌else◌, Result, ok, throws, is_blank, check_violation, unique_violation,
  foreign_key_violation, sequence_exhausted,
}
use taxi_lab.Base.Throwing.{◌>>=◌, ◌>>◌, require}
use taxi_lab.Database.Tables.{update_where}
use taxi_lab.Database.Rows.{
  UserRow, DriverRow, Database, Row, int_cell, text_cell, int_max, varchar,
}

-- id, user_id, car_model, car_number, license_number, status
unfoldable pub driver_columns : DriverRow → Row
driver_columns r =
    ("id", int_cell r.id)
    ∷ ("user_id", int_cell r.user_id)
    ∷ ("car_model", text_cell r.car_model)
    ∷ ("car_number", text_cell r.car_number)
    ∷ ("license_number", text_cell r.license_number)
    ∷ ("status", text_cell r.status)
    ∷ []

-- The row that an INSERT forms, with the status 'online'.
unfoldable pub new_driver : ℤ → ℤ → String → String → String → Result DriverRow
new_driver id user_id car_model car_number license_number = do
  car_model' ← varchar 100 car_model
  car_number' ← varchar 30 car_number
  license_number' ← varchar 50 license_number
  require (not (is_blank car_model')) check_violation
  require (not (is_blank car_number')) check_violation
  require (not (is_blank license_number')) check_violation
  ok (record {
    id = id;
    user_id = user_id;
    car_model = car_model';
    car_number = car_number';
    license_number = license_number';
    status = "online";
  })

-- PRIMARY KEY (id), UNIQUE (user_id), UNIQUE (car_number), UNIQUE (license_number)
unfoldable pub driver_clashes : DriverRow → List DriverRow → Bool
driver_clashes r rows =
    any
      (λ q.
        int_eq q.id r.id
        || int_eq q.user_id r.user_id
        || q.car_number == r.car_number
        || q.license_number == r.license_number)
      rows

-- The target of a foreign key on users(id).
unfoldable pub user_exists : ℤ → List UserRow → Bool
user_exists id rows = any (λ u. int_eq u.id id) rows

unfoldable pub add_driver : Result DriverRow → Database → Result (List Row) × Database
unfolding driver_clashes user_exists
add_driver (throws e) db = (throws e, db)
add_driver (ok r) db =
    if driver_clashes r db.drivers
    then (throws unique_violation, db)
    else if user_exists r.user_id db.users
    then (ok (driver_columns r ∷ []), record db { drivers = r ∷ db.drivers })
    else (throws foreign_key_violation, db)

-- kInsertDriver
unfoldable pub insert_driver :
    ℤ → String → String → String → Database → Result (List Row) × Database
unfolding add_driver
insert_driver user_id car_model car_number license_number db =
    if ltb int_max db.next_driver_id
    then (throws sequence_exhausted, db)
    else add_driver (new_driver (pos db.next_driver_id) user_id car_model car_number license_number)
        (record db { next_driver_id = suc db.next_driver_id })

-- kSelectDriverById
unfoldable pub select_driver_by_id : ℤ → Database → List Row
select_driver_by_id id db = map driver_columns (select (λ r. int_eq r.id id) db.drivers)

-- kSelectDriverByUserId
unfoldable pub select_driver_by_user_id : ℤ → Database → List Row
select_driver_by_user_id id db = map driver_columns (select (λ r. int_eq r.user_id id) db.drivers)

-- kSelectActiveDrivers
unfoldable pub select_active_drivers : Database → List Row
select_active_drivers db =
    map driver_columns
      (order_by (λ a b. int_le a.id b.id) (select (λ r. r.status == "online") db.drivers))

-- SET status = s
abbrev pub with_status : String → DriverRow → DriverRow
with_status s r = record r { status = s }

-- CHECK (status IN ('online', 'busy', 'offline'))
unfoldable pub is_driver_status : String → Bool
is_driver_status s = s == "online" || s == "busy" || s == "offline"

unfoldable pub status_update : ℤ → Result String → Database → Result (List Row) × Database
status_update id (throws e) db = (throws e, db)
status_update id (ok s) db =
    if is_driver_status s
    then (
      ok (map driver_columns (map (with_status s) (select (λ r. int_eq r.id id) db.drivers))),
      record db { drivers = update_where (λ r. int_eq r.id id) (with_status s) db.drivers },
    )
    else (throws check_violation, db)

-- kUpdateDriverStatus. The new value is formed and checked for each row that is chosen.
unfoldable pub update_driver_status : ℤ → String → Database → Result (List Row) × Database
unfolding status_update
update_driver_status id status db =
    if any (λ r. int_eq r.id id) db.drivers
    then status_update id (varchar 20 status) db
    else (ok [], db)
