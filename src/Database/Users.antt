-- ===== src/Database/Users.antt =====
-- The statements on `users` (src/storage/taxi_storage.cpp), with the constraints of schema.sql.
use taxi_lab.Base.{
  ℤ, pos, int_eq, int_le, ℕ, suc, Bool, not, ◌||◌, List, [], ◌∷◌, map, String, ◌==◌, ltb, any,
  select, order_by, if◌then◌else◌, Result, ok, throws, is_blank, check_violation, unique_violation,
  sequence_exhausted, like, ◌+s◌,
}
use taxi_lab.Base.Throwing.{◌>>=◌, ◌>>◌, require}
use taxi_lab.Database.Rows.{UserRow, Database, Row, int_cell, text_cell, int_max, varchar}

-- id, login, password, full_name
unfoldable pub user_columns : UserRow → Row
user_columns r =
    ("id", int_cell r.id)
    ∷ ("login", text_cell r.login)
    ∷ ("password", text_cell r.password)
    ∷ ("full_name", text_cell r.full_name)
    ∷ []

-- The row that an INSERT forms: the columns' types, then their CHECK constraints.
unfoldable pub new_user : ℤ → ℕ → String → String → String → Result UserRow
new_user id now login password full_name = do
  login' ← varchar 100 login
  password' ← varchar 255 password
  full_name' ← varchar 255 full_name
  require (not (is_blank login')) check_violation
  require (not (is_blank password')) check_violation
  require (not (is_blank full_name')) check_violation
  ok (record {
    id = id;
    login = login';
    password = password';
    full_name = full_name';
    created_at = now;
  })

-- PRIMARY KEY (id), UNIQUE (login)
unfoldable pub user_clashes : UserRow → List UserRow → Bool
user_clashes r rows = any (λ q. int_eq q.id r.id || q.login == r.login) rows

unfoldable pub add_user : Result UserRow → Database → Result (List Row) × Database
unfolding user_clashes
add_user (throws e) db = (throws e, db)
add_user (ok r) db =
    if user_clashes r db.users
    then (throws unique_violation, db)
    else (ok (user_columns r ∷ []), record db { users = r ∷ db.users })

-- kInsertUser. A failed INSERT leaves the rows as they were, but its identity value is used up.
unfoldable pub insert_user : ℕ → String → String → String → Database → Result (List Row) × Database
unfolding add_user
insert_user now login password full_name db =
    if ltb int_max db.next_user_id
    then (throws sequence_exhausted, db)
    else add_user (new_user (pos db.next_user_id) now login password full_name)
        (record db { next_user_id = suc db.next_user_id })

-- kSelectUserById
unfoldable pub select_user_by_id : ℤ → Database → List Row
select_user_by_id id db = map user_columns (select (λ r. int_eq r.id id) db.users)

-- kSelectUserByLogin
unfoldable pub select_user_by_login : String → Database → List Row
select_user_by_login login db = map user_columns (select (λ r. r.login == login) db.users)

-- kFindUsersByMask. `lower` is the server's, for its locale.
unfoldable pub find_users_by_mask : (String → String) → String → Database → List Row
find_users_by_mask lower mask db = map user_columns (
    order_by (λ a b. int_le a.id b.id)
      (select (λ r. like ("%" +s lower mask +s "%") (lower r.full_name)) db.users))
