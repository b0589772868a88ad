-- ===== src/Storage/Users.antt =====
-- What CreateUser and GetUserByLogin do.
use taxi_lab.Base.{
  subst, eq_ne, pos, ℕ, ◌≡◌, ◌≢◌, refl, sym, ap, ◌∙◌, true, false, Option, none, some, List, [],
  ◌∷◌, map, String, ◌==◌, eq_refl, any, select, head?, Result, ok, throws, Exception,
  unique_violation, sequence_exhausted, lift, proceed, recover, arith, if◌then◌else◌,
}
use mathlib.Core.Option
use taxi_lab.Models.{User}
use taxi_lab.Database.Rows.{Database, UserRow, Row, varchar}
use taxi_lab.Database.Users.{user_columns, insert_user, select_user_by_login}
use taxi_lab.Database.Inserts.{InsertsUser, used_user_id, insert_user-InsertsUser}
use taxi_lab.Database.Invariant.{WellFormed}
use taxi_lab.Storage.{is_unique_violation, create_user, get_user_by_login}
use taxi_lab.Storage.Parse.{parse_first, parse_user, parse_user-columns, user_of}
use taxi_lab.Storage.WellFormed.{user_clashes-login}

-- The user that has a login.
unfoldable pub user_with_login : String → List UserRow → Option UserRow
user_with_login login rows = head? (select (λ r. r.login == login) rows)

parse_first-columns :
    (rows : List UserRow)
    → parse_first parse_user (map user_columns rows) ≡ ok (Option.map user_of (head? rows))
unfolding parse_first
parse_first-columns [] = refl
parse_first-columns (r ∷ rows) = rw (parse_user-columns r)

pub get_user_by_login_lem :
    (login : String) (db : Database)
    → get_user_by_login login db ≡ (ok (Option.map user_of (user_with_login login db.users)), db)
unfolding get_user_by_login select_user_by_login user_with_login
get_user_by_login_lem login db = rw (parse_first-columns (select (λ r. r.login == login) db.users))

-- What CreateUser returns and leaves.
pub data Creates (login : String) (db : Database) : Result (Option User) × Database → Type 0 where
  failed :
      (e : Exception)
      → e ≢ unique_violation
      → (db' : Database) → db'.users ≡ db.users
      → Creates login db (throws e, db')
  taken :
      (stored : String)
      → varchar 100 login ≡ ok stored
      → any (λ q. q.login == stored) db.users ≡ true
      → (db' : Database) → db'.users ≡ db.users
      → Creates login db (ok none, db')
  created :
      (r : UserRow)
      → r.id ≡ pos db.next_user_id
      → varchar 100 login ≡ ok r.login
      → any (λ q. q.login == r.login) db.users ≡ false
      → (db' : Database) → db'.users ≡ r ∷ db.users
      → Creates login db (ok (some (user_of r)), db')

create_user-Creates :
    (now : ℕ) (login password full_name : String) (db : Database)
    → WellFormed db
    → Creates login db (create_user now login password full_name db)
unfolding create_user parse_first
create_user-Creates now login password full_name db w =
    after (insert_user now login password full_name db)
      (insert_user-InsertsUser now login password full_name db)
  where
    after :
        (o : Result (List Row) × Database)
        → InsertsUser login db o
        → Creates login db
            (recover is_unique_violation none (proceed o (λ a. lift (parse_first parse_user a))))
    after o InsertsUser.exhausted = failed sequence_exhausted (λ e. cc) db refl
    after o (InsertsUser.refused e ne) = caught e ne
      where
        caught :
            (e : Exception)
            → e ≢ unique_violation
            → Creates login db
                (recover {A = Option User} is_unique_violation none (throws e, used_user_id db))
        caught unique_violation ne = absurd (ne refl)
        caught e ne = failed e ne (used_user_id db) refl
    after o (InsertsUser.clashes r id s c) =
        taken r.login s (sym (user_clashes-login r db w id) ∙ c) (used_user_id db) refl
    after o (InsertsUser.inserted r id s c) =
        rw (parse_first, parse_user-columns)
          (created r id s (sym (user_clashes-login r db w id) ∙ c) _ refl)

user_with_login-cons :
    (login : String) (r : UserRow) (rows : List UserRow)
    → user_with_login login (r ∷ rows)
      ≡ (if r.login == login then some r else user_with_login login rows)
unfolding user_with_login
user_with_login-cons login r rows = ground arith

not_taken :
    (login : String) (rows : List UserRow)
    → any (λ q. q.login == login) rows ≡ false
    → user_with_login login rows ≡ none
unfolding user_with_login
not_taken login [] h = refl
not_taken login (r ∷ rows) h = ground (arith, not_taken login rows)

is_taken :
    (login : String) (rows : List UserRow)
    → any (λ q. q.login == login) rows ≡ true
    → user_with_login login rows ≢ none
unfolding user_with_login
is_taken login [] h = cc
is_taken login (r ∷ rows) h = ground (arith, is_taken login rows)

-- A user that was created is found by its login, which nobody had before, and no other login is
-- answered otherwise than before.
abbrev pub IsAdded : User → Database → Database → Type 0
IsAdded u db db' =
    ((get_user_by_login u.login db).0 ≡ ok none)
    × ((get_user_by_login u.login db').0 ≡ ok (some u))
    × ((other : String)
        → other ≢ u.login
        → (get_user_by_login other db').0 ≡ (get_user_by_login other db).0)

Creates-IsAdded :
    (login : String) (db : Database) (o : Result (Option User) × Database) (u : User)
    → Creates login db o
    → o.0 ≡ ok (some u)
    → IsAdded u db o.1
Creates-IsAdded login db o u (failed e ne db' k) h = cc
Creates-IsAdded login db o u (taken stored s t db' k) h = cc
Creates-IsAdded login db o u (created r id s fresh db' k) h =
    let same : user_of r ≡ u = ground arith in subst (λ v. IsAdded v db db') same added
  where
    added : IsAdded (user_of r) db db'
    added = (
      rw (get_user_by_login_lem r.login db, not_taken r.login db.users fresh) refl,
      rw
          (
            get_user_by_login_lem r.login db',
            k,
            user_with_login-cons r.login r db.users,
            eq_refl r.login,
          )
          refl,
      λ other ne.
          rw
            (
              get_user_by_login_lem other db',
              get_user_by_login_lem other db,
              k,
              user_with_login-cons other r db.users,
              eq_ne r.login other (λ e. ne (sym e)),
            )
            refl,
    )

-- If CreateUser returns a user, then GetUserByLogin finds that user under its login, found nobody
-- there before, and answers for every other login as before, on a well-formed database.
pub create_user-IsAdded :
    (now : ℕ) (login password full_name : String) (db : Database) (u : User)
    → WellFormed db
    → (create_user now login password full_name db).0 ≡ ok (some u)
    → IsAdded u db (create_user now login password full_name db).1
create_user-IsAdded now login password full_name db u w =
    Creates-IsAdded login db _ u (create_user-Creates now login password full_name db w)

no_user : (o : Option UserRow) → ok (Option.map user_of o) ≡ ok none → o ≡ none
no_user none h = refl
no_user (some r) h = cc

Creates-none :
    (login : String) (db : Database) (o : Result (Option User) × Database)
    → Creates login db o
    → o.0 ≡ ok none
    → (stored : String) × (varchar 100 login ≡ ok stored)
      × ((get_user_by_login stored db).0 ≢ ok none)
      × (o.1.users ≡ db.users)
Creates-none login db o (failed e ne db' k) h = cc
Creates-none login db o (taken stored s t db' k) h = (
  stored,
  s,
  λ e.
      is_taken stored db.users t
        (no_user _ (sym (ap (λ p. p.0) (get_user_by_login_lem stored db)) ∙ e)),
  k,
)
Creates-none login db o (created r id s fresh db' k) h = cc

-- On a well-formed database CreateUser returns no user only if somebody has the login as the column
-- stores it; then the table of users is unchanged.
pub create_user-none :
    (now : ℕ) (login password full_name : String) (db : Database)
    → WellFormed db
    → (create_user now login password full_name db).0 ≡ ok none
    → (stored : String) × (varchar 100 login ≡ ok stored)
      × ((get_user_by_login stored db).0 ≢ ok none)
      × ((create_user now login password full_name db).1.users ≡ db.users)
create_user-none now login password full_name db w =
    Creates-none login db _ (create_user-Creates now login password full_name db w)
