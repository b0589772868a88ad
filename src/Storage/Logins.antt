-- ===== src/Storage/Logins.antt =====
-- The user that GetUserByLogin finds, under the other methods.
use taxi_lab.Base.{
  ◌≡◌, ◌≢◌, sym, ap, ◌∙◌, subst, ℕ, inl, inr, Bool-cases, none, some, String, ◌==◌, eq_iff,
  ne_of_eq_false, ok,
}
use mathlib.Core.Option
use taxi_lab.Models.{User}
use taxi_lab.Database.Rows.{Database}
use taxi_lab.Database.Invariant.{WellFormed}
use taxi_lab.Storage.{create_user, get_user_by_login}
use taxi_lab.Storage.Parse.{user_of}
use taxi_lab.Storage.Users.{IsAdded, create_user-IsAdded, get_user_by_login_lem, user_with_login}
use taxi_lab.Storage.Changes.{create_user-ChangesUsers}

abbrev pub Finds : String → User → Database → Type 0
Finds login user db = (get_user_by_login login db).0 ≡ ok (some user)

module _ (login : String) (user : User) where
  pub Finds-users :
      (db db' : Database) → db.users ≡ db'.users → Finds login user db → Finds login user db'
  Finds-users db db' same found =
      ap (λ o. o.0) (get_user_by_login_lem login db')
      ∙ ap (λ users. ok (Option.map user_of (user_with_login login users))) (sym same)
      ∙ sym (ap (λ o. o.0) (get_user_by_login_lem login db))
      ∙ found

  not_free : (db : Database) → Finds login user db → (get_user_by_login login db).0 ≢ ok none
  not_free db found free = cc

  pub create_user-Finds :
      (now : ℕ) (name password full_name : String) (db : Database)
      → WellFormed db
      → Finds login user db
      → Finds login user (create_user now name password full_name db).1
  create_user-Finds now name password full_name db w found =
      elim (create_user-ChangesUsers now name password full_name db).1 [
        | inl (added, is) ↦
            other added (create_user-IsAdded now name password full_name db added w is)
        | inr same ↦ Finds-users db _ same found
      ]
    where
      other :
          (added : User)
          → IsAdded added db (create_user now name password full_name db).1
          → Finds login user (create_user now name password full_name db).1
      other added (free, there, others) = elim (Bool-cases (login == added.login)) [
        | inl same ↦ absurd (
            not_free db found (
              subst (λ l. (get_user_by_login l db).0 ≡ ok none)
                (sym ((eq_iff login added.login).0 same)) free))
        | inr differ ↦ others login (ne_of_eq_false login added.login differ) ∙ found
      ]
