-- ===== src/Storage/Tokens/Login.antt =====
-- Login and IsTokenValid.
use taxi_lab.Base.{
  ne_of_eq_false, ◌↔◌, ℕ, suc, ◌<◌, ◌≡◌, ◌≢◌, refl, sym, ap, ◌∙◌, inl, inr, false, ◌||◌, Option,
  none, some, String, ◌==◌, eq_iff, Result, ok, arith, Bool-cases,
}
use mathlib.Core.Option
use taxi_lab.Models.{User}
use taxi_lab.Storage.{
  TaxiStorage, login, is_token_valid, issue_token, check_password, make_token, get_user_by_login,
}
use taxi_lab.Storage.Parse.{user_of}
use taxi_lab.Storage.Users.{user_with_login, get_user_by_login_lem}
use taxi_lab.Storage.Tokens.Issue.{
  HasOldTokens, HasTokensBelow, issued, issued_is_some, issue_token-is_token_valid,
  issue_token_fresh, issue_token-HasOldTokens,
}

-- What Login does: nothing, or it issues a token.
pub data LogsIn (name password : String) (s : TaxiStorage)
    : Result (Option String) × TaxiStorage → Type 0 where
  unknown : (get_user_by_login name s.db).0 ≡ ok none → LogsIn name password s (ok none, s)
  wrong :
      (u : User)
      → (get_user_by_login name s.db).0 ≡ ok (some u)
      → u.password ≢ password
      → LogsIn name password s (ok none, s)
  granted :
      (u : User)
      → (get_user_by_login name s.db).0 ≡ ok (some u)
      → u.password ≡ password
      → LogsIn name password s (issue_token u.id s)

login-LogsIn :
    (name password : String) (s : TaxiStorage) → LogsIn name password s (login name password s)
unfolding login
login-LogsIn name password s = rw (get_user_by_login_lem name s.db) (
    by_user (Option.map user_of (user_with_login name s.db.users))
      (ap (λ p. p.0) (get_user_by_login_lem name s.db)))
  where
    by_user :
        (o : Option User)
        → (get_user_by_login name s.db).0 ≡ ok o
        → LogsIn name password s (check_password password o s)
    by_user none h = unknown h
    by_user (some u) h = elim (Bool-cases (u.password == password)) [
      | inl e ↦ rw e (granted u h ((eq_iff u.password password).0 e))
      | inr e ↦ rw e (wrong u h (ne_of_eq_false u.password password e))
    ]

none_is_no_token : (t : String) → ◌≢◌ {A = Result (Option String)} (ok none) (ok (some t))
none_is_no_token t h = cc

unknown_is_no_user : (u : User) → ◌≢◌ {A = Result (Option User)} (ok none) (ok (some u))
unknown_is_no_user u h = cc

one_user : (u v : User) → ok (some u) ≡ ok (some v) → u ≡ v
one_user u v h = cc

-- Login gives a token exactly if GetUserByLogin finds a user with the given password.
pub login_iff :
    (name password : String) (s : TaxiStorage)
    → ((token : String) × ((login name password s).0 ≡ ok (some token)))
      ↔ ((u : User) × ((get_user_by_login name s.db).0 ≡ ok (some u)) × (u.password ≡ password))
login_iff name password s = by_outcome _ (login-LogsIn name password s)
  where
    by_outcome :
        (o : Result (Option String) × TaxiStorage)
        → LogsIn name password s o
        → ((token : String) × (o.0 ≡ ok (some token)))
          ↔ ((u : User) × ((get_user_by_login name s.db).0 ≡ ok (some u)) × (u.password ≡ password))
    by_outcome o (unknown h) =
        (λ t. absurd (none_is_no_token t.0 t.1), λ u. absurd (unknown_is_no_user u.0 (sym h ∙ u.1)))
    by_outcome o (wrong u h ne) = (
      λ t. absurd (none_is_no_token t.0 t.1),
      λ v. absurd (ne (ap (λ x. x.password) (one_user u v.0 (sym h ∙ v.1)) ∙ v.2)),
    )
    by_outcome o (granted u h e) =
        (λ t. (u, h, e), λ v. (make_token u.id s.next_token_id, issued u.id s))

-- A login that gives a token leaves the database alone, and IsTokenValid then accepts that token
-- and otherwise exactly what it accepted before.
pub login-is_token_valid :
    (name password : String) (s : TaxiStorage) (token : String)
    → (login name password s).0 ≡ ok (some token)
    → ((login name password s).1.db ≡ s.db)
      × ((other : String)
          → is_token_valid other (login name password s).1
            ≡ (token == other || is_token_valid other s))
login-is_token_valid name password s token = by_outcome _ (login-LogsIn name password s)
  where
    by_outcome :
        (o : Result (Option String) × TaxiStorage)
        → LogsIn name password s o
        → o.0 ≡ ok (some token)
        → (o.1.db ≡ s.db)
          × ((other : String)
              → is_token_valid other o.1 ≡ (token == other || is_token_valid other s))
    by_outcome o (unknown h) k = cc
    by_outcome o (wrong u h ne) k = cc
    by_outcome o (granted u h e) k = issue_token-is_token_valid u.id s token k

-- A login leaves the database alone.
pub login-db : (name password : String) (s : TaxiStorage) → (login name password s).1.db ≡ s.db
unfolding issue_token
login-db name password s = by_outcome _ (login-LogsIn name password s)
  where
    by_outcome :
        (o : Result (Option String) × TaxiStorage) → LogsIn name password s o → o.1.db ≡ s.db
    by_outcome o (unknown h) = refl
    by_outcome o (wrong u h ne) = refl
    by_outcome o (granted u h e) = refl

-- A login that gives no token changes nothing in the storage.
pub login-none :
    (name password : String) (s : TaxiStorage)
    → (login name password s).0 ≡ ok none
    → (login name password s).1 ≡ s
login-none name password s = by_outcome _ (login-LogsIn name password s)
  where
    by_outcome :
        (o : Result (Option String) × TaxiStorage)
        → LogsIn name password s o
        → o.0 ≡ ok none
        → o.1 ≡ s
    by_outcome o (unknown h) k = refl
    by_outcome o (wrong u h ne) k = refl
    by_outcome o (granted u h e) k = absurd (issued_is_some u.id s k)

-- If every token so far was made with an earlier counter that was not negative, then the token that
-- a login gives was not valid before.
pub login_fresh :
    (name password : String) (s : TaxiStorage) (token : String)
    → HasOldTokens s
    → (login name password s).0 ≡ ok (some token)
    → is_token_valid token s ≡ false
login_fresh name password s token h = by_outcome _ (login-LogsIn name password s)
  where
    by_outcome :
        (o : Result (Option String) × TaxiStorage)
        → LogsIn name password s o
        → o.0 ≡ ok (some token)
        → is_token_valid token s ≡ false
    by_outcome o (unknown e) k = cc
    by_outcome o (wrong u e ne) k = cc
    by_outcome o (granted u e p) k = issue_token_fresh u.id s token h k

pub login-HasOldTokens :
    (name password : String) (s : TaxiStorage) (h : HasOldTokens s)
    → h.next < 2147483647
    → HasOldTokens (login name password s).1
login-HasOldTokens name password s h lt = by_outcome _ (login-LogsIn name password s)
  where
    by_outcome :
        (o : Result (Option String) × TaxiStorage) → LogsIn name password s o → HasOldTokens o.1
    by_outcome o (unknown e) = h
    by_outcome o (wrong u e ne) = h
    by_outcome o (granted u e p) = (issue_token-HasOldTokens u.id s h lt).0

-- A login moves the counter on by at most one.
pub login-HasTokensBelow :
    (name password : String) (n : ℕ) (s : TaxiStorage)
    → n < 2147483647
    → HasTokensBelow n s
    → HasTokensBelow (suc n) (login name password s).1
login-HasTokensBelow name password n s lt (h, le) = by_outcome _ (login-LogsIn name password s)
  where
    by_outcome :
        (o : Result (Option String) × TaxiStorage)
        → LogsIn name password s o
        → HasTokensBelow (suc n) o.1
    by_outcome o (unknown e) = (h, omega arith)
    by_outcome o (wrong u e ne) = (h, omega arith)
    by_outcome o (granted u e p) =
        let (later, next) = issue_token-HasOldTokens u.id s h (omega arith) in (later, omega arith)
