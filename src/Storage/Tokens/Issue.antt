-- ===== src/Storage/Tokens/Issue.antt =====
-- The part of Login under the lock, and the tokens that were issued.
use taxi_lab.Base.{
  ◌≤◌, pos_part, ℤ, pos, ℕ, suc, ◌<◌, ◌≡◌, ◌≢◌, refl, sym, ap, ◌∙◌, inl, inr, false, ◌||◌, none,
  some, List, [], ◌∷◌, String, ◌==◌, eq_ne, find, assign, find-assign, ok, arith, Bool-cases,
}
use taxi_lab.Database.Tables.{All}
use taxi_lab.Storage.{TaxiStorage, is_found, is_token_valid, issue_token, make_token, next_int}
use taxi_lab.Storage.Tokens.Naming.{make_token-injective}

-- Every token was made with a counter below the next one.
abbrev pub IsOld : ℕ → String × ℤ → Type 0
IsOld n (token, user) = (id : ℕ) × (token ≡ make_token user (pos id)) × (id < n)

pub record HasOldTokens (s : TaxiStorage) : Type 0 where
  pub next : ℕ
  pub counter : s.next_token_id ≡ pos next
  pub old : All (IsOld next) s.tokens

pos_differs : (m n : ℕ) → m < n → pos m ≢ pos n
pos_differs m n lt e = absurd (omega (arith, ap pos_part e))

some_token : {s t : String} → ok (some s) ≡ ok (some t) → s ≡ t
some_token h = cc

next_pos : (n : ℕ) → n < 2147483647 → next_int (pos n) ≡ pos (suc n)
unfolding next_int
next_pos n lt = ground arith

pub issued :
    (user : ℤ) (s : TaxiStorage)
    → (issue_token user s).0 ≡ ok (some (make_token user s.next_token_id))
unfolding issue_token
issued user s = refl

pub issued_is_some : (user : ℤ) (s : TaxiStorage) → (issue_token user s).0 ≢ ok none
unfolding issue_token
issued_is_some user s h = cc

pub issue_token-is_token_valid :
    (user : ℤ) (s : TaxiStorage) (token : String)
    → (issue_token user s).0 ≡ ok (some token)
    → ((issue_token user s).1.db ≡ s.db)
      × ((other : String)
          → is_token_valid other (issue_token user s).1
            ≡ (token == other || is_token_valid other s))
unfolding issue_token is_token_valid
issue_token-is_token_valid user s token h =
    let same : make_token user s.next_token_id ≡ token = ground arith in
    (
      refl,
      λ other.
          ap is_found (find-assign (make_token user s.next_token_id) other user s.tokens)
          ∙ rw same (ground arith),
    )

old_is_not_new :
    (n : ℕ) (user : ℤ) (tokens : List (String × ℤ))
    → All (IsOld n) tokens
    → find (make_token user (pos n)) tokens ≡ none
unfolding find
old_is_not_new n user [] a = refl
old_is_not_new n user ((token, u) ∷ tokens) ((id, e, lt), a) =
    rw (eq_ne token (make_token user (pos n)) differs) (old_is_not_new n user tokens a)
  where
    differs : token ≢ make_token user (pos n)
    differs k =
        pos_differs id n (omega arith)
          ((make_token-injective u (pos id) user (pos n) (sym e ∙ k)).1)

pub issue_token_fresh :
    (user : ℤ) (s : TaxiStorage) (token : String)
    → HasOldTokens s
    → (issue_token user s).0 ≡ ok (some token)
    → is_token_valid token s ≡ false
unfolding issue_token is_token_valid
issue_token_fresh user s token h e =
    let same : make_token user (pos h.next) ≡ token =
      ap (make_token user) (sym h.counter) ∙ some_token e in
    let missing = old_is_not_new h.next user s.tokens h.old in rw (← same) (ap is_found missing)

All-assign :
    (n : ℕ) (token : String) (user : ℤ) (tokens : List (String × ℤ))
    → IsOld n (token, user)
    → All (IsOld n) tokens
    → All (IsOld n) (assign token user tokens)
unfolding assign
All-assign n token user [] p a = (p, tt)
All-assign n token user ((t, u) ∷ tokens) p (q, a) = elim (Bool-cases (t == token)) [
  | inl e ↦ rw e (p, a)
  | inr e ↦ rw e (q, All-assign n token user tokens p a)
]

All-later : (n : ℕ) (tokens : List (String × ℤ)) → All (IsOld n) tokens → All (IsOld (suc n)) tokens
All-later n [] a = tt
All-later n ((t, u) ∷ tokens) ((id, e, lt), a) = ((id, e, omega arith), All-later n tokens a)

pub issue_token-HasOldTokens :
    (user : ℤ) (s : TaxiStorage) (h : HasOldTokens s)
    → h.next < 2147483647
    → (later : HasOldTokens (issue_token user s).1) × (later.next ≡ suc h.next)
unfolding issue_token
issue_token-HasOldTokens user s h lt = (
  record {
    next = suc h.next;
    counter = ap next_int h.counter ∙ next_pos h.next lt;
    old =
        All-assign (suc h.next) _ user s.tokens
          (h.next, ap (make_token user) h.counter, omega arith) (All-later h.next s.tokens h.old);
  },
  refl,
)

-- The counter is at most `n`.
abbrev pub HasTokensBelow : ℕ → TaxiStorage → Type 0
HasTokensBelow n s = (h : HasOldTokens s) × (h.next ≤ n)
