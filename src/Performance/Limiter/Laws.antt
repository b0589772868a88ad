-- ===== src/Performance/Limiter/Laws.antt =====
-- FixedWindowRateLimiter: its limit within a window, and its answers.
use taxi_lab.Base.{
  ℕ, suc, ◌+◌, ◌-◌, ◌≤◌, ◌<◌, ◌≡◌, refl, subst, ◌==◌, Bool, some, ◌≢◌, ◌⊎◌, inl, inr, true, false,
  List, [], ◌∷◌, String, if◌then◌else◌, find, assign, find-assign, arith, eq_refl, eq_ne, length,
}
use Prim.Native.Nat.{min}
use taxi_lab.Performance.Limiter.{
  Bucket, RateLimiter, bucket_or_new, window_start_of, roll_over, take, check,
}

window_bounds :
    (now window : ℕ)
    → 0 < window
    → (window_start_of now window ≤ now) × (now < window_start_of now window + window)
unfolding window_start_of
window_bounds now window h = grind arith

-- If the window is positive, Check answers the limit it was given, at most that many calls
-- remaining, none after a refusal, fewer than the limit after an allowed call, and a reset after
-- now and at most one window later.
pub check_bounds :
    (key : String) (limit window now : ℕ) (l : RateLimiter)
    → 0 < window
    → let r = (check key limit window now l).0 in
      (r.limit ≡ limit)
      × (r.remaining ≤ limit)
      × (r.allowed ≡ true → r.remaining < limit)
      × (r.allowed ≡ false → r.remaining ≡ 0)
      × (now < r.reset_epoch_seconds)
      × (r.reset_epoch_seconds ≤ now + window)
unfolding check take
check_bounds key limit window now l h =
    let (lo, hi) = window_bounds now window h in
    (
      ground arith,
      ground arith,
      (λ e. ground arith),
      (λ e. ground arith),
      ground arith,
      ground arith,
    )

-- How many calls the key has made in the window that starts at a time.
unfoldable pub used : String → ℕ → RateLimiter → ℕ
unfolding roll_over
used key start l = (roll_over start (bucket_or_new (find key l.buckets))).count

used-assign :
    (key other : String) (b : Bucket) (start : ℕ) (l : RateLimiter)
    → used other start (record l { buckets = assign key b l.buckets })
      ≡ (if key == other then (roll_over start b).count else used other start l)
unfolding used
used-assign key other b start l =
    rw (find-assign key other b l.buckets, used) (split (key == other))
  where
    split :
        (t : Bool)
        → (roll_over start (bucket_or_new (if t then some b else find other l.buckets))).count
          ≡ (if t then (roll_over start b).count else used other start l)
    split true = refl
    split false = refl

-- A call of Check for one key does not change what another key has used in any window.
pub used-check_ne :
    (key other : String) (limit window now start : ℕ) (l : RateLimiter)
    → key ≢ other
    → used other start (check key limit window now l).1 ≡ used other start l
unfolding check
used-check_ne key other limit window now start l h =
    rw (used-assign key other _ start l, eq_ne key other h)

-- A call is allowed exactly while fewer than the limit are used, and then uses one.
check_step :
    (key : String) (limit window now : ℕ) (l : RateLimiter)
    → let start = window_start_of now window in
      let (r, l') = check key limit window now l in
      ((used key start l < limit)
        × (r.allowed ≡ true)
        × (used key start l' ≡ suc (used key start l)))
      ⊎ ((limit ≤ used key start l) × (r.allowed ≡ false) × (used key start l' ≡ used key start l))
unfolding used check take roll_over
check_step key limit window now l =
    let start = window_start_of now window in
    let b = take limit (start + window) (roll_over start (bucket_or_new (find key l.buckets))) in
    rw (used-assign key key b.1 start l, eq_refl key) (ground arith)

-- The number of allowed calls among calls at the given times.
unfoldable pub count_allowed : String → ℕ → ℕ → List ℕ → RateLimiter → ℕ
count_allowed key limit window [] l = 0
count_allowed key limit window (now ∷ times) l =
    let (r, l') = check key limit window now l in
    (if r.allowed then 1 else 0) + count_allowed key limit window times l'

abbrev pub AllIn : ℕ → ℕ → List ℕ → Type 0
AllIn window start [] = Unit {0}
AllIn window start (now ∷ times) = (window_start_of now window ≡ start) × AllIn window start times

-- Of calls for one key whose times lie in one window, the number allowed is the smaller of the
-- number of calls and the limit less what the key had used before, from any state of the limiter.
pub count_allowed_lem :
    (key : String) (limit window start : ℕ) (times : List ℕ) (l : RateLimiter)
    → AllIn window start times
    → count_allowed key limit window times l ≡ min (length times) (limit - used key start l)
unfolding count_allowed
count_allowed_lem key limit window start [] l h = omega arith
count_allowed_lem key limit window start (now ∷ times) l (e, h) =
    let rest = count_allowed_lem key limit window start times (check key limit window now l).1 h in
    let step = subst (λ s. Steps s) e (check_step key limit window now l) in decided step rest
  where
    after : RateLimiter
    after = (check key limit window now l).1

    Steps : ℕ → Type 0
    Steps s =
        ((used key s l < limit)
          × ((check key limit window now l).0.allowed ≡ true)
          × (used key s after ≡ suc (used key s l)))
        ⊎ ((limit ≤ used key s l)
            × ((check key limit window now l).0.allowed ≡ false)
            × (used key s after ≡ used key s l))

    decided :
        Steps start
        → count_allowed key limit window times after
          ≡ min (length times) (limit - used key start after)
        → count_allowed key limit window (now ∷ times) l
          ≡ min (suc (length times)) (limit - used key start l)
    decided (inl (a, b, c)) r = rw b (omega arith)
    decided (inr (a, b, c)) r = rw b (omega arith)

-- A window in which the key has made no call starts with nothing used.
pub used_of_other_window :
    (key : String) (start : ℕ) (l : RateLimiter)
    → (bucket_or_new (find key l.buckets)).window_start ≢ start
    → used key start l ≡ 0
unfolding used roll_over
used_of_other_window key start l h = ground arith
