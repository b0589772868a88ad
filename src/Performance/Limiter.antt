-- ===== src/Performance/Limiter.antt =====
-- FixedWindowRateLimiter of src/performance/simple_performance.hpp. A call's time on the system
-- clock, in seconds from the epoch, is an argument.
pub mod Laws
use taxi_lab.Base.{
  ℕ, suc, ◌+◌, ◌-◌, ◌*◌, ◌/◌, Bool, true, false, Option, none, some, List, [], String, leb, nat_eq,
  not, if◌then◌else◌, find, assign,
}

pub record RateLimitResult : Type 0 where
  pub allowed : Bool
  pub limit : ℕ
  pub remaining : ℕ
  pub reset_epoch_seconds : ℕ

pub record Bucket : Type 0 where
  pub window_start : ℕ
  pub count : ℕ

pub record RateLimiter : Type 0 where
  pub buckets : List (String × Bucket)

abbrev pub empty_limiter : RateLimiter
empty_limiter = record { buckets = [] }

-- `buckets_[key]`: a missing bucket is made.
abbrev pub bucket_or_new : Option Bucket → Bucket
bucket_or_new none = record { window_start = 0; count = 0 }
bucket_or_new (some b) = b

unfoldable pub window_start_of : ℕ → ℕ → ℕ
window_start_of now window = now / window * window

-- A bucket of another window starts anew.
unfoldable pub roll_over : ℕ → Bucket → Bucket
roll_over window_start b =
    if not (nat_eq b.window_start window_start)
    then record { window_start = window_start; count = 0 }
    else b

-- The test against the limit, and the count.
unfoldable pub take : ℕ → ℕ → Bucket → RateLimitResult × Bucket
take limit reset_at b =
    if leb limit b.count
    then (
      record { allowed = false; limit = limit; remaining = 0; reset_epoch_seconds = reset_at },
      b,
    )
    else (
      record {
        allowed = true;
        limit = limit;
        remaining = limit - suc b.count;
        reset_epoch_seconds = reset_at;
      },
      record b { count = suc b.count },
    )

unfoldable pub check : String → ℕ → ℕ → ℕ → RateLimiter → RateLimitResult × RateLimiter
unfolding window_start_of roll_over take
check key limit window now l =
    let start = window_start_of now window in
    let (result, bucket) =
      take limit (start + window) (roll_over start (bucket_or_new (find key l.buckets))) in
    (result, record l { buckets = assign key bucket l.buckets })
