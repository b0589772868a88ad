-- ===== src/Tests/Performing.antt =====
-- The cache and the rate limiter at concrete inputs.
use Prim.Native.Nat.{min}
use taxi_lab.Base.{
  ℕ, ◌<◌, find, ne_of_eq_false, ◌+◌, ◌≤◌, ◌-◌, ◌%◌, ◌^◌, ◌≡◌, refl, true, false, none, some, List,
  [], ◌∷◌, String, arith, length,
}
use taxi_lab.Performance.Cache.{ResponseCache, empty_cache, get, get_stats}
use taxi_lab.Performance.Cache.Laws.{get-stats}
use taxi_lab.Performance.Cache.Refinement.{
  Call, gets, sets, invalidates, run, run_specified, run-refines,
}
use taxi_lab.Performance.Limiter.{RateLimiter, window_start_of, check}
use taxi_lab.Performance.Limiter.Laws.{
  check_bounds, used, used-check_ne, count_allowed, count_allowed_lem,
}

abbrev calls : List (ℕ × Call)
calls =
    (1, sets "users:login:ann" "body" 10)
    ∷ (5, gets "users:login:ann")
    ∷ (11, gets "users:login:ann")
    ∷ (12, sets "rides:active" "body" 10)
    ∷ (13, invalidates "rides:")
    ∷ (14, gets "rides:active")
    ∷ []

run-refines_example : run calls empty_cache ≡ run_specified calls (λ j. find j empty_cache.entries)
run-refines_example =
    run-refines calls empty_cache 0
      (omega arith, (omega arith, (omega arith, (omega arith, (omega arith, (omega arith, tt))))))

abbrev cached : ResponseCache
cached = record empty_cache {
  entries = ("rides:active", record { value = "body"; expires_at = 10 }) ∷ [];
}

get-stats_example :
    ((get "rides:active" 5 cached).0 ≡ none
      → ((get_stats (get "rides:active" 5 cached).1).misses ≡ (cached.misses + 1) % 2 ^ 64)
        × ((get_stats (get "rides:active" 5 cached).1).hits ≡ cached.hits))
    × ((value : String)
        → (get "rides:active" 5 cached).0 ≡ some value
        → ((get_stats (get "rides:active" 5 cached).1).hits ≡ (cached.hits + 1) % 2 ^ 64)
          × ((get_stats (get "rides:active" 5 cached).1).misses ≡ cached.misses)
          × ((get "rides:active" 5 cached).1.entries ≡ cached.entries))
get-stats_example = get-stats "rides:active" 5 cached

abbrev limiter : RateLimiter
limiter = record { buckets = ("k", record { window_start = 60; count = 1 }) ∷ [] }

check_bounds_example :
    let r = (check "k" 2 60 70 limiter).0 in
    (r.limit ≡ 2)
    × (r.remaining ≤ 2)
    × (r.allowed ≡ true → r.remaining < 2)
    × (r.allowed ≡ false → r.remaining ≡ 0)
    × (70 < r.reset_epoch_seconds)
    × (r.reset_epoch_seconds ≤ 70 + 60)
check_bounds_example = check_bounds "k" 2 60 70 limiter (omega arith)

used-check_ne_example : used "k" 60 (check "j" 2 60 70 limiter).1 ≡ used "k" 60 limiter
used-check_ne_example = used-check_ne "j" "k" 2 60 70 60 limiter (ne_of_eq_false "j" "k" refl)

abbrev times : List ℕ
times = 70 ∷ 80 ∷ 90 ∷ []

count_allowed_lem_example :
    count_allowed "k" 2 60 times limiter ≡ min (length times) (2 - used "k" 60 limiter)
unfolding window_start_of
count_allowed_lem_example = count_allowed_lem "k" 2 60 60 times limiter (refl, (refl, (refl, tt)))
