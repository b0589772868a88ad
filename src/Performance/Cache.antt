-- ===== src/Performance/Cache.antt =====
-- ResponseCache of src/performance/simple_performance.hpp. A call's time on the steady clock, in
-- nanoseconds, is an argument.
pub mod Laws
pub mod Refinement
use taxi_lab.Base.{
  ℕ, ◌+◌, ◌*◌, ◌%◌, ◌^◌, Bool, Option, none, some, List, [], String, not, starts_with, leb, nat_eq,
  if◌then◌else◌, find, assign, erase, keep_keys, length,
}

pub record Entry : Type 0 where
  pub value : String
  pub expires_at : ℕ

pub record ResponseCache : Type 0 where
  pub entries : List (String × Entry)
  pub hits : ℕ
  pub misses : ℕ

pub record Stats : Type 0 where
  pub hits : ℕ
  pub misses : ℕ
  pub entries : ℕ

abbrev pub empty_cache : ResponseCache
empty_cache = record { entries = []; hits = 0; misses = 0 }

-- `std::chrono::seconds` in the clock's ticks.
abbrev pub seconds : ℕ → ℕ
seconds n = n * 1000000000

-- `++` on a `std::uint64_t`.
abbrev pub next_u64 : ℕ → ℕ
next_u64 n = (n + 1) % 2 ^ 64

-- The tests of Get on what `find` gave.
unfoldable pub get_found : Option Entry → String → ℕ → ResponseCache → Option String × ResponseCache
get_found none key now c = (none, record c { misses = next_u64 c.misses })
get_found (some entry) key now c =
    if leb entry.expires_at now
    then (none, record c { entries = erase key c.entries; misses = next_u64 c.misses })
    else (some entry.value, record c { hits = next_u64 c.hits })

unfoldable pub get : String → ℕ → ResponseCache → Option String × ResponseCache
unfolding get_found
get key now c = get_found (find key c.entries) key now c

unfoldable pub set : String → String → ℕ → ℕ → ResponseCache → ResponseCache
set key value ttl now c = record c {
  entries = assign key (record { value = value; expires_at = now + ttl }) c.entries;
}

-- `it->first.rfind(prefix, 0) == 0`
unfoldable pub invalidate_prefix : String → ResponseCache → ResponseCache
invalidate_prefix prefix c = record c {
  entries = keep_keys (λ key. not (starts_with key prefix)) c.entries;
}

unfoldable pub get_stats : ResponseCache → Stats
get_stats c = record { hits = c.hits; misses = c.misses; entries = length c.entries }

-- HitRate. `Double`, its zero and the quotient of two converted integers are the machine's.
unfoldable pub hit_rate : {Double : Type 0} → Double → (ℕ → ℕ → Double) → Stats → Double
hit_rate zero quotient s =
    let total = (s.hits + s.misses) % 2 ^ 64 in
    if nat_eq total 0 then zero else quotient s.hits total
