-- ===== src/Performance/Cache/Laws.antt =====
-- What a later Get sees after each operation of the response cache.
use taxi_lab.Base.{
  ℕ, ◌+◌, ◌%◌, ◌^◌, ◌≤◌, ◌≡◌, Option, none, some, String, not, starts_with, ◌==◌, leb,
  if◌then◌else◌, find, find-assign, find-keep_keys, find-erase, arith, eq_iff,
}
use taxi_lab.Performance.Cache.{
  Entry, ResponseCache, get_found, get, set, invalidate_prefix, get_stats,
}

-- The value of an entry that has not expired.
unfoldable pub fresh_value : Option Entry → ℕ → Option String
fresh_value none now = none
fresh_value (some entry) now = if leb entry.expires_at now then none else some entry.value

-- What the cache holds for a key at a time.
unfoldable pub live : String → ℕ → ResponseCache → Option String
unfolding fresh_value
live key now c = fresh_value (find key c.entries) now

pub get_lem : (key : String) (now : ℕ) (c : ResponseCache) → (get key now c).0 ≡ live key now c
unfolding get get_found live
get_lem key now c = ground arith

-- A Get changes nothing that is seen later, though it erases an expired entry.
pub live-get :
    (key j : String) (now later : ℕ) (c : ResponseCache)
    → now ≤ later
    → live j later (get key now c).1 ≡ live j later c
unfolding get get_found live
live-get key j now later c h = ground (arith, find-erase key j c.entries, eq_iff j key)

pub live-set :
    (key j value : String) (ttl now later : ℕ) (c : ResponseCache)
    → live j later (set key value ttl now c)
      ≡ (if key == j then (if leb (now + ttl) later then none else some value) else live j later c)
unfolding set live
live-set key j value ttl now later c = rw (find-assign key j _ c.entries) (ground arith)

pub live-invalidate_prefix :
    (prefix j : String) (later : ℕ) (c : ResponseCache)
    → live j later (invalidate_prefix prefix c)
      ≡ (if starts_with j prefix then none else live j later c)
unfolding invalidate_prefix live
live-invalidate_prefix prefix j later c =
    rw (find-keep_keys (λ key. not (starts_with key prefix)) j c.entries) (ground arith)

-- Once gone, a value stays gone until the next Set: freshness only falls with time.
pub live_mono :
    (key : String) (now later : ℕ) (c : ResponseCache) {value : String}
    → now ≤ later
    → live key later c ≡ some value
    → live key now c ≡ some value
unfolding live
live_mono key now later c h e = ground arith

-- Each Get counts one miss if it returns nothing and one hit if it returns a value, modulo 2^64,
-- and does not change the other counter; a hit keeps the entries.
pub get-stats :
    (key : String) (now : ℕ) (c : ResponseCache)
    → ((get key now c).0 ≡ none
        → ((get_stats (get key now c).1).misses ≡ (c.misses + 1) % 2 ^ 64)
          × ((get_stats (get key now c).1).hits ≡ c.hits))
      × ((value : String)
          → (get key now c).0 ≡ some value
          → ((get_stats (get key now c).1).hits ≡ (c.hits + 1) % 2 ^ 64)
            × ((get_stats (get key now c).1).misses ≡ c.misses)
            × ((get key now c).1.entries ≡ c.entries))
unfolding get get_found get_stats
get-stats key now c = (λ h. ground arith, λ value h. ground arith)
