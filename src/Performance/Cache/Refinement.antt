-- ===== src/Performance/Cache/Refinement.antt =====
-- The cache against a map that never deletes on reading.
use taxi_lab.Base.{
  ℕ, ◌+◌, ◌≤◌, ◌≡◌, refl, sym, ◌∙◌, ap, Bool, Option, none, some, List, [], ◌∷◌, String,
  starts_with, ◌==◌, leb, if◌then◌else◌, arith,
}
use taxi_lab.Performance.Cache.{Entry, ResponseCache, get, set, invalidate_prefix}
use taxi_lab.Performance.Cache.Laws.{
  fresh_value, live, get_lem, live-get, live-set, live-invalidate_prefix,
}

pub data Call : Type 0 where
  gets : String → Call
  sets : (key value : String) (ttl : ℕ) → Call
  invalidates : String → Call

-- One call at a time, and what it returned.
unfoldable pub perform : ℕ → Call → ResponseCache → Option String × ResponseCache
perform now (gets key) c = get key now c
perform now (sets key value ttl) c = (none, set key value ttl now c)
perform now (invalidates prefix) c = (none, invalidate_prefix prefix c)

unfoldable pub run : List (ℕ × Call) → ResponseCache → List (Option String)
unfolding perform
run [] c = []
run ((now, call) ∷ calls) c = (perform now call c).0 ∷ run calls (perform now call c).1

-- The specification: a total map, which a read leaves alone.
abbrev pub EntryMap : Type 0
EntryMap = String → Option Entry

unfoldable pub specified : ℕ → Call → EntryMap → Option String × EntryMap
unfolding fresh_value
specified now (gets key) m = (fresh_value (m key) now, m)
specified now (sets key value ttl) m =
    (none, λ j. if key == j then some (record { value = value; expires_at = now + ttl }) else m j)
specified now (invalidates prefix) m = (none, λ j. if starts_with j prefix then none else m j)

unfoldable pub run_specified : List (ℕ × Call) → EntryMap → List (Option String)
unfolding specified
run_specified [] m = []
run_specified ((now, call) ∷ calls) m =
    (specified now call m).0 ∷ run_specified calls (specified now call m).1

-- The steady clock does not go back.
abbrev pub IsSteadyFrom : ℕ → List (ℕ × Call) → Type 0
IsSteadyFrom t [] = Unit {0}
IsSteadyFrom t ((now, call) ∷ calls) = (t ≤ now) × IsSteadyFrom now calls

-- The cache and the map show the same from a time on.
abbrev Shows : ℕ → ResponseCache → EntryMap → Type 0
Shows t c m = (j : String) (later : ℕ) → t ≤ later → live j later c ≡ fresh_value (m j) later

perform-reply :
    (now : ℕ) (call : Call) (c : ResponseCache) (m : EntryMap)
    → Shows now c m
    → (perform now call c).0 ≡ (specified now call m).0
unfolding perform specified
perform-reply now (gets key) c m h = get_lem key now c ∙ h key now (omega arith)
perform-reply now (sets key value ttl) c m h = refl
perform-reply now (invalidates prefix) c m h = refl

perform-Shows :
    (now : ℕ) (call : Call) (c : ResponseCache) (m : EntryMap)
    → Shows now c m
    → Shows now (perform now call c).1 (specified now call m).1
unfolding perform specified
perform-Shows now (gets key) c m h j later le = live-get key j now later c le ∙ h j later le
perform-Shows now (sets key value ttl) c m h j later le =
    rw (live-set key j value ttl now later c, h j later le) (unfold fresh_value in ground arith)
perform-Shows now (invalidates prefix) c m h j later le =
    rw (live-invalidate_prefix prefix j later c, h j later le) (unfold fresh_value in ground arith)

Shows-later : (t now : ℕ) (c : ResponseCache) (m : EntryMap) → t ≤ now → Shows t c m → Shows now c m
Shows-later t now c m le h j later k = h j later (omega arith)

run_from :
    (t : ℕ) (calls : List (ℕ × Call)) (c : ResponseCache) (m : EntryMap)
    → IsSteadyFrom t calls
    → Shows t c m
    → run calls c ≡ run_specified calls m
unfolding run run_specified
run_from t [] c m st h = refl
run_from t ((now, call) ∷ calls) c m (le, st) h =
    let shows = Shows-later t now c m le h in
    let rest = run_from now calls _ _ st (perform-Shows now call c m shows) in
    λ i. perform-reply now call c m shows i ∷ rest i

-- For any sequence of Get, Set and InvalidatePrefix at times that do not go back, and from any
-- cache, the results are those of a plain map of entries that a read does not change.
pub run-refines :
    (calls : List (ℕ × Call)) (c : ResponseCache) (t : ℕ)
    → IsSteadyFrom t calls
    → run calls c ≡ run_specified calls (λ j. taxi_lab.Base.UnorderedMap.find j c.entries)
unfolding live
run-refines calls c t st = run_from t calls c _ st (λ j later le. refl)
