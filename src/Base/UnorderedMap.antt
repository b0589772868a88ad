-- ===== src/Base/UnorderedMap.antt =====
-- `std::unordered_map<std::string, V>` as a list of pairs, each key at most once.
use Prim.Native.String.{String}
use mathlib.Core.Path.{◌≡◌, refl}
use mathlib.Core.Bool.{Bool, not}
use mathlib.Core.Option.{Option, none, some}
use mathlib.Core.List.{List, [], ◌∷◌}
use native.Mathlib.Omega.{arith}
use text.Mathlib.Text.{◌==◌}
use text.Mathlib.TextEquality.{eq_iff}
use taxi_lab.Base.Tests.{if◌then◌else◌}

module _ {ℓ} {V : Type ℓ} where
  unfoldable pub find : String → List (String × V) → Option V
  find k [] = none
  find k ((j, v) ∷ m) = if j == k then some v else find k m

  -- `m[k] = v`
  unfoldable pub assign : String → V → List (String × V) → List (String × V)
  assign k v [] = (k, v) ∷ []
  assign k v ((j, w) ∷ m) = if j == k then (k, v) ∷ m else (j, w) ∷ assign k v m

  -- The entries whose key passes the test; the rest are erased.
  unfoldable pub keep_keys : (String → Bool) → List (String × V) → List (String × V)
  keep_keys p [] = []
  keep_keys p ((j, w) ∷ m) = if p j then (j, w) ∷ keep_keys p m else keep_keys p m

  -- `m.erase(k)`
  unfoldable pub erase : String → List (String × V) → List (String × V)
  unfolding keep_keys
  erase k m = keep_keys (λ j. not (j == k)) m

  pub find-assign :
      (k j : String) (v : V) (m : List (String × V))
      → find j (assign k v m) ≡ (if k == j then some v else find j m)
  unfolding find assign
  find-assign k j v [] = refl
  find-assign k j v ((i, w) ∷ m) =
      ground (arith, eq_iff k j, eq_iff i k, eq_iff i j, find-assign k j v m)

  pub find-keep_keys :
      (p : String → Bool) (j : String) (m : List (String × V))
      → find j (keep_keys p m) ≡ (if p j then find j m else none)
  unfolding find keep_keys
  find-keep_keys p j [] = ground arith
  find-keep_keys p j ((i, w) ∷ m) = ground (arith, eq_iff i j, find-keep_keys p j m)

  pub find-erase :
      (k j : String) (m : List (String × V))
      → find j (erase k m) ≡ (if j == k then none else find j m)
  unfolding erase
  find-erase k j m = ground (arith, find-keep_keys (λ i. not (i == k)) j m)
