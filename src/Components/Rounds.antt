-- ===== src/Components/Rounds.antt =====
-- Rounds of attempts at components, in any order: what is built stays built, and a component that has
-- all that it finds is built (src/main.cpp).
use taxi_lab.Base.{
  ◌≡◌, refl, ap, true, List, [], ◌∷◌, ◌++◌, String, eq_refl, find, if◌then◌else◌, Mem, Bool-cases,
  inl, inr, eq-or-mem_of_mem-cons, not-mem-nil, arith, subst,
}
use mathlib.Core.Bool.{Bool-set}
use mathlib.Core.Logic.{∥∥₁_elim}
use taxi_lab.Components.Config.{static_config}
use taxi_lab.Components.Own.{Bases, Component}
use taxi_lab.Components.Start.{is_in, are_in, validates, can_start, construct}

module _ (bases : Bases) where
  pub is_in-construct :
      (name : String) (cs : List Component) (built : List String)
      → is_in name built ≡ true
      → is_in name (construct bases cs built) ≡ true
  unfolding construct
  is_in-construct name [] built h = h
  is_in-construct name (c ∷ cs) built h = elim (Bool-cases (can_start bases c built)) [
    | inl a ↦ rw a (is_in-construct name cs (c.name ∷ built) (ground (arith, h)))
    | inr a ↦ rw a (is_in-construct name cs built h)
  ]

  pub are_in-construct :
      (names : List String) (cs : List Component) (built : List String)
      → are_in names built ≡ true
      → are_in names (construct bases cs built) ≡ true
  are_in-construct [] cs built h = refl
  are_in-construct (name ∷ names) cs built h =
      let one : is_in name built ≡ true = ground (arith, h) in
      let rest : are_in names built ≡ true = ground (arith, h) in
      rw (is_in-construct name cs built one, are_in-construct names cs built rest) refl

  pub construct-append :
      (cs ds : List Component) (built : List String)
      → construct bases (cs ++ ds) built ≡ construct bases ds (construct bases cs built)
  unfolding construct
  construct-append [] ds built = refl
  construct-append (c ∷ cs) ds built = construct-append cs ds _

  pub are_in-append :
      (names more built : List String)
      → are_in names built ≡ true
      → are_in more built ≡ true
      → are_in (names ++ more) built ≡ true
  are_in-append [] more built h k = k
  are_in-append (name ∷ names) more built h k =
      let one : is_in name built ≡ true = ground (arith, h) in
      let rest : are_in names built ≡ true = ground (arith, h) in
      rw (one, are_in-append names more built rest k) refl

  pub construct-builds :
      (c : Component) (cs : List Component) (built : List String)
      → Mem c cs
      → validates (c.schema bases) (find c.name static_config) ≡ true
      → are_in (c.finds bases) built ≡ true
      → is_in c.name (construct bases cs built) ≡ true
  unfolding construct
  construct-builds c [] built m fits ready = absurd (not-mem-nil m)
  construct-builds c (d ∷ cs) built m fits ready =
      ∥∥₁_elim (eq-or-mem_of_mem-cons m) (Bool-set _ _) λ s. elim s [
        | inl same ↦ built_now d cs built same fits ready
        | inr later ↦ construct-builds c cs _ later fits (still d built ready)
      ]
    where
      still :
          (d : Component) (built : List String)
          → are_in (c.finds bases) built ≡ true
          → are_in (c.finds bases) (if can_start bases d built then d.name ∷ built else built)
            ≡ true
      still d built ready = are_in-construct (c.finds bases) (d ∷ []) built ready

      built_now :
          (d : Component) (cs : List Component) (built : List String)
          → c ≡ d
          → validates (c.schema bases) (find c.name static_config) ≡ true
          → are_in (c.finds bases) built ≡ true
          → is_in c.name
              (construct bases cs (if can_start bases d built then d.name ∷ built else built))
            ≡ true
      built_now d cs built same fits ready =
          let starts : can_start bases c built ≡ true = rw (fits, ready) refl in
          let starts_d : can_start bases d built ≡ true =
            subst (λ x. can_start bases x built ≡ true) same starts in
          let name : c.name ≡ d.name = ap (λ x. x.name) same in
          rw starts_d (is_in-construct c.name cs (d.name ∷ built) (rw (name, eq_refl d.name) refl))
