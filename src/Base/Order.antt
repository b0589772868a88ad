-- ===== src/Base/Order.antt =====
-- ORDER BY: insertion sort by a test, with the order and the permutation that it yields.
use mathlib.Core.Path.{◌≡◌}
use mathlib.Core.Logic.{inl, inr}
use mathlib.Core.Bool.{Bool, true, false}
use mathlib.Core.List.{List, [], ◌∷◌, Perm}
use mathlib.Core.List.Perm
use taxi_lab.Base.Tests.{if◌then◌else◌, Bool-cases}

module _ {ℓ} {A : Type ℓ} (before : A → A → Bool) where
  unfoldable pub put_in_order : A → List A → List A
  put_in_order a [] = a ∷ []
  put_in_order a (x ∷ xs) = if before a x then a ∷ (x ∷ xs) else x ∷ put_in_order a xs

  unfoldable pub order_by : List A → List A
  unfolding put_in_order
  order_by [] = []
  order_by (x ∷ xs) = put_in_order x (order_by xs)

  -- Each element may stand before the next one.
  abbrev pub IsOrderedFrom : A → List A → Type 0
  IsOrderedFrom a [] = Unit {0}
  IsOrderedFrom a (x ∷ xs) = (before a x ≡ true) × IsOrderedFrom x xs

  abbrev pub IsOrdered : List A → Type 0
  IsOrdered [] = Unit {0}
  IsOrdered (x ∷ xs) = IsOrderedFrom x xs

  put_in_order-perm : (a : A) (xs : List A) → Perm (put_in_order a xs) (a ∷ xs)
  unfolding put_in_order
  put_in_order-perm a [] = Perm.refl (a ∷ [])
  put_in_order-perm a (x ∷ xs) = elim (Bool-cases (before a x)) [
    | inl e ↦ rw e (Perm.refl _)
    | inr e ↦ rw e (Perm.trans (Perm.cons x (put_in_order-perm a xs)) (Perm.swap a x xs))
  ]

  pub order_by-perm : (xs : List A) → Perm (order_by xs) xs
  unfolding order_by
  order_by-perm [] = Perm.refl []
  order_by-perm (x ∷ xs) =
      Perm.trans (put_in_order-perm x (order_by xs)) (Perm.cons x (order_by-perm xs))

  module _ (total : (a b : A) → before a b ≡ false → before b a ≡ true) where
    put_in_order-IsOrderedFrom :
        (a b : A) (xs : List A)
        → before b a ≡ true
        → IsOrderedFrom b xs
        → IsOrderedFrom b (put_in_order a xs)
    unfolding put_in_order
    put_in_order-IsOrderedFrom a b [] h k = (h, tt)
    put_in_order-IsOrderedFrom a b (x ∷ xs) h (k, ks) = elim (Bool-cases (before a x)) [
      | inl e ↦ rw e (h, (e, ks))
      | inr e ↦ rw e (k, put_in_order-IsOrderedFrom a x xs (total a x e) ks)
    ]

    put_in_order-IsOrdered : (a : A) (xs : List A) → IsOrdered xs → IsOrdered (put_in_order a xs)
    unfolding put_in_order
    put_in_order-IsOrdered a [] h = tt
    put_in_order-IsOrdered a (x ∷ xs) h = elim (Bool-cases (before a x)) [
      | inl e ↦ rw e (e, h)
      | inr e ↦ rw e (put_in_order-IsOrderedFrom a x xs (total a x e) h)
    ]

    pub order_by-IsOrdered : (xs : List A) → IsOrdered (order_by xs)
    unfolding order_by
    order_by-IsOrdered [] = tt
    order_by-IsOrdered (x ∷ xs) = put_in_order-IsOrdered x (order_by xs) (order_by-IsOrdered xs)

-- A list in one order is in any other that it implies.
module _ {ℓ} {A : Type ℓ} (before after : A → A → Bool)
    (implies : (a b : A) → before a b ≡ true → after a b ≡ true) where
  IsOrderedFrom-implies :
      (a : A) (xs : List A) → IsOrderedFrom before a xs → IsOrderedFrom after a xs
  IsOrderedFrom-implies a [] h = tt
  IsOrderedFrom-implies a (x ∷ xs) (h, k) = (implies a x h, IsOrderedFrom-implies x xs k)

  pub IsOrdered-implies : (xs : List A) → IsOrdered before xs → IsOrdered after xs
  IsOrdered-implies [] h = tt
  IsOrdered-implies (x ∷ xs) h = IsOrderedFrom-implies x xs h
