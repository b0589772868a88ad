-- ===== src/Storage/Masks.antt =====
-- FindUsersByNameMask (src/storage/taxi_storage.cpp) against the search for a part of a text: LIKE with a mask that has no wildcard.
use Prim.Native.Char.{Char, code}
use mathlib.Core.Bool.{Bool-set}
use mathlib.Core.Logic.{∥∥₁_elim}
use text.Mathlib.TextEquality.{Char-path}
use text.Mathlib.TextBridge.{IsInfix}
use text.Mathlib.TextLemmas.{nil-append, cons-append, infix-cons}
use taxi_lab.Base.{
  ◌≡◌, refl, sym, ap, ap₂, ◌∙◌, subst, ◌↔◌, Bool, true, false, not, ◌&&◌, ◌||◌, Bool-cases, inl,
  inr, String, ◌+s◌, nat_eq, like, some_suffix, after_char, same_char, arith,
}

-- No `%`, no `_` and no `\`.
unfoldable pub is_plain_char : Char → Bool
is_plain_char c = not (nat_eq (code c) b'%' || nat_eq (code c) b'_' || nat_eq (code c) b'\\')

unfoldable pub is_plain : String → Bool
is_plain String.[] = true
is_plain (String.◌∷◌ c p) = is_plain_char c && is_plain p

begins : String → String → Bool
begins String.[] t = true
begins (String.◌∷◌ c p) String.[] = false
begins (String.◌∷◌ c p) (String.◌∷◌ d t) = same_char c d && begins p t

like_plain :
    (c d : Char) (p t : String)
    → is_plain_char c ≡ true
    → like (String.◌∷◌ c (String.◌∷◌ d p)) t ≡ after_char (same_char c) (like (String.◌∷◌ d p)) t
unfolding like is_plain_char
like_plain c d p t plain =
    let a : nat_eq (code c) b'%' ≡ false = ground (arith, plain) in
    let b : nat_eq (code c) b'_' ≡ false = ground (arith, plain) in
    let e : nat_eq (code c) b'\\' ≡ false = ground (arith, plain) in rw (a, b, e) refl

begins_char :
    (c : Char) (p t : String) → begins (String.◌∷◌ c p) t ≡ after_char (same_char c) (begins p) t
unfolding begins
begins_char c p String.[] = refl
begins_char c p (String.◌∷◌ d t) = refl

after_char-same :
    (c : Char) (f g : String → Bool) (t : String)
    → ((s : String) → f s ≡ g s)
    → after_char (same_char c) f t ≡ after_char (same_char c) g t
after_char-same c f g String.[] same = refl
after_char-same c f g (String.◌∷◌ d t) same = ap (λ b. same_char c d && b) (same t)

like_everything : (t : String) → like "%" t ≡ begins "" t
unfolding like begins
like_everything String.[] = refl
like_everything (String.◌∷◌ c t) = refl

-- A mask with `%` behind it, on a text.
like-begins : (p t : String) → is_plain p ≡ true → like (p +s "%") t ≡ begins p t
unfolding is_plain
like-begins String.[] t plain = like_everything t
like-begins (String.◌∷◌ c String.[]) t plain =
    ap (λ s. like s t) (cons-append c "" "%")
    ∙ like_plain c "%" "" t (ground (arith, plain))
    ∙ after_char-same c (like "%") (begins "") t like_everything
    ∙ sym (begins_char c "" t)
like-begins (String.◌∷◌ c (String.◌∷◌ d p)) t plain =
    ap (λ s. like s t)
      (cons-append c (String.◌∷◌ d p) "%" ∙ ap (String.◌∷◌ c) (cons-append d p "%"))
    ∙ like_plain c d (p +s "%") t (ground (arith, plain))
    ∙ after_char-same c (like (String.◌∷◌ d (p +s "%"))) (begins (String.◌∷◌ d p)) t (λ s.
      ap (λ q. like q s) (sym (cons-append d p "%"))
      ∙ like-begins (String.◌∷◌ d p) s (ground (arith, plain)))
    ∙ sym (begins_char c (String.◌∷◌ d p) t)

some_suffix-same :
    (f g : String → Bool) (t : String)
    → ((s : String) → f s ≡ g s)
    → some_suffix f t ≡ some_suffix g t
some_suffix-same f g String.[] same = same ""
some_suffix-same f g (String.◌∷◌ c t) same =
    ap₂ (λ a b. a || b) (same (String.◌∷◌ c t)) (some_suffix-same f g t same)

percent_append : (s : String) → "%" +s s ≡ String.◌∷◌ "%" s
percent_append s = cons-append "%" "" s ∙ ap (String.◌∷◌ "%") (nil-append s)

-- `'%' || mask || '%'` on a text.
like-some_suffix :
    (p t : String) → is_plain p ≡ true → like ("%" +s p +s "%") t ≡ some_suffix (begins p) t
unfolding like
like-some_suffix String.[] t plain = some_suffix-same (like "%") (begins "") t like_everything
like-some_suffix (String.◌∷◌ c p) t plain =
    ap (λ s. like s t)
      (percent_append (String.◌∷◌ c p +s "%") ∙ ap (String.◌∷◌ "%") (cons-append c p "%"))
    ∙ some_suffix-same (like (String.◌∷◌ c (p +s "%"))) (begins (String.◌∷◌ c p)) t
        (λ s. ap (λ q. like q s) (sym (cons-append c p "%")) ∙ like-begins (String.◌∷◌ c p) s plain)

-- A text that begins with `p` is `p` and a rest.
begins-append : (p v : String) → begins p (p +s v) ≡ true
unfolding begins
begins-append String.[] v = refl
begins-append (String.◌∷◌ c p) v = rw (cons-append c p v) (ground (arith, begins-append p v))

begins-rest : (p t : String) → begins p t ≡ true → (v : String) × (p +s v ≡ t)
unfolding begins
begins-rest String.[] t h = (t, nil-append t)
begins-rest (String.◌∷◌ c p) String.[] h = cc
begins-rest (String.◌∷◌ c p) (String.◌∷◌ d t) h =
    let here : code c ≡ code d = ground (arith, h) in
    let (v, rest) = begins-rest p t (ground (arith, h)) in
    (v, cons-append c p v ∙ ap₂ String.◌∷◌ (Char-path c d here) rest)

some_suffix_lem : (f : String → Bool) (t : String) → f t ≡ true → some_suffix f t ≡ true
some_suffix_lem f String.[] h = h
some_suffix_lem f (String.◌∷◌ c t) h = rw h refl

begins-IsInfix : (p t : String) → begins p t ≡ true → IsInfix p t
begins-IsInfix p t h =
    let (v, rest) = begins-rest p t h in ∣ ("", v, ap (λ s. s +s v) (nil-append p) ∙ rest) ∣₁

some_suffix-IsInfix : (p t : String) → some_suffix (begins p) t ≡ true → IsInfix p t
some_suffix-IsInfix p String.[] h = begins-IsInfix p "" h
some_suffix-IsInfix p (String.◌∷◌ c t) h = elim (Bool-cases (begins p (String.◌∷◌ c t))) [
  | inl a ↦ begins-IsInfix p (String.◌∷◌ c t) a
  | inr a ↦ infix-cons p (some_suffix-IsInfix p t (ground (arith, h, a)))
]

some_suffix_of_append : (p u v : String) → some_suffix (begins p) ((u +s p) +s v) ≡ true
some_suffix_of_append p String.[] v =
    subst (λ s. some_suffix (begins p) (s +s v) ≡ true) (sym (nil-append p))
      (some_suffix_lem (begins p) (p +s v) (begins-append p v))
some_suffix_of_append p (String.◌∷◌ c u) v =
    subst (λ s. some_suffix (begins p) s ≡ true)
      (sym (ap (λ s. s +s v) (cons-append c u p) ∙ cons-append c (u +s p) v))
      (later (begins p (String.◌∷◌ c ((u +s p) +s v))) (some_suffix_of_append p u v))
  where
    later : (a : Bool) {b : Bool} → b ≡ true → (a || b) ≡ true
    later true h = refl
    later false h = h

pub like-IsInfix :
    (p t : String) → is_plain p ≡ true → (like ("%" +s p +s "%") t ≡ true) ↔ IsInfix p t
like-IsInfix p t plain = (
  λ h. some_suffix-IsInfix p t (sym (like-some_suffix p t plain) ∙ h),
  λ i.
      like-some_suffix p t plain
      ∙ ∥∥₁_elim i (Bool-set _ _) λ (u, v, is).
        subst (λ s. some_suffix (begins p) s ≡ true) is (some_suffix_of_append p u v),
)
