-- ===== src/Base/Decimal/Decoding.antt =====
-- Reading a printed integer back in front of other text.
use Prim.Native.Nat.{ℕ, zero, suc}
use Prim.Native.Char.{Char, code}
use Prim.Native.String.{String}
use mathlib.Core.Path.{◌≡◌, refl, sym, ap, ◌∙◌}
use mathlib.Core.Bool.{Bool, true, false}
use native.Mathlib.Omega.{arith}
use taxi_lab.Base.Tests.{nat_eq, if◌then◌else◌}
use taxi_lab.Base.Text.{◌+s◌}
use taxi_lab.Base.Int.{ℤ, pos, negsuc}
use taxi_lab.Base.Decimal.{
  is_digit, read_digits, print_onto-digit, read_digits-print_onto, to_string, to_string_onto,
  to_string-append,
}

abbrev pub StartsNoDigit : String → Type 0
StartsNoDigit String.[] = Unit {0}
StartsNoDigit (String.◌∷◌ c s) = is_digit c ≡ false

abbrev signed : Bool → ℕ → ℤ
signed false n = pos n
signed true zero = pos 0
signed true (suc n) = negsuc n

abbrev decoded : Bool → ℕ × String → ℤ × String
decoded negative (n, rest) = (signed negative n, rest)

-- An integer and the text behind it.
decode : String → ℤ × String
decode String.[] = (pos 0, "")
decode (String.◌∷◌ c s) =
    if nat_eq (code c) b'-'
    then decoded true (read_digits 0 s)
    else decoded false (read_digits 0 (String.◌∷◌ c s))

read_digits-stop : (n : ℕ) (rest : String) → StartsNoDigit rest → read_digits n rest ≡ (n, rest)
unfolding read_digits
read_digits-stop n String.[] h = refl
read_digits-stop n (String.◌∷◌ c s) h = rw (h, read_digits)

decode-digit :
    (c : Char) (s : String)
    → is_digit c ≡ true
    → decode (String.◌∷◌ c s) ≡ decoded false (read_digits 0 (String.◌∷◌ c s))
unfolding decode is_digit
decode-digit c s h = ground arith

decode-to_string_onto :
    (n : ℤ) (rest : String) → StartsNoDigit rest → decode (to_string_onto n rest) ≡ (n, rest)
unfolding to_string_onto
decode-to_string_onto (pos n) rest h =
    let (c, s, e, d) = print_onto-digit n n rest in
    rw e (
      decode-digit c s d
      ∙ ap (decoded false) (
          ap (read_digits 0) (sym e)
          ∙ read_digits-print_onto (suc n) n rest (omega arith)
          ∙ read_digits-stop n rest h))
decode-to_string_onto (negsuc n) rest h =
    unfold decode in
    ap (decoded true) (
      read_digits-print_onto (suc (suc n)) (suc n) rest (omega arith)
      ∙ read_digits-stop (suc n) rest h)

-- What two printed integers with something behind them share, they share part by part.
pub to_string-injective :
    (m n : ℤ) (s t : String)
    → StartsNoDigit s
    → StartsNoDigit t
    → to_string m +s s ≡ to_string n +s t
    → (m ≡ n) × (s ≡ t)
to_string-injective m n s t hs ht e =
    let same : (m, s) ≡ (n, t) =
      sym (decode-to_string_onto m s hs)
      ∙ ap decode (sym (to_string-append m s) ∙ e ∙ to_string-append n t)
      ∙ decode-to_string_onto n t ht in
    (ap (λ p. p.0) same, ap (λ p. p.1) same)
