-- ===== src/Base/Decimal.antt =====
-- `std::to_string(int)` and `std::stoi`.
pub mod Decoding
use Prim.Native.Nat.{ℕ, zero, suc, ◌+◌, ◌-◌, ◌*◌, ◌/◌, ◌%◌, ◌≤◌, ◌<◌}
use Prim.Native.Char.{Char, code}
use Prim.Native.String.{String}
use mathlib.Core.Path.{◌≡◌, refl, ap, ◌∙◌}
use mathlib.Core.Logic.{inl, inr}
use mathlib.Core.Bool.{Bool, true, false, ◌&&◌, ◌||◌}
use native.Mathlib.Omega.{arith}
use taxi_lab.Base.Tests.{leb, nat_eq, if◌then◌else◌, Bool-cases}
use text.Mathlib.TextLemmas.{nil-append, cons-append}
use taxi_lab.Base.Text.{◌+s◌}
use taxi_lab.Base.Int.{ℤ, pos, negsuc}
use taxi_lab.Base.Throwing.{Result, ok, throws, invalid_argument, out_of_range}

unfoldable pub digit_char : ℕ → Char
digit_char zero = "0"
digit_char (suc zero) = "1"
digit_char (suc (suc zero)) = "2"
digit_char (suc (suc (suc zero))) = "3"
digit_char (suc (suc (suc (suc zero)))) = "4"
digit_char (suc (suc (suc (suc (suc zero))))) = "5"
digit_char (suc (suc (suc (suc (suc (suc zero)))))) = "6"
digit_char (suc (suc (suc (suc (suc (suc (suc zero))))))) = "7"
digit_char (suc (suc (suc (suc (suc (suc (suc (suc zero)))))))) = "8"
digit_char (suc (suc (suc (suc (suc (suc (suc (suc (suc n))))))))) = "9"

-- The decimal digits of a number in front of a text; the first argument is fuel.
unfoldable pub print_onto : ℕ → ℕ → String → String
unfolding digit_char
print_onto zero n rest = rest
print_onto (suc f) n rest =
    let here = String.◌∷◌ (digit_char (n % 10)) rest in
    let more = print_onto f (n / 10) here in if nat_eq (n / 10) 0 then here else more

-- `std::to_string(n)` in front of a text: a number n has fewer than n + 1 digits behind the first.
unfoldable pub to_string_onto : ℤ → String → String
unfolding print_onto
to_string_onto (pos n) rest = print_onto (suc n) n rest
to_string_onto (negsuc n) rest = String.◌∷◌ "-" (print_onto (suc (suc n)) (suc n) rest)

unfoldable pub to_string : ℤ → String
unfolding to_string_onto
to_string n = to_string_onto n ""

unfoldable pub is_digit : Char → Bool
is_digit c = leb b'0' (code c) && leb (code c) b'9'

-- Reads digits into a value, and gives the text behind them.
unfoldable pub read_digits : ℕ → String → ℕ × String
unfolding is_digit
read_digits acc String.[] = (acc, "")
read_digits acc (String.◌∷◌ c s) = elim (is_digit c) [
  | true ↦ read_digits (acc * 10 + (code c - b'0')) s
  | false ↦ (acc, String.◌∷◌ c s)
]

abbrev starts_with_digit : String → Bool
starts_with_digit String.[] = false
starts_with_digit (String.◌∷◌ c s) = is_digit c

-- The magnitude as an `int`, or out_of_range.
abbrev in_range : Bool → ℕ → Result ℤ
in_range false n = if leb n 2147483647 then ok (pos n) else throws out_of_range
in_range true zero = ok (pos 0)
in_range true (suc n) = if leb (suc n) 2147483648 then ok (negsuc n) else throws out_of_range

unfoldable pub read_int : Bool → String → Result ℤ
unfolding read_digits is_digit
read_int negative s =
    if starts_with_digit s then in_range negative (read_digits 0 s).0 else throws invalid_argument

unfoldable pub read_signed : String → Result ℤ
unfolding read_int
read_signed String.[] = throws invalid_argument
read_signed (String.◌∷◌ c s) =
    if nat_eq (code c) b'-'
    then read_int true s
    else if nat_eq (code c) b'+'
    then read_int false s
    else read_int false (String.◌∷◌ c s)

-- isspace: space, \t, \n, \v, \f, \r
abbrev is_space : Char → Bool
is_space c = nat_eq (code c) 32 || (leb 9 (code c) && leb (code c) 13)

unfoldable pub skip_spaces : String → String
skip_spaces String.[] = ""
skip_spaces (String.◌∷◌ c s) = if is_space c then skip_spaces s else String.◌∷◌ c s

-- `std::stoi(s)`: what follows the number is ignored.
unfoldable pub stoi : String → Result ℤ
unfolding skip_spaces read_signed
stoi s = read_signed (skip_spaces s)

pub digit_code : (d : ℕ) → d < 10 → code (digit_char d) ≡ 48 + d
unfolding digit_char
digit_code zero h = refl
digit_code (suc zero) h = refl
digit_code (suc (suc zero)) h = refl
digit_code (suc (suc (suc zero))) h = refl
digit_code (suc (suc (suc (suc zero)))) h = refl
digit_code (suc (suc (suc (suc (suc zero))))) h = refl
digit_code (suc (suc (suc (suc (suc (suc zero)))))) h = refl
digit_code (suc (suc (suc (suc (suc (suc (suc zero))))))) h = refl
digit_code (suc (suc (suc (suc (suc (suc (suc (suc zero)))))))) h = refl
digit_code (suc (suc (suc (suc (suc (suc (suc (suc (suc n))))))))) h = omega arith

digit_is_digit : (d : ℕ) → d < 10 → is_digit (digit_char d) ≡ true
unfolding is_digit
digit_is_digit d h = ground (arith, digit_code d h)

read_digits-digit :
    (acc d : ℕ) (s : String)
    → d < 10
    → read_digits acc (String.◌∷◌ (digit_char d) s) ≡ read_digits (acc * 10 + d) s
unfolding read_digits
read_digits-digit acc d s h =
    rw (digit_is_digit d h, read_digits) (ap (λ k. read_digits k s) (omega (arith, digit_code d h)))

-- Reading back what was printed, with whatever follows it.
pub read_digits-print_onto :
    (f n : ℕ) (rest : String) → n < f → read_digits 0 (print_onto f n rest) ≡ read_digits n rest
unfolding print_onto
read_digits-print_onto zero n rest h = elim h [ ]
read_digits-print_onto (suc f) n rest h = elim (Bool-cases (nat_eq (n / 10) 0)) [
  | inl e ↦ rw e (
      read_digits-digit 0 (n % 10) rest (omega arith) ∙ ap (λ k. read_digits k rest) (ground arith))
  | inr e ↦ rw e (
      read_digits-print_onto f (n / 10) _ (ground arith)
      ∙ read_digits-digit (n / 10) (n % 10) rest (omega arith)
      ∙ ap (λ k. read_digits k rest) (omega arith))
]

-- What is printed begins with a digit.
pub print_onto-digit :
    (f n : ℕ) (rest : String)
    → (c : Char) × (s : String) × (print_onto (suc f) n rest ≡ String.◌∷◌ c s) × (is_digit c ≡ true)
unfolding print_onto
print_onto-digit zero n rest = elim (Bool-cases (nat_eq (n / 10) 0)) [
  | inl e ↦ (digit_char (n % 10), rest, rw e, digit_is_digit _ (omega arith))
  | inr e ↦ (digit_char (n % 10), rest, rw e, digit_is_digit _ (omega arith))
]
print_onto-digit (suc f) n rest = elim (Bool-cases (nat_eq (n / 10) 0)) [
  | inl e ↦ (digit_char (n % 10), rest, rw e, digit_is_digit _ (omega arith))
  | inr e ↦
      let (c, s, p, d) = print_onto-digit f (n / 10) (String.◌∷◌ (digit_char (n % 10)) rest) in
      (c, s, rw e p, d)
]

-- A digit is no space and no sign.
digit_stays :
    (c : Char) (s : String) → is_digit c ≡ true → skip_spaces (String.◌∷◌ c s) ≡ String.◌∷◌ c s
unfolding skip_spaces is_digit
digit_stays c s h = ground arith

read_signed-digit :
    (c : Char) (s : String)
    → is_digit c ≡ true
    → read_signed (String.◌∷◌ c s) ≡ in_range false (read_digits 0 (String.◌∷◌ c s)).0
unfolding read_signed read_int is_digit
read_signed-digit c s h = ground arith

read_digits-print : (n : ℕ) → (read_digits 0 (print_onto (suc n) n "")).0 ≡ n
unfolding read_digits
read_digits-print n = ap (λ r. r.0) (read_digits-print_onto (suc n) n "" (omega arith))

stoi-to_string_pos : (n : ℕ) → n ≤ 2147483647 → stoi (to_string (pos n)) ≡ ok (pos n)
unfolding stoi to_string to_string_onto
stoi-to_string_pos n h =
    let (c, s, e, d) = print_onto-digit n n "" in
    let value = read_digits-print n in
    rw (e, digit_stays c s d, read_signed-digit c s d, ← e, value) (ground arith)

stoi-to_string_negsuc : (n : ℕ) → n < 2147483648 → stoi (to_string (negsuc n)) ≡ ok (negsuc n)
unfolding stoi to_string to_string_onto read_signed read_int skip_spaces
stoi-to_string_negsuc n h =
    let (c, s, e, d) = print_onto-digit (suc n) (suc n) "" in
    let value = read_digits-print (suc n) in rw (e, d, ← e, value) (ground arith)

-- The integers that an `int` holds.
abbrev pub FitsInt : ℤ → Type 0
FitsInt (pos n) = n ≤ 2147483647
FitsInt (negsuc n) = n < 2147483648

pub stoi-to_string : (n : ℤ) → FitsInt n → stoi (to_string n) ≡ ok n
stoi-to_string (pos n) h = stoi-to_string_pos n h
stoi-to_string (negsuc n) h = stoi-to_string_negsuc n h

print_onto-append : (f n : ℕ) (s t : String) → print_onto f n s +s t ≡ print_onto f n (s +s t)
unfolding print_onto
print_onto-append zero n s t = refl
print_onto-append (suc f) n s t = elim (Bool-cases (nat_eq (n / 10) 0)) [
  | inl e ↦ rw e (cons-append (digit_char (n % 10)) s t)
  | inr e ↦ rw e (
      print_onto-append f (n / 10) _ t
      ∙ ap (print_onto f (n / 10)) (cons-append (digit_char (n % 10)) s t))
]

pub to_string-append : (n : ℤ) (t : String) → to_string n +s t ≡ to_string_onto n t
unfolding to_string
to_string-append (pos n) t =
    print_onto-append (suc n) n "" t ∙ ap (print_onto (suc n) n) (nil-append t)
to_string-append (negsuc n) t =
    cons-append "-" _ t
    ∙ ap (String.◌∷◌ "-") (
        print_onto-append (suc (suc n)) (suc n) "" t
        ∙ ap (print_onto (suc (suc n)) (suc n)) (nil-append t))

reads :
    (stoi " +42x" ≡ ok (pos 42))
    × (stoi "x" ≡ throws invalid_argument)
    × (stoi "-7" ≡ ok (negsuc 6))
    × (stoi "2147483648" ≡ throws out_of_range)
    × (to_string (negsuc 119) ≡ "-120")
unfolding stoi to_string
reads = (refl, refl, refl, refl, refl)
