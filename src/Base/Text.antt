-- ===== src/Base/Text.antt =====
-- Texts: `std::string` as the native text, with what the program and SQL use of it.
use Prim.Native.Nat.{ℕ, zero, suc}
use Prim.Native.Char.{Char, code}
use Prim.Native.String
use Prim.Native.String.{String}
use mathlib.Core.Bool.{Bool, true, false, ◌&&◌, ◌||◌}
use mathlib.Core.Option
use mathlib.Core.Option.{Option, none, some}
use text.Mathlib.Text.{◌==◌}
use taxi_lab.Base.Tests.{nat_eq, if◌then◌else◌}

infixr 65 ◌+s◌
abbrev pub ◌+s◌ : String → String → String
s +s t = String.◌++◌ s t

-- `s.empty()`
abbrev pub is_empty : String → Bool
is_empty s = s == ""

-- btrim(s) = '': SQL's btrim removes spaces only.
unfoldable pub is_blank : String → Bool
is_blank String.[] = true
is_blank (String.◌∷◌ c s) = nat_eq (code c) b' ' && is_blank s

-- Storing a text in a VARCHAR(n): spaces past the n-th character are dropped, and any other text
-- that is too long is refused.
unfoldable pub store_varchar : ℕ → String → Option String
unfolding is_blank
store_varchar n String.[] = some ""
store_varchar zero (String.◌∷◌ c s) = if nat_eq (code c) b' ' && is_blank s then some "" else none
store_varchar (suc n) (String.◌∷◌ c s) = Option.map (λ t. String.◌∷◌ c t) (store_varchar n s)

-- LIKE, with `%` for any text, `_` for any character and `\` before a character that stands for
-- itself.
abbrev pub some_suffix : (String → Bool) → String → Bool
some_suffix p String.[] = p ""
some_suffix p (String.◌∷◌ c s) = p (String.◌∷◌ c s) || some_suffix p s

abbrev pub after_char : (Char → Bool) → (String → Bool) → String → Bool
after_char here rest String.[] = false
after_char here rest (String.◌∷◌ c s) = here c && rest s

abbrev pub same_char : Char → Char → Bool
same_char c d = nat_eq (code c) (code d)

unfoldable pub like : String → String → Bool
like String.[] t = t == ""
like (String.◌∷◌ c String.[]) t =
    if nat_eq (code c) b'%'
    then true
    else if nat_eq (code c) b'_'
    then after_char (λ _. true) (λ s. s == "") t
    else after_char (same_char c) (λ s. s == "") t
like (String.◌∷◌ c (String.◌∷◌ d p)) t =
    if nat_eq (code c) b'%'
    then some_suffix (like (String.◌∷◌ d p)) t
    else if nat_eq (code c) b'_'
    then after_char (λ _. true) (like (String.◌∷◌ d p)) t
    else if nat_eq (code c) b'\\'
    then after_char (same_char d) (like p) t
    else after_char (same_char c) (like (String.◌∷◌ d p)) t
