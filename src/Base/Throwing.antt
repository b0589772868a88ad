-- ===== src/Base/Throwing.antt =====
-- Results: a value, or what was thrown.
use mathlib.Core.Bool.{Bool, true, false}

-- What the program, its SQL statements and the libraries that it calls throw.
pub data Exception : Type 0 where
  unique_violation foreign_key_violation check_violation : Exception
  string_too_long sequence_exhausted cardinality_violation : Exception
  bad_column : Exception
  invalid_argument out_of_range : Exception
  bad_json : Exception

pub data Result {ℓ} (A : Type ℓ) : Type ℓ where
  ok : A → Result A
  throws : Exception → Result A

-- A throw skips what is to come.
module _ {ℓ κ} {A : Type ℓ} {B : Type κ} where
  infixl 5 ◌>>=◌
  abbrev pub ◌>>=◌ : Result A → (A → Result B) → Result B
  throws e >>= then_do = throws e
  ok value >>= then_do = then_do value

infixl 5 ◌>>◌
abbrev pub ◌>>◌ {κ} : {B : Type κ} → Result (Unit {0}) → Result B → Result B
throws e >> next = throws e
ok done >> next = next

-- Throws where the condition fails.
abbrev pub require : Bool → Exception → Result (Unit {0})
require false e = throws e
require true e = ok tt
