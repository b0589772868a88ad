-- ===== src/Mongo/Create/Logins.antt =====
-- Which logins POST /mongo/users takes (IsValidLogin of src/handlers/mongo_users_create.cpp).
use Prim.Native.Char.{Char, code}
use taxi_lab.Base.{
  ◌≤◌, ◌≡◌, ◌≢◌, inl, inr, true, ◌&&◌, leb, nat_eq, Bool-cases, String, arith, ne_of_eq_false,
}
use taxi_lab.Mongo.Create.{is_login_char, all_login_chars, is_valid_login}

-- a-z, 0-9, ".", "_" and "-".
pub data IsLoginChar (c : Char) : Type 0 where
  letter : b'a' ≤ code c → code c ≤ b'z' → IsLoginChar c
  digit : b'0' ≤ code c → code c ≤ b'9' → IsLoginChar c
  dot : code c ≡ b'.' → IsLoginChar c
  underscore : code c ≡ b'_' → IsLoginChar c
  hyphen : code c ≡ b'-' → IsLoginChar c

pub data HasLoginChars : String → Type 0 where
  none_left : HasLoginChars ""
  one_more :
      (c : Char) (s : String) → IsLoginChar c → HasLoginChars s → HasLoginChars (String.◌∷◌ c s)

login_char : (c : Char) → is_login_char (code c) ≡ true → IsLoginChar c
login_char c h = elim (Bool-cases (leb b'a' (code c) && leb (code c) b'z')) [
  | inl a ↦ letter (ground arith) (ground arith)
  | inr a ↦ elim (Bool-cases (leb b'0' (code c) && leb (code c) b'9')) [
    | inl d ↦ digit (ground arith) (ground arith)
    | inr d ↦ elim (Bool-cases (nat_eq (code c) b'.')) [
      | inl e ↦ dot (ground arith)
      | inr e ↦ elim (Bool-cases (nat_eq (code c) b'_')) [
        | inl f ↦ underscore (ground arith)
        | inr f ↦ hyphen (ground arith)
      ]
    ]
  ]
]

login_chars : (s : String) → all_login_chars s ≡ true → HasLoginChars s
login_chars String.[] h = none_left
login_chars (String.◌∷◌ c s) h =
    one_more c s (login_char c (ground arith)) (login_chars s (ground arith))

pub valid_login :
    (login : String) → is_valid_login login ≡ true → (login ≢ "") × HasLoginChars login
unfolding is_valid_login
valid_login login h = (ne_of_eq_false login "" (ground arith), login_chars login (ground arith))
