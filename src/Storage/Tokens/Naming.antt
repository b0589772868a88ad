-- ===== src/Storage/Tokens/Naming.antt =====
-- The tokens that MakeToken makes.
use taxi_lab.Base.{ℤ, ◌≡◌, refl, sym, ap, ◌∙◌, String, ◌+s◌, to_string}
use text.Mathlib.TextLemmas.{nil-append, cons-append, append-nil, append_cancel_left}
use taxi_lab.Base.Decimal.{is_digit}
use taxi_lab.Base.Decimal.Decoding.{StartsNoDigit, to_string-injective}
use taxi_lab.Storage.{make_token}

dash : (s : String) → "-" +s s ≡ String.◌∷◌ "-" s
dash s = cons-append "-" "" s ∙ ap (String.◌∷◌ "-") (nil-append s)

dash-StartsNoDigit : (s : String) → StartsNoDigit ("-" +s s)
unfolding is_digit
dash-StartsNoDigit s = rw dash refl

pub make_token-injective :
    (user id user' id' : ℤ)
    → make_token user id ≡ make_token user' id'
    → (user ≡ user') × (id ≡ id')
unfolding make_token
make_token-injective user id user' id' e =
    let rest =
      append_cancel_left "token-" (to_string user +s "-" +s to_string id)
        (to_string user' +s "-" +s to_string id') e in
    let (users, tails) =
      to_string-injective user user' ("-" +s to_string id) ("-" +s to_string id')
        (dash-StartsNoDigit (to_string id)) (dash-StartsNoDigit (to_string id')) rest in
    let ids = append_cancel_left "-" (to_string id) (to_string id') tails in
    let (same, _) =
      to_string-injective id id' "" "" tt tt
        (append-nil (to_string id) ∙ ids ∙ sym (append-nil (to_string id'))) in
    (users, same)
