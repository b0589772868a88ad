-- ===== src/Handlers/Keys.antt =====
-- The keys of the cache: which begin with which prefix, and which differ.
use Prim.Native.String.{len, compare}
use text.Mathlib.TextPositions.{starts_with-append, slice-append_left}
use text.Mathlib.TextLemmas.{append_assoc, append_cancel_left}
use text.Mathlib.Text.{is_eq}
use taxi_lab.Base.{
  ◌≡◌, ◌≢◌, refl, sym, ap, ◌∙◌, subst, false, true, String, starts_with, ◌==◌, ◌+s◌,
}
use mathlib.Core.Bool.{false≢true}
use taxi_lab.Handlers.UsersGet.{login_key, name_mask_key}
use taxi_lab.Handlers.RidesGet.{history_key, active_key}

starts : (p rest t : String) → starts_with ((p +s rest) +s t) p ≡ true
starts p rest t =
    subst (λ s. starts_with s p ≡ true) (sym (append_assoc p rest t))
      (starts_with-append p (rest +s t))

-- A text that begins with another text of the prefix's length.
starts_otherwise :
    (p q rest t : String)
    → len q ≡ len p
    → (p == q) ≡ false
    → starts_with ((p +s rest) +s t) q ≡ false
starts_otherwise p q rest t same ne =
    subst (λ n. is_eq (compare (Prim.Native.String.slice ((p +s rest) +s t) 0 n) q) ≡ false)
      (sym same)
      (subst (λ s. is_eq (compare (Prim.Native.String.slice s 0 (len p)) q) ≡ false)
        (sym (append_assoc p rest t))
        (subst (λ s. is_eq (compare s q) ≡ false) (sym (slice-append_left p (rest +s t))) ne))

differ : (p s t : String) → starts_with s p ≡ true → starts_with t p ≡ false → s ≢ t
differ p s t yes_s no_t e = false≢true (sym no_t ∙ ap (λ x. starts_with x p) (sym e) ∙ yes_s)

pub login_key-users : (n : String) → starts_with (login_key n) "users:" ≡ true
login_key-users n = starts "users:" "login:" n

pub name_mask_key-users : (m : String) → starts_with (name_mask_key m) "users:" ≡ true
name_mask_key-users m = starts "users:" "name_mask:" m

pub history_key-rides : (a : String) → starts_with (history_key a) "rides:" ≡ true
history_key-rides a = starts "rides:" "history:" a

pub active_key-rides : starts_with active_key "rides:" ≡ true
active_key-rides = refl

pub login_key-injective : (n m : String) → login_key n ≡ login_key m → n ≡ m
login_key-injective n m e = append_cancel_left "users:login:" n m e

pub name_mask_key-injective : (n m : String) → name_mask_key n ≡ name_mask_key m → n ≡ m
name_mask_key-injective n m e = append_cancel_left "users:name_mask:" n m e

pub history_key-injective : (n m : String) → history_key n ≡ history_key m → n ≡ m
history_key-injective n m e = append_cancel_left "rides:history:" n m e

pub login-ne-name_mask : (n m : String) → login_key n ≢ name_mask_key m
login-ne-name_mask n m =
    differ "users:l" _ _ (starts "users:l" "ogin:" n)
      (starts_otherwise "users:n" "users:l" "ame_mask:" m refl refl)

pub history-ne-active : (a : String) → history_key a ≢ active_key
history-ne-active a = differ "rides:h" _ _ (starts "rides:h" "istory:" a) refl

history_key-not_users : (a : String) → starts_with (history_key a) "users:" ≡ false
history_key-not_users a = starts_otherwise "rides:" "users:" "history:" a refl refl

pub login-ne-history : (n a : String) → login_key n ≢ history_key a
login-ne-history n a = differ "users:" _ _ (login_key-users n) (history_key-not_users a)

pub login-ne-active : (n : String) → login_key n ≢ active_key
login-ne-active n = differ "users:" _ _ (login_key-users n) refl

pub name_mask-ne-history : (m a : String) → name_mask_key m ≢ history_key a
name_mask-ne-history m a = differ "users:" _ _ (name_mask_key-users m) (history_key-not_users a)

pub name_mask-ne-active : (m : String) → name_mask_key m ≢ active_key
name_mask-ne-active m = differ "users:" _ _ (name_mask_key-users m) refl
