-- ===== src/User/PlainText.antt =====
-- src/user.rs: `PlainText`, a name and a password.
use ruci.Prelude.{
  ℕ, ◌≡◌, ◌≢◌, refl, ap, Bool, true, false, not, ◌&&◌, ◌||◌, Option, none, some, [], ◌∷◌, ◌++◌,
  ◌==◌, if◌then◌else◌, arith, append_assoc, codes, drop, All,
}
use ruci.Utf8.{Text, within}
use ruci.User.{UserTrait}

pub record PlainText : Type 0 where
  pub user : Text
  pub pass : Text
  pub astr : Text

unfoldable pub new : Text → Text → PlainText
new user pass = record {
  user = user;
  pass = pass;
  astr = codes "plaintext:" ++ (user ++ b'\n' ∷ pass);
}

-- `char::is_whitespace`: the length in bytes of the white space that a text begins with, or 0.
white_third : ℕ → ℕ → ℕ → Bool
white_third a b c =
    (a == 0xe1 && b == 0x9a && c == 0x80)
    || (a == 0xe2 && b == 0x80 && (within 0x80 0x8a c || c == 0xa8 || c == 0xa9 || c == 0xaf))
    || (a == 0xe2 && b == 0x81 && c == 0x9f)
    || (a == 0xe3 && b == 0x80 && c == 0x80)

white_width : Text → ℕ
unfolding white_third
white_width [] = 0
white_width (a ∷ []) = if within 9 13 a || a == b' ' then 1 else 0
white_width (a ∷ b ∷ []) =
    if within 9 13 a || a == b' ' then 1 else if a == 0xc2 && (b == 0x85 || b == 0xa0) then 2 else 0
white_width (a ∷ b ∷ c ∷ s) =
    if within 9 13 a || a == b' '
    then 1
    else if a == 0xc2 && (b == 0x85 || b == 0xa0)
    then 2
    else if white_third a b c
    then 3
    else 0

-- `splitn(2, char::is_whitespace)`, where it gives two parts.
split_white : Text → Text → Option (Text × Text)
unfolding white_width
split_white before [] = none
split_white before (c ∷ s) =
    let rest = split_white (before ++ c ∷ []) s in
    let w = white_width (c ∷ s) in if w == 0 then rest else some (before, drop w (c ∷ s))

from_parts : Text → Option (Text × Text) → PlainText
from_parts s none = new s []
from_parts s (some (user, pass)) = new user pass

-- `PlainText::from`
unfoldable pub from : Text → PlainText
unfolding from_parts split_white new
from s = from_parts s (split_white [] s)

unfoldable pub is_empty : Text → Bool
is_empty [] = true
is_empty (_ ∷ _) = false

unfoldable pub valid : PlainText → Bool
unfolding is_empty
valid p = not (is_empty p.user)

unfoldable pub strict_valid : PlainText → Bool
unfolding is_empty
strict_valid p = not (is_empty p.user) && not (is_empty p.pass)

unfoldable pub plain_text_user : UserTrait PlainText
plain_text_user = record { identity_str = λ p. p.user; auth_str = λ p. p.astr }

abbrev pub NoNewline : Text → Type 0
NoNewline = All (λ c. c ≢ b'\n')

cut_at_newline :
    (u v p q : Text)
    → NoNewline u
    → NoNewline v
    → u ++ b'\n' ∷ p ≡ v ++ b'\n' ∷ q
    → (u ≡ v) × (p ≡ q)
cut_at_newline [] [] p q h k e = (refl, cc)
cut_at_newline [] (c ∷ v) p q h k e = absurd (k.0 (cc))
cut_at_newline (c ∷ u) [] p q h k e = absurd (h.0 (cc))
cut_at_newline (c ∷ u) (d ∷ v) p q h k e = ground (arith, cut_at_newline u v p q h.1 k.1)

-- For user names without a line feed, the text by which a user is authenticated determines both the
-- name and the password.
pub auth_str_injective :
    (u v p q : Text)
    → NoNewline u
    → NoNewline v
    → plain_text_user.auth_str (new u p) ≡ plain_text_user.auth_str (new v q)
    → new u p ≡ new v q
unfolding new plain_text_user
auth_str_injective u v p q h k e = let (a, b) = cut_at_newline u v p q h k (cc) in cc (a, b)

-- With a line feed in the name it does not: the same text stands for two users.
pub auth_str_collides :
    (u v p : Text)
    → plain_text_user.auth_str (new (u ++ b'\n' ∷ v) p)
      ≡ plain_text_user.auth_str (new u (v ++ b'\n' ∷ p))
unfolding new plain_text_user
auth_str_collides u v p = ap (◌++◌ (codes "plaintext:")) (append_assoc u (b'\n' ∷ v) (b'\n' ∷ p))

new_test : from (codes "u p q") ≡ new (codes "u") (codes "p q")
unfolding from
new_test = refl
