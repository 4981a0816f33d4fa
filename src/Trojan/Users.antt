-- ===== src/Trojan/Users.antt =====
-- src/map/trojan/mod.rs: a trojan user is known by the hexadecimal SHA-224 of the password. The hash
-- is the `sha2` crate's, a parameter.
use ruci.Prelude.{
  ℕ, ◌+◌, ◌-◌, ◌≤◌, ◌*◌, ◌/◌, ◌%◌, ◌<◌, ◌≡◌, [], ◌∷◌, ◌++◌, ltb, if◌then◌else◌, Bytes, All, IsByte,
  codes, length, arith,
}
use ruci.Utf8.{Text}
use ruci.Utf8.Strings.{IsString, ascii-IsString}
use ruci.User.{UserTrait}

hex_digit : ℕ → ℕ
hex_digit n = if ltb n 10 then b'0' + n else b'a' + (n - 10)

-- `HexSlice`: two lower-case digits for each byte.
unfoldable pub hex_display : Bytes → Text
unfolding hex_digit
hex_display [] = []
hex_display (b ∷ bs) = hex_digit (b / 16) ∷ hex_digit (b % 16) ∷ hex_display bs

pub length-hex_display : (bs : Bytes) → length (hex_display bs) ≡ 2 * length bs
unfolding hex_display
length-hex_display [] = omega arith
length-hex_display (b ∷ bs) = omega (arith, length-hex_display bs)

pub record User : Type 0 where
  pub plain_text_pass : Text
  pub hex : Text
  pub astr : Text

unfoldable pub trojan_user : UserTrait User
trojan_user = record { identity_str = λ u. u.hex; auth_str = λ u. u.astr }

-- A digit is neither a CR nor outside ASCII.
abbrev pub IsDigit : ℕ → Type 0
IsDigit c = (48 ≤ c) × (c < 128)

hex_digit-IsDigit : (n : ℕ) → n < 16 → IsDigit (hex_digit n)
unfolding hex_digit
hex_digit-IsDigit n h = ground arith

pub hex_display-IsDigit : (bs : Bytes) → All IsByte bs → All IsDigit (hex_display bs)
unfolding hex_display
hex_display-IsDigit [] h = tt
hex_display-IsDigit (b ∷ bs) h = (
  hex_digit-IsDigit (b / 16) (omega arith),
  (hex_digit-IsDigit (b % 16) (omega arith), hex_display-IsDigit bs h.1),
)

digits-ascii : (s : Text) → All IsDigit s → All (λ c. c < 128) s
digits-ascii [] h = tt
digits-ascii (c ∷ s) h = (h.0.1, digits-ascii s h.1)

pub hex_display-IsString : (bs : Bytes) → All IsByte bs → IsString (hex_display bs)
hex_display-IsString bs h = ascii-IsString _ (digits-ascii _ (hex_display-IsDigit bs h))

module _ (sha224 : Text → Bytes) where
  -- `User::new`
  unfoldable pub new : Text → User
  new plain_text =
      let hex = hex_display (sha224 plain_text) in
      record { plain_text_pass = plain_text; hex = hex; astr = codes "trojan:" ++ hex }
