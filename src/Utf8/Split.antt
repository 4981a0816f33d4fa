-- ===== src/Utf8/Split.antt =====
-- What the code uses of Rust's `str`: splitting at ASCII patterns, and parsing of unsigned numbers.
use ruci.Prelude.{
  ℕ, ◌+◌, ◌-◌, ◌*◌, Bool, true, false, ◌&&◌, Option, some, none, List, [], ◌∷◌, leb, ◌==◌,
  if◌then◌else◌, length, drop,
}
use ruci.Utf8.{Text, within}

unfoldable pub starts_with : Text → Text → Bool
starts_with [] s = true
starts_with (p ∷ ps) [] = false
starts_with (p ∷ ps) (c ∷ s) = p == c && starts_with ps s

unfoldable pub into_head : ℕ → Option (Text × Text) → Option (Text × Text)
into_head c (some (h, t)) = some (c ∷ h, t)
into_head c none = none

-- `splitn(2, pat)`, when it gives two parts.
unfoldable pub split_once : Text → Text → Option (Text × Text)
unfolding starts_with into_head
split_once pat [] = none
split_once pat (c ∷ s) =
    let later = into_head c (split_once pat s) in
    if starts_with pat (c ∷ s) then some ([], drop (length pat) (c ∷ s)) else later

unfoldable pub into_first : ℕ → List Text → List Text
into_first c [] = (c ∷ []) ∷ []
into_first c (l ∷ ls) = (c ∷ l) ∷ ls

-- `split` at a character, and at two of them.
unfoldable pub split1 : ℕ → Text → List Text
unfolding into_first
split1 p [] = [] ∷ []
split1 p (c ∷ s) = let rest = split1 p s in if c == p then [] ∷ rest else into_first c rest

unfoldable pub split2 : ℕ → ℕ → Text → List Text
unfolding into_first
split2 p q [] = [] ∷ []
split2 p q (a ∷ []) = (a ∷ []) ∷ []
split2 p q (a ∷ b ∷ s) =
    let after = split2 p q s in
    let next = split2 p q (b ∷ s) in if a == p && b == q then [] ∷ after else into_first a next

-- `acc` is what the digits before stand for; none on another character, and when it passes `max`.
unfoldable pub digits : ℕ → ℕ → Text → Option ℕ
digits max acc [] = some acc
digits max acc (c ∷ s) =
    let next = acc * 10 + (c - 48) in
    let rest = digits max next s in if within 48 57 c && leb next max then rest else none

-- `s.parse()` into an unsigned number: digits, behind a plus sign or not.
unfoldable pub parse_number : ℕ → Text → Option ℕ
unfolding digits
parse_number max [] = none
parse_number max (c ∷ []) = digits max 0 (c ∷ [])
parse_number max (c ∷ d ∷ s) = if c == 43 then digits max 0 (d ∷ s) else digits max 0 (c ∷ d ∷ s)

abbrev pub parse_u16 : Text → Option ℕ
parse_u16 = parse_number 0xffff

abbrev pub parse_u32 : Text → Option ℕ
parse_u32 = parse_number 0xffffffff
