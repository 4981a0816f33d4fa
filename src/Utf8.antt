-- ===== src/Utf8.antt =====
-- Text as its UTF-8 bytes, with Rust's `String::from_utf8_lossy`, by which every handshake reads
-- the texts that a peer sends.
pub mod Strings
pub mod Split
pub mod Numbers
use ruci.Prelude.{
  ℕ, zero, suc, ◌+◌, Bool, true, false, ◌&&◌, List, [], ◌∷◌, ◌++◌, ltb, leb, ◌==◌, if◌then◌else◌,
  Bytes, length, drop, take,
}

abbrev pub Text : Type 0
Text = Bytes

abbrev pub within : ℕ → ℕ → ℕ → Bool
within lo hi b = leb lo b && leb b hi

-- `b & 192 == 128`
abbrev is_continuation : ℕ → Bool
is_continuation = within 0x80 0xbf

-- The second byte of a character of three and of four bytes: no overlong form, no surrogate,
-- nothing above U+10FFFF.
second_of_three : ℕ → ℕ → Bool
second_of_three b c =
    if b == 0xe0
    then within 0xa0 0xbf c
    else if b == 0xed
    then within 0x80 0x9f c
    else is_continuation c

second_of_four : ℕ → ℕ → Bool
second_of_four b c =
    if b == 0xf0
    then within 0x90 0xbf c
    else if b == 0xf4
    then within 0x80 0x8f c
    else is_continuation c

-- `count` more continuation bytes, from which `n` bytes have been accepted so far.
tail : ℕ → ℕ → Bytes → ℕ × Bool
tail n zero bs = (n, true)
tail n (suc count) [] = (n, false)
tail n (suc count) (b ∷ bs) =
    let more = tail (n + 1) count bs in if is_continuation b then more else (n, false)

after_first : (ℕ → Bool) → ℕ → Bytes → ℕ × Bool
unfolding tail
after_first second count [] = (1, false)
after_first second count (c ∷ bs) = if second c then tail 2 count bs else (1, false)

-- The length of the first character, or of the longest start of one, and whether it is whole.
unfoldable pub scan : ℕ → Bytes → ℕ × Bool
unfolding after_first second_of_three second_of_four
scan b bs =
    if ltb b 0x80
    then (1, true)
    else if within 0xc2 0xdf b
    then after_first is_continuation 0 bs
    else if within 0xe0 0xef b
    then after_first (second_of_three b) 1 bs
    else if within 0xf0 0xf4 b
    then after_first (second_of_four b) 2 bs
    else (1, false)

-- U+FFFD
abbrev pub replacement : Text
replacement = 0xef ∷ 0xbf ∷ 0xbd ∷ []

unfoldable pub lossy_loop : ℕ → Bytes → Text
lossy_loop fuel [] = []
lossy_loop zero (b ∷ bs) = []
lossy_loop (suc fuel) (b ∷ bs) =
    let (n, whole) = scan b bs in
    (if whole then take n (b ∷ bs) else replacement) ++ lossy_loop fuel (drop n (b ∷ bs))

-- Every character takes a byte at least, so `length bs` rounds are enough.
unfoldable pub from_utf8_lossy : Bytes → Text
unfolding lossy_loop scan
from_utf8_lossy bs = lossy_loop (length bs) bs
