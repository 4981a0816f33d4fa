-- ===== src/Utf8/Strings.antt =====
-- Which byte sequences are strings: those that the lossy conversion leaves alone.
use ruci.Prelude.{ℕ, zero, suc, ◌<◌, ◌≤◌, ◌≡◌, refl, [], ◌∷◌, arith, length, All}
use ruci.Utf8.{Text, scan, lossy_loop, from_utf8_lossy}

abbrev pub IsString : Text → Type 0
IsString s = from_utf8_lossy s ≡ s

lossy_loop_ascii : (n : ℕ) (s : Text) → length s ≤ n → All (λ b. b < 128) s → lossy_loop n s ≡ s
unfolding lossy_loop scan
lossy_loop_ascii n [] h a = refl
lossy_loop_ascii zero (b ∷ s) h a = absurd (omega arith)
lossy_loop_ascii (suc n) (b ∷ s) h (p, a) = ground (arith, lossy_loop_ascii n s (omega arith) a)

-- Text in ASCII is a string.
pub ascii-IsString : (s : Text) → All (λ b. b < 128) s → IsString s
unfolding from_utf8_lossy
ascii-IsString s a = lossy_loop_ascii (length s) s (omega arith) a

-- "a", a lone 0xff, an overlong form and a cut-off euro sign.
from_utf8_lossy_test :
    from_utf8_lossy (0x61 ∷ 0xff ∷ 0xe2 ∷ 0x82 ∷ [])
    ≡ 0x61 ∷ 0xef ∷ 0xbf ∷ 0xbd ∷ 0xef ∷ 0xbf ∷ 0xbd ∷ []
unfolding from_utf8_lossy
from_utf8_lossy_test = refl
