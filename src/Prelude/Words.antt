-- ===== src/Prelude/Words.antt =====
-- Bytes, and unsigned numbers as big-endian bytes (the `bytes` crate's get_u16, put_u16 and kin).
use Prim.Native.Nat.{ℕ, zero, suc, ◌+◌, ◌*◌, ◌/◌, ◌%◌, ◌^◌, ◌<◌}
use Prim.Native.String.{String}
use Prim.Native.Char.{code}
use mathlib.Core.Path.{◌≡◌, refl, ap}
use mathlib.Core.List.{List, [], ◌∷◌, ◌++◌}
use mathlib.Core.Logic.{◌↔◌}
use mathlib.Core.Bool.{Bool, true, false, ◌&&◌}
use ruci.Prelude.Tests.{◌==◌}
use native.Mathlib.Omega.{arith}
use native.Mathlib.Nat.{pow-suc}
use ruci.Prelude.Lists.{length, length-append, All, All-append}

abbrev pub Bytes : Type 0
Bytes = List ℕ

-- `BytesMut::zeroed(n)`
abbrev pub zeroed : ℕ → Bytes
zeroed zero = []
zeroed (suc n) = 0 ∷ zeroed n

abbrev pub IsByte : ℕ → Type 0
IsByte b = b < 256

abbrev pub IsU16 : ℕ → Type 0
IsU16 x = x < 2 ^ 16

-- The bytes of an ASCII literal.
abbrev pub codes : String → Bytes
codes String.[] = []
codes (String.◌∷◌ c s) = code c ∷ codes s

-- `acc` is what the bytes before stand for.
unfoldable pub be_value : ℕ → Bytes → ℕ
be_value acc [] = acc
be_value acc (b ∷ bs) = be_value (acc * 256 + b) bs

-- The lowest `k` bytes of `x`, highest first.
unfoldable pub be_bytes : ℕ → ℕ → Bytes
be_bytes zero x = []
be_bytes (suc k) x = be_bytes k (x / 256) ++ x % 256 ∷ []

pub length-be_bytes : (k x : ℕ) → length (be_bytes k x) ≡ k
unfolding be_bytes
length-be_bytes zero x = refl
length-be_bytes (suc k) x =
    omega (arith, length-append (be_bytes k (x / 256)) (x % 256 ∷ []), length-be_bytes k (x / 256))

pub be_bytes-IsByte : (k x : ℕ) → All IsByte (be_bytes k x)
unfolding be_bytes
be_bytes-IsByte zero x = tt
be_bytes-IsByte (suc k) x =
    All-append IsByte (be_bytes k (x / 256)) _ (be_bytes-IsByte k (x / 256)) (omega arith, tt)

be_value-concat :
    (acc : ℕ) (bs : Bytes) (b : ℕ) → be_value acc (bs ++ b ∷ []) ≡ be_value acc bs * 256 + b
unfolding be_value
be_value-concat acc [] b = refl
be_value-concat acc (c ∷ bs) b = be_value-concat (acc * 256 + c) bs b

div-lt-pow : (k x : ℕ) → x < 256 ^ suc k → x / 256 < 256 ^ k
div-lt-pow k x h = omega (arith, pow-suc 256 k)

pub be_value-be_bytes : (k x : ℕ) → x < 256 ^ k → be_value 0 (be_bytes k x) ≡ x
unfolding be_bytes
be_value-be_bytes zero x h = unfold be_value in omega arith
be_value-be_bytes (suc k) x h = omega (
  arith,
  be_value-concat 0 (be_bytes k (x / 256)) (x % 256),
  be_value-be_bytes k (x / 256) (div-lt-pow k x h),
)

pub be_bytes-byte : (x : ℕ) → x < 256 → be_bytes 1 x ≡ x ∷ []
unfolding be_bytes
be_bytes-byte x h = ap (λ (y : ℕ). y ∷ []) (omega arith)

-- Equality of texts.
unfoldable pub eq_bytes : Bytes → Bytes → Bool
eq_bytes [] [] = true
eq_bytes (a ∷ s) (b ∷ t) = a == b && eq_bytes s t
eq_bytes _ _ = false

pub eq_bytes_iff : (s t : Bytes) → (eq_bytes s t ≡ true) ↔ (s ≡ t)
unfolding eq_bytes
eq_bytes_iff [] [] = ground arith
eq_bytes_iff [] (b ∷ t) = ground arith
eq_bytes_iff (a ∷ s) [] = ground arith
eq_bytes_iff (a ∷ s) (b ∷ t) = ground (arith, eq_bytes_iff s t)

pub eq_bytes_refl : (s : Bytes) → eq_bytes s s ≡ true
eq_bytes_refl s = (eq_bytes_iff s s).1 refl
