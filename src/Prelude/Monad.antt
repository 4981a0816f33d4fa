-- ===== src/Prelude/Monad.antt =====
-- Calls that read from a `BytesMut`: a result, or an error, or a panic of the task; and the buffer
-- as the call leaves it, on every path.
use Prim.Native.Nat.{ℕ}
use Prim.Native.Nat.{◌^◌, ◌<◌}
use mathlib.Core.Path.{◌≡◌}
use mathlib.Core.List.{◌∷◌, ◌++◌}
use mathlib.Core.Bool.{Bool, true, false}
use native.Mathlib.Omega.{arith}
use ruci.Prelude.Tests.{leb, if◌then◌else◌}
use ruci.Prelude.Lists.{length, take, drop, length-append, take-length_append, drop-length_append}
use ruci.Prelude.Words.{Bytes, be_value, be_bytes, length-be_bytes, be_value-be_bytes}

pub data Outcome {ℓ} (E A : Type ℓ) : Type ℓ where
  ok : A → Outcome E A
  err : E → Outcome E A
  panic : Outcome E A

abbrev pub Buf : Type 0 → Type 0 → Type 0
Buf E A = Bytes → Outcome E A × Bytes

module _ {E A B : Type 0} where
  abbrev pub resume : Outcome E A → (A → Buf E B) → Buf E B
  resume (ok a) f b = f a b
  resume (err e) f b = (err e, b)
  resume panic f b = (panic, b)

  infixl 5 ◌>>=◌
  abbrev pub ◌>>=◌ : Buf E A → (A → Buf E B) → Buf E B
  ◌>>=◌ m f b = let r = m b in resume r.0 f r.1

infixl 5 ◌>>◌
abbrev pub ◌>>◌ : {E B : Type 0} → Buf E (Unit {0}) → Buf E B → Buf E B
m >> k = m >>= λ _. k

module _ {E : Type 0} where
  abbrev pub pure : {A : Type 0} → A → Buf E A
  pure a b = (ok a, b)

  abbrev pub fail : {A : Type 0} → E → Buf E A
  fail e b = (err e, b)

  -- `if !test { return Err(e) }`
  abbrev pub ensure : Bool → E → Buf E (Unit {0})
  ensure true e b = (ok tt, b)
  ensure false e b = (err e, b)

  -- `buf.len()`
  abbrev pub len : Buf E ℕ
  len b = (ok (length b), b)

  -- The first `n` bytes; `advance`, a slice and the `get_` family panic beyond the end.
  unfoldable pub take_bytes : ℕ → Buf E Bytes
  take_bytes n b = if leb n (length b) then (ok (take n b), drop n b) else (panic, b)

  -- `get_u8`, `get_u16`, `get_u32`, `get_u128`, by their number of bytes.
  unfoldable pub get_be : ℕ → Buf E ℕ
  unfolding take_bytes
  get_be n = do bs ← take_bytes n; pure (be_value 0 bs)

  pub take_bytes-append :
      (n : ℕ) (xs ys : Bytes) → length xs ≡ n → take_bytes n (xs ++ ys) ≡ (ok xs, ys)
  unfolding take_bytes
  take_bytes-append n xs ys e =
      rw (← e)
        (ground (arith, length-append xs ys, take-length_append xs ys, drop-length_append xs ys))

  pub get_be-be_bytes :
      (k x : ℕ) (rest : Bytes) → x < 256 ^ k → get_be k (be_bytes k x ++ rest) ≡ (ok x, rest)
  unfolding get_be
  get_be-be_bytes k x rest h =
      rw (take_bytes-append k (be_bytes k x) rest (length-be_bytes k x), be_value-be_bytes k x h)

  pub get_be_byte : (b : ℕ) (rest : Bytes) → get_be 1 (b ∷ rest) ≡ (ok b, rest)
  unfolding get_be be_value
  get_be_byte b rest = ground arith

abbrev relabel : {E F A : Type 0} → (E → F) → Outcome E A → Outcome F A
relabel f (ok a) = ok a
relabel f (err e) = err (f e)
relabel f panic = panic

-- The error of a callee inside the caller's.
abbrev pub with_context : {E F A : Type 0} → (E → F) → Buf E A → Buf F A
with_context f m b = let r = m b in (relabel f r.0, r.1)
