-- ===== src/Net/ReadBuf.antt =====
-- tokio's `ReadBuf`, into which the streams of src/net/helpers.rs read.
use ruci.Prelude.{ℕ, ◌+◌, [], ◌++◌, max, leb, if◌then◌else◌, Bytes, length}

-- The filled bytes, how many bytes are initialized, and how many there is room for.
pub record ReadBuf : Type 0 where
  pub filled : Bytes
  pub initialized : ℕ
  pub capacity : ℕ

-- `ReadBuf::new` over a slice of `n` bytes.
abbrev pub over : ℕ → ReadBuf
over n = record { filled = []; initialized = n; capacity = n }

-- `ReadBuf::uninit` over `n` bytes.
abbrev pub uninit : ℕ → ReadBuf
uninit n = record { filled = []; initialized = 0; capacity = n }

pub data Polled : Type 0 where
  pending ready panic : Polled
  failed : ℕ → Polled

-- `buf.put(bs)`, which panics beyond the capacity, and `Poll::Ready(Ok(()))`.
unfoldable pub put : Bytes → ReadBuf → Polled × ReadBuf
put bs buf =
    let n = length buf.filled + length bs in
    if leb n buf.capacity
    then (ready, record buf { filled = buf.filled ++ bs; initialized = max buf.initialized n })
    else (panic, buf)
