-- ===== src/Net/EarlyData.antt =====
-- src/net/helpers.rs: `EarlyDataWrapper`, a connection whose first bytes were read before.
pub mod Conserve
pub mod Progress
use ruci.Prelude.{ℕ, Option, some, none, [], ◌∷◌, min, Bytes, length, take, drop}
use ruci.Net.ReadBuf.{ReadBuf, Polled, put}

-- `B` is the connection inside.
pub record EarlyDataWrapper (B : Type 0) : Type 0 where
  pub ed : Option Bytes
  pub base : B

-- Early data of no bytes are none.
unfoldable pub some_bytes : Bytes → Option Bytes
some_bytes [] = none
some_bytes (b ∷ bs) = some (b ∷ bs)

module _ {B : Type 0} where
  unfoldable pub from : Bytes → B → EarlyDataWrapper B
  unfolding some_bytes
  from bs conn = record { ed = some_bytes bs; base = conn }

  module _ (poll_base : ReadBuf → B → (Polled × ReadBuf) × B) where
    read_base : ReadBuf → B → (Polled × ReadBuf) × EarlyDataWrapper B
    read_base buf base = let r = poll_base buf base in (r.0, record { ed = none; base = r.1 })

    poll_in : Option Bytes → ReadBuf → B → (Polled × ReadBuf) × EarlyDataWrapper B
    unfolding read_base some_bytes put
    poll_in none buf base = read_base buf base
    poll_in (some []) buf base = read_base buf base
    poll_in (some (b ∷ bs)) buf base =
        let m = min (length (b ∷ bs)) buf.initialized in
        (put (take m (b ∷ bs)) buf, record { ed = some_bytes (drop m (b ∷ bs)); base = base })

    unfoldable pub poll_read :
        ReadBuf → EarlyDataWrapper B → (Polled × ReadBuf) × EarlyDataWrapper B
    unfolding poll_in
    poll_read buf w = poll_in w.ed buf w.base
