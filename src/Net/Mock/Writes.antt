-- ===== src/Net/Mock/Writes.antt =====
-- What was written to the streams in memory (src/net/helpers.rs).
use ruci.Prelude.{
  ℕ, ◌≡◌, refl, sym, ap, ◌∙◌, Option, some, none, List, [], ◌∷◌, ◌++◌, append_assoc, append-nil,
  Bytes,
}
use ruci.Net.Mock.{MockTcpStream, poll_write, poll_write2}

-- Where a stream's writes are found.
abbrev pub written : MockTcpStream → Bytes
written m = elim m.write_target [ some v ↦ v | none ↦ m.write_data ]

pub write_every :
    (Bytes → MockTcpStream → ℕ × MockTcpStream) → List Bytes → MockTcpStream → MockTcpStream
write_every w [] m = m
write_every w (b ∷ bs) m = write_every w bs (w b m).1

pub concat : List Bytes → Bytes
concat [] = []
concat (b ∷ bs) = b ++ concat bs

same_target : (b : Bytes) (m : MockTcpStream) → written (poll_write b m).1 ≡ written m ++ b
unfolding poll_write
same_target b m = go m.write_target m.write_data
  where
    go :
        (t : Option Bytes) (d : Bytes)
        → written (poll_write b (record m { write_target = t; write_data = d })).1
          ≡ written (record m { write_target = t; write_data = d }) ++ b
    go (some v) d = refl
    go none [] = refl
    go none (x ∷ d) = refl

same_target2 : (b : Bytes) (m : MockTcpStream) → written (poll_write2 b m).1 ≡ written m ++ b
unfolding poll_write2
same_target2 b m = go m.write_target
  where
    go :
        (t : Option Bytes)
        → written (poll_write2 b (record m { write_target = t })).1
          ≡ written (record m { write_target = t }) ++ b
    go (some v) = refl
    go none = refl

written_every :
    (w : Bytes → MockTcpStream → ℕ × MockTcpStream)
    → ((b : Bytes) (m : MockTcpStream) → written (w b m).1 ≡ written m ++ b)
    → (bs : List Bytes) (m : MockTcpStream) → written (write_every w bs m) ≡ written m ++ concat bs
unfolding write_every concat
written_every w h [] m = sym (append-nil (written m))
written_every w h (b ∷ bs) m =
    written_every w h bs (w b m).1
    ∙ ap (λ (t : Bytes). t ++ concat bs) (h b m)
    ∙ append_assoc (written m) b (concat bs)

-- Both streams in memory hold what was written to them, in order, behind what they held, be it in
-- the shared vector or in their own.
pub written-write_every :
    (bs : List Bytes) (m : MockTcpStream)
    → (written (write_every poll_write bs m) ≡ written m ++ concat bs)
      × (written (write_every poll_write2 bs m) ≡ written m ++ concat bs)
written-write_every bs m =
    (written_every poll_write same_target bs m, written_every poll_write2 same_target2 bs m)
