-- ===== src/Net/EarlyData/Progress.antt =====
-- What one read of a connection with early data gives, into any buffer (src/net/helpers.rs).
use ruci.Prelude.{
  ℕ, ◌+◌, ◌<◌, ◌≤◌, ◌≡◌, refl, ap, ◌∙◌, sym, Option, some, none, [], ◌∷◌, ◌++◌, min, arith, Bytes,
  length, take, drop, length-take, append-nil, le→leb, take-append_front, drop-append_front,
}
use ruci.Net.ReadBuf.{ReadBuf, Polled, ready, put}
use ruci.Net.Mock.{MockTcpStream}
use ruci.Net.Mock
use ruci.Net.EarlyData.{EarlyDataWrapper, poll_in, poll_read}
use ruci.Net.EarlyData.Conserve.{unread, or_empty-some_bytes}

put_fits :
    (x : Bytes) (buf : ReadBuf)
    → length x ≤ buf.initialized
    → length buf.filled + buf.initialized ≤ buf.capacity
    → ((put x buf).0 ≡ ready) × ((put x buf).1.filled ≡ buf.filled ++ x)
unfolding put
put_fits x buf h k =
    let fits = le→leb (length buf.filled + length x) buf.capacity (omega arith) in
    (rw fits refl, rw fits refl)

-- A read appends the first `m` bytes of what there is, and leaves the others.
record Gives (m : ℕ) (buf : ReadBuf) (w : EarlyDataWrapper MockTcpStream)
    (r : (Polled × ReadBuf) × EarlyDataWrapper MockTcpStream) : Type 0 where
  is_ready : r.0.0 ≡ ready
  appends : r.0.1.filled ≡ buf.filled ++ take m (unread w)
  leaves : unread r.1 ≡ drop m (unread w)

front-Gives :
    (buf : ReadBuf) (bs tail : Bytes) (w w' : EarlyDataWrapper MockTcpStream)
    → length buf.filled + buf.initialized ≤ buf.capacity
    → unread w ≡ bs ++ tail
    → unread w' ≡ drop (min (length bs) buf.initialized) bs ++ tail
    → Gives
        (min (length bs) buf.initialized)
        buf
        w
        (put (take (min (length bs) buf.initialized) bs) buf, w')
front-Gives buf bs tail w w' fits before after =
    let m = min (length bs) buf.initialized in
    let p = put_fits (take m bs) buf (omega (arith, length-take m bs)) fits in
    let front = take-append_front m bs tail (omega arith) in
    let behind = drop-append_front m bs tail (omega arith) in
    record {
      is_ready = p.0;
      appends =
          p.1
          ∙ sym (ap (λ (t : Bytes). buf.filled ++ t) (ap (λ (t : Bytes). take m t) before ∙ front));
      leaves = after ∙ sym (ap (λ (t : Bytes). drop m t) before ∙ behind);
    }

-- How many bytes the next read may take: the early data, or else those of the stream.
next_piece : Option Bytes → Bytes → ℕ
next_piece none read_data = length read_data
next_piece (some []) read_data = length read_data
next_piece (some (b ∷ bs)) read_data = length (b ∷ bs)

poll_in-Gives :
    (buf : ReadBuf) (ed : Option Bytes) (m : MockTcpStream)
    → length buf.filled + buf.initialized ≤ buf.capacity
    → Gives
        (min (next_piece ed m.read_data) buf.initialized)
        buf
        (record { ed = ed; base = m })
        (poll_in Mock.poll_read ed buf m)
unfolding poll_in Mock.poll_read next_piece
poll_in-Gives buf none m h =
    front-Gives buf m.read_data [] _ _ h (sym (append-nil m.read_data)) (sym (append-nil _))
poll_in-Gives buf (some []) m h =
    front-Gives buf m.read_data [] _ _ h (sym (append-nil m.read_data)) (sym (append-nil _))
poll_in-Gives buf (some (b ∷ bs)) m h = front-Gives buf (b ∷ bs) m.read_data _ _ h refl (
    ap (λ (t : Bytes). t ++ m.read_data)
      (or_empty-some_bytes (drop (min (length (b ∷ bs)) buf.initialized) (b ∷ bs))))

next_piece_some :
    (ed : Option Bytes) (m : MockTcpStream)
    → 0 < length (unread (record { ed = ed; base = m }))
    → 0 < next_piece ed m.read_data
unfolding next_piece
next_piece_some none m h = h
next_piece_some (some []) m h = h
next_piece_some (some (b ∷ bs)) m h = omega arith

-- A read over a stream in memory, while some bytes are left, is ready at once. Into a buffer whose
-- room behind the filled part is at least as long as its initialized part, it appends the first bytes
-- that are left, as many as the initialized part is long but at most some number that is not zero, and
-- leaves the others. So into a buffer of which something is initialized an empty read is the end, and
-- into one of which nothing is, whatever its room, every read is empty.
pub poll_read-progress :
    (buf : ReadBuf) (w : EarlyDataWrapper MockTcpStream)
    → length buf.filled + buf.initialized ≤ buf.capacity
    → 0 < length (unread w)
    → (n : ℕ) × (0 < n)
      × ((poll_read Mock.poll_read buf w).0.0 ≡ ready)
      × ((poll_read Mock.poll_read buf w).0.1.filled
          ≡ buf.filled ++ take (min n buf.initialized) (unread w))
      × (unread (poll_read Mock.poll_read buf w).1 ≡ drop (min n buf.initialized) (unread w))
unfolding poll_read
poll_read-progress buf w fits some_left =
    let s = poll_in-Gives buf w.ed w.base fits in
    (
      next_piece w.ed w.base.read_data,
      next_piece_some w.ed w.base some_left,
      s.is_ready,
      s.appends,
      s.leaves,
    )
