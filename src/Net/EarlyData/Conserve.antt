-- ===== src/Net/EarlyData/Conserve.antt =====
-- Reading a connection with early data, over a stream in memory (src/net/helpers.rs).
use ruci.Prelude.{
  ℕ, ◌≡◌, refl, sym, ap, ◌∙◌, Option, some, none, List, [], ◌∷◌, ◌++◌, append_assoc, append-nil,
  min, arith, Bytes, length, take, drop, take-append-drop, length-take,
}
use ruci.Net.ReadBuf.{ReadBuf, Polled, ready, over, put}
use ruci.Net.Mock.{MockTcpStream}
use ruci.Net.Mock
use ruci.Net.EarlyData.{EarlyDataWrapper, some_bytes, poll_in, poll_read}

abbrev pub or_empty : Option Bytes → Bytes
or_empty none = []
or_empty (some bs) = bs

-- What there is to read: the early data, then the stream's.
abbrev pub unread : EarlyDataWrapper MockTcpStream → Bytes
unread w = or_empty w.ed ++ w.base.read_data

-- Successive reads into buffers of the given sizes: the bytes they give, and the connection after.
pub reads : List ℕ → EarlyDataWrapper MockTcpStream → Bytes × EarlyDataWrapper MockTcpStream
reads [] w = ([], w)
reads (n ∷ ns) w =
    let r = poll_read Mock.poll_read (over n) w in
    let rest = reads ns r.1 in (r.0.1.filled ++ rest.0, rest.1)

-- A read of the first bytes that fit.
put-over :
    (n : ℕ) (bs : Bytes)
    → let m = min (length bs) n in
      put (take m bs) (over n)
      ≡ (ready, record { filled = take m bs; initialized = n; capacity = n })
unfolding put
put-over n bs = ground (arith, length-take (min (length bs) n) bs)

pub or_empty-some_bytes : (bs : Bytes) → or_empty (some_bytes bs) ≡ bs
unfolding some_bytes
or_empty-some_bytes [] = refl
or_empty-some_bytes (b ∷ bs) = refl

-- One read into `n` bytes.
record Step (n : ℕ) (w : EarlyDataWrapper MockTcpStream)
    (r : (Polled × ReadBuf) × EarlyDataWrapper MockTcpStream) : Type 0 where
  is_ready : r.0.0 ≡ ready
  split : r.0.1.filled ++ unread r.1 ≡ unread w

-- A read that takes the front of `bs`, behind which there is `tail`.
front_Step :
    (n : ℕ) (bs tail : Bytes) (w w' : EarlyDataWrapper MockTcpStream)
    → unread w ≡ bs ++ tail
    → unread w' ≡ drop (min (length bs) n) bs ++ tail
    → Step n w (put (take (min (length bs) n) bs) (over n), w')
front_Step n bs tail w w' before after =
    let m = min (length bs) n in
    let p = put-over n bs in
    record {
      is_ready = ap (λ r. r.0) p;
      split =
          ap (λ r. r.1.filled ++ unread w') p
          ∙ ap (λ (t : Bytes). take m bs ++ t) after
          ∙ sym (append_assoc (take m bs) (drop m bs) tail)
          ∙ ap (λ (t : Bytes). t ++ tail) (take-append-drop m bs)
          ∙ sym before;
    }

poll_Step :
    (n : ℕ) (ed : Option Bytes) (m : MockTcpStream)
    → Step n (record { ed = ed; base = m }) (poll_in Mock.poll_read ed (over n) m)
unfolding poll_in Mock.poll_read
poll_Step n none m =
    front_Step n m.read_data [] _ _ (sym (append-nil m.read_data)) (sym (append-nil _))
poll_Step n (some []) m =
    front_Step n m.read_data [] _ _ (sym (append-nil m.read_data)) (sym (append-nil _))
poll_Step n (some (b ∷ bs)) m = front_Step n (b ∷ bs) m.read_data _ _ refl (
    ap (λ (t : Bytes). t ++ m.read_data)
      (or_empty-some_bytes (drop (min (length (b ∷ bs)) n) (b ∷ bs))))

-- Successive reads give the early data and then the stream's, in order, with nothing lost and nothing
-- twice: what they gave and what is left is what there was.
pub reads-conserve :
    (ns : List ℕ) (w : EarlyDataWrapper MockTcpStream)
    → (reads ns w).0 ++ unread (reads ns w).1 ≡ unread w
unfolding reads poll_read
reads-conserve [] w = refl
reads-conserve (n ∷ ns) w =
    let r = poll_in Mock.poll_read w.ed (over n) w.base in
    append_assoc r.0.1.filled (reads ns r.1).0 (unread (reads ns r.1).1)
    ∙ ap (λ (t : Bytes). r.0.1.filled ++ t) (reads-conserve ns r.1)
    ∙ (poll_Step n w.ed w.base).split
