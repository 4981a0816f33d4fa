-- ===== src/Trojan/Reader/Chunks.antt =====
-- A payload that is longer than `r_buf` (src/map/trojan/udp.rs).
use ruci.Prelude.{
  ℕ, zero, suc, ◌*◌, ◌-◌, ◌<◌, ◌≤◌, ◌^◌, ◌≡◌, refl, ap, ◌∙◌, List, [], ◌∷◌, ◌++◌, arith, Bytes,
  length, take, drop, append-nil, take-append-drop, length-append, length-drop, take-length_append,
  drop-length_append,
}
use mathlib.Core.Path.{ap₂}
use ruci.Net.Addr.{Addr, NetAddr, Network, tcp}
use ruci.Net.Helpers.RoundTrip.{IsNetAddr, FitsWire, on_wire}
use ruci.Trojan.Writer.{frame}
use ruci.Trojan.Reader.{
  Reader, buf, left_buf, Got, ReadPoll, ready_ok, deliver, poll_in, poll_read_addr, read_left_buf,
}
use ruci.Trojan.Reader.Deliver.{sender, poll_in_buf, read_buf-frame}

take-append_le : (n : ℕ) (xs ys : Bytes) → n ≤ length xs → take n (xs ++ ys) ≡ take n xs
take-append_le zero xs ys h = refl
take-append_le (suc n) [] ys h = absurd (omega arith)
take-append_le (suc n) (x ∷ xs) ys h = ap (◌∷◌ x) (take-append_le n xs ys (omega arith))

drop-append_le : (n : ℕ) (xs ys : Bytes) → n ≤ length xs → drop n (xs ++ ys) ≡ drop n xs ++ ys
drop-append_le zero xs ys h = refl
drop-append_le (suc n) [] ys h = absurd (omega arith)
drop-append_le (suc n) (x ∷ xs) ys h = drop-append_le n xs ys (omega arith)

-- The reader holds the rest `left` of a payload from `ad`, and then other bytes.
pub record Holds (left rest : Bytes) (ad : Addr) (rd : Reader) : Type 0 where
  pub in_left_buf : rd.state ≡ left_buf
  pub bytes : rd.buf ≡ left ++ rest
  pub counted : rd.left_data_len ≡ length left
  pub from : rd.old_ad ≡ ad

deliver_long :
    (payload rest : Bytes) (a : NetAddr) (rlen : ℕ) (rd : Reader)
    → rlen < length payload
    → deliver
        (length payload)
        (payload ++ rest)
        (record { addr = on_wire a; network = tcp })
        rlen
        rd
      ≡ (
        ready_ok (take rlen payload) (sender a),
        record rd {
          buf = drop rlen payload ++ rest;
          state = left_buf;
          left_data_len = length payload - rlen;
          old_ad = sender a;
        },
      )
unfolding deliver
deliver_long payload rest a rlen rd h = ground (
  arith,
  length-append payload rest,
  take-append_le rlen payload rest,
  drop-append_le rlen payload rest,
)

-- A payload longer than `r_buf` fills it, and the reader holds the rest of it.
pub poll_read_addr-long :
    (got : Got) (a : NetAddr) (nw : Network) (payload rest : Bytes) (rlen : ℕ) (rd : Reader)
    → IsNetAddr a
    → FitsWire a
    → length payload < 2 ^ 16
    → rlen < length payload
    → rd.state ≡ buf
    → rd.buf ≡ frame (record { addr = a; network = nw }) payload ++ rest
    → ((poll_read_addr got rlen rd).0 ≡ ready_ok (take rlen payload) (sender a))
      × Holds (drop rlen payload) rest (sender a) (poll_read_addr got rlen rd).1
poll_read_addr-long got a nw payload rest rlen rd h f l r s e =
    let run =
      poll_in_buf got rlen rd s
      ∙ read_buf-frame a nw payload rest rlen rd h f l e
      ∙ deliver_long payload rest a rlen rd r in
    rw run (
      refl,
      record {
        in_left_buf = refl;
        bytes = refl;
        counted = omega (arith, length-drop rlen payload);
        from = refl;
      },
    )

pub poll_in_left :
    (got : Got) (rlen : ℕ) (rd : Reader)
    → rd.state ≡ left_buf
    → poll_read_addr got rlen rd ≡ read_left_buf rlen rd
unfolding poll_read_addr
poll_in_left got rlen rd s = ap (λ t. poll_in t got rlen rd) s

left_buf_fills :
    (left rest : Bytes) (ad : Addr) (rlen : ℕ) (rd : Reader)
    → rlen < length left
    → Holds left rest ad rd
    → ((read_left_buf rlen rd).0 ≡ ready_ok (take rlen left) ad)
      × Holds (drop rlen left) rest ad (read_left_buf rlen rd).1
unfolding read_left_buf
left_buf_fills left rest ad rlen rd r h = ground (
  arith,
  length-append left rest,
  length-drop rlen left,
  take-append_le rlen left rest,
  drop-append_le rlen left rest,
)

left_buf_ends :
    (left rest : Bytes) (ad : Addr) (rlen : ℕ) (rd : Reader)
    → length left < rlen
    → Holds left rest ad rd
    → ((read_left_buf rlen rd).0 ≡ ready_ok left ad) × ((read_left_buf rlen rd).1.buf ≡ rest)
unfolding read_left_buf
left_buf_ends left rest ad rlen rd r h =
    ground
      (arith, length-append left rest, take-length_append left rest, drop-length_append left rest)

poll_left :
    (got : Got) (left rest : Bytes) (ad : Addr) (rlen : ℕ) (rd : Reader)
    → rlen < length left
    → Holds left rest ad rd
    → ((poll_read_addr got rlen rd).0 ≡ ready_ok (take rlen left) ad)
      × Holds (drop rlen left) rest ad (poll_read_addr got rlen rd).1
poll_left got left rest ad rlen rd r h =
    rw (poll_in_left got rlen rd h.in_left_buf) (left_buf_fills left rest ad rlen rd r h)

poll_last :
    (got : Got) (left rest : Bytes) (ad : Addr) (rlen : ℕ) (rd : Reader)
    → length left < rlen
    → Holds left rest ad rd
    → ((poll_read_addr got rlen rd).0 ≡ ready_ok left ad)
      × ((poll_read_addr got rlen rd).1.buf ≡ rest)
poll_last got left rest ad rlen rd r h =
    rw (poll_in_left got rlen rd h.in_left_buf) (left_buf_ends left rest ad rlen rd r h)

-- The bytes that `n` calls hand out, whatever the stream would answer.
pub handed_out : ReadPoll → Bytes
handed_out (ready_ok bs _) = bs
handed_out _ = []

pub gather : List Got → ℕ → Reader → Bytes × Reader
gather [] rlen rd = ([], rd)
gather (g ∷ gs) rlen rd =
    let (r, rd') = poll_read_addr g rlen rd in
    let (bs, last) = gather gs rlen rd' in (handed_out r ++ bs, last)

gather-left :
    (gs : List Got) (g : Got) (left rest : Bytes) (ad : Addr) (rlen : ℕ) (rd : Reader)
    → length gs * rlen < length left
    → length left < suc (length gs) * rlen
    → Holds left rest ad rd
    → ((gather (g ∷ gs) rlen rd).0 ≡ left) × ((gather (g ∷ gs) rlen rd).1.buf ≡ rest)
unfolding gather handed_out
gather-left [] g left rest ad rlen rd lo hi h =
    let (e, b) = poll_last g left rest ad rlen rd (omega arith) h in
    (ap (λ r. handed_out r ++ []) e ∙ append-nil left, b)
gather-left (g' ∷ gs) g left rest ad rlen rd lo hi h =
    let (e, k) = poll_left g left rest ad rlen rd (grind arith) h in
    let (bs, b) =
      gather-left gs g' (drop rlen left) rest ad rlen _ (ground (arith, length-drop rlen left))
        (ground (arith, length-drop rlen left)) k in
    (ap₂ (λ r (t : Bytes). handed_out r ++ t) e bs ∙ take-append-drop rlen left, b)

-- A payload in the buffer that takes several calls is handed out whole and in order, and the bytes
-- behind its frame stay in the buffer, provided that its last piece is shorter than `r_buf`. The
-- payload has less than 2 ^ 16 bytes, and a bare name fits its length byte.
pub gather-frame :
    (gs : List Got) (g g' : Got) (a : NetAddr) (nw : Network) (payload rest : Bytes) (rlen : ℕ)
    (rd : Reader)
    → IsNetAddr a
    → FitsWire a
    → length payload < 2 ^ 16
    → suc (length gs) * rlen < length payload
    → length payload < suc (suc (length gs)) * rlen
    → rd.state ≡ buf
    → rd.buf ≡ frame (record { addr = a; network = nw }) payload ++ rest
    → ((gather (g ∷ g' ∷ gs) rlen rd).0 ≡ payload) × ((gather (g ∷ g' ∷ gs) rlen rd).1.buf ≡ rest)
gather-frame gs g g' a nw payload rest rlen rd h f l lo hi s e =
    let (first, k) = poll_read_addr-long g a nw payload rest rlen rd h f l (grind arith) s e in
    let (bs, b) =
      gather-left gs g' (drop rlen payload) rest (sender a) rlen _
        (ground (arith, length-drop rlen payload)) (ground (arith, length-drop rlen payload)) k in
    unfold gather in
    (
      ap₂ (λ r (t : Bytes). handed_out r ++ t) first bs
          ∙ unfold handed_out in take-append-drop rlen payload,
      b,
    )
