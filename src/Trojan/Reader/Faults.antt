-- ===== src/Trojan/Reader/Faults.antt =====
-- Inputs on which the reader loses, misreads or faults (src/map/trojan/udp.rs).
use ruci.Prelude.{
  ℕ, ◌<◌, ◌^◌, ◌≡◌, refl, sym, ap, ◌∙◌, [], ◌∷◌, ◌++◌, min, arith, Bytes, length, take, be_bytes,
  length-append, length-be_bytes, take-length_append, drop-length_append,
}
use ruci.Prelude.Monad.{ok, err}
use ruci.Net.Addr.{Addr, NetAddr, Network, tcp}
use ruci.Net.Helpers.{WireError, addr_to_socks5_bytes, socks5_bytes_to_addr}
use ruci.Net.Helpers.RoundTrip.{
  IsNetAddr, IsDecodable, FitsWire, on_wire, socks5_bytes_to_addr-addr_to_socks5_bytes,
}
use ruci.Trojan.Writer.{frame}
use ruci.Trojan.Reader.{
  Reader, base, buf, Got, bytes, ReadPoll, ready_ok, ready_err, in_address, deliver, poll_in,
  poll_read_addr, read_buf, read_left_buf, after_addr, check_data, after_read,
}
use ruci.Trojan.Reader.Deliver.{sender, poll_in_buf, read_buf-frame, drop_two}
use ruci.Trojan.Reader.Chunks.{Holds, poll_in_left}

deliver_exact :
    (payload rest : Bytes) (a : NetAddr) (rlen : ℕ) (rd : Reader)
    → length payload ≡ rlen
    → deliver
        (length payload)
        (payload ++ rest)
        (record { addr = on_wire a; network = tcp })
        rlen
        rd
      ≡ (ready_ok payload (sender a), record rd { buf = rest; state = base; left_data_len = 0 })
unfolding deliver
deliver_exact payload rest a rlen rd h = ground (
  arith,
  length-append payload rest,
  take-length_append payload rest,
  drop-length_append payload rest,
)

base_forgets :
    (got : Got) (rlen : ℕ) (b b' : Bytes) (rd : Reader)
    → (poll_read_addr got rlen (record rd { buf = b; state = base })).0
      ≡ (poll_read_addr got rlen (record rd { buf = b'; state = base })).0
unfolding poll_read_addr after_read
base_forgets Got.pending rlen b b' rd = refl
base_forgets (Got.failed e) rlen b b' rd = refl
base_forgets (bytes []) rlen b b' rd = refl
base_forgets (bytes (x ∷ xs)) rlen b b' rd = refl

-- A payload of exactly the size of `r_buf` is delivered, but the bytes behind its frame are dropped:
-- the next call answers the same whatever they were.
pub exact_fit_drops_rest :
    (g g' : Got) (a : NetAddr) (nw : Network) (payload rest rest' : Bytes) (rlen next : ℕ)
    (rd : Reader)
    → IsNetAddr a
    → FitsWire a
    → length payload < 2 ^ 16
    → length payload ≡ rlen
    → rd.state ≡ buf
    → let first = λ (r : Bytes).
      poll_read_addr g rlen
        (record rd { buf = frame (record { addr = a; network = nw }) payload ++ r }) in
      ((first rest).0 ≡ ready_ok payload (sender a))
      × ((poll_read_addr g' next (first rest).1).0 ≡ (poll_read_addr g' next (first rest').1).0)
exact_fit_drops_rest g g' a nw payload rest rest' rlen next rd h f l r s = (
  ap (λ p. p.0) (run rest),
  ap (λ p. (poll_read_addr g' next p.1).0) (run rest)
      ∙ base_forgets g' next rest rest' (record rd { left_data_len = 0 })
      ∙ sym (ap (λ p. (poll_read_addr g' next p.1).0) (run rest')),
)
  where
    run :
        (r : Bytes)
        → poll_read_addr g rlen
            (record rd { buf = frame (record { addr = a; network = nw }) payload ++ r })
          ≡ (ready_ok payload (sender a), record rd { buf = r; state = base; left_data_len = 0 })
    run x =
        let rd' : Reader = record rd {
          buf = frame (record { addr = a; network = nw }) payload ++ x;
        } in
        poll_in_buf g rlen rd' s
        ∙ read_buf-frame a nw payload x rlen rd' h f l refl
        ∙ deliver_exact payload x a rlen rd' r

left_buf_stale :
    (left rest : Bytes) (ad : Addr) (rlen : ℕ) (rd : Reader)
    → length left < rlen
    → 0 < length rest
    → Holds left rest ad rd
    → (read_left_buf rlen rd).1 ≡ record rd { buf = rest; state = buf; left_data_len = length left }
unfolding read_left_buf
left_buf_stale left rest ad rlen rd r n h =
    ground (arith, length-append left rest, drop-length_append left rest)

bad_frame :
    (rlen : ℕ) (rd : Reader) (e : WireError)
    → (socks5_bytes_to_addr rd.buf).0 ≡ err e
    → read_buf rlen rd ≡ (ready_err (in_address e), record rd { buf = []; state = base })
unfolding read_buf after_addr
bad_frame rlen rd e h = ground arith

stale_run :
    (bs : Bytes) (rlen : ℕ) (rd : Reader)
    → 0 < length bs
    → 0 < rd.left_data_len
    → (after_read bs rlen rd).0
      ≡ ready_ok (take (min rd.left_data_len (min rlen (length bs))) bs) rd.old_ad
unfolding after_read
stale_run [] rlen rd n l = absurd (omega arith)
stale_run (b ∷ bs) rlen rd n l = ground arith

stale_read :
    (bs : Bytes) (rlen : ℕ) (rd : Reader)
    → 0 < length bs
    → 0 < rd.left_data_len
    → rd.state ≡ base
    → (poll_read_addr (bytes bs) rlen rd).0
      ≡ ready_ok (take (min rd.left_data_len (min rlen (length bs))) bs) rd.old_ad
unfolding poll_read_addr
stale_read bs rlen rd n l s =
    ap (λ t. (poll_in t (bytes bs) rlen rd).0) s ∙ stale_run bs rlen rd n l

-- The count of a split payload is not reset when its last piece was handed out: if the frame behind
-- it is malformed, the next bytes from the stream, a frame's header or not, are handed out as data
-- from the old sender.
pub stale_left_misreads :
    (g g' : Got) (left rest bs : Bytes) (ad : Addr) (e : WireError) (rlen : ℕ) (rd : Reader)
    → Holds left rest ad rd
    → 0 < length left
    → length left < rlen
    → 0 < length rest
    → (socks5_bytes_to_addr rest).0 ≡ err e
    → 0 < length bs
    → let last = (poll_read_addr g rlen rd).1 in
      let failed = poll_read_addr g' rlen last in
      (failed.0 ≡ ready_err (in_address e))
      × ((poll_read_addr (bytes bs) rlen failed.1).0
          ≡ ready_ok (take (min (length left) (min rlen (length bs))) bs) ad)
stale_left_misreads g g' left rest bs ad e rlen rd h l r n m p =
    let one =
      ap (λ x. x.1) (poll_in_left g rlen rd h.in_left_buf)
      ∙ left_buf_stale left rest ad rlen rd r n h in
    let rd1 = record rd { buf = rest; state = buf; left_data_len = length left } in
    let two = poll_in_buf g' rlen rd1 refl ∙ bad_frame rlen rd1 e m in
    let rd2 = record rd1 { buf = []; state = base } in
    let both = ap (poll_read_addr g' rlen) one ∙ two in
    (
      ap (λ x. x.0) both,
      ap (λ x. (poll_read_addr (bytes bs) rlen x.1).0) both
          ∙ stale_read bs rlen rd2 p l refl
          ∙ ap (ready_ok (take (min (length left) (min rlen (length bs))) bs)) h.from,
    )

cut_run :
    (n : ℕ) (rest : Bytes) (ad : Addr) (rlen : ℕ) (rd : Reader)
    → n < 2 ^ 16
    → length rest < 2
    → (after_addr (ok ad, be_bytes 2 n ++ rest) rlen rd).0 ≡ ReadPoll.panic
unfolding after_addr check_data
cut_run n rest ad rlen rd l r =
    ground (arith, length-append (be_bytes 2 n) rest, length-be_bytes 2 n, drop_two n rest)

-- A stream that gives a frame's address and length with at most one byte behind them makes the
-- reader panic.
pub cut_header_panics :
    (g : Got) (a : NetAddr) (nw : Network) (n : ℕ) (rest : Bytes) (rlen : ℕ) (rd : Reader)
    → IsNetAddr a
    → IsDecodable a (be_bytes 2 n ++ rest)
    → n < 2 ^ 16
    → length rest < 2
    → rd.state ≡ buf
    → rd.buf ≡ addr_to_socks5_bytes (record { addr = a; network = nw }) [] ++ (be_bytes 2 n ++ rest)
    → (poll_read_addr g rlen rd).0 ≡ ReadPoll.panic
unfolding read_buf
cut_header_panics g a nw n rest rlen rd h d l r s e =
    ap (λ x. x.0) (poll_in_buf g rlen rd s)
    ∙ ap (λ (b : Bytes). (after_addr (socks5_bytes_to_addr b) rlen rd).0) e
    ∙ ap (λ x. (after_addr x rlen rd).0)
        (socks5_bytes_to_addr-addr_to_socks5_bytes a nw (be_bytes 2 n ++ rest) h d)
    ∙ cut_run n rest _ rlen rd l r
