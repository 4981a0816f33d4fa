-- ===== src/Trojan/Reader/Deliver.antt =====
-- Frames that the writer wrote, read one call at a time (src/map/trojan/udp.rs).
use ruci.Prelude.{
  ℕ, ◌<◌, ◌≤◌, ◌%◌, ◌^◌, ◌≡◌, refl, ap, ◌∙◌, [], ◌∷◌, ◌++◌, append_assoc, arith, Bytes, length,
  take, drop, be_value, be_bytes, length-append, length-be_bytes, take-length_append,
  drop-length_append,
}
use ruci.Prelude.Monad.{ok}
use ruci.Net.Addr.{Addr, NetAddr, Network, udp, tcp}
use ruci.Net.Helpers.{addr_to_socks5_bytes, socks5_bytes_to_addr}
use ruci.Net.Helpers.RoundTrip.{
  IsNetAddr, FitsWire, FitsWire-IsDecodable, on_wire, socks5_bytes_to_addr-addr_to_socks5_bytes,
}
use ruci.Trojan.Consts.{crlf}
use ruci.Trojan.Writer.{frame}
use ruci.Trojan.Reader.{
  Reader, base, buf, Got, ready_ok, check_data, deliver, after_addr, read_buf, poll_read_addr,
  poll_in,
}

pub take_two : (x : ℕ) (rest : Bytes) → x < 2 ^ 16 → be_value 0 (take 2 (be_bytes 2 x ++ rest)) ≡ x
unfolding be_bytes be_value
take_two x rest h = omega arith

pub drop_two : (x : ℕ) (rest : Bytes) → drop 2 (be_bytes 2 x ++ rest) ≡ rest
unfolding be_bytes
drop_two x rest = refl

abbrev behind_addr : Bytes → Bytes → Bytes
behind_addr payload rest = be_bytes 2 (length payload) ++ (be_bytes 2 crlf ++ (payload ++ rest))

low_word : (x : ℕ) → x < 2 ^ 16 → x % 2 ^ 16 ≡ x
low_word x h = omega arith

frame-append :
    (ad : Addr) (payload rest : Bytes)
    → length payload < 2 ^ 16
    → frame ad payload ++ rest ≡ addr_to_socks5_bytes ad [] ++ behind_addr payload rest
unfolding frame
frame-append ad payload rest l =
    ap
      (λ (n : ℕ).
        (addr_to_socks5_bytes ad [] ++ (be_bytes 2 n ++ (be_bytes 2 crlf ++ payload))) ++ rest)
      (low_word _ l)
    ∙ simp append_assoc

after_addr-deliver :
    (ad : Addr) (payload rest : Bytes) (rlen : ℕ) (rd : Reader)
    → length payload < 2 ^ 16
    → after_addr (ok ad, behind_addr payload rest) rlen rd
      ≡ deliver (length payload) (payload ++ rest) ad rlen rd
unfolding after_addr check_data
after_addr-deliver ad payload rest rlen rd l = ground (
  arith,
  take_two (length payload) (be_bytes 2 crlf ++ (payload ++ rest)) l,
  drop_two (length payload) (be_bytes 2 crlf ++ (payload ++ rest)),
  take_two crlf (payload ++ rest),
  drop_two crlf (payload ++ rest),
  length-append (be_bytes 2 (length payload)) (be_bytes 2 crlf ++ (payload ++ rest)),
  length-append (be_bytes 2 crlf) (payload ++ rest),
  length-append payload rest,
  length-be_bytes 2 (length payload),
  length-be_bytes 2 crlf,
)

-- The reader meets a whole frame: it goes on at the payload.
pub read_buf-frame :
    (a : NetAddr) (nw : Network) (payload rest : Bytes) (rlen : ℕ) (rd : Reader)
    → IsNetAddr a
    → FitsWire a
    → length payload < 2 ^ 16
    → rd.buf ≡ frame (record { addr = a; network = nw }) payload ++ rest
    → read_buf rlen rd
      ≡ deliver
          (length payload)
          (payload ++ rest)
          (record { addr = on_wire a; network = tcp })
          rlen
          rd
unfolding read_buf
read_buf-frame a nw payload rest rlen rd h f l e =
    ap (λ (b : Bytes). after_addr (socks5_bytes_to_addr b) rlen rd)
      (e ∙ frame-append _ payload rest l)
    ∙ ap (λ r. after_addr r rlen rd)
        (socks5_bytes_to_addr-addr_to_socks5_bytes a nw (behind_addr payload rest) h
          (FitsWire-IsDecodable a _ (omega (arith, length-behind_addr)) f))
    ∙ after_addr-deliver _ payload rest rlen rd l
  where
    length-behind_addr : 4 ≤ length (behind_addr payload rest)
    length-behind_addr = omega (
      arith,
      length-append (be_bytes 2 (length payload)) (be_bytes 2 crlf ++ (payload ++ rest)),
      length-append (be_bytes 2 crlf) (payload ++ rest),
      length-be_bytes 2 (length payload),
      length-be_bytes 2 crlf,
    )

pub poll_in_buf :
    (got : Got) (rlen : ℕ) (rd : Reader)
    → rd.state ≡ buf
    → poll_read_addr got rlen rd ≡ read_buf rlen rd
unfolding poll_read_addr
poll_in_buf got rlen rd s = ap (λ t. poll_in t got rlen rd) s

-- Where the reader is after a payload that fitted `r_buf` with room to spare.
abbrev pub after_frame : Bytes → Reader → Reader
after_frame [] rd = record rd { buf = []; state = base; left_data_len = 0 }
after_frame (b ∷ bs) rd = record rd { buf = b ∷ bs; state = buf }

abbrev pub sender : NetAddr → Addr
sender a = record { addr = on_wire a; network = udp }

deliver_whole :
    (payload rest : Bytes) (a : NetAddr) (rlen : ℕ) (rd : Reader)
    → length payload < rlen
    → deliver
        (length payload)
        (payload ++ rest)
        (record { addr = on_wire a; network = tcp })
        rlen
        rd
      ≡ (ready_ok payload (sender a), after_frame rest rd)
unfolding deliver
deliver_whole payload [] a rlen rd h =
    ground (
      arith,
      length-append payload [],
      take-length_append payload [],
      drop-length_append payload [],
    )
deliver_whole payload (b ∷ bs) a rlen rd h = ground (
  arith,
  length-append payload (b ∷ bs),
  take-length_append payload (b ∷ bs),
  drop-length_append payload (b ∷ bs),
)

-- In state `buf` a frame whose payload is shorter than `r_buf` is delivered whole, under the
-- address that the wire form keeps, over udp; the reader goes on at the bytes behind it, or at the
-- stream when there are none. The payload has less than 2 ^ 16 bytes, and a bare name fits its length
-- byte.
pub poll_read_addr-frame :
    (got : Got) (a : NetAddr) (nw : Network) (payload rest : Bytes) (rlen : ℕ) (rd : Reader)
    → IsNetAddr a
    → FitsWire a
    → length payload < 2 ^ 16
    → length payload < rlen
    → rd.state ≡ buf
    → rd.buf ≡ frame (record { addr = a; network = nw }) payload ++ rest
    → poll_read_addr got rlen rd ≡ (ready_ok payload (sender a), after_frame rest rd)
poll_read_addr-frame got a nw payload rest rlen rd h f l r s e =
    poll_in_buf got rlen rd s
    ∙ read_buf-frame a nw payload rest rlen rd h f l e
    ∙ deliver_whole payload rest a rlen rd r
