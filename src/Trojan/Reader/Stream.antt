-- ===== src/Trojan/Reader/Stream.antt =====
-- A run of frames that arrive in one read (src/map/trojan/udp.rs).
use ruci.Prelude.{
  ◌%◌, if◌then◌else◌, length-append, length-be_bytes, be_bytes, ℕ, ◌<◌, ◌^◌, ◌≡◌, refl, ap, ◌∙◌,
  List, [], ◌∷◌, ◌++◌, map, ltb, arith, Bytes, All, length,
}
use ruci.Net.Addr.{Addr, NetAddr, Network}
use ruci.Net.Helpers.RoundTrip.{IsNetAddr, FitsWire}
use ruci.Net.Helpers.{addr_to_socks5_bytes}
use ruci.Trojan.Consts.{crlf}
use ruci.Trojan.Writer.{frame}
use ruci.Trojan.Reader.{
  Reader, base, buf, left_buf, read_left_buf, Got, bytes, ReadPoll, ready_ok, poll_read_addr,
  poll_in, after_read, read_buf,
}
use ruci.Trojan.Reader.Deliver.{sender, after_frame, poll_read_addr-frame}

-- A payload, and whom it is for.
pub record Datagram : Type 0 where
  pub to : NetAddr
  pub network : Network
  pub payload : Bytes

abbrev pub frame_of : Datagram → Bytes
frame_of d = frame (record { addr = d.to; network = d.network }) d.payload

pub frames : List Datagram → Bytes
frames [] = []
frames (d ∷ ds) = frame_of d ++ frames ds

-- What the types hold, and what fits the length fields and `r_buf` with a byte to spare.
pub record Fits (rlen : ℕ) (d : Datagram) : Type 0 where
  pub valid : IsNetAddr d.to
  pub name_fits : FitsWire d.to
  pub word : length d.payload < 2 ^ 16
  pub room : length d.payload < rlen

abbrev pub received : Datagram → ReadPoll
received d = ready_ok d.payload (sender d.to)

-- One call for each answer that the stream would give.
pub polls : List Got → ℕ → Reader → List ReadPoll
polls [] rlen rd = []
polls (g ∷ gs) rlen rd = let (r, rd') = poll_read_addr g rlen rd in r ∷ polls gs rlen rd'

frame_pos : (ad : Addr) (payload : Bytes) → 0 < length (frame ad payload)
unfolding frame
frame_pos ad payload = omega (
  arith,
  length-append (addr_to_socks5_bytes ad [])
      (be_bytes 2 (length payload % 2 ^ 16) ++ (be_bytes 2 crlf ++ payload)),
  length-append (be_bytes 2 (length payload % 2 ^ 16)) (be_bytes 2 crlf ++ payload),
  length-be_bytes 2 (length payload % 2 ^ 16),
)

frames_pos : (d : Datagram) (ds : List Datagram) → 0 < length (frames (d ∷ ds))
unfolding frames
frames_pos d ds = omega (
  arith,
  frame_pos (record { addr = d.to; network = d.network }) d.payload,
  length-append (frame_of d) (frames ds),
)

after_frame_pos :
    (b : Bytes) (rd : Reader)
    → 0 < length b
    → ((after_frame b rd).state ≡ buf) × ((after_frame b rd).buf ≡ b)
after_frame_pos [] rd h = absurd (omega arith)
after_frame_pos (x ∷ b) rd h = (refl, refl)

poll_first :
    (g : Got) (d : Datagram) (ds : List Datagram) (rlen : ℕ) (rd : Reader)
    → Fits rlen d
    → rd.state ≡ buf
    → rd.buf ≡ frames (d ∷ ds)
    → poll_read_addr g rlen rd ≡ (received d, after_frame (frames ds) rd)
unfolding frames
poll_first g d ds rlen rd f s e =
    poll_read_addr-frame g d.to d.network d.payload (frames ds) rlen rd f.valid f.name_fits f.word
      f.room s e

polls_first :
    (g : Got) (gs : List Got) (d : Datagram) (ds : List Datagram) (rlen : ℕ) (rd : Reader)
    → Fits rlen d
    → rd.state ≡ buf
    → rd.buf ≡ frames (d ∷ ds)
    → polls (g ∷ gs) rlen rd ≡ received d ∷ polls gs rlen (after_frame (frames ds) rd)
unfolding polls
polls_first g gs d ds rlen rd f s e =
    ap (λ r. r.0 ∷ polls gs rlen r.1) (poll_first g d ds rlen rd f s e)

frames-ready :
    (ds : List Datagram) (gs : List Got) (rlen : ℕ) (rd : Reader)
    → All (Fits rlen) ds
    → length gs ≡ length ds
    → rd.state ≡ buf
    → rd.buf ≡ frames ds
    → polls gs rlen rd ≡ map received ds
frames-ready [] [] rlen rd fits n s e = unfold polls in refl
frames-ready [] (g ∷ gs) rlen rd fits n s e = absurd (omega arith)
frames-ready (d ∷ ds) [] rlen rd fits n s e = absurd (omega arith)
frames-ready (d ∷ []) (g ∷ []) rlen rd fits n s e =
    polls_first g [] d [] rlen rd fits.0 s e ∙ unfold polls in refl
frames-ready (d ∷ []) (g ∷ h ∷ gs) rlen rd fits n s e = absurd (omega arith)
frames-ready (d ∷ c ∷ ds) (g ∷ gs) rlen rd fits n s e =
    let (s', e') = after_frame_pos (frames (c ∷ ds)) rd (frames_pos c ds) in
    polls_first g gs d (c ∷ ds) rlen rd fits.0 s e
    ∙ ap (◌∷◌ (received d)) (frames-ready (c ∷ ds) gs rlen _ fits.1 (omega arith) s' e')

after_read_pos :
    (bs : Bytes) (rlen : ℕ) (rd : Reader)
    → 0 < length bs
    → rd.left_data_len ≡ 0
    → after_read bs rlen rd ≡ read_buf rlen (record rd { buf = bs; state = buf })
unfolding after_read
after_read_pos [] rlen rd h l = absurd (omega arith)
after_read_pos (b ∷ bs) rlen rd h l =
    ap
      (λ (k : ℕ).
        if ltb 0 k
        then read_left_buf rlen (record rd { buf = b ∷ bs; state = left_buf })
        else read_buf rlen (record rd { buf = b ∷ bs; state = buf }))
      l

-- A read in state `base` is a call in state `buf` on the bytes that came.
pub poll_read_addr-base :
    (bs : Bytes) (rlen : ℕ) (rd : Reader)
    → 0 < length bs
    → rd.state ≡ base
    → rd.left_data_len ≡ 0
    → poll_read_addr (bytes bs) rlen rd
      ≡ poll_read_addr Got.pending rlen (record rd { buf = bs; state = buf })
unfolding poll_read_addr
poll_read_addr-base bs rlen rd h s l =
    ap (λ t. poll_in t (bytes bs) rlen rd) s ∙ after_read_pos bs rlen rd h l

-- Whole frames that arrive in one read are told apart: successive calls deliver their payloads, each
-- once, in order, under the address of each, whatever the stream would answer meanwhile. The reader
-- waits for the stream with nothing left over, and each payload is shorter than `r_buf`.
pub polls-frames :
    (d : Datagram) (ds : List Datagram) (gs : List Got) (rlen : ℕ) (rd : Reader)
    → All (Fits rlen) (d ∷ ds)
    → length gs ≡ length ds
    → rd.state ≡ base
    → rd.left_data_len ≡ 0
    → polls (bytes (frames (d ∷ ds)) ∷ gs) rlen rd ≡ map received (d ∷ ds)
unfolding polls
polls-frames d ds gs rlen rd fits n s l =
    ap (λ r. r.0 ∷ polls gs rlen r.1)
      (poll_read_addr-base (frames (d ∷ ds)) rlen rd (frames_pos d ds) s l)
    ∙ frames-ready (d ∷ ds) (Got.pending ∷ gs) rlen
        (record rd { buf = frames (d ∷ ds); state = buf }) fits (omega arith) refl refl
