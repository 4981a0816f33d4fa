-- ===== src/Trojan/Reader.antt =====
-- src/map/trojan/udp.rs, `Reader`: UDP payloads out of the frames on the trojan stream. In state
-- `base` the buffer holds stale bytes, which the next read overwrites before anything looks at them.
pub mod Deliver
pub mod Stream
pub mod Chunks
pub mod Faults
use ruci.Prelude.{
  ℕ, ◌+◌, ◌-◌, Bool, ◌&&◌, List, [], ◌∷◌, min, ltb, ◌==◌, if◌then◌else◌, Bytes, length, take, drop,
  be_value,
}
use ruci.Prelude.Monad.{Outcome, ok, err}
use ruci.Net.Addr.{Addr, udp, default}
use ruci.Net.Helpers.{WireError, socks5_bytes_to_addr}
use ruci.Trojan.Consts.{crlf}

pub data ReadState : Type 0 where
  base buf left_buf : ReadState

pub record Reader : Type 0 where
  pub buf : Bytes
  pub state : ReadState
  pub left_data_len : ℕ
  pub old_ad : Addr

pub data ReadError : Type 0 where
  broken_pipe short_of_length : ReadError
  base_failed : ℕ → ReadError
  short_of_data : ℕ → ℕ → ReadError
  no_crlf : ℕ → ReadError
  in_address : WireError → ReadError

-- What `poll_read` of the stream answers. It is asked in state `base` only, at most once a call.
pub data Got : Type 0 where
  pending : Got
  failed : ℕ → Got
  bytes : Bytes → Got

-- `ready_ok` carries what was copied to the front of `r_buf`.
pub data ReadPoll : Type 0 where
  pending panic : ReadPoll
  ready_err : ReadError → ReadPoll
  ready_ok : Bytes → Addr → ReadPoll

unfoldable pub new : Reader
new = record { buf = []; state = base; left_data_len = 0; old_ad = default }

min_of_three : ℕ → ℕ → ℕ → ℕ
min_of_three a b c = min a (min b c)

-- Every error in a frame clears the buffer.
give_up : ReadError → Reader → ReadPoll × Reader
give_up e rd = (ready_err e, record rd { buf = []; state = base })

-- The four cases after a payload of `data_len` bytes was met. The subtraction of the first case is
-- checked in a debug build.
after_data : ℕ → ℕ → ℕ → Addr → Reader → ReadPoll × Reader → ReadPoll × Reader
after_data data_len rbuf_len buf_len ad rd done =
    if ltb buf_len rbuf_len && ltb buf_len data_len
    then if ltb data_len rbuf_len
      then (panic, rd)
      else (done.0, record (done.1) { left_data_len = data_len - rbuf_len; state = base })
    else if ltb rbuf_len buf_len && ltb rbuf_len data_len
    then (
      done.0,
      record (done.1) { left_data_len = data_len - rbuf_len; old_ad = ad; state = left_buf },
    )
    else if ltb data_len buf_len && ltb data_len rbuf_len
    then (done.0, record (done.1) { state = buf })
    else (done.0, record (done.1) { state = base; left_data_len = 0 })

-- Behind CRLF: copy what fits.
pub deliver : ℕ → Bytes → Addr → ℕ → Reader → ReadPoll × Reader
unfolding min_of_three after_data
deliver data_len buffer ad rbuf_len rd =
    let n = min_of_three data_len rbuf_len (length buffer) in
    let ad = record ad { network = udp } in
    after_data data_len rbuf_len (length buffer) ad rd
      (ready_ok (take n buffer) ad, record rd { buf = drop n buffer })

-- With less than two bytes left the subtraction underflows in a debug build, and in a release build
-- it wraps and `get_u16` panics.
check_data : ℕ → Bytes → Addr → ℕ → Reader → ReadPoll × Reader
check_data data_len buffer ad rbuf_len rd =
    if ltb (length buffer) 2
    then (panic, rd)
    else if ltb (length buffer - 2) data_len
    then give_up (short_of_data (data_len + 2) (length buffer)) rd
    else if be_value 0 (take 2 buffer) == crlf
    then deliver data_len (drop 2 buffer) ad rbuf_len rd
    else give_up (no_crlf (be_value 0 (take 2 buffer))) rd

after_addr : Outcome WireError Addr × Bytes → ℕ → Reader → ReadPoll × Reader
after_addr (ok ad, buffer) rbuf_len rd =
    if ltb (length buffer) 2
    then give_up short_of_length rd
    else check_data (be_value 0 (take 2 buffer)) (drop 2 buffer) ad rbuf_len rd
after_addr (err e, buffer) rbuf_len rd = give_up (in_address e) rd
after_addr (Outcome.panic, buffer) rbuf_len rd = (panic, rd)

pub read_buf : ℕ → Reader → ReadPoll × Reader
unfolding give_up
read_buf rbuf_len rd = after_addr (socks5_bytes_to_addr rd.buf) rbuf_len rd

pub read_left_buf : ℕ → Reader → ReadPoll × Reader
unfolding min_of_three
read_left_buf rbuf_len rd =
    let ldl = rd.left_data_len in
    let buf_len = length rd.buf in
    let n = min_of_three ldl rbuf_len buf_len in
    let rd' = record rd { buf = drop n rd.buf } in
    (
      ready_ok (take n rd.buf) rd.old_ad,
      (if ltb buf_len rbuf_len && ltb buf_len ldl
          then record rd' { state = base }
          else if ltb rbuf_len buf_len && ltb rbuf_len ldl
          then record rd' { left_data_len = ldl - rbuf_len; state = left_buf }
          else if ltb ldl buf_len && ltb ldl rbuf_len
          then record rd' { state = buf }
          else record rd' { state = base; left_data_len = 0 }),
    )

-- The bytes that the stream gave: an empty read is its end.
pub after_read : Bytes → ℕ → Reader → ReadPoll × Reader
unfolding read_buf read_left_buf
after_read [] rbuf_len rd = (ready_err broken_pipe, rd)
after_read (b ∷ bs) rbuf_len rd =
    if ltb 0 rd.left_data_len
    then read_left_buf rbuf_len (record rd { buf = b ∷ bs; state = left_buf })
    else read_buf rbuf_len (record rd { buf = b ∷ bs; state = buf })

pub read_base : Got → ℕ → Reader → ReadPoll × Reader
unfolding after_read
read_base Got.pending rbuf_len rd = (ReadPoll.pending, rd)
read_base (failed e) rbuf_len rd = (ready_err (base_failed e), rd)
read_base (bytes bs) rbuf_len rd = after_read bs rbuf_len rd

pub poll_in : ReadState → Got → ℕ → Reader → ReadPoll × Reader
unfolding read_base
poll_in base got rbuf_len rd = read_base got rbuf_len rd
poll_in buf got rbuf_len rd = read_buf rbuf_len rd
poll_in left_buf got rbuf_len rd = read_left_buf rbuf_len rd

-- The loop passes through `base` at most once, and each other state returns.
unfoldable pub poll_read_addr : Got → ℕ → Reader → ReadPoll × Reader
unfolding poll_in after_addr check_data deliver
poll_read_addr got rbuf_len rd = poll_in rd.state got rbuf_len rd
