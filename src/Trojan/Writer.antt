-- ===== src/Trojan/Writer.antt =====
-- src/map/trojan/udp.rs, `Writer`: one UDP payload as a frame on the trojan stream. The buffer that
-- it keeps between calls is empty whenever a call begins; its capacity is not modelled.
use ruci.Prelude.{
  ℕ, ◌-◌, ◌%◌, ◌^◌, [], ◌++◌, ltb, ◌==◌, if◌then◌else◌, Bytes, length, take, be_bytes,
}
use ruci.Net.Addr.{Addr}
use ruci.Net.Helpers.{addr_to_socks5_bytes}
use ruci.Trojan.Consts.{crlf}

-- What `poll_write` of the stream answers: it took `n` bytes, or not.
pub data Wrote : Type 0 where
  pending : Wrote
  failed : ℕ → Wrote
  took : ℕ → Wrote

pub data WriteError : Type 0 where
  base : ℕ → WriteError
  impossible_length : ℕ → ℕ → WriteError

-- `panic` is the subtraction below zero, checked in a debug build.
pub data WritePoll : Type 0 where
  pending panic : WritePoll
  ready_err : WriteError → WritePoll
  ready_ok : ℕ → WritePoll

-- `data_l as u16`, CRLF, and the payload, behind the address.
unfoldable pub frame : Addr → Bytes → Bytes
frame addr buf =
    addr_to_socks5_bytes addr [] ++ (be_bytes 2 (length buf % 2 ^ 16) ++ (be_bytes 2 crlf ++ buf))

-- The answer, given the length of the frame.
answer : Wrote → ℕ → ℕ → WritePoll
answer Wrote.pending data_l actual_l = WritePoll.pending
answer (failed e) data_l actual_l = ready_err (base e)
answer (took n) data_l actual_l =
    if ltb n actual_l
    then (if ltb data_l (actual_l - n) then panic else ready_ok (data_l - (actual_l - n)))
    else if n == actual_l
    then ready_ok data_l
    else ready_err (impossible_length n actual_l)

accepted : Wrote → ℕ
accepted (took n) = n
accepted _ = 0

-- The answer, and the bytes that reached the stream.
unfoldable pub poll_write_addr : Wrote → Bytes → Addr → WritePoll × Bytes
unfolding answer accepted
poll_write_addr w buf addr =
    let buf2 = frame addr buf in (answer w (length buf) (length buf2), take (accepted w) buf2)
