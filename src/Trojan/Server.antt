-- ===== src/Trojan/Server.antt =====
-- src/map/trojan/server.rs: the server's side of the handshake.
pub mod Loop
pub mod Requests
use ruci.Prelude.{
  ℕ, zero, suc, ◌+◌, ◌-◌, Bool, true, false, ◌&&◌, ◌||◌, Option, none, some, List, [], ◌∷◌, ◌++◌,
  ltb, leb, ◌==◌, if◌then◌else◌, Bytes, codes, length, take, drop, zeroed,
}
use ruci.Prelude.Monad.{
  Outcome, ok, err, panic, Buf, ◌>>=◌, ◌>>◌, pure, fail, ensure, len, get_be, with_context,
}
use ruci.Utf8.{Text, from_utf8_lossy}
use ruci.Net.Addr.{Addr, udp}
use ruci.Net.Conn.{Conn, IoError, read}
use ruci.Net.Helpers.{WireError, socks5_bytes_to_addr}
use ruci.User.{UsersMap, auth_user_by_authstr}
use ruci.Map.{Stream, MapResult, conn, addr_conn, build, ebc, buf_err, err_str, buf_to_ob}
use ruci.Trojan.Consts.{crlf, cmd_connect, cmd_udpassociate, cmd_mux, pass_len}
use ruci.Trojan.Users.{User}

pub data ServerError : Type 0 where
  too_short_for_http : ℕ → ServerError
  read_failed : IoError → ServerError
  too_short hash_mismatch mux_not_implemented one_byte_left no_suffix : ServerError
  crlf_wrong cmd_wrong suffix_wrong no_crlf : ℕ → ServerError
  short_of_data : ℕ → ℕ → ServerError
  in_address : WireError → ServerError

abbrev pub ServerResult : Type 0
ServerResult = MapResult Conn Conn User ServerError

abbrev pub cap : ℕ
cap = 1024

-- The position of the first CR LF, counted from `i`.
find_crlf : ℕ → Bytes → Option ℕ
find_crlf i [] = none
find_crlf i (x ∷ []) = none
find_crlf i (x ∷ y ∷ s) = if x == 0x0d && y == 0x0a then some i else find_crlf (i + 1) (y ∷ s)

-- `index_crlf > 0`, where only the bytes that just came are searched for a CR.
crlf_found : ℕ → Bytes → Bool
unfolding find_crlf
crlf_found previous filled = elim (find_crlf previous (drop previous filled)) [
  | none ↦ false
  | some i ↦ ltb 0 i
]

-- One round: what a read gave, and the rounds that follow, as a function.
round :
    Bytes
    → Outcome IoError Bytes × Conn
    → (Bytes → Conn → Outcome IoError Bytes × Conn)
    → Outcome IoError Bytes × Conn
unfolding crlf_found
round filled (err e, c) more = (err e, c)
round filled (panic, c) more = (panic, c)
round filled (ok [], c) more = (ok filled, c)
round filled (ok (b ∷ bs), c) more =
    let next = filled ++ b ∷ bs in
    let rest = more next c in
    if leb cap (length next) || crlf_found (length filled) next then (ok next, c) else rest

-- The read loop over a buffer of `size` bytes, of which `filled` have come.
pub read_header : ℕ → ℕ → Bytes → Conn → Outcome IoError Bytes × Conn
unfolding round
read_header zero size filled c = (ok filled, c)
read_header (suc fuel) size filled c =
    round filled (read (size - length filled) c) (read_header fuel size)

-- How an early return leaves: to a fallback with buffer and connection, with the buffer only, or
-- with the error only.
pub data Stop : Type 0 where
  to_fallback buffer_only error_only : ServerError → Stop

-- The command byte: whether it asks for UDP.
command : ℕ → Buf Stop Bool
command cmd =
    if cmd == cmd_connect
    then pure false
    else if cmd == cmd_udpassociate
    then pure true
    else if cmd == cmd_mux
    then fail (buffer_only mux_not_implemented)
    else fail (buffer_only (cmd_wrong cmd))

abbrev address : Buf Stop Addr
address = with_context (λ e. buffer_only (in_address e)) socks5_bytes_to_addr

suffix : Buf Stop (Unit {0})
suffix = do
  l ← len
  ensure (leb 2 l) (if l == 1 then buffer_only one_byte_left else error_only no_suffix)
  supposed ← get_be 2
  ensure (supposed == crlf) (buffer_only (suffix_wrong supposed))

-- Behind the password: CRLF, command, address, CRLF.
pub request : Buf Stop (Bool × Addr)
unfolding command suffix
request = do
  first ← get_be 2
  ensure (first == crlf) (to_fallback (crlf_wrong first))
  cmd ← get_be 1
  is_udp ← command cmd
  ta ← address
  suffix
  pure (is_udp, if is_udp then record ta { network = udp } else ta)

-- `buf.len() - 2 < l`: with less than two bytes the subtraction underflows in a debug build, and in
-- a release build it wraps, and the `get_u16` that follows panics.
enough : ℕ → Buf Stop (Unit {0})
enough l b =
    if ltb (length b) 2
    then (panic, b)
    else ensure (leb l (length b - 2)) (error_only (short_of_data (l + 2) (length b))) b

truncate : ℕ → Buf Stop (Unit {0})
truncate l b = (ok tt, take l b)

-- The first UDP frame, if bytes came behind the request.
pub first_frame : Buf Stop Addr
unfolding enough truncate
first_frame = do
  ta ← address
  l ← get_be 2
  enough l
  first ← get_be 2
  ensure (first == crlf) (error_only (no_crlf first))
  truncate l
  pure (record ta { network = udp })

target : Bool × Addr → Buf Stop (Bool × Addr)
unfolding first_frame
target (false, ta) b = (ok (false, ta), b)
target (true, ta) [] = (ok (true, ta), [])
target (true, ta) (b ∷ bs) = (do ta ← first_frame; pure (true, ta)) (b ∷ bs)

accept : User → Conn → Outcome Stop (Bool × Addr) × Bytes → Outcome ServerError ServerResult
accept u c (ok (is_udp, ta), buf) =
    ok (build (some ta) (buf_to_ob buf) (if is_udp then addr_conn c else conn c) (some u) none)
accept u c (err (to_fallback e), buf) = ok (ebc e buf c)
accept u c (err (buffer_only e), buf) = ok (buf_err buf e)
accept u c (err (error_only e), buf) = ok (err_str e)
accept u c (panic, buf) = panic

pub after_user : Option User → Bytes → Conn → Outcome ServerError ServerResult
unfolding accept target request
after_user none buf c = ok (ebc hash_mismatch buf c)
after_user (some u) buf c = accept u c ((request >>= target) buf)

module _ (um : UsersMap User) where
  -- Once the header was read into a buffer of `size` bytes.
  after_header : ℕ → Outcome IoError Bytes × Conn → Outcome ServerError ServerResult
  after_header size (ok filled, c) =
      if ltb (length filled) 17
      then err (too_short_for_http (length filled))
      else if ltb (length filled) (pass_len + 8 + 1)
      then ok (ebc too_short (filled ++ zeroed (size - length filled)) c)
      else after_user
          (auth_user_by_authstr um (codes "trojan:" ++ from_utf8_lossy (take pass_len filled)))
          (drop pass_len filled) c
  after_header size (err e, c) = err (read_failed e)
  after_header size (panic, c) = panic

  -- Without pre-read bytes the buffer has `CAP` bytes; pre-read bytes are a full buffer, into which
  -- nothing more can be read.
  unfoldable pub handshake : Conn → Option Bytes → Outcome ServerError ServerResult
  unfolding after_header after_user read_header
  handshake c none = after_header cap (read_header cap cap [] c)
  handshake c (some b) =
      if ltb (length b) 17
      then after_header (length b) (read_header cap (length b) b c)
      else after_header (length b) (ok b, c)
