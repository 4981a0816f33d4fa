-- ===== src/Socks5/Server/Request.antt =====
-- src/map/socks5/server/mod.rs, `Server::handshake`: the client's request, and the answer to it.
pub mod Kept
pub mod Reads
use ruci.Prelude.{
  ℕ, ◌+◌, ◌-◌, ◌*◌, Bool, true, false, not, ◌&&◌, ◌||◌, Option, some, none, [], ◌∷◌, ltb, leb, ◌==◌,
  if◌then◌else◌, Bytes, codes, length, take, drop, be_value, zeroed,
}
use ruci.Prelude.Monad.{Outcome, ok, err, panic}
use ruci.Utf8.{Text, from_utf8_lossy}
use ruci.Net.Addr.{Addr, IpAddr, v4, v6}
use ruci.Net.Addr
use ruci.Net.Conn.{Conn, IoError}
use ruci.Net.Conn
use ruci.Net.Helpers.{atyp_ip4, atyp_ip6, atyp_domain}
use ruci.Socks5.Consts.{
  version5, cmd_connect, cmd_bind, cmd_udp_associate, common_tcp_handshake_reply,
}
use ruci.Socks5.Session.{
  Session, Act, Stop, give_up, refuse, ServerError, cmd_too_short, second_version_wrong,
  cmd_unsupported, bind_unsupported, atyp_unknown, short_of_port, address, ◌>>=◌, ◌>>◌, pure, stop,
  session, modify, ensure, index, slice, write_all, read, advance,
}

-- The message behind the negotiation: bytes that came with it, or another read.
unfoldable pub next_message : Act (Unit {0})
next_message = do
  s ← session
  if ltb 0 s.remain_n
      then (do advance (s.n - s.remain_n); modify (λ s. record s { n = s.remain_n }))
      else (do n ← read; modify (λ s. record s { n = n }))

-- The length of address and port, where the address begins, and what it is.
pub record Place : Type 0 where
  pub l : ℕ
  pub off : ℕ
  pub ip : Option IpAddr
  pub is_name : Bool

unfoldable pub place : ℕ → Bytes → Act Place
place at buf =
    if at == atyp_ip4
    then (do
      bs ← slice 4 (4 + 4) buf
      pure (record { l = 2 + 4; off = 4; ip = some (v4 (be_value 0 bs)); is_name = false }))
    else if at == atyp_ip6
    then (do
      bs ← slice 4 (4 + 16) buf
      pure (record { l = 2 + 16; off = 4; ip = some (v6 (be_value 0 bs)); is_name = false }))
    else if at == atyp_domain
    then (do nl ← index 4 buf; pure (record { l = 2 + nl; off = 5; ip = none; is_name = true }))
    else stop (refuse (atyp_unknown at))

unfoldable pub host : Place → Bytes → Act (Option Text)
host p buf =
    if p.is_name
    then (do bs ← slice p.off (p.off + p.l - 2) buf; pure (some (from_utf8_lossy bs)))
    else pure none

module _ (parse_ip : Text → Option IpAddr) where
  -- A name that is a textual ip gives the ip too.
  unfoldable pub better_ip : Option Text → Option IpAddr → Option IpAddr
  better_ip none ip = ip
  better_ip (some name) ip = elim (parse_ip name) [ some tip ↦ some tip | none ↦ ip ]

  -- `map_err(..)?`
  unfoldable pub lift_addr : Outcome Addr.Error Addr → Act Addr
  lift_addr (ok a) s = (ok a, s)
  lift_addr (err e) s = (err (give_up (address e)), s)
  lift_addr panic s = (panic, s)

  -- The address behind the command, with the buffer cut to what follows it.
  unfoldable pub target : Act Addr
  target = do
    s ← session
    at ← index 3 s.buf
    p ← place at s.buf
    name ← host p s.buf
    ensure (leb (p.off + p.l) s.n) (refuse (short_of_port s.n))
    hi ← index (p.off + p.l - 2) s.buf
    lo ← index (p.off + p.l - 1) s.buf
    advance (p.off + p.l)
    modify (λ t. record t { buf = take (s.n - (p.off + p.l)) t.buf })
    lift_addr (Addr.from (codes "tcp") name (better_ip name p.ip) (hi * 256 + lo))

  -- The command, and the address it is about.
  unfoldable pub request : Act (ℕ × Addr)
  request = do
    next_message
    s ← session
    ensure (leb 7 s.n) (refuse (cmd_too_short s.n))
    v ← index 0 s.buf
    ensure (v == version5) (refuse (second_version_wrong v))
    cmd ← index 1 s.buf
    ensure (not (cmd == cmd_bind)) (refuse bind_unsupported)
    ensure (cmd == cmd_udp_associate || cmd == cmd_connect) (refuse (cmd_unsupported cmd))
    ad ← target
    pure (cmd, ad)

-- The first data, read within 100ms into a buffer of `room` bytes. `late` is whether the time was
-- over first; then, and when the read fails, the zeros that made the room stay.
first_read : ℕ → Outcome IoError Bytes × Conn → Act (Unit {0})
first_read room (ok bs, c) s = (ok tt, record s { buf = bs; base = c })
first_read room (err e, c) s = (ok tt, record s { buf = zeroed room; base = c })
first_read room (panic, c) s = (panic, record s { buf = zeroed room; base = c })

first_data_in : Bool → ℕ → Bytes → Act (Unit {0})
unfolding first_read
first_data_in late room [] s =
    if late
    then (ok tt, record s { buf = zeroed room })
    else first_read room (Conn.read room s.base) s
first_data_in late room (_ ∷ _) s = (ok tt, s)

unfoldable pub first_data : Bool → ℕ → Act (Unit {0})
unfolding first_data_in
first_data late room s = first_data_in late room s.buf s
