-- ===== src/Socks5/Server/Udp.antt =====
-- src/map/socks5/server/udp.rs: the datagrams of an association. Two tasks share the socket and a
-- channel: one reads from the user and from the remotes, the other writes. The state is that of both,
-- and an event is what one of them does next. Waiting for a place in the channel is left out.
pub mod Exchange
pub mod Addressed
use ruci.Prelude.{
  ℕ, Bool, true, false, ◌||◌, ◌==◌, Option, some, none, List, [], ◌∷◌, ◌++◌, if◌then◌else◌, take,
  Bytes,
}
use ruci.Prelude.Monad.{Outcome, ok, err, panic}
use ruci.Utf8.{Text}
use ruci.Net.Addr.{
  Addr, IpAddr, v4, v6, NetAddr, SocketAddr, socket, udp, eq_ip, get_ip, get_port, is_unspecified,
}
use ruci.Socks5.Diagram.{DiagramError, decode_udp_diagram, encode_udp_diagram}
use ruci.Socks5.Udp.{get_socket_addr_or_resolve}

-- Where a datagram came from, if not from the user, its bytes, and where it goes.
abbrev pub Message : Type 0
Message = Option SocketAddr × (Bytes × SocketAddr)

pub data Status (E : Type 0) : Type 0 where
  running ended panicked channel_closed : Status E
  failed : E → Status E
  malformed : DiagramError → Status E

pub record Association (E : Type 0) : Type 0 where
  pub user : SocketAddr
  pub status : Status E
  pub channel : List Message
  pub writing : Bool
  pub sent : List (Bytes × SocketAddr)

pub data Event (E : Type 0) : Type 0 where
  tcp_read : Bytes → Event E
  tcp_failed : Event E
  received : Bytes → SocketAddr → Event E
  recv_failed : E → Event E
  wrote : Bool → Event E

-- The bytes of the buffer that a datagram is received into; the end of a longer one is lost.
abbrev pub cap : ℕ
cap = 1500

module _ {E : Type 0} (to_socket_addrs : Text → ℕ → Outcome E SocketAddr) where
  on_ip : Option IpAddr → ℕ → Association E
  on_ip (some i) port = record {
    user = record { ip = i; port = port };
    status = running;
    channel = [];
    writing = true;
    sent = [];
  }
  on_ip none port = record {
    user = record { ip = v4 0; port = port };
    status = panicked;
    channel = [];
    writing = true;
    sent = [];
  }

  -- `expect` panics for an address that is a name only.
  unfoldable pub start : Addr → Association E
  unfolding on_ip
  start client_future_addr = on_ip (get_ip client_future_addr) (get_port client_future_addr)

  -- `tx.send`, which fails when the writer has ended.
  push : Message → Association E → Association E
  push x s =
      if s.writing
      then record s { channel = s.channel ++ x ∷ [] }
      else record s { status = channel_closed }

  -- A target that does not resolve is skipped.
  to_remote : Bytes → Outcome E SocketAddr → Association E → Association E
  unfolding push
  to_remote buf (ok so) s = push (none, (buf, so)) s
  to_remote buf (err e) s = s
  to_remote buf panic s = record s { status = panicked }

  on_decoded : Outcome DiagramError Addr × Bytes → Association E → Association E
  unfolding to_remote
  on_decoded (ok a, buf) s = to_remote buf (get_socket_addr_or_resolve to_socket_addrs a.addr) s
  on_decoded (err e, buf) s = record s { status = malformed e }
  on_decoded (panic, buf) s = record s { status = panicked }

  learned : SocketAddr → SocketAddr → SocketAddr
  learned user raddr = if is_unspecified user.ip then raddr else user

  on_datagram : Bytes → SocketAddr → Association E → Association E
  unfolding on_decoded push learned
  on_datagram buf raddr s =
      if is_unspecified s.user.ip || eq_ip raddr.ip s.user.ip
      then on_decoded (decode_udp_diagram buf) (record s { user = learned s.user raddr })
      else push (some raddr, (buf, s.user)) s

  datagram_of : Option SocketAddr → Bytes → Bytes
  datagram_of none buf = buf
  datagram_of (some from) buf =
      encode_udp_diagram (record { addr = socket from; network = udp }) [] ++ buf

  -- The writer takes the oldest message; when a send fails it ends, and drops the others.
  on_written : Bool → List Message → Association E → Association E
  unfolding datagram_of
  on_written sends [] s = s
  on_written true ((from, (buf, to)) ∷ later) s = record s {
    channel = later;
    sent = s.sent ++ (datagram_of from buf, to) ∷ [];
  }
  on_written false (x ∷ later) s = record s { channel = []; writing = false }

  read_event : Event E → Association E → Association E
  unfolding on_datagram
  read_event (tcp_read _) s = s
  read_event tcp_failed s = record s { status = ended }
  read_event (received buf raddr) s = on_datagram (take cap buf) raddr s
  read_event (recv_failed e) s = record s { status = failed e }
  read_event (wrote _) s = s

  while_running : Status E → Event E → Association E → Association E
  unfolding read_event
  while_running running x s = read_event x s
  while_running _ x s = s

  -- The reader takes events while it runs; the writer goes on until the channel is empty.
  unfoldable pub step : Event E → Association E → Association E
  unfolding while_running on_written
  step (wrote sends) s = on_written sends s.channel s
  step x s = while_running s.status x s

  unfoldable pub run : List (Event E) → Association E → Association E
  unfolding step
  run [] s = s
  run (x ∷ xs) s = run xs (step x s)
