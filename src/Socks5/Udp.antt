-- ===== src/Socks5/Udp.antt =====
-- src/map/socks5/udp.rs: the datagram connection of a SOCKS5 client. What the socket received or how it
-- sent is an argument, and so is `resolve`, by which an address becomes one of a socket.
pub mod Delivers
use ruci.Prelude.{
  ℕ, ◌+◌, Bool, Option, some, none, [], ◌++◌, min, take, length, if◌then◌else◌, Bytes,
}
use ruci.Prelude.Monad.{Outcome, ok, err, panic}
use ruci.Utf8.{Text}
use ruci.Net.Addr.{Addr, NetAddr, SocketAddr, socket, name, name_and_socket, udp, eq_socket_addr}
use ruci.Socks5.Diagram.{DiagramError, decode_udp_diagram, encode_udp_diagram}

-- What a poll of the connection gives: `E` are the errors of the socket and of `resolve`.
pub data Polled (E A : Type 0) : Type 0 where
  pending panicked : Polled E A
  ready : A → Polled E A
  failed : E → Polled E A
  malformed : DiagramError → Polled E A

-- `Addr::get_socket_addr_or_resolve`, over the resolver of names.
unfoldable pub get_socket_addr_or_resolve :
    {E : Type 0} → (Text → ℕ → Outcome E SocketAddr) → NetAddr → Outcome E SocketAddr
get_socket_addr_or_resolve to_socket_addrs (socket so) = ok so
get_socket_addr_or_resolve to_socket_addrs (name_and_socket _ so _) = ok so
get_socket_addr_or_resolve to_socket_addrs (name n port) = to_socket_addrs n port

module _ {E : Type 0} (to_socket_addrs : Text → ℕ → Outcome E SocketAddr) where
  abbrev pub over_udp : SocketAddr → Addr
  over_udp so = record { addr = socket so; network = udp }

  -- `poll_send_to` is given the datagram for the peer.
  send : (Bytes → Polled E ℕ) → Bytes → Outcome E SocketAddr → Polled E ℕ
  send poll_send_to buf (ok so) = poll_send_to (encode_udp_diagram (over_udp so) [] ++ buf)
  send poll_send_to buf (err e) = failed e
  send poll_send_to buf panic = panicked

  unfoldable pub poll_write_addr : (Bytes → Polled E ℕ) → Bytes → Addr → Polled E ℕ
  unfolding send
  poll_write_addr poll_send_to buf addr =
      send poll_send_to buf (get_socket_addr_or_resolve to_socket_addrs addr.addr)

  with_rest : Bytes → Outcome E SocketAddr → Polled E (Bytes × SocketAddr)
  with_rest bf (ok soa) = ready (bf, soa)
  with_rest bf (err e) = failed e
  with_rest bf panic = panicked

  resolved : Outcome DiagramError Addr × Bytes → Polled E (Bytes × SocketAddr)
  unfolding with_rest
  resolved (ok a, bf) = with_rest bf (get_socket_addr_or_resolve to_socket_addrs a.addr)
  resolved (err e, bf) = malformed e
  resolved (panic, bf) = panicked

  unfoldable pub decode_read : Bytes → Polled E (Bytes × SocketAddr)
  unfolding resolved
  decode_read bs = resolved (decode_udp_diagram bs)

  -- The bytes that fit into a buffer of `room` bytes, and where they came from.
  copied : ℕ → Polled E (Bytes × SocketAddr) → Polled E (Bytes × Addr)
  copied room (ready (actual_buf, soa)) =
      ready (take (min room (length actual_buf)) actual_buf, over_udp soa)
  copied room (failed e) = failed e
  copied room (malformed e) = malformed e
  copied room pending = pending
  copied room panicked = panicked

  -- A datagram from another socket than the peer is dropped.
  on_received : SocketAddr → ℕ → SocketAddr → Bytes → Polled E (Bytes × Addr)
  unfolding copied
  on_received peer_soa room so bs =
      if eq_socket_addr so peer_soa then copied room (decode_read bs) else pending

  -- `received` is what `poll_recv_from` gave.
  unfoldable pub poll_read_addr :
      SocketAddr → ℕ → Polled E (Bytes × SocketAddr) → Polled E (Bytes × Addr)
  unfolding on_received
  poll_read_addr peer_soa room (ready (bs, so)) = on_received peer_soa room so bs
  poll_read_addr peer_soa room (failed e) = failed e
  poll_read_addr peer_soa room (malformed e) = malformed e
  poll_read_addr peer_soa room pending = pending
  poll_read_addr peer_soa room panicked = panicked
