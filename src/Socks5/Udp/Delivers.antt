-- ===== src/Socks5/Udp/Delivers.antt =====
-- What two ends of a datagram connection of SOCKS5 tell each other (src/map/socks5/udp.rs).
use ruci.Prelude.{
  ℕ, ◌+◌, ◌-◌, ◌∙◌, take-append_behind, ◌≤◌, ◌<◌, ◌≡◌, ap, true, [], ◌∷◌, ◌++◌, min, take, length,
  length-append, arith, Bytes,
}
use ruci.Prelude.Monad.{Outcome, ok, err}
use ruci.Utf8.{Text}
use ruci.Net.Addr.{IpAddr, Addr, SocketAddr, v4, v6, socket, udp, eq_socket_addr}
use ruci.Net.Helpers.RoundTrip.{
  IsSocketAddr, on_wire, so_size, length-addr_to_socks5_bytes_socket, addr_to_socks5_bytes-append,
}
use ruci.Socks5.Diagram.{decode_udp_diagram, encode_udp_diagram, diagram_length}
use ruci.Socks5.Diagram.RoundTrip.{decode_udp_diagram-encode_udp_diagram}
use ruci.Socks5.Udp.{
  Polled, ready, malformed, get_socket_addr_or_resolve, send, resolved, poll_write_addr, copied,
  on_received, poll_read_addr, decode_read, with_rest,
}

-- The datagram that a payload for a socket is sent in.
abbrev pub diagram : SocketAddr → Bytes → Bytes
diagram so buf = encode_udp_diagram (record { addr = socket so; network = udp }) [] ++ buf

header : SocketAddr → Bytes
header so = encode_udp_diagram (record { addr = socket so; network = udp }) []

length-header : (so : SocketAddr) → length (header so) ≡ 3 + so_size so.ip
unfolding header encode_udp_diagram
length-header so = omega (
  arith,
  ap (λ (b : Bytes). length b) (addr_to_socks5_bytes-append (socket so) udp (0 ∷ 0 ∷ 0 ∷ [])),
  length-addr_to_socks5_bytes_socket so udp,
)

length-diagram :
    (so : SocketAddr) (buf : Bytes) → length (diagram so buf) ≡ 3 + so_size so.ip + length buf
unfolding header
length-diagram so buf = omega (arith, length-append (header so) buf, length-header so)

pub so_size_bounds : (i : IpAddr) → (7 ≤ so_size i) × (so_size i ≤ 19)
so_size_bounds (v4 _) = (omega arith, omega arith)
so_size_bounds (v6 _) = (omega arith, omega arith)

-- A buffer of 22 bytes or more holds the header and the front of the payload.
pub take-diagram :
    (n : ℕ) (so : SocketAddr) (buf : Bytes)
    → 22 ≤ n
    → take n (diagram so buf) ≡ diagram so (take (n - (3 + so_size so.ip)) buf)
unfolding header
take-diagram n so buf h =
    take-append_behind n (header so) buf (omega (arith, length-header so, so_size_bounds so.ip))
    ∙ ap (λ k. diagram so (take (n - k) buf)) (length-header so)

decode_short :
    (b : Bytes) (n : ℕ) → length b ≡ n → n < 11 → decode_udp_diagram b ≡ (err (diagram_length n), b)
unfolding decode_udp_diagram
decode_short b n e h = rw (e) (ground arith)

pub decoded-diagram :
    (so : SocketAddr) (buf : Bytes)
    → IsSocketAddr so
    → 1 ≤ length buf
    → decode_udp_diagram (diagram so buf) ≡ (ok (record { addr = socket so; network = udp }), buf)
unfolding on_wire
decoded-diagram so buf h l =
    decode_udp_diagram-encode_udp_diagram (socket so) udp buf h tt
      (omega (arith, length-diagram so buf, so_size_bounds so.ip))

module _ {E : Type 0} (res : Text → ℕ → Outcome E SocketAddr) where
  decode_read-diagram :
      (so : SocketAddr) (buf : Bytes)
      → IsSocketAddr so
      → 1 ≤ length buf
      → decode_read res (diagram so buf) ≡ ready (buf, so)
  unfolding decode_read get_socket_addr_or_resolve with_rest
  decode_read-diagram so buf h l = ap (resolved res) (decoded-diagram so buf h l)

  -- What is written for an address goes out as one datagram, which the connection at the other end,
  -- whose peer sent it, reads as the payload, cut to the room there, and the socket that the address
  -- resolved to; the payload must not be empty.
  pub poll_read_addr-poll_write_addr :
      (poll_send_to : Bytes → Polled E ℕ) (addr : Addr) (so from peer : SocketAddr) (buf : Bytes)
      (room : ℕ)
      → get_socket_addr_or_resolve res addr.addr ≡ ok so
      → IsSocketAddr so
      → 1 ≤ length buf
      → eq_socket_addr from peer ≡ true
      → poll_write_addr res poll_send_to buf addr ≡ poll_send_to (diagram so buf)
        × poll_read_addr res peer room (ready (diagram so buf, from))
          ≡ ready (take (min room (length buf)) buf, record { addr = socket so; network = udp })
  unfolding poll_write_addr poll_read_addr on_received send
  poll_read_addr-poll_write_addr poll_send_to addr so from peer buf room r h l e = (
    ap (send res poll_send_to buf) r,
    rw e (ap (copied res room) (decode_read-diagram so buf h l)),
  )

  -- An empty payload for an IPv4 socket goes out as ten bytes, which the other end refuses as too
  -- short.
  pub poll_read_addr-empty :
      (a port room : ℕ) (from peer : SocketAddr)
      → eq_socket_addr from peer ≡ true
      → poll_read_addr res peer room (ready (diagram (record { ip = v4 a; port = port }) [], from))
        ≡ malformed (diagram_length 10)
  unfolding poll_read_addr on_received decode_read
  poll_read_addr-empty a port room from peer e =
      let so : SocketAddr = record { ip = v4 a; port = port } in
      rw e (
        ap (λ r. copied res room (resolved res r))
          (decode_short (diagram so []) 10 (length-diagram so []) (omega arith)))
