-- ===== src/Socks5/Diagram/RoundTrip.antt =====
-- Datagrams that `decode_udp_diagram` reads back (src/map/socks5/mod.rs).
use ruci.Prelude.{
  ℕ, zero, suc, ◌≤◌, ◌≡◌, ◌≢◌, ap, ◌∙◌, [], ◌∷◌, ◌++◌, arith, Bytes, IsByte, All, length,
  length-drop, drop, be_value,
}
use ruci.Prelude.Monad.{ok, panic, get_be, take_bytes}
use ruci.Net.Addr.{Addr, NetAddr, Network, udp}
use ruci.Net.Helpers.{socks5_bytes_to_addr}
use ruci.Net.Helpers.RoundTrip.{
  IsNetAddr, IsDecodable, on_wire, socks5_bytes_to_addr-addr_to_socks5_bytes,
  addr_to_socks5_bytes-append,
}
use ruci.Net.Helpers.Safe.{socks5_bytes_to_addr-TakesAddr}
use ruci.Socks5.Diagram.{decode_udp_diagram, encode_udp_diagram}

decoded :
    (b rest : Bytes) (a : Addr)
    → 8 ≤ length b
    → socks5_bytes_to_addr b ≡ (ok a, rest)
    → decode_udp_diagram (0 ∷ 0 ∷ 0 ∷ b) ≡ (ok (record a { network = udp }), rest)
unfolding decode_udp_diagram get_be take_bytes be_value
decoded b rest a h e = ground arith

-- Decoding a datagram that was encoded for an address gives the address that the wire form keeps,
-- over udp, and leaves the payload; the datagram must hold 11 bytes.
pub decode_udp_diagram-encode_udp_diagram :
    (a : NetAddr) (network : Network) (payload : Bytes)
    → IsNetAddr a
    → IsDecodable a payload
    → 11 ≤ length (encode_udp_diagram (record { addr = a; network = network }) [] ++ payload)
    → decode_udp_diagram (encode_udp_diagram (record { addr = a; network = network }) [] ++ payload)
      ≡ (ok (record { addr = on_wire a; network = udp }), payload)
unfolding encode_udp_diagram
decode_udp_diagram-encode_udp_diagram a nw payload h d l =
    let appended = addr_to_socks5_bytes-append a nw (0 ∷ 0 ∷ 0 ∷ []) in
    ap (λ (b : Bytes). decode_udp_diagram (b ++ payload)) appended
    ∙ decoded _ payload _ (omega (arith, ap (λ (b : Bytes). length (b ++ payload)) appended))
        (socks5_bytes_to_addr-addr_to_socks5_bytes a nw payload h d)

drop-IsByte : (n : ℕ) (b : Bytes) → All IsByte b → All IsByte (drop n b)
drop-IsByte zero b h = h
drop-IsByte (suc n) [] h = tt
drop-IsByte (suc n) (x ∷ b) h = drop-IsByte n b h.1

-- On any bytes the decoder does not panic.
pub decode_udp_diagram-ne-panic :
    (buf : Bytes) → All IsByte buf → (decode_udp_diagram buf).0 ≢ panic
unfolding decode_udp_diagram get_be take_bytes
decode_udp_diagram-ne-panic buf h = ground (
  arith,
  length-drop 2 buf,
  socks5_bytes_to_addr-TakesAddr (drop 1 (drop 2 buf))
      (drop-IsByte 1 (drop 2 buf) (drop-IsByte 2 buf h)),
)
