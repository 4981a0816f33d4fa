-- ===== src/Socks5/Diagram.antt =====
-- src/map/socks5/mod.rs: the header of a UDP datagram. The fragment number is read and ignored.
pub mod RoundTrip
use ruci.Prelude.{ℕ, List, [], ◌∷◌, ◌++◌, leb, ◌==◌, Bytes}
use ruci.Prelude.Monad.{Buf, ◌>>=◌, ◌>>◌, pure, ensure, len, get_be, with_context}
use ruci.Net.Addr.{Addr, udp}
use ruci.Net.Helpers.{WireError, socks5_bytes_to_addr, addr_to_socks5_bytes}

pub data DiagramError : Type 0 where
  diagram_length : ℕ → DiagramError
  first_two_bytes : ℕ → DiagramError
  in_address : WireError → DiagramError

unfoldable pub decode_udp_diagram : Buf DiagramError Addr
decode_udp_diagram = do
  l ← len
  ensure (leb 11 l) (diagram_length l)
  first ← get_be 2
  ensure (first == 0) (first_two_bytes first)
  frag ← get_be 1
  ad ← with_context in_address socks5_bytes_to_addr
  pure (record ad { network = udp })

-- `put_u16(0)`, `put_u8(0)`, then the address.
unfoldable pub encode_udp_diagram : Addr → Bytes → Bytes
encode_udp_diagram ad buf = addr_to_socks5_bytes ad (buf ++ (0 ∷ 0 ∷ 0 ∷ []))
