-- ===== src/Tests/Net.antt =====
-- Addresses and their wire form (src/net, src/map/socks5/mod.rs) on concrete inputs.
use ruci.Prelude.{◌≤◌, ◌≡◌, refl, true, be_bytes, [], ◌∷◌, ◌++◌, arith, codes, length}
use ruci.Prelude.Monad.{ok, err}
use ruci.Utf8.Strings.{ascii-IsString}
use ruci.Net.Addr.{v4, v6, SocketAddr, NetAddr, socket, name, tcp, udp, eq_socket_addr}
use ruci.Net.Helpers.{socks5_bytes_to_addr, so_to_socks5_bytes, addr_to_socks5_bytes, length_wrong}
use ruci.Net.Helpers.Safe.{TakesAddr, socks5_bytes_to_addr-TakesAddr}
use ruci.Net.Helpers.RoundTrip.{on_wire, socks5_bytes_to_addr-addr_to_socks5_bytes}
use ruci.Socks5.Diagram.{decode_udp_diagram, encode_udp_diagram}
use ruci.Socks5.Diagram.RoundTrip.{decode_udp_diagram-encode_udp_diagram}

abbrev www : NetAddr
www = name (codes "www.b") 43

abbrev local : SocketAddr
local = record { ip = v4 0x7f00_0001; port = 80 }

-- The bytes of the test in src/map/trojan/udp.rs.
www_bytes :
    addr_to_socks5_bytes (record { addr = www; network = udp }) []
    ≡ 3 ∷ 5 ∷ 119 ∷ 119 ∷ 119 ∷ 46 ∷ 98 ∷ 0 ∷ 43 ∷ []
unfolding addr_to_socks5_bytes be_bytes
www_bytes = refl

-- A one-letter name with nothing behind it is too short for the first length check.
short_name : (socks5_bytes_to_addr (3 ∷ 1 ∷ 97 ∷ 0 ∷ 80 ∷ [])).0 ≡ err (length_wrong 1 5)
unfolding socks5_bytes_to_addr
short_name = refl

eq_socket_addr_test : eq_socket_addr local (record { ip = v6 0; port = 80 }) ≡ true
unfolding eq_socket_addr
eq_socket_addr_test = refl

socks5_bytes_to_addr-TakesAddr_example :
    TakesAddr 7 (socks5_bytes_to_addr (1 ∷ 127 ∷ 0 ∷ 0 ∷ 1 ∷ 0 ∷ 80 ∷ []))
socks5_bytes_to_addr-TakesAddr_example =
    socks5_bytes_to_addr-TakesAddr (1 ∷ 127 ∷ 0 ∷ 0 ∷ 1 ∷ 0 ∷ 80 ∷ []) (omega arith)

socks5_bytes_to_addr-addr_to_socks5_bytes_example :
    socks5_bytes_to_addr
      (addr_to_socks5_bytes (record { addr = www; network = udp }) [] ++ (9 ∷ []))
    ≡ (ok (record { addr = on_wire www; network = tcp }), 9 ∷ [])
socks5_bytes_to_addr-addr_to_socks5_bytes_example =
    socks5_bytes_to_addr-addr_to_socks5_bytes www udp (9 ∷ [])
      (ascii-IsString (codes "www.b") (omega arith), omega arith) (omega arith)

encoded_length :
    11 ≤ length (encode_udp_diagram (record { addr = socket local; network = tcp }) [] ++ (7 ∷ []))
unfolding encode_udp_diagram addr_to_socks5_bytes so_to_socks5_bytes be_bytes
encoded_length = omega arith

decode_udp_diagram-encode_udp_diagram_example :
    decode_udp_diagram
      (encode_udp_diagram (record { addr = socket local; network = tcp }) [] ++ (7 ∷ []))
    ≡ (ok (record { addr = on_wire (socket local); network = udp }), 7 ∷ [])
decode_udp_diagram-encode_udp_diagram_example =
    decode_udp_diagram-encode_udp_diagram (socket local) tcp (7 ∷ []) (omega arith, omega arith) tt
      encoded_length
