-- ===== src/Net/Helpers/RoundTrip.antt =====
-- Decoding what the encoder wrote (src/net/helpers.rs).
use ruci.Prelude.{
  ℕ, ◌+◌, ◌^◌, ◌<◌, ◌≤◌, ◌≡◌, refl, ap, ◌∙◌, [], ◌∷◌, ◌++◌, ltb, if◌then◌else◌, Bool-cases, inl,
  inr, append_assoc, arith, Bytes, IsU16, length, length-append, be_bytes, length-be_bytes,
}
use ruci.Prelude.Monad.{ok, get_be, take_bytes-append, get_be-be_bytes, get_be_byte}
use mathlib.Core.Path.{ap₂}
use ruci.Utf8.{Text}
use ruci.Utf8.Strings.{IsString}
use ruci.Net.Addr.{
  IpAddr, v4, v6, SocketAddr, NetAddr, socket, name, name_and_socket, Network, tcp, from_ipname,
  IpName,
}
use ruci.Net.Helpers.{
  WireError, atyp_ip4, atyp_ip6, atyp_domain, name_bytes, so_bytes, so_to_socks5_bytes,
  addr_to_socks5_bytes, read_ipname, socks5_bytes_to_addr,
}

abbrev pub IsIp : IpAddr → Type 0
IsIp (v4 a) = a < 2 ^ 32
IsIp (v6 a) = a < 2 ^ 128

abbrev pub IsSocketAddr : SocketAddr → Type 0
IsSocketAddr so = IsIp so.ip × IsU16 so.port

-- The values that the Rust types hold.
abbrev pub IsNetAddr : NetAddr → Type 0
IsNetAddr (socket so) = IsSocketAddr so
IsNetAddr (name n p) = IsString n × IsU16 p
IsNetAddr (name_and_socket n so p) = IsString n × IsSocketAddr so × IsU16 p

-- What the wire form keeps of an address: the name if it has one that fits, else the socket.
unfoldable pub on_wire : NetAddr → NetAddr
on_wire (socket so) = socket so
on_wire (name n p) = name n p
on_wire (name_and_socket n so p) = if ltb 255 (length n) then socket so else name n p

-- One run of the decoder, from the runs of its two parts.
decoded :
    (at p : ℕ) (bs mid rest : Bytes) (ipn : IpName)
    → 7 ≤ length (at ∷ bs)
    → read_ipname at bs ≡ (ok ipn, mid)
    → get_be {E = WireError} 2 mid ≡ (ok p, rest)
    → socks5_bytes_to_addr (at ∷ bs) ≡ (ok (from_ipname ipn p), rest)
unfolding socks5_bytes_to_addr
decoded at p bs mid rest ipn h r g = ground (arith, get_be_byte {E = WireError} at bs)

module _ (p : ℕ) (rest : Bytes) where
  port : Bytes
  port = be_bytes 2 p ++ rest

  length-port : length port ≡ 2 + length rest
  unfolding port
  length-port = omega (arith, length-append (be_bytes 2 p) rest, length-be_bytes 2 p)

  read_ip4_lem :
      (a : ℕ)
      → a < 2 ^ 32
      → read_ipname atyp_ip4 (be_bytes 4 a ++ port) ≡ (ok (IpName.ip (v4 a)), port)
  unfolding read_ipname
  read_ip4_lem a h = ground (
    arith,
    length-append (be_bytes 4 a) port,
    length-be_bytes 4 a,
    length-port,
    get_be-be_bytes {E = WireError} 4 a port,
  )

  read_ip6_lem :
      (a : ℕ)
      → a < 2 ^ 128
      → read_ipname atyp_ip6 (be_bytes 16 a ++ port) ≡ (ok (IpName.ip (v6 a)), port)
  unfolding read_ipname
  read_ip6_lem a h = ground (
    arith,
    length-append (be_bytes 16 a) port,
    length-be_bytes 16 a,
    length-port,
    get_be-be_bytes {E = WireError} 16 a port,
  )

  read_domain_lem :
      (n : Text)
      → IsString n
      → 1 ≤ length n + length rest
      → read_ipname atyp_domain (length n ∷ n ++ port) ≡ (ok (IpName.name n), port)
  unfolding read_ipname
  read_domain_lem n s h = ground (
    arith,
    s,
    length-append n port,
    length-port,
    get_be_byte {E = WireError} (length n) (n ++ port),
    take_bytes-append {E = WireError} (length n) n port refl,
  )

  so_round_trip :
      (i : IpAddr)
      → IsIp i
      → IsU16 p
      → socks5_bytes_to_addr (so_bytes i p ++ rest)
        ≡ (ok (record { addr = socket (record { ip = i; port = p }); network = tcp }), rest)
  unfolding so_bytes from_ipname port
  so_round_trip (v4 a) h k =
      ap (λ (b : Bytes). socks5_bytes_to_addr (atyp_ip4 ∷ b))
        (append_assoc (be_bytes 4 a) (be_bytes 2 p) rest)
      ∙ decoded atyp_ip4 p _ port rest (IpName.ip (v4 a))
          (omega (arith, length-append (be_bytes 4 a) port, length-be_bytes 4 a, length-port))
          (read_ip4_lem a h) (get_be-be_bytes 2 p rest k)
  so_round_trip (v6 a) h k =
      ap (λ (b : Bytes). socks5_bytes_to_addr (atyp_ip6 ∷ b))
        (append_assoc (be_bytes 16 a) (be_bytes 2 p) rest)
      ∙ decoded atyp_ip6 p _ port rest (IpName.ip (v6 a))
          (omega (arith, length-append (be_bytes 16 a) port, length-be_bytes 16 a, length-port))
          (read_ip6_lem a h) (get_be-be_bytes 2 p rest k)

  name_round_trip :
      (n : Text)
      → IsString n
      → IsU16 p
      → length n < 256
      → 3 ≤ length n + length rest
      → socks5_bytes_to_addr (name_bytes n p ++ rest)
        ≡ (ok (record { addr = name n p; network = tcp }), rest)
  unfolding name_bytes from_ipname port
  name_round_trip n s k l e =
      ap₂ (λ (x : ℕ) (b : Bytes). socks5_bytes_to_addr (atyp_domain ∷ x ∷ b)) (omega arith)
        (append_assoc n (be_bytes 2 p) rest)
      ∙ decoded atyp_domain p _ port rest (IpName.name n)
          (omega (arith, length-append n port, length-port)) (read_domain_lem n s (omega arith))
          (get_be-be_bytes 2 p rest k)

-- The bytes that the encoder appends; a name of less than 3 bytes leans on what follows it.
abbrev pub IsDecodable : NetAddr → Bytes → Type 0
IsDecodable (socket so) rest = Unit {0}
IsDecodable (name n p) rest = (length n < 256) × (3 ≤ length n + length rest)
IsDecodable (name_and_socket n so p) rest = 3 ≤ length n + length rest

-- A bare name must fit its length byte.
abbrev pub FitsWire : NetAddr → Type 0
FitsWire (name n p) = length n < 256
FitsWire _ = Unit {0}

pub FitsWire-IsDecodable :
    (a : NetAddr) (rest : Bytes) → 3 ≤ length rest → FitsWire a → IsDecodable a rest
FitsWire-IsDecodable (socket so) rest h f = tt
FitsWire-IsDecodable (name n p) rest h f = omega arith
FitsWire-IsDecodable (name_and_socket n so p) rest h f = omega arith

-- Decoding what the encoder appended gives the address that the wire form keeps, over tcp, and
-- leaves whatever follows. A bare name must fit its length byte, and name and rest together must
-- hold three bytes.
pub socks5_bytes_to_addr-addr_to_socks5_bytes :
    (a : NetAddr) (network : Network) (rest : Bytes)
    → IsNetAddr a
    → IsDecodable a rest
    → socks5_bytes_to_addr
        (addr_to_socks5_bytes (record { addr = a; network = network }) [] ++ rest)
      ≡ (ok (record { addr = on_wire a; network = tcp }), rest)
unfolding addr_to_socks5_bytes so_to_socks5_bytes on_wire
socks5_bytes_to_addr-addr_to_socks5_bytes (socket so) nw rest h d =
    so_round_trip so.port rest so.ip h.0 h.1
socks5_bytes_to_addr-addr_to_socks5_bytes (name n p) nw rest h d =
    name_round_trip p rest n h.0 h.1 d.0 d.1
socks5_bytes_to_addr-addr_to_socks5_bytes (name_and_socket n so p) nw rest h d =
    elim (Bool-cases (ltb 255 (length n))) [
      | inl long ↦ rw (long, on_wire) (so_round_trip so.port rest so.ip h.1.0 h.1.1)
      | inr short ↦ rw (short, on_wire) (name_round_trip p rest n h.0 h.2 (ground arith) d)
    ]

-- The encoder appends: what it writes does not depend on what `buf` holds.
pub addr_to_socks5_bytes-append :
    (a : NetAddr) (network : Network) (buf : Bytes)
    → addr_to_socks5_bytes (record { addr = a; network = network }) buf
      ≡ buf ++ addr_to_socks5_bytes (record { addr = a; network = network }) []
unfolding addr_to_socks5_bytes so_to_socks5_bytes
addr_to_socks5_bytes-append (socket so) nw buf = refl
addr_to_socks5_bytes-append (name n p) nw buf = refl
addr_to_socks5_bytes-append (name_and_socket n so p) nw buf =
    elim (Bool-cases (ltb 255 (length n))) [
      | inl long ↦ rw (long, addr_to_socks5_bytes)
      | inr short ↦ rw (short, addr_to_socks5_bytes)
    ]

length-so_bytes : (i : IpAddr) (p : ℕ) → 4 ≤ length (so_bytes i p)
unfolding so_bytes
length-so_bytes (v4 a) p =
    omega (arith, length-append (be_bytes 4 a) (be_bytes 2 p), length-be_bytes 4 a)
length-so_bytes (v6 a) p =
    omega (arith, length-append (be_bytes 16 a) (be_bytes 2 p), length-be_bytes 16 a)

-- An address takes four bytes at least.
pub length-addr_to_socks5_bytes :
    (a : NetAddr) (network : Network)
    → 4 ≤ length (addr_to_socks5_bytes (record { addr = a; network = network }) [])
unfolding addr_to_socks5_bytes so_to_socks5_bytes
length-addr_to_socks5_bytes (socket so) nw = length-so_bytes so.ip so.port
length-addr_to_socks5_bytes (name n p) nw =
    omega (arith, length-append n (be_bytes 2 p), length-be_bytes 2 p)
length-addr_to_socks5_bytes (name_and_socket n so p) nw =
    ground
      (arith, length-append n (be_bytes 2 p), length-be_bytes 2 p, length-so_bytes so.ip so.port)

-- The bytes that an ip and a port take.
abbrev pub so_size : IpAddr → ℕ
so_size (v4 _) = 7
so_size (v6 _) = 19

length-so_bytes_size : (i : IpAddr) (p : ℕ) → length (so_bytes i p) ≡ so_size i
unfolding so_bytes
length-so_bytes_size (v4 a) p =
    omega
      (arith, length-append (be_bytes 4 a) (be_bytes 2 p), length-be_bytes 4 a, length-be_bytes 2 p)
length-so_bytes_size (v6 a) p =
    omega (
      arith,
      length-append (be_bytes 16 a) (be_bytes 2 p),
      length-be_bytes 16 a,
      length-be_bytes 2 p,
    )

pub length-addr_to_socks5_bytes_socket :
    (so : SocketAddr) (network : Network)
    → length (addr_to_socks5_bytes (record { addr = socket so; network = network }) [])
      ≡ so_size so.ip
unfolding addr_to_socks5_bytes so_to_socks5_bytes
length-addr_to_socks5_bytes_socket so nw = length-so_bytes_size so.ip so.port
