-- ===== src/Net/Helpers.antt =====
-- src/net/helpers.rs: an address in the form that SOCKS5 and trojan put on the wire.
pub mod Safe
pub mod RoundTrip
use ruci.Prelude.{
  ℕ, ◌+◌, ◌%◌, List, [], ◌∷◌, ◌++◌, ltb, leb, ◌==◌, if◌then◌else◌, Bytes, length, be_bytes,
}
use ruci.Prelude.Monad.{Buf, ◌>>=◌, ◌>>◌, pure, fail, ensure, len, take_bytes, get_be}
use ruci.Utf8.{from_utf8_lossy}
use ruci.Net.Addr.{
  v4, v6, IpAddr, SocketAddr, NetAddr, socket, name, name_and_socket, Addr, IpName, from_ipname,
}

-- `length_wrong i n` is the i-th length check of `socks5_bytes_to_addr`, at `n` bytes.
pub data WireError : Type 0 where
  length_wrong : ℕ → ℕ → WireError
  atyp_wrong : ℕ → WireError

abbrev pub max_len_socks5_bytes : ℕ
max_len_socks5_bytes = 2 + 2 + 255

abbrev pub atyp_ip4 : ℕ
atyp_ip4 = 1

abbrev pub atyp_domain : ℕ
atyp_domain = 3

abbrev pub atyp_ip6 : ℕ
atyp_ip6 = 4

-- `if buf.len() < n { return Err(..) }`
abbrev need : ℕ → ℕ → Buf WireError (Unit {0})
need i n = do l ← len; ensure (leb n l) (length_wrong i l)

read_ip4 : Buf WireError IpName
read_ip4 = do need 2 6; num ← get_be 4; pure (IpName.ip (v4 num))

read_ip6 : Buf WireError IpName
read_ip6 = do need 3 18; num ← get_be 16; pure (IpName.ip (v6 num))

read_domain : Buf WireError IpName
read_domain = do
  need 4 4
  dn ← get_be 1
  need 5 (dn + 2)
  bs ← take_bytes dn
  pure (IpName.name (from_utf8_lossy bs))

read_ipname : ℕ → Buf WireError IpName
unfolding read_ip4 read_ip6 read_domain
read_ipname at =
    if at == atyp_ip4
    then read_ip4
    else if at == atyp_ip6
    then read_ip6
    else if at == atyp_domain
    then read_domain
    else fail (atyp_wrong at)

unfoldable pub socks5_bytes_to_addr : Buf WireError Addr
unfolding read_ipname
socks5_bytes_to_addr = do
  need 1 7
  at ← get_be 1
  ipn ← read_ipname at
  port ← get_be 2
  pure (from_ipname ipn port)

-- The writers append to `buf`, as `BytesMut` does; an octet array is the number's big-endian form.
so_bytes : IpAddr → ℕ → Bytes
so_bytes (v4 a) port = atyp_ip4 ∷ be_bytes 4 a ++ be_bytes 2 port
so_bytes (v6 a) port = atyp_ip6 ∷ be_bytes 16 a ++ be_bytes 2 port

unfoldable pub so_to_socks5_bytes : SocketAddr → Bytes → Bytes
unfolding so_bytes
so_to_socks5_bytes so buf = buf ++ so_bytes so.ip so.port

-- `nbs.len() as u8` keeps the lowest byte of the length.
name_bytes : Bytes → ℕ → Bytes
name_bytes nbs p = atyp_domain ∷ length nbs % 256 ∷ (nbs ++ be_bytes 2 p)

net_addr_to_socks5_bytes : NetAddr → Bytes → Bytes
net_addr_to_socks5_bytes (socket so) buf = so_to_socks5_bytes so buf
net_addr_to_socks5_bytes (name n p) buf = buf ++ name_bytes n p
net_addr_to_socks5_bytes (name_and_socket n so p) buf =
    if ltb 255 (length n) then so_to_socks5_bytes so buf else buf ++ name_bytes n p

unfoldable pub addr_to_socks5_bytes : Addr → Bytes → Bytes
unfolding net_addr_to_socks5_bytes name_bytes
addr_to_socks5_bytes ta buf = net_addr_to_socks5_bytes ta.addr buf
