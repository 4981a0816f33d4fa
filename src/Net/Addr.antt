-- ===== src/Net/Addr.antt =====
-- src/net/addr.rs: network addresses. A u32 or u128 stands for the address that it numbers; the
-- flow and scope fields of an IPv6 socket address are 0, as `SocketAddr::new` sets them.
pub mod Laws
pub mod Url
use ruci.Prelude.{
  ℕ, ◌+◌, ◌-◌, Bool, true, false, ◌&&◌, ◌||◌, Option, none, some, List, [], ◌∷◌, map, leb, ◌==◌,
  if◌then◌else◌, codes, eq_bytes,
}
use ruci.Prelude.Monad.{Outcome, ok, err}
use ruci.Utf8.{Text, within}

pub data IpAddr : Type 0 where
  v4 v6 : ℕ → IpAddr

pub record SocketAddr : Type 0 where
  pub ip : IpAddr
  pub port : ℕ

pub data NetAddr : Type 0 where
  socket : SocketAddr → NetAddr
  name : Text → ℕ → NetAddr
  name_and_socket : Text → SocketAddr → ℕ → NetAddr

pub data Network : Type 0 where
  ip tcp udp unix : Network

pub record Addr : Type 0 where
  pub addr : NetAddr
  pub network : Network

pub data IpName : Type 0 where
  ip : IpAddr → IpName
  name : Text → IpName

pub data Error : Type 0 where
  unsupported_network neither_ip_nor_host no_socket_addr : Error

abbrev pub Res : Type 0 → Type 0
Res A = Outcome Error A

-- `Addr::default`: tcp://0.0.0.0:0
abbrev pub default : Addr
default = record { addr = socket (record { ip = v4 0; port = 0 }); network = tcp }

-- Equality of values, as Rust derives it.
unfoldable pub eq_ip : IpAddr → IpAddr → Bool
eq_ip (v4 a) (v4 b) = a == b
eq_ip (v6 a) (v6 b) = a == b
eq_ip _ _ = false

unfoldable pub is_unspecified : IpAddr → Bool
is_unspecified (v4 a) = a == 0
is_unspecified (v6 a) = a == 0

unfoldable pub eq_socket_addr : SocketAddr → SocketAddr → Bool
unfolding eq_ip is_unspecified
eq_socket_addr a b =
    if eq_ip a.ip b.ip && a.port == b.port
    then true
    else if a.port == b.port
    then is_unspecified a.ip || is_unspecified b.ip
    else false

unfoldable pub is_tcp_or_udp : Network → Bool
is_tcp_or_udp tcp = true
is_tcp_or_udp udp = true
is_tcp_or_udp _ = false

-- No other character has one of the letters below for its lower case, so bytes are enough.
to_lowercase : ℕ → ℕ
to_lowercase c = if within b'A' b'Z' c then c + 32 else c

unfoldable pub to_static_str : Network → Text
to_static_str ip = codes "ip"
to_static_str tcp = codes "tcp"
to_static_str udp = codes "udp"
to_static_str unix = codes "unix"

unfoldable pub from_string : Text → Res Network
unfolding to_lowercase eq_bytes
from_string s =
    let s = map to_lowercase s in
    if eq_bytes s (codes "ip")
    then ok ip
    else if eq_bytes s (codes "tcp")
    then ok tcp
    else if eq_bytes s (codes "udp")
    then ok udp
    else if eq_bytes s (codes "unix")
    then ok unix
    else err unsupported_network

from_host : Network → Option Text → Option IpAddr → ℕ → Res Addr
from_host n (some h) (some i) port =
    ok (record { addr = name_and_socket h (record { ip = i; port = port }) port; network = n })
from_host n (some h) none port = ok (record { addr = name h port; network = n })
from_host n none (some i) port =
    ok (record { addr = socket (record { ip = i; port = port }); network = n })
from_host n none none port = err neither_ip_nor_host

-- `?` on the network.
on_network : Res Network → Option Text → Option IpAddr → ℕ → Res Addr
on_network (ok n) host i port = from_host n host i port
on_network (err e) host i port = err e
on_network Outcome.panic host i port = Outcome.panic

-- `Addr::from`
unfoldable pub from : Text → Option Text → Option IpAddr → ℕ → Res Addr
unfolding from_host on_network from_string
from network host i port = on_network (from_string network) host i port

unfoldable pub from_ipname : IpName → ℕ → Addr
from_ipname (ip i) port = record { addr = socket (record { ip = i; port = port }); network = tcp }
from_ipname (name n) port = record { addr = name n port; network = tcp }

set_name_in : NetAddr → Text → NetAddr
set_name_in (socket so) n = name_and_socket n so so.port
set_name_in (name _ p) n = name n p
set_name_in (name_and_socket _ so p) n = name_and_socket n so p

unfoldable pub set_name : Addr → Text → Addr
unfolding set_name_in
set_name a n = record a { addr = set_name_in a.addr n }

get_name_in : NetAddr → Option Text
get_name_in (name n _) = some n
get_name_in (name_and_socket n _ _) = some n
get_name_in _ = none

unfoldable pub get_name : Addr → Option Text
unfolding get_name_in
get_name a = get_name_in a.addr

get_port_in : NetAddr → ℕ
get_port_in (name _ p) = p
get_port_in (name_and_socket _ _ p) = p
get_port_in (socket so) = so.port

unfoldable pub get_port : Addr → ℕ
unfolding get_port_in
get_port a = get_port_in a.addr

get_ip_in : NetAddr → Option IpAddr
get_ip_in (name_and_socket _ so _) = some so.ip
get_ip_in (socket so) = some so.ip
get_ip_in _ = none

unfoldable pub get_ip : Addr → Option IpAddr
unfolding get_ip_in
get_ip a = get_ip_in a.addr

get_socket_addr_in : NetAddr → Option SocketAddr
get_socket_addr_in (socket so) = some so
get_socket_addr_in (name_and_socket _ so _) = some so
get_socket_addr_in _ = none

unfoldable pub get_socket_addr : Addr → Option SocketAddr
unfolding get_socket_addr_in
get_socket_addr a = get_socket_addr_in a.addr
