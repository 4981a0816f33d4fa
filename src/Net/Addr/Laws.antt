-- ===== src/Net/Addr/Laws.antt =====
-- What the accessors of `Addr` say of an address that was built or renamed (src/net/addr.rs).
use ruci.Prelude.{ℕ, ◌≡◌, ◌⊎◌, inl, inr, refl, Option, none, some, true, ==_refl, arith}
use ruci.Prelude.Monad.{ok, err}
use ruci.Utf8.{Text}
use ruci.Net.Addr.{
  from_host, IpAddr, v4, v6, eq_ip, SocketAddr, Network, Addr, from, from_string, to_static_str,
  set_name, get_name, get_port, get_ip, get_socket_addr, eq_socket_addr, neither_ip_nor_host,
}

-- `from_string` reads back what `to_static_str` writes, for every network.
pub from_string-to_static_str : (n : Network) → from_string (to_static_str n) ≡ ok n
unfolding from_string to_static_str
from_string-to_static_str Network.ip = refl
from_string-to_static_str Network.tcp = refl
from_string-to_static_str Network.udp = refl
from_string-to_static_str Network.unix = refl

from-to_static_str :
    (n : Network) (host : Option Text) (i : Option IpAddr) (port : ℕ)
    → from (to_static_str n) host i port ≡ from_host n host i port
unfolding from
from-to_static_str n host i port = rw from_string-to_static_str

-- On a known network `from` fails exactly when neither a host nor an ip is given, and otherwise
-- the address has the network, the host, the ip and the port that were given.
pub from_fields :
    (n : Network) (host : Option Text) (i : Option IpAddr) (port : ℕ)
    → (((host ≡ none) × (i ≡ none) × (from (to_static_str n) host i port ≡ err neither_ip_nor_host))
        ⊎ ((a : Addr) × (from (to_static_str n) host i port ≡ ok a)
            × (a.network ≡ n)
            × (get_name a ≡ host)
            × (get_ip a ≡ i)
            × (get_port a ≡ port)))
unfolding get_name get_ip get_port from_host
from_fields n none none port = inl (refl, refl, from-to_static_str n none none port)
from_fields n (some h) none port =
    inr (_, from-to_static_str n (some h) none port, refl, refl, refl, refl)
from_fields n (some h) (some i) port =
    inr (_, from-to_static_str n (some h) (some i) port, refl, refl, refl, refl)
from_fields n none (some i) port =
    inr (_, from-to_static_str n none (some i) port, refl, refl, refl, refl)

-- `set_name` makes the text the name of the address, and changes neither its network, nor its ip,
-- nor its port, nor its socket address.
pub set_name_fields :
    (a : Addr) (n : Text)
    → (get_name (set_name a n) ≡ some n)
      × ((set_name a n).network ≡ a.network)
      × (get_ip (set_name a n) ≡ get_ip a)
      × (get_port (set_name a n) ≡ get_port a)
      × (get_socket_addr (set_name a n) ≡ get_socket_addr a)
unfolding set_name get_name get_ip get_port get_socket_addr
set_name_fields a n = ground arith

-- `eq_socket_addr` is symmetric.
pub eq_socket_addr_comm : (a b : SocketAddr) → eq_socket_addr a b ≡ eq_socket_addr b a
unfolding eq_socket_addr
eq_socket_addr_comm a b = ground arith

eq_ip_refl : (i : IpAddr) → eq_ip i i ≡ true
unfolding eq_ip
eq_ip_refl (v4 a) = ==_refl a
eq_ip_refl (v6 a) = ==_refl a

pub eq_socket_addr_refl : (a : SocketAddr) → eq_socket_addr a a ≡ true
unfolding eq_socket_addr
eq_socket_addr_refl a = rw (eq_ip_refl a.ip, ==_refl a.port) refl
