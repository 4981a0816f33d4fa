-- ===== src/Tests/Text.antt =====
-- Identifiers and addresses as text (src/net/mod.rs, src/net/addr.rs).
use ruci.Prelude.{
  ◌≡◌, refl, none, some, [], ◌∷◌, codes, Option, arith, ap, length, if◌then◌else◌, eq_bytes,
  be_bytes,
}
use ruci.Prelude.Monad.{ok, err, panic}
use ruci.Utf8.{Text}
use ruci.Utf8.Split.{parse_number, starts_with, split1, split2, split_once}
use ruci.Utf8.Numbers.{show_number}
use ruci.Net.Cid.{Cid}
use ruci.Net.Cid.Text.{to_string, from_str, from_str-to_string}
use ruci.Net.Addr.{
  Addr, Network, IpAddr, v4, v6, name, socket, tcp, udp, is_tcp_or_udp, from, to_static_str,
}
use ruci.Net.Addr.Url.{
  from_name_network_addr_url, display, from_network_addr_url, from_addr_str, from_pieces, pieces,
  on_port, host_addr, lift, on_hash, on_scheme, on_display, get_addr_str, addr_str, socket_str,
  from_ip_addr_str, to_name_ip_netmask, not_two_parts,
}
use ruci.Net.Addr.Url.RoundTrip.{from_name_network_addr_url-display}

abbrev cid : Cid
cid = record { id_list = 1 ∷ 20 ∷ 4294967295 ∷ [] }

to_string_test : to_string cid ≡ codes "1-20-4294967295"
unfolding to_string show_number
to_string_test = refl

from_str-to_string_example : from_str (to_string cid) ≡ ok cid
from_str-to_string_example =
    from_str-to_string cid (λ e. absurd (omega (arith, ap length e)))
      (omega arith, (omega arith, (omega arith, tt)))

-- One ip, and its text.
show_ip : IpAddr → Text
show_ip (v4 _) = codes "1.2.3.4"
show_ip (v6 _) = codes "::1"

parse_ip : Text → Option IpAddr
parse_ip s =
    if eq_bytes s (codes "1.2.3.4")
    then some (v4 0x01020304)
    else if eq_bytes s (codes "::1")
    then some (v6 1)
    else none

abbrev www : Addr
www = record { addr = name (codes "b.c") 8080; network = udp }

abbrev six : Addr
six = record { addr = socket (record { ip = v6 1; port = 53 }); network = tcp }

six_test : display show_ip six ≡ ok (codes "tcp://[::1]:53")
unfolding display on_display get_addr_str addr_str socket_str show_number to_static_str show_ip
six_test = refl

six_read_test : from_name_network_addr_url parse_ip (codes "tcp://[::1]:53") ≡ ok six
unfolding from_name_network_addr_url on_hash from_network_addr_url on_scheme from_addr_str
    from_pieces pieces on_port host_addr lift from parse_number starts_with split1 split2 split_once
    parse_ip eq_bytes
six_read_test = refl

from_name_network_addr_url-display_example :
    (s : Text) × (display show_ip www ≡ ok s) × (from_name_network_addr_url parse_ip s ≡ ok www)
unfolding parse_ip eq_bytes is_tcp_or_udp
from_name_network_addr_url-display_example =
    from_name_network_addr_url-display parse_ip show_ip www refl (
      (
        ((λ e. omega arith), (λ e. omega arith)),
        (((λ e. omega arith), (λ e. omega arith)), (((λ e. omega arith), (λ e. omega arith)), tt)),
      ),
      ((λ e. omega arith), ((λ e. omega arith), ((λ e. omega arith), tt))),
      refl,
      omega arith,
    )

-- "10.0.0.1:24" is a network of 24 bits; one of 32 panics.
netmask_test :
    to_name_ip_netmask
      (record { addr = socket (record { ip = v4 7; port = 24 }); network = Network.ip })
    ≡ ok (none, v4 7, 255 ∷ 255 ∷ 255 ∷ 0 ∷ [])
unfolding to_name_ip_netmask be_bytes
netmask_test = refl

netmask_32_test :
    to_name_ip_netmask
      (record { addr = socket (record { ip = v4 7; port = 32 }); network = Network.ip })
    ≡ panic
unfolding to_name_ip_netmask
netmask_32_test = refl

from_ip_addr_str_test :
    from_ip_addr_str parse_ip (codes "tcp") (codes "1.2.3.4") ≡ err not_two_parts
unfolding from_ip_addr_str pieces starts_with split1 split_once
from_ip_addr_str_test = refl
