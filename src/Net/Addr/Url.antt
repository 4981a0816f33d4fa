-- ===== src/Net/Addr/Url.antt =====
-- src/net/addr.rs: addresses as text. An ip is parsed and printed by `parse_ip` and `show_ip`, which
-- stand for `FromStr` and `Display` of `IpAddr`.
pub mod RoundTrip
use ruci.Prelude.{
  ℕ, Bool, true, false, ◌&&◌, Option, some, none, List, [], ◌∷◌, ◌++◌, if◌then◌else◌, codes, drop,
  Bytes, be_bytes, leb, ◌-◌, ◌/◌, ◌%◌, ◌^◌,
}
use ruci.Prelude.Monad.{Outcome, ok, err, panic}
use ruci.Utf8.{Text}
use ruci.Utf8.Split.{starts_with, split_once, split1, split2, parse_u16}
use ruci.Utf8.Numbers.{show_number}
use ruci.Net.Addr.{
  Addr, NetAddr, socket, name, name_and_socket, IpAddr, v4, v6, SocketAddr, Network, ip, tcp, udp,
  unix, from, set_name, to_static_str,
}
use ruci.Net.Addr

pub data UrlError : Type 0 where
  bad_port not_two_parts no_ip : UrlError
  in_addr : Addr.Error → UrlError

abbrev pub Res : Type 0 → Type 0
Res A = Outcome UrlError A

unfoldable pub lift : {A : Type 0} → Addr.Res A → Res A
lift (ok a) = ok a
lift (err e) = err (in_addr e)
lift panic = panic

is_some : {A : Type 0} → Option A → Bool
is_some (some _) = true
is_some none = false

-- Host and port; an ip of version 6 stands in brackets.
unfoldable pub pieces : Text → List Text
unfolding starts_with split_once split1 split2 is_some
pieces s =
    if starts_with (codes "[") s && is_some (split_once (codes "]:") s)
    then split2 93 58 (drop 1 s)
    else split1 58 s

is_empty : Text → Bool
is_empty [] = true
is_empty (_ ∷ _) = false

module _ (parse_ip : Text → Option IpAddr) where
  -- A host that is an ip is taken as the ip.
  host_ip : Text → Text → Option Text × Option IpAddr
  host_ip [] [] = (none, none)
  host_ip (c ∷ host) [] = elim (parse_ip (c ∷ host)) [
    | some i ↦ (none, some i)
    | none ↦ (some (c ∷ host), none)
  ]
  host_ip [] (d ∷ s) = (none, parse_ip (d ∷ s))
  host_ip (c ∷ host) (d ∷ s) = (some (c ∷ host), parse_ip (d ∷ s))

  unfoldable pub from_strs : Text → Text → Text → ℕ → Res Addr
  unfolding host_ip
  from_strs network host s port = let (h, i) = host_ip host s in lift (from network h i port)

  unfoldable pub host_addr : Text → Text → ℕ → Option IpAddr → Res Addr
  host_addr network host port (some i) = lift (from network none (some i) port)
  host_addr network host port none = lift (from network (some host) none port)

  unfoldable pub on_port : Text → Text → Option ℕ → Res Addr
  on_port network host (some port) = host_addr network host port (parse_ip host)
  on_port network host none = err bad_port

  -- `split` gives one piece at least.
  unfoldable pub from_pieces : Text → List Text → Res Addr
  from_pieces network [] = panic
  from_pieces network (host ∷ []) = host_addr network host 0 (parse_ip host)
  from_pieces network (host ∷ port ∷ []) = on_port network host (parse_u16 port)
  from_pieces network (host ∷ _ ∷ _ ∷ _) = host_addr network host 0 (parse_ip host)

  unfoldable pub from_addr_str : Text → Text → Res Addr
  from_addr_str network s = from_pieces network (pieces s)

  strs_on_port : Text → Text → Option ℕ → Res Addr
  unfolding from_strs
  strs_on_port network s (some port) = from_strs network [] s port
  strs_on_port network s none = err bad_port

  ip_from_pieces : Text → List Text → Res Addr
  unfolding strs_on_port
  ip_from_pieces network (host ∷ port ∷ []) = strs_on_port network host (parse_u16 port)
  ip_from_pieces network _ = err not_two_parts

  unfoldable pub from_ip_addr_str : Text → Text → Res Addr
  unfolding ip_from_pieces
  from_ip_addr_str network s = ip_from_pieces network (pieces s)

  unfoldable pub on_scheme : Text → Option (Text × Text) → Res Addr
  on_scheme s (some (network, rest)) = from_addr_str network rest
  on_scheme s none = from_addr_str (codes "tcp") s

  unfoldable pub from_network_addr_url : Text → Res Addr
  from_network_addr_url s = on_scheme s (split_once (codes "://") s)

  unfoldable pub named : Text → Res Addr → Res Addr
  unfolding set_name
  named n (ok a) = ok (set_name a n)
  named n (err e) = err e
  named n panic = panic

  unfoldable pub on_hash : Text → Option (Text × Text) → Res Addr
  on_hash s (some (url, n)) = named n (from_network_addr_url url)
  on_hash s none = from_network_addr_url s

  unfoldable pub from_name_network_addr_url : Text → Res Addr
  from_name_network_addr_url s = on_hash s (split_once (codes "#") s)

module _ (show_ip : IpAddr → Text) where
  -- `Display` of `SocketAddr`.
  unfoldable pub socket_str : IpAddr → ℕ → Text
  socket_str (v4 a) port = show_ip (v4 a) ++ 58 ∷ show_number port
  socket_str (v6 a) port = 91 ∷ show_ip (v6 a) ++ 93 ∷ 58 ∷ show_number port

  unfoldable pub addr_str : Network → NetAddr → Outcome UrlError Text
  addr_str unix (socket so) = panic
  addr_str unix (name n _) = ok n
  addr_str unix (name_and_socket n _ _) = ok n
  addr_str ip (name n _) = ok n
  addr_str _ (name n p) = ok (n ++ 58 ∷ show_number p)
  addr_str _ (socket so) = ok (socket_str so.ip so.port)
  addr_str _ (name_and_socket _ so _) = ok (socket_str so.ip so.port)

  unfoldable pub get_addr_str : Addr → Outcome UrlError Text
  get_addr_str a = addr_str a.network a.addr

  -- A name and an ip on the network of ips.
  hashed : Network → NetAddr → Text → Text
  hashed ip (name_and_socket n _ _) s = s ++ 35 ∷ n
  hashed _ _ s = s

  unfoldable pub on_display : Addr → Outcome UrlError Text → Outcome UrlError Text
  unfolding hashed to_static_str
  on_display a (ok s) = ok (to_static_str a.network ++ codes "://" ++ hashed a.network a.addr s)
  on_display a (err e) = err e
  on_display a panic = panic

  -- `Display` of `Addr`.
  unfoldable pub display : Addr → Outcome UrlError Text
  display a = on_display a (get_addr_str a)

-- A u32 shifted right by 32 or more overflows, which a debug build panics at.
prefix_length_to_netmask : ℕ → Outcome UrlError Bytes
unfolding be_bytes
prefix_length_to_netmask n =
    if leb 32 n then panic else ok (be_bytes 4 (0xffffffff - 0xffffffff / 2 ^ n))

with_netmask :
    Option Text → IpAddr → Outcome UrlError Bytes → Outcome UrlError (Option Text × IpAddr × Bytes)
with_netmask n i (ok mask) = ok (n, i, mask)
with_netmask n i (err e) = err e
with_netmask n i panic = panic

netmask_of : NetAddr → Outcome UrlError (Option Text × IpAddr × Bytes)
unfolding prefix_length_to_netmask with_netmask
netmask_of (socket so) = with_netmask none so.ip (prefix_length_to_netmask (so.port % 256))
netmask_of (name_and_socket n so port) =
    with_netmask (some n) so.ip (prefix_length_to_netmask (port % 256))
netmask_of (name _ _) = err no_ip

unfoldable pub to_name_ip_netmask : Addr → Outcome UrlError (Option Text × IpAddr × Bytes)
unfolding netmask_of
to_name_ip_netmask a = netmask_of a.addr
