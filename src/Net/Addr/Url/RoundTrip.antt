-- ===== src/Net/Addr/Url/RoundTrip.antt =====
-- The text of an address (src/net/addr.rs) is read back.
use ruci.Prelude.{
  ℕ, ◌<◌, ◌^◌, ◌≡◌, ◌≢◌, refl, ap, ◌∙◌, true, false, Option, some, none, [], ◌∷◌, ◌++◌, arith, All,
  ==_false, codes, All-append,
}
use ruci.Prelude.Monad.{ok}
use ruci.Utf8.{Text}
use ruci.Utf8.Split.{starts_with, split_once, into_head, split2, into_first}
use ruci.Utf8.Numbers.{
  show_number, parse_number-show_number, show_number-IsDigit, split1-none, split1-first, IsDigit,
}
use ruci.Net.Addr.{
  Addr, NetAddr, socket, name, name_and_socket, IpAddr, v4, v6, SocketAddr, Network, tcp, udp,
  is_tcp_or_udp, from, to_static_str,
}
use ruci.Net.Addr.Url.{
  pieces, host_addr, on_port, from_pieces, from_addr_str, on_scheme, from_network_addr_url, on_hash,
  from_name_network_addr_url, socket_str, addr_str, get_addr_str, on_display, display, lift,
  is_some,
}

abbrev Misses : ℕ → Text → Type 0
Misses c = All (λ d. d ≢ c)

split_once-missing : (c : ℕ) (s : Text) → Misses c s → split_once (c ∷ []) s ≡ none
unfolding split_once starts_with into_head
split_once-missing c [] h = refl
split_once-missing c (d ∷ s) (h, hs) = ground (arith, split_once-missing c s hs)

-- A host that needs no brackets: no colon, no bracket.
abbrev pub Bare : Text → Type 0
Bare = All (λ c. (c ≢ 58) × (c ≢ 91))

Bare-colon : (h : Text) → Bare h → Misses 58 h
Bare-colon [] b = tt
Bare-colon (c ∷ h) (b, bs) = (b.0, Bare-colon h bs)

no_colon : (s : Text) → All IsDigit s → Misses 58 s
no_colon [] h = tt
no_colon (c ∷ s) (h, hs) = ((λ e. omega arith), no_colon s hs)

no_bracket : (h rest : Text) → Bare h → starts_with (codes "[") (h ++ 58 ∷ rest) ≡ false
unfolding starts_with
no_bracket [] rest b = refl
no_bracket (c ∷ h) rest ((b, b'), bs) = ground arith

pub pieces-Bare :
    (h : Text) (p : ℕ) → Bare h → pieces (h ++ 58 ∷ show_number p) ≡ h ∷ show_number p ∷ []
unfolding pieces
pieces-Bare h p b =
    rw
      (
        no_bracket h (show_number p) b,
        split1-first 58 h (show_number p) (Bare-colon h b),
        split1-none 58 (show_number p) (no_colon (show_number p) (show_number-IsDigit p)),
      )
      refl

closes : (h rest : Text) → is_some (split_once (codes "]:") (h ++ 93 ∷ 58 ∷ rest)) ≡ true
unfolding split_once starts_with is_some into_head
closes [] rest = refl
closes (c ∷ h) rest = ground (arith, closes h rest)

split2-none : (s : Text) → Misses 93 s → split2 93 58 s ≡ s ∷ []
unfolding split2 into_first
split2-none [] h = refl
split2-none (c ∷ []) h = refl
split2-none (c ∷ d ∷ s) (h, hs) = ground (arith, split2-none (d ∷ s) hs)

split2-first :
    (h rest : Text) → Misses 93 h → split2 93 58 (h ++ 93 ∷ 58 ∷ rest) ≡ h ∷ split2 93 58 rest
unfolding split2 into_first
split2-first [] rest h = refl
split2-first (c ∷ []) rest (h, hs) = rw (==_false c 93 h) refl
split2-first (c ∷ d ∷ s) rest (h, hs) =
    rw (==_false c 93 h) (ap (into_first c) (split2-first (d ∷ s) rest hs))

no_close : (s : Text) → All IsDigit s → Misses 93 s
no_close [] h = tt
no_close (c ∷ s) (h, hs) = ((λ e. omega arith), no_close s hs)

pieces-Misses :
    (h : Text) (p : ℕ)
    → Misses 93 h
    → pieces (91 ∷ h ++ 93 ∷ 58 ∷ show_number p) ≡ h ∷ show_number p ∷ []
unfolding pieces
pieces-Misses h p b =
    rw
      (
        closes (91 ∷ h) (show_number p),
        split2-first h (show_number p) b,
        split2-none (show_number p) (no_close (show_number p) (show_number-IsDigit p)),
      )
      (unfold starts_with in refl)

-- What parsing gives for the pieces, when the network's own name stands before them.
pub from_pieces-name :
    (parse_ip : Text → Option IpAddr) (net : Text) (h : Text) (p : ℕ)
    → p < 2 ^ 16
    → from_pieces parse_ip net (h ∷ show_number p ∷ []) ≡ host_addr parse_ip net h p (parse_ip h)
unfolding from_pieces on_port
from_pieces-name parse_ip net h p l =
    ap (on_port parse_ip net h) (parse_number-show_number 0xffff p (omega arith) (omega arith))

module _ (parse_ip : Text → Option IpAddr) (show_ip : IpAddr → Text) where
  -- The text of an ip is parsed as that ip, and has none of the characters that end it.
  abbrev pub IpText : IpAddr → Type 0
  IpText (v4 a) =
      Bare (show_ip (v4 a)) × Misses 35 (show_ip (v4 a)) × (parse_ip (show_ip (v4 a)) ≡ some (v4 a))
  IpText (v6 a) =
      Misses 93 (show_ip (v6 a))
      × Misses 35 (show_ip (v6 a))
      × (parse_ip (show_ip (v6 a)) ≡ some (v6 a))

  -- A name without a colon, a bracket and a hash, that is no ip; or an ip; not both.
  abbrev pub Printable : NetAddr → Type 0
  Printable (name n p) = Bare n × Misses 35 n × (parse_ip n ≡ none) × (p < 2 ^ 16)
  Printable (socket so) = IpText so.ip × (so.port < 2 ^ 16)
  Printable (name_and_socket _ _ _) = ⊥

  -- The text without the scheme.
  abbrev Body : Text → ℕ → Text → Type 0
  Body h p body = (pieces body ≡ h ∷ show_number p ∷ []) × Misses 35 body

  number_hash : (p : ℕ) → Misses 35 (show_number p)
  number_hash p = no_hash (show_number p) (show_number-IsDigit p)
    where
      no_hash : (s : Text) → All IsDigit s → Misses 35 s
      no_hash [] h = tt
      no_hash (c ∷ s) (h, hs) = ((λ e. omega arith), no_hash s hs)

  Bare-Body : (h : Text) (p : ℕ) → Bare h → Misses 35 h → Body h p (h ++ 58 ∷ show_number p)
  Bare-Body h p b m =
      (pieces-Bare h p b, All-append (λ c. c ≢ 35) h _ m ((λ e. omega arith), number_hash p))

  bracketed-Body :
      (h : Text) (p : ℕ) → Misses 93 h → Misses 35 h → Body h p (91 ∷ h ++ 93 ∷ 58 ∷ show_number p)
  bracketed-Body h p b m = (
    pieces-Misses h p b,
    (
      (λ e. omega arith),
      All-append (λ c. c ≢ 35) h _ m ((λ e. omega arith), ((λ e. omega arith), number_hash p)),
    ),
  )

  url-host_addr :
      (scheme h body : Text) (p : ℕ)
      → Misses 35 scheme
      → split_once (codes "://") (scheme ++ codes "://" ++ body) ≡ some (scheme, body)
      → Body h p body
      → p < 2 ^ 16
      → from_name_network_addr_url parse_ip (scheme ++ codes "://" ++ body)
        ≡ host_addr parse_ip scheme h p (parse_ip h)
  unfolding from_name_network_addr_url from_network_addr_url from_addr_str on_hash on_scheme
  url-host_addr scheme h body p k f (e, m) l =
      ap (on_hash parse_ip url) (split_once-missing 35 url no_hash)
      ∙ ap (on_scheme parse_ip url) f
      ∙ ap (from_pieces parse_ip scheme) e
      ∙ from_pieces-name parse_ip scheme h p l
    where
      url : Text
      url = scheme ++ codes "://" ++ body

      no_hash : Misses 35 url
      no_hash =
          All-append (λ c. c ≢ 35) (scheme ++ codes "://") body
            (All-append (λ c. c ≢ 35) scheme (codes "://") k
              ((λ e. omega arith), ((λ e. omega arith), ((λ e. omega arith), tt))))
            m

  -- Both schemes, with the colon behind them.
  url_of :
      (n : Network) (h body : Text) (p : ℕ)
      → is_tcp_or_udp n ≡ true
      → Body h p body
      → p < 2 ^ 16
      → from_name_network_addr_url parse_ip (to_static_str n ++ codes "://" ++ body)
        ≡ host_addr parse_ip (to_static_str n) h p (parse_ip h)
  unfolding to_static_str is_tcp_or_udp
  url_of tcp h body p t b l =
      url-host_addr (codes "tcp") h body p
        ((λ e. omega arith), ((λ e. omega arith), ((λ e. omega arith), tt)))
        (unfold split_once starts_with into_head in refl) b l
  url_of udp h body p t b l =
      url-host_addr (codes "udp") h body p
        ((λ e. omega arith), ((λ e. omega arith), ((λ e. omega arith), tt)))
        (unfold split_once starts_with into_head in refl) b l
  url_of Network.ip h body p t b l = absurd (ground (arith, t))
  url_of Network.unix h body p t b l = absurd (ground (arith, t))

  pub host_addr-name :
      (n : Network) (h : Text) (p : ℕ)
      → is_tcp_or_udp n ≡ true
      → host_addr parse_ip (to_static_str n) h p none ≡ ok (record { addr = name h p; network = n })
  unfolding host_addr to_static_str from lift is_tcp_or_udp
  host_addr-name tcp h p t = refl
  host_addr-name udp h p t = refl
  host_addr-name Network.ip h p t = absurd (ground (arith, t))
  host_addr-name Network.unix h p t = absurd (ground (arith, t))

  host_addr-ip :
      (n : Network) (h : Text) (so : SocketAddr)
      → is_tcp_or_udp n ≡ true
      → host_addr parse_ip (to_static_str n) h so.port (some so.ip)
        ≡ ok (record { addr = socket so; network = n })
  unfolding host_addr to_static_str from lift is_tcp_or_udp
  host_addr-ip tcp h so t = refl
  host_addr-ip udp h so t = refl
  host_addr-ip Network.ip h so t = absurd (ground (arith, t))
  host_addr-ip Network.unix h so t = absurd (ground (arith, t))

  body : NetAddr → Text
  body (name h p) = h ++ 58 ∷ show_number p
  body (socket so) = socket_str show_ip so.ip so.port
  body (name_and_socket _ so _) = socket_str show_ip so.ip so.port

  display-body :
      (n : Network) (x : NetAddr)
      → is_tcp_or_udp n ≡ true
      → display show_ip (record { addr = x; network = n })
        ≡ ok (to_static_str n ++ codes "://" ++ body x)
  unfolding display on_display get_addr_str addr_str is_tcp_or_udp body
  display-body tcp (name h p) t = refl
  display-body tcp (socket so) t = refl
  display-body tcp (name_and_socket h so p) t = refl
  display-body udp (name h p) t = refl
  display-body udp (socket so) t = refl
  display-body udp (name_and_socket h so p) t = refl
  display-body Network.ip x t = absurd (ground (arith, t))
  display-body Network.unix x t = absurd (ground (arith, t))

  socket_url :
      (n : Network) (i : IpAddr) (p : ℕ)
      → is_tcp_or_udp n ≡ true
      → IpText i
      → p < 2 ^ 16
      → from_name_network_addr_url parse_ip
          (to_static_str n ++ codes "://" ++ socket_str show_ip i p)
        ≡ ok (record { addr = socket (record { ip = i; port = p }); network = n })
  unfolding socket_str
  socket_url n (v4 a) p t (b, m, e) l =
      let h = show_ip (v4 a) in
      url_of n h _ p t (Bare-Body h p b m) l
      ∙ ap (host_addr parse_ip (to_static_str n) h p) e
      ∙ host_addr-ip n h (record { ip = v4 a; port = p }) t
  socket_url n (v6 a) p t (b, m, e) l =
      let h = show_ip (v6 a) in
      url_of n h _ p t (bracketed-Body h p b m) l
      ∙ ap (host_addr parse_ip (to_static_str n) h p) e
      ∙ host_addr-ip n h (record { ip = v6 a; port = p }) t

  body_read :
      (n : Network) (x : NetAddr)
      → is_tcp_or_udp n ≡ true
      → Printable x
      → from_name_network_addr_url parse_ip (to_static_str n ++ codes "://" ++ body x)
        ≡ ok (record { addr = x; network = n })
  unfolding body
  body_read n (name h p) t (b, m, e, l) =
      url_of n h _ p t (Bare-Body h p b m) l
      ∙ ap (host_addr parse_ip (to_static_str n) h p) e
      ∙ host_addr-name n h p t
  body_read n (socket so) t (i, l) = socket_url n so.ip so.port t i l
  body_read n (name_and_socket _ _ _) t q = absurd q

  -- The text of an address over tcp or udp is read back as that address: of a name that holds no colon,
  -- bracket or hash and is no ip, and of an ip that is read back itself from its text.
  pub from_name_network_addr_url-display :
      (a : Addr)
      → is_tcp_or_udp a.network ≡ true
      → Printable a.addr
      → (s : Text) × (display show_ip a ≡ ok s) × (from_name_network_addr_url parse_ip s ≡ ok a)
  from_name_network_addr_url-display a t q = (
    to_static_str a.network ++ codes "://" ++ body a.addr,
    display-body a.network a.addr t,
    body_read a.network a.addr t q,
  )
