-- ===== src/Socks5/Server/Request/Reads.antt =====
-- The server reads the request that a client writes for an address (src/map/socks5).
use ruci.Prelude.{
  ℕ, suc, ◌+◌, ◌-◌, ◌*◌, ◌/◌, ◌%◌, ◌<◌, ◌^◌, ◌≡◌, refl, sym, ap, ◌∙◌, append_assoc, true, false,
  Option, some, none, [], ◌∷◌, ◌++◌, leb, ltb, Bool-cases, inl, inr, Bytes, codes, arith, length,
  get_elem?, be_bytes, be_value-be_bytes, take-length_append, drop-length_append, length-append,
  length-be_bytes,
}
use ruci.Prelude.Monad.{ok}
use ruci.Utf8.{Text}
use ruci.Utf8.Strings.{IsString}
use ruci.Net.Addr.{Addr, IpAddr, v4, v6, NetAddr, socket, name, name_and_socket, tcp}
use ruci.Net.Addr
use ruci.Net.Helpers.{addr_to_socks5_bytes, so_to_socks5_bytes, atyp_ip4, atyp_ip6, atyp_domain}
use ruci.Net.Helpers.RoundTrip.{on_wire, IsIp, IsNetAddr, FitsWire}
use ruci.Socks5.Session.{Session, ◌>>=◌, index, slice}
use ruci.Socks5.Client.Connect.{connect_request}
use ruci.Socks5.Server.Request.{Place, place, host, lift_addr, better_ip, target}

get_elem?-length_append : (xs ys : Bytes) (y : ℕ) → get_elem? (xs ++ y ∷ ys) (length xs) ≡ some y
get_elem?-length_append [] ys y = refl
get_elem?-length_append (x ∷ xs) ys y = get_elem?-length_append xs ys y

index_lem :
    (i : ℕ) (front back : Bytes) (y : ℕ) (s : Session)
    → i ≡ length front
    → index i (front ++ y ∷ back) s ≡ (ok y, s)
index_lem i front back y s e = ground (arith, e, get_elem?-length_append front back y)

slice_lem :
    (i j : ℕ) (front xs back : Bytes) (s : Session)
    → i ≡ length front
    → j ≡ length front + length xs
    → slice i j (front ++ (xs ++ back)) s ≡ (ok xs, s)
slice_lem i j front xs back s e e' = ground (
  arith,
  length-append front (xs ++ back),
  length-append xs back,
  drop-length_append front (xs ++ back),
  take-length_append xs back,
)

module _ (parse_ip : Text → Option IpAddr) (at hi lo : ℕ) (body stale : Bytes) where
  message : Bytes
  message = 5 ∷ 1 ∷ 0 ∷ at ∷ (body ++ (hi ∷ lo ∷ stale))

  length-message : length message ≡ length body + 6 + length stale
  unfolding message
  length-message = omega (arith, length-append body (hi ∷ lo ∷ stale))

  high : (i : ℕ) (s : Session) → i ≡ length body + 4 → index i message s ≡ (ok hi, s)
  unfolding message
  high i s e = index_lem i (5 ∷ 1 ∷ 0 ∷ at ∷ body) (lo ∷ stale) hi s (omega arith)

  low : (i : ℕ) (s : Session) → i ≡ length body + 5 → index i message s ≡ (ok lo, s)
  unfolding message
  low i s e =
      ap (λ (b : Bytes). index i (5 ∷ 1 ∷ 0 ∷ at ∷ b) s)
        (sym (append_assoc body (hi ∷ []) (lo ∷ stale)))
      ∙ index_lem i (5 ∷ 1 ∷ 0 ∷ at ∷ (body ++ hi ∷ [])) stale lo s
          (omega (arith, length-append body (hi ∷ [])))

  third : (s : Session) → index 3 message s ≡ (ok at, s)
  unfolding message
  third s = refl

  target_lem :
      (p : Place) (nm : Option Text) (s : Session)
      → p.off + p.l ≡ length body + 6
      → ((t : Session) → place at message t ≡ (ok p, t))
      → ((t : Session) → host p message t ≡ (ok nm, t))
      → target parse_ip (record s { buf = message; n = length body + 6 })
        ≡ lift_addr parse_ip
            (Addr.from (codes "tcp") nm (better_ip parse_ip nm p.ip) (hi * 256 + lo))
            (record s { buf = []; n = length body + 6 })
  unfolding target ◌>>=◌
  target_lem p nm s e h k =
      let fit : leb (p.off + p.l) (length body + 6) ≡ true = ground arith in
      let fit' : leb (p.off + p.l) (length message) ≡ true = ground (arith, length-message) in
      let none_left : length body + 6 - (p.off + p.l) ≡ 0 = omega arith in
      rw
        (
          third,
          h,
          k,
          fit,
          high (p.off + p.l - 2) _ (omega arith),
          low (p.off + p.l - 1) _ (omega arith),
          fit',
          none_left,
        )
        refl

-- The address that the server makes of what the wire kept: a name that is a textual ip gives it too.
module _ (parse_ip : Text → Option IpAddr) where
  abbrev pub named : Text → ℕ → NetAddr
  named n p = elim (parse_ip n) [
    | none ↦ name n p
    | some i ↦ name_and_socket n (record { ip = i; port = p }) p
  ]

  abbrev pub reached : NetAddr → NetAddr
  reached (socket so) = socket so
  reached (name n p) = named n p
  reached (name_and_socket n so p) = named n p

  high_byte : ℕ → ℕ
  high_byte p = p / 256 % 256

  port_lem : (p : ℕ) → p < 2 ^ 16 → high_byte p * 256 + p % 256 ≡ p
  unfolding high_byte
  port_lem p h = omega arith

  module _ (p : ℕ) (stale : Bytes) (small : p < 2 ^ 16) where
    -- The message about an address, and the session that holds it.
    about : ℕ → Bytes → Bytes
    about at body = message parse_ip at (high_byte p) (p % 256) body stale

    holding : ℕ → Bytes → Session → Session
    unfolding about
    holding at body s = record s { buf = about at body; n = length body + 6 }

    ip_target :
        (at k : ℕ) (ip : IpAddr) (body : Bytes) (s : Session)
        → length body ≡ k
        → ((t : Session)
            → place at (about at body) t
              ≡ (ok (record { l = 2 + k; off = 4; ip = some ip; is_name = false }), t))
        → target parse_ip (holding at body s) ≡ (
          ok (record { addr = socket (record { ip = ip; port = p }); network = tcp }),
          record s { buf = []; n = length body + 6 },
        )
    unfolding holding about host Addr.from better_ip lift_addr
    ip_target at k ip body s e h =
        target_lem parse_ip at (high_byte p) (p % 256) body stale
          (record { l = 2 + k; off = 4; ip = some ip; is_name = false }) none s (omega arith) h
          (λ t. refl)
        ∙ ap
            (λ q. (
              ok (record { addr = socket (record { ip = ip; port = q }); network = tcp }),
              record s { buf = []; n = length body + 6 },
            ))
            (port_lem p small)

    place_ip4 :
        (i : ℕ) (t : Session)
        → i < 2 ^ 32
        → place atyp_ip4 (about atyp_ip4 (be_bytes 4 i)) t
          ≡ (ok (record { l = 6; off = 4; ip = some (v4 i); is_name = false }), t)
    unfolding place about message ◌>>=◌
    place_ip4 i t h =
        rw
          (
            slice_lem 4 8 (5 ∷ 1 ∷ 0 ∷ atyp_ip4 ∷ []) (be_bytes 4 i) (high_byte p ∷ p % 256 ∷ stale)
                t refl (omega (arith, length-be_bytes 4 i)),
            be_value-be_bytes 4 i h,
          )
          refl

    place_ip6 :
        (i : ℕ) (t : Session)
        → i < 2 ^ 128
        → place atyp_ip6 (about atyp_ip6 (be_bytes 16 i)) t
          ≡ (ok (record { l = 18; off = 4; ip = some (v6 i); is_name = false }), t)
    unfolding place about message ◌>>=◌
    place_ip6 i t h =
        rw
          (
            slice_lem 4 20 (5 ∷ 1 ∷ 0 ∷ atyp_ip6 ∷ []) (be_bytes 16 i)
                (high_byte p ∷ p % 256 ∷ stale) t refl (omega (arith, length-be_bytes 16 i)),
            be_value-be_bytes 16 i h,
          )
          refl

    host_name :
        (n : Text) (t : Session)
        → IsString n
        → host
            (record { l = 2 + length n; off = 5; ip = none; is_name = true })
            (about atyp_domain (length n ∷ n))
            t
          ≡ (ok (some n), t)
    unfolding host about message ◌>>=◌
    host_name n t h =
        rw
          (
            slice_lem 5 (5 + (2 + length n) - 2) (5 ∷ 1 ∷ 0 ∷ atyp_domain ∷ length n ∷ []) n
                (high_byte p ∷ p % 256 ∷ stale) t refl (omega arith),
            h,
          )
          refl

    place_name :
        (n : Text) (t : Session)
        → place atyp_domain (about atyp_domain (length n ∷ n)) t
          ≡ (ok (record { l = 2 + length n; off = 5; ip = none; is_name = true }), t)
    unfolding place about message ◌>>=◌
    place_name n t = refl

    lift_named :
        (n : Text) (t : Session)
        → lift_addr parse_ip
            (Addr.from (codes "tcp") (some n) (better_ip parse_ip (some n) none) p)
            t
          ≡ (ok (record { addr = named n p; network = tcp }), t)
    unfolding lift_addr Addr.from better_ip
    lift_named n t = go (parse_ip n)
      where
        go :
            (o : Option IpAddr)
            → lift_addr parse_ip
                (Addr.from
                  (codes "tcp")
                  (some n)
                  (elim o as (λ _. Option IpAddr) [ some tip ↦ some tip | none ↦ none ])
                  p)
                t
              ≡ (
                ok (record {
                  addr = elim o as (λ _. NetAddr) [
                    | none ↦ name n p
                    | some i ↦ name_and_socket n (record { ip = i; port = p }) p
                  ];
                  network = tcp;
                }),
                t,
              )
        go none = refl
        go (some i) = refl

    name_target :
        (n : Text) (s : Session)
        → IsString n
        → target parse_ip (holding atyp_domain (length n ∷ n) s) ≡ (
          ok (record { addr = named n p; network = tcp }),
          record s { buf = []; n = length n + 7 },
        )
    unfolding holding about
    name_target n s h =
        target_lem parse_ip atyp_domain (high_byte p) (p % 256) (length n ∷ n) stale
          (record { l = 2 + length n; off = 5; ip = none; is_name = true }) (some n) s (omega arith)
          (place_name n) (λ t. host_name n t h)
        ∙ ap
            (λ q.
              lift_addr parse_ip
                (Addr.from (codes "tcp") (some n) (better_ip parse_ip (some n) none) q)
                (record s { buf = []; n = suc (length n) + 6 }))
            (port_lem p small)
        ∙ lift_named n (record s { buf = []; n = suc (length n) + 6 })
        ∙ ap (λ k. (ok (record { addr = named n p; network = tcp }), record s { buf = []; n = k }))
            (omega arith)

-- The message as the client writes it.
module _ (parse_ip : Text → Option IpAddr) (stale : Bytes) where
  -- The session that holds a message, and what it is once the message was read.
  abbrev arrived : Bytes → Session → Session
  arrived m s = record s { buf = m ++ stale; n = length m }

  abbrev pub consumed : NetAddr → Session → Session
  consumed a s = record s { buf = []; n = length (connect_request a) }

  reads_ip :
      (ip : IpAddr) (p : ℕ) (s : Session)
      → IsIp ip
      → p < 2 ^ 16
      → let a = socket (record { ip = ip; port = p }) in
        target parse_ip (arrived (connect_request a) s)
        ≡ (ok (record { addr = a; network = tcp }), consumed a s)
  unfolding addr_to_socks5_bytes so_to_socks5_bytes holding about message high_byte be_bytes
  reads_ip (v4 i) p s h k =
      ip_target parse_ip p stale k atyp_ip4 4 (v4 i) (be_bytes 4 i) s refl
        (λ t. place_ip4 parse_ip p stale k i t h)
  reads_ip (v6 i) p s h k =
      ip_target parse_ip p stale k atyp_ip6 16 (v6 i) (be_bytes 16 i) s refl
        (λ t. place_ip6 parse_ip p stale k i t h)

  reads_name :
      (n : Text) (p : ℕ) (s : Session)
      → IsString n
      → p < 2 ^ 16
      → length n < 256
      → target parse_ip (arrived (connect_request (name n p)) s)
        ≡ (ok (record { addr = named parse_ip n p; network = tcp }), consumed (name n p) s)
  unfolding addr_to_socks5_bytes holding about message high_byte be_bytes
  reads_name n p s h k f =
      let sent : Bytes = n ++ be_bytes 2 p in
      let long : ℕ = suc (suc (suc (suc (suc (length sent))))) in
      let byte : length n % 256 ≡ length n = omega arith in
      let size : length sent ≡ length n + 2 =
        omega (arith, length-append n (be_bytes 2 p), length-be_bytes 2 p) in
      let run = λ (k : ℕ) (b : Bytes) (m : ℕ).
        target parse_ip (record s { buf = 5 ∷ 1 ∷ 0 ∷ 3 ∷ k ∷ b; n = m }) in
      ap (λ k. run k (sent ++ stale) long) byte
      ∙ ap (λ b. run (length n) b long) (append_assoc n (be_bytes 2 p) stale)
      ∙ ap (λ m. run (length n) (n ++ (be_bytes 2 p ++ stale)) m) (omega (arith, size))
      ∙ name_target parse_ip p stale k n s h
      ∙ ap
          (λ m. (
            ok (record { addr = named parse_ip n p; network = tcp }),
            record s { buf = []; n = m },
          ))
          (omega (arith, size))

  pub target-connect_request :
      (a : NetAddr) (s : Session)
      → IsNetAddr a
      → FitsWire a
      → target parse_ip (arrived (connect_request a) s)
        ≡ (ok (record { addr = reached parse_ip (on_wire a); network = tcp }), consumed a s)
  unfolding on_wire addr_to_socks5_bytes
  target-connect_request (socket so) s h f = reads_ip so.ip so.port s h.0 h.1
  target-connect_request (name n p) s h f = reads_name n p s h.0 h.1 f
  target-connect_request (name_and_socket n so p) s h f = elim (Bool-cases (ltb 255 (length n))) [
    | inl long ↦ rw (long, addr_to_socks5_bytes) (reads_ip so.ip so.port s h.1.0 h.1.1)
    | inr short ↦ rw (short, addr_to_socks5_bytes) (reads_name n p s h.0 h.2 (ground arith))
  ]
