-- ===== src/Trojan/Handshake.antt =====
-- Client and server of the trojan handshake, one against the other (src/map/trojan).
use ruci.Prelude.{
  ℕ, ◌≤◌, ◌≡◌, refl, ap, ◌∙◌, Bool, true, false, Option, none, some, List, [], ◌∷◌, ◌++◌,
  append_assoc, arith, Bytes, All, IsByte, length, be_bytes, length-append, length-be_bytes,
}
use ruci.Prelude.Monad.{Outcome, ok}
use ruci.Utf8.{Text}
use ruci.Net.Addr.{Addr, NetAddr, Network, tcp, udp}
use ruci.Net.Conn.{Conn, Answer, chunk}
use ruci.Net.Helpers.{addr_to_socks5_bytes}
use ruci.Net.Helpers.RoundTrip.{
  IsNetAddr, IsDecodable, on_wire, socks5_bytes_to_addr-addr_to_socks5_bytes,
  length-addr_to_socks5_bytes,
}
use ruci.User.{UsersMap, auth_user_by_authstr}
use ruci.Map.{Stream, build, buf_to_ob, conn, addr_conn}
use ruci.Trojan.Consts.{crlf, cmd_connect, cmd_udpassociate}
use ruci.Trojan.Users.{
  User, new, hex_display, length-hex_display, hex_display-IsDigit, hex_display-IsString,
}
use ruci.Trojan.Client
use ruci.Trojan.Client.{Client, ClientError, ClientResult, request}
use ruci.Trojan.Server
use ruci.Trojan.Server.{ServerError, ServerResult, cap, after_user}
use ruci.Trojan.Server.Requests.{
  behind_hex, handshake_header, after_user-connect, after_user-associate,
}

-- SHA-224 gives 28 bytes.
pub record IsHash (sha224 : Text → Bytes) : Type 0 where
  pub size : (s : Text) → length (sha224 s) ≡ 28
  pub bytes : (s : Text) → All IsByte (sha224 s)

-- What the client wrote to its connection.
written_to : Stream Conn Conn → Bytes
written_to (conn c) = c.written
written_to (addr_conn c) = c.written
written_to _ = []

unfoldable pub sent : Outcome ClientError ClientResult → Bytes
unfolding written_to
sent (ok r) = written_to r.c
sent _ = []

abbrev pub fresh : Conn
fresh = record { answers = []; written = [] }

-- The early data that the client sends itself: it does so at the end of its chain only.
abbrev pub carried : Bool → Option Bytes → Bytes
carried true (some bs) = bs
carried _ _ = []

sent_connect :
    (u : User) (tail : Bool) (a : NetAddr) (fp : Option Bytes)
    → sent (
        Client.handshake
          (record { u = u; is_tail_of_chain = tail })
          fresh
          (record { addr = a; network = tcp })
          fp)
      ≡ request u cmd_connect (record { addr = a; network = tcp }) ++ carried tail fp
unfolding sent Client.handshake
sent_connect u true a none = refl
sent_connect u true a (some []) = refl
sent_connect u true a (some (b ∷ bs)) = refl
sent_connect u false a none = refl
sent_connect u false a (some []) = refl
sent_connect u false a (some (b ∷ bs)) = refl

sent_associate :
    (u : User) (tail : Bool) (a : NetAddr) (fp : Option Bytes)
    → sent (
        Client.handshake
          (record { u = u; is_tail_of_chain = tail })
          fresh
          (record { addr = a; network = udp })
          fp)
      ≡ request u cmd_udpassociate (record { addr = a; network = udp }) ++ []
unfolding sent Client.handshake
sent_associate u true a none = refl
sent_associate u true a (some []) = refl
sent_associate u true a (some (b ∷ bs)) = refl
sent_associate u false a none = refl
sent_associate u false a (some []) = refl
sent_associate u false a (some (b ∷ bs)) = refl

request-append :
    (u : User) (cmd : ℕ) (ta : Addr) (p : Bytes)
    → request u cmd ta ++ p ≡ u.hex ++ behind_hex cmd (addr_to_socks5_bytes ta []) p
unfolding request
request-append u cmd ta p = simp append_assoc

-- What a client sends to ask for the address over the network.
abbrev pub sent_by : User → Network → Bool → NetAddr → Option Bytes → Bytes
sent_by u nw tail a fp = sent (
    Client.handshake (record { u = u; is_tail_of_chain = tail }) fresh
      (record { addr = a; network = nw }) fp)

module _ (sha224 : Text → Bytes) (hash : IsHash sha224) (um : UsersMap User) (pass : Text)
    (u : User) (known : auth_user_by_authstr um (new sha224 pass).astr ≡ some u) where
  hex : Text
  hex = hex_display (sha224 pass)

  -- A request that arrives in one piece, up to the user.
  request_arrives :
      (cmd : ℕ) (ta : Addr) (p : Bytes) (rest : List Answer) (w : Bytes)
      → 4 ≤ length (addr_to_socks5_bytes ta [])
      → length (request (new sha224 pass) cmd ta ++ p) ≤ cap
      → Server.handshake um
          (record { answers = chunk (request (new sha224 pass) cmd ta ++ p) ∷ rest; written = w })
          none
        ≡ after_user
            (some u)
            (behind_hex cmd (addr_to_socks5_bytes ta []) p)
            (record { answers = rest; written = w })
  unfolding hex new
  request_arrives cmd ta p rest w m l =
      let shape = request-append (new sha224 pass) cmd ta p in
      let A = addr_to_socks5_bytes ta [] in
      let behind = cmd ∷ (A ++ (be_bytes 2 crlf ++ p)) in
      ap
        (λ (b : Bytes). Server.handshake um (record { answers = chunk b ∷ rest; written = w }) none)
        shape
      ∙ handshake_header um hex behind rest w (hex_display-IsDigit (sha224 pass) (hash.bytes pass))
          (hex_display-IsString (sha224 pass) (hash.bytes pass))
          (omega (arith, length-hex_display (sha224 pass), hash.size pass))
          (omega (
            arith,
            length-append A (be_bytes 2 crlf ++ p),
            length-append (be_bytes 2 crlf) p,
            length-be_bytes 2 crlf,
          ))
          (omega (arith, ap (λ (b : Bytes). length b) shape))
      ∙ ap (λ o. after_user o (be_bytes 2 crlf ++ behind) (record { answers = rest; written = w }))
          known

  -- If the server knows the client's user, a target over tcp reaches it as the wire form keeps it,
  -- with the early data that the client, at the end of its chain, sent itself; the connection stands
  -- behind the request, with nothing written to it. The request arrives in one piece and fits the
  -- server's buffer, and a bare name fits its length byte.
  pub handshake_connect :
      (tail : Bool) (a : NetAddr) (fp : Option Bytes) (rest : List Answer) (w : Bytes)
      → IsNetAddr a
      → IsDecodable a (be_bytes 2 crlf ++ carried tail fp)
      → length (sent_by (new sha224 pass) tcp tail a fp) ≤ cap
      → Server.handshake um
          (record { answers = chunk (sent_by (new sha224 pass) tcp tail a fp) ∷ rest; written = w })
          none
        ≡ ok (
            build
              (some (record { addr = on_wire a; network = tcp }))
              (buf_to_ob (carried tail fp))
              (conn (record { answers = rest; written = w }))
              (some u)
              none)
  handshake_connect tail a fp rest w h d l =
      let ta : Addr = record { addr = a; network = tcp } in
      let e = sent_connect (new sha224 pass) tail a fp in
      ap
        (λ (b : Bytes). Server.handshake um (record { answers = chunk b ∷ rest; written = w }) none)
        e
      ∙ request_arrives cmd_connect ta (carried tail fp) rest w (length-addr_to_socks5_bytes a tcp)
          (omega (arith, ap (λ (b : Bytes). length b) e))
      ∙ after_user-connect (addr_to_socks5_bytes ta []) (carried tail fp) _ u _
          (socks5_bytes_to_addr-addr_to_socks5_bytes a tcp (be_bytes 2 crlf ++ carried tail fp) h d)

  -- If the server knows the client's user, a target over udp reaches it as the wire form keeps it,
  -- with a datagram connection over the stream behind the request and without early data, which stay
  -- with the client. The request arrives in one piece and fits the server's buffer, and a bare name
  -- fits its length byte.
  pub handshake_associate :
      (tail : Bool) (a : NetAddr) (fp : Option Bytes) (rest : List Answer) (w : Bytes)
      → IsNetAddr a
      → IsDecodable a (be_bytes 2 crlf ++ [])
      → length (sent_by (new sha224 pass) udp tail a fp) ≤ cap
      → Server.handshake um
          (record { answers = chunk (sent_by (new sha224 pass) udp tail a fp) ∷ rest; written = w })
          none
        ≡ ok (
            build
              (some (record { addr = on_wire a; network = udp }))
              none
              (addr_conn (record { answers = rest; written = w }))
              (some u)
              none)
  handshake_associate tail a fp rest w h d l =
      let ta : Addr = record { addr = a; network = udp } in
      let e = sent_associate (new sha224 pass) tail a fp in
      ap
        (λ (b : Bytes). Server.handshake um (record { answers = chunk b ∷ rest; written = w }) none)
        e
      ∙ request_arrives cmd_udpassociate ta [] rest w (length-addr_to_socks5_bytes a udp)
          (omega (arith, ap (λ (b : Bytes). length b) e))
      ∙ after_user-associate (addr_to_socks5_bytes ta []) _ u _
          (socks5_bytes_to_addr-addr_to_socks5_bytes a udp (be_bytes 2 crlf ++ []) h d)
