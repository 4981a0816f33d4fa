-- ===== src/Trojan/Server/Requests.antt =====
-- What the server makes of a well-formed request (src/map/trojan/server.rs).
use ruci.Prelude.{
  ℕ, suc, List, ◌≤◌, ◌<◌, ◌≡◌, ap, ◌∙◌, true, false, none, some, [], ◌∷◌, ◌++◌, ltb, arith, Bytes,
  All, codes, length, take, drop, be_bytes, length-append, length-be_bytes, take-length_append,
  drop-length_append,
}
use ruci.Prelude.Monad.{ok, get_be-be_bytes, get_be_byte}
use ruci.Utf8.Strings.{IsString}
use ruci.Net.Addr.{Addr, udp}
use ruci.Net.Conn.{Conn, chunk, Answer}
use ruci.Net.Helpers.{socks5_bytes_to_addr}
use ruci.User.{UsersMap, auth_user_by_authstr}
use ruci.Map.{build, buf_to_ob, conn, addr_conn}
use ruci.Trojan.Consts.{crlf, cmd_connect, cmd_udpassociate, pass_len}
use ruci.Trojan.Users.{User, IsDigit}
use ruci.Trojan.Server.{Stop, cap, request, after_user, after_header, read_header, handshake}
use ruci.Trojan.Server.Loop.{read_header_whole}

-- Behind the password: CRLF, command, address, CRLF and the payload.
abbrev pub behind_hex : ℕ → Bytes → Bytes → Bytes
behind_hex cmd address payload =
    be_bytes 2 crlf ++ (cmd ∷ (address ++ (be_bytes 2 crlf ++ payload)))

module _ (address payload : Bytes) (ad : Addr)
    (decodes : socks5_bytes_to_addr (address ++ (be_bytes 2 crlf ++ payload))
      ≡ (ok ad, be_bytes 2 crlf ++ payload)) where
  request_connect : request (behind_hex cmd_connect address payload) ≡ (ok (false, ad), payload)
  unfolding request
  request_connect = ground (
    arith,
    decodes,
    length-append (be_bytes 2 crlf) payload,
    length-be_bytes 2 crlf,
    get_be-be_bytes {E = Stop} 2 crlf (cmd_connect ∷ (address ++ (be_bytes 2 crlf ++ payload))),
    get_be_byte {E = Stop} cmd_connect (address ++ (be_bytes 2 crlf ++ payload)),
    get_be-be_bytes {E = Stop} 2 crlf payload,
  )

  request_associate :
      request (behind_hex cmd_udpassociate address payload)
      ≡ (ok (true, record ad { network = udp }), payload)
  unfolding request
  request_associate = ground (
    arith,
    decodes,
    length-append (be_bytes 2 crlf) payload,
    length-be_bytes 2 crlf,
    get_be-be_bytes {E = Stop} 2 crlf
        (cmd_udpassociate ∷ (address ++ (be_bytes 2 crlf ++ payload))),
    get_be_byte {E = Stop} cmd_udpassociate (address ++ (be_bytes 2 crlf ++ payload)),
    get_be-be_bytes {E = Stop} 2 crlf payload,
  )

read_header_hex :
    (fuel : ℕ) (hex t : Bytes) (rest : List Answer) (w : Bytes)
    → All IsDigit hex
    → 0 < length hex
    → length (hex ++ (be_bytes 2 crlf ++ t)) ≤ cap
    → read_header
        (suc fuel)
        cap
        []
        (record { answers = chunk (hex ++ (be_bytes 2 crlf ++ t)) ∷ rest; written = w })
      ≡ (ok (hex ++ (be_bytes 2 crlf ++ t)), record { answers = rest; written = w })
unfolding be_bytes
read_header_hex fuel [] t rest w d h l = absurd (omega arith)
read_header_hex fuel (x ∷ s) t rest w d h l = read_header_whole fuel x s t rest w d.0.0 l

split_header :
    (um : UsersMap User) (hex t : Bytes) (c : Conn)
    → IsString hex
    → length hex ≡ pass_len
    → 9 ≤ length t
    → after_header um cap (ok (hex ++ t), c)
      ≡ after_user (auth_user_by_authstr um (codes "trojan:" ++ hex)) t c
unfolding after_header
split_header um hex t c s n m =
    let long : ltb (length (hex ++ t)) 17 ≡ false = ground (arith, length-append hex t) in
    let whole : ltb (length (hex ++ t)) 65 ≡ false = ground (arith, length-append hex t) in
    let front : take pass_len (hex ++ t) ≡ hex = rw (← n) (take-length_append hex t) in
    let back : drop pass_len (hex ++ t) ≡ t = rw (← n) (drop-length_append hex t) in
    rw (long, whole, front, back, s)

-- The server up to the user lookup: a header that arrives in one piece is split behind the 56 digits.
pub handshake_header :
    (um : UsersMap User) (hex t : Bytes) (rest : List Answer) (w : Bytes)
    → All IsDigit hex
    → IsString hex
    → length hex ≡ pass_len
    → 7 ≤ length t
    → length (hex ++ (be_bytes 2 crlf ++ t)) ≤ cap
    → handshake um
        (record { answers = chunk (hex ++ (be_bytes 2 crlf ++ t)) ∷ rest; written = w })
        none
      ≡ after_user
          (auth_user_by_authstr um (codes "trojan:" ++ hex))
          (be_bytes 2 crlf ++ t)
          (record { answers = rest; written = w })
unfolding handshake
handshake_header um hex t rest w d s n m l =
    ap (after_header um cap) (read_header_hex 1023 hex t rest w d (omega arith) l)
    ∙ split_header um hex (be_bytes 2 crlf ++ t) _ s n
        (omega (arith, length-append (be_bytes 2 crlf) t, length-be_bytes 2 crlf))

pub after_user-connect :
    (address payload : Bytes) (ad : Addr) (u : User) (c : Conn)
    → socks5_bytes_to_addr (address ++ (be_bytes 2 crlf ++ payload))
      ≡ (ok ad, be_bytes 2 crlf ++ payload)
    → after_user (some u) (behind_hex cmd_connect address payload) c
      ≡ ok (build (some ad) (buf_to_ob payload) (conn c) (some u) none)
unfolding after_user
after_user-connect address payload ad u c h = rw (request_connect address payload ad h, after_user)

pub after_user-associate :
    (address : Bytes) (ad : Addr) (u : User) (c : Conn)
    → socks5_bytes_to_addr (address ++ (be_bytes 2 crlf ++ [])) ≡ (ok ad, be_bytes 2 crlf ++ [])
    → after_user (some u) (behind_hex cmd_udpassociate address []) c
      ≡ ok (build (some (record ad { network = udp })) none (addr_conn c) (some u) none)
unfolding after_user buf_to_ob
after_user-associate address ad u c h = rw (request_associate address [] ad h, after_user)
