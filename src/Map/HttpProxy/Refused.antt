-- ===== src/Map/HttpProxy/Refused.antt =====
-- What the HTTP proxy (src/map/http_proxy.rs) refuses, and what it loses.
use ruci.Prelude.{
  ℕ, ◌-◌, ◌≤◌, ◌≡◌, ◌≢◌, refl, ap, sym, ◌∙◌, inl, inr, true, false, Option, some, none, List, [],
  ◌∷◌, Bytes, le→ltb_false, length, take, codes, arith, All, eq_bytes, eq_bytes_iff, Bool-cases,
}
use ruci.Prelude.Monad.{ok}
use ruci.Utf8.{Text}
use ruci.User.{UsersMap}
use ruci.User.PlainText.{PlainText}
use ruci.Net.Addr.{Addr, IpAddr}
use ruci.Net.Addr.Url.{from_addr_str}
use ruci.Net.Conn.{Conn}
use ruci.Net.Http.{Header, ParsedHttpRequest, Method, connect, parse_h1_request}
use ruci.Net.Http.Bounds.{parse_h1_request-Total}
use ruci.Map.{build, conn, ebc, buf_to_ob}
use ruci.Map.HttpProxy.Given.{IsGiven, handshake_parsed}
use ruci.Map.HttpProxy.{
  Server, auth_failed, proxy_auth_header_str, auth_headers, user_found, authenticate, addr_str,
  is_connect, granted, on_addr, on_text, on_user, on_parse_result, handshake,
}

-- Headers of other names, such as the one of the standard, which has no blank behind it.
abbrev pub Others : List Header → Type 0
Others = All (λ h. h.head ≢ proxy_auth_header_str)

auth_headers-Others :
    (um : UsersMap PlainText) (n : ℕ) (decode : Text → Option Bytes) (hs : List Header)
    → Others hs
    → auth_headers um n decode hs ≡ ok none
unfolding auth_headers
auth_headers-Others um n decode [] o = refl
auth_headers-Others um n decode (h ∷ hs) (o, os) =
    elim (Bool-cases (eq_bytes h.head proxy_auth_header_str)) [
      | inl e ↦ absurd (o ((eq_bytes_iff h.head proxy_auth_header_str).0 e))
      | inr e ↦ rw e (auth_headers-Others um n decode hs os)
    ]

no_connect : (m : Method) → m ≢ connect → is_connect m ≡ false
unfolding is_connect
no_connect connect h = absurd (h refl)
no_connect _ h = refl

body_of : Option ParsedHttpRequest → ℕ
body_of (some r) = r.body_start_index
body_of none = 0

-- The index that the parser gave.
body_short :
    (pd : Bytes) (r : ParsedHttpRequest)
    → parse_h1_request pd true ≡ some r
    → r.body_start_index ≤ length pd - 15
unfolding body_of
body_short pd r p =
    let (q, e, short) = parse_h1_request-Total pd true in
    omega (arith, short, ap body_of (sym e ∙ p))

granted-plain :
    (r : ParsedHttpRequest) (c : Conn) (pd : Bytes) (ta : Addr)
    → r.method ≢ connect
    → r.body_start_index ≤ length pd - 15
    → granted r c pd none ta
      ≡ ok (build (some ta) (buf_to_ob (take r.body_start_index pd)) (conn c) none none)
unfolding granted
granted-plain r c pd ta m h =
    rw (no_connect r.method m, le→ltb_false r.body_start_index (length pd) (omega arith)) refl

module _ (decode : Text → Option Bytes) (authority : Text → Option Text)
    (parse_ip : Text → Option IpAddr) (s : Server) where
  -- A server with users lets nobody through whose request has no header with the name that it looks
  -- for, which ends in a blank: not even a client that sends the standard's `Proxy-Authorization` with
  -- a right password. The request goes to the fallback, whether the layer before read it or the server
  -- reads it from the connection.
  pub handshake_refuses :
      (um : UsersMap PlainText) (base c : Conn) (pre : Option Bytes) (pd : Bytes)
      (r : ParsedHttpRequest)
      → IsGiven base pre pd c
      → s.um ≡ some um
      → parse_h1_request pd true ≡ some r
      → r.parse_result ≡ none
      → Others r.headers
      → handshake decode authority parse_ip s base pre ≡ ok (ebc auth_failed pd c)
  unfolding on_parse_result authenticate user_found on_user
  handshake_refuses um base c pre pd r given u p g o =
      handshake_parsed decode authority parse_ip s base c pre pd r given p g
      ∙ ap
          (λ m.
            on_user decode authority parse_ip s r c pd
              (authenticate m (length pd) decode r.headers))
          u
      ∙ ap (λ a. on_user decode authority parse_ip s r c pd (user_found a))
          (auth_headers-Others um (length pd) decode r.headers o)

  -- A request that is no CONNECT is handed on without its end, whether the layer before read it or the
  -- server reads it from the connection: what goes on to the target is a prefix, at least 15 bytes
  -- shorter than what was read, if its address is found and there are no users.
  pub handshake_cuts :
      (base c : Conn) (pre : Option Bytes) (pd : Bytes) (r : ParsedHttpRequest) (a : Text)
      (ta : Addr)
      → IsGiven base pre pd c
      → s.um ≡ none
      → parse_h1_request pd true ≡ some r
      → r.parse_result ≡ none
      → r.method ≢ connect
      → addr_str s authority r ≡ ok a
      → from_addr_str parse_ip (codes "tcp") a ≡ ok ta
      → (n : ℕ) × (n ≤ length pd - 15)
        × (handshake decode authority parse_ip s base pre
            ≡ ok (build (some ta) (buf_to_ob (take n pd)) (conn c) none none))
  unfolding on_parse_result authenticate on_user on_text on_addr
  handshake_cuts base c pre pd r a ta given u p g m x y = (
    r.body_start_index,
    body_short pd r p,
    handshake_parsed decode authority parse_ip s base c pre pd r given p g
        ∙ ap
            (λ k.
              on_user decode authority parse_ip s r c pd
                (authenticate k (length pd) decode r.headers))
            u
        ∙ ap (on_text decode authority parse_ip s r c pd none) x
        ∙ ap (on_addr decode authority parse_ip s r c pd none) y
        ∙ granted-plain r c pd ta m (body_short pd r p),
  )
