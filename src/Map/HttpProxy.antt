-- ===== src/Map/HttpProxy.antt =====
-- src/map/http_proxy.rs: the server's side of an HTTP proxy. Base64 and URLs, which other crates
-- implement, and the parsing of an ip are the arguments `decode`, `authority` and `parse_ip`.
pub mod Given
pub mod Refused
pub mod Connects
use ruci.Prelude.{
  ℕ, zero, suc, ◌+◌, ◌-◌, Bool, true, false, not, ◌&&◌, Option, some, none, List, [], ◌∷◌, ◌++◌,
  Bytes, leb, ltb, ◌==◌, if◌then◌else◌, length, take, drop, codes, eq_bytes,
}
use ruci.Prelude.Monad.{Outcome, ok, err, panic}
use ruci.Utf8.{Text, from_utf8_lossy}
use ruci.Utf8.Split.{starts_with}
use ruci.User.{UsersMap, add_user, add_popped, auth_user_by_authstr}
use ruci.User
use ruci.User.PlainText.{PlainText, plain_text_user, strict_valid, from}
use ruci.User.PlainText
use ruci.Net.Addr.{Addr, IpAddr}
use ruci.Net.Addr.Url.{UrlError, from_addr_str}
use ruci.Net.Conn.{Conn, IoError, read, write_all}
use ruci.Net.Http.{Header, ParsedHttpRequest, ParseError, Method, connect, parse_h1_request}
use ruci.Map.{MapResult, Stream, conn, build, ebc, err_str, buf_to_ob}
use ruci.Map.Ext.{MapParams}

pub record Config : Type 0 where
  pub only_support_connect : Bool
  pub user_whitespace_pass : Option Text
  pub user_passes : Option (List PlainText)

pub record Server : Type 0 where
  pub um : Option (UsersMap PlainText)
  pub only_connect : Bool

with_whitespace : Option Text → UsersMap PlainText → UsersMap PlainText
unfolding from strict_valid add_user
with_whitespace none um = um
with_whitespace (some s) um =
    let u = from s in if strict_valid u then add_user plain_text_user um u else um

with_passes : Option (List PlainText) → UsersMap PlainText → UsersMap PlainText
unfolding add_popped PlainText.new
with_passes none um = um
with_passes (some us) um = add_popped plain_text_user (λ u. PlainText.new u.user u.pass) us um

unfoldable pub new : Config → Server
unfolding with_whitespace with_passes User.is_empty
new option =
    let um =
      with_passes option.user_passes (with_whitespace option.user_whitespace_pass User.new) in
    record {
      um = if User.is_empty um then none else some um;
      only_connect = option.only_support_connect;
    }

pub data ProxyError : Type 0 where
  read_failed : IoError → ProxyError
  parse_failed : ParseError → ProxyError
  not_basic base64_failed without_colon auth_failed only_connect_supported invalid_url body_beyond
        only_tcp_like :
      ProxyError
  no_address : UrlError → ProxyError

abbrev pub ProxyResult : Type 0
ProxyResult = MapResult Conn Conn PlainText ProxyError

abbrev pub proxy_auth_header_str : Text
proxy_auth_header_str = codes "Proxy-Authorization "

abbrev pub connect_reply_str : Text
connect_reply_str = codes "HTTP/1.1 200 Connection established" ++ 13 ∷ 10 ∷ 13 ∷ 10 ∷ []

-- `iter().position(|x| *x == b':')`
later : Option ℕ → Option ℕ
later (some i) = some (suc i)
later none = none

position : Bytes → Option ℕ
unfolding later
position [] = none
position (b ∷ bs) = let rest = later (position bs) in if b == 58 then some 0 else rest

contains : ℕ → Text → Bool
contains c [] = false
contains c (d ∷ s) = let rest = contains c s in if c == d then true else rest

module _ (um : UsersMap PlainText) (n : ℕ) where
  -- The password is cut out up to `n`, the length of the request.
  unfoldable pub on_colon : Bytes → Option ℕ → Outcome ProxyError (Option PlainText)
  unfolding from_utf8_lossy PlainText.new auth_user_by_authstr plain_text_user
  on_colon bs none = err without_colon
  on_colon bs (some i) =
      if leb (i + 1) n && leb n (length bs)
      then ok (
          auth_user_by_authstr um (
            plain_text_user.auth_str (
              PlainText.new (from_utf8_lossy (take i bs))
                (from_utf8_lossy (take (n - (i + 1)) (drop (i + 1) bs))))))
      else panic

  on_decoded : Option Bytes → Outcome ProxyError (Option PlainText)
  unfolding position
  on_decoded none = err base64_failed
  on_decoded (some bs) = on_colon bs (position bs)

  module _ (decode : Text → Option Bytes) where
    unfoldable pub auth_value : Text → Outcome ProxyError (Option PlainText)
    unfolding starts_with on_decoded
    auth_value v =
        if starts_with (codes "Basic ") v then on_decoded (decode (drop 6 v)) else err not_basic

    -- The loop over the headers, up to the first of this name.
    unfoldable pub auth_headers : List Header → Outcome ProxyError (Option PlainText)
    unfolding eq_bytes
    auth_headers [] = ok none
    auth_headers (h ∷ hs) =
        let rest = auth_headers hs in
        if eq_bytes h.head proxy_auth_header_str then auth_value h.value else rest

-- An authenticated user, or none without users.
user_found : Outcome ProxyError (Option PlainText) → Outcome ProxyError (Option PlainText)
user_found (ok (some u)) = ok (some u)
user_found (ok none) = err auth_failed
user_found (err e) = err e
user_found panic = panic

unfoldable pub authenticate :
    Option (UsersMap PlainText)
    → ℕ
    → (Text → Option Bytes)
    → List Header
    → Outcome ProxyError (Option PlainText)
unfolding user_found
authenticate none n decode hs = ok none
authenticate (some um) n decode hs = user_found (auth_headers um n decode hs)

is_connect : Method → Bool
is_connect connect = true
is_connect _ = false

with_port : Option Text → Outcome ProxyError Text
unfolding contains
with_port none = err invalid_url
with_port (some a) = ok (if contains 58 a then a else a ++ codes ":80")

-- The address as text.
unfoldable pub addr_str :
    Server → (Text → Option Text) → ParsedHttpRequest → Outcome ProxyError Text
unfolding is_connect with_port
addr_str s authority r =
    if is_connect r.method
    then ok r.path
    else if s.only_connect
    then err only_connect_supported
    else with_port (authority r.path)

-- The result, with `buf` for a request that is no CONNECT.
unfoldable pub granted :
    ParsedHttpRequest → Conn → Bytes → Option PlainText → Addr → Outcome ProxyError ProxyResult
unfolding is_connect
granted r c buf u ta =
    if is_connect r.method
    then ok (build (some ta) none (conn (write_all connect_reply_str c)) u none)
    else if ltb (length buf) r.body_start_index
    then err body_beyond
    else ok (build (some ta) (buf_to_ob (take r.body_start_index buf)) (conn c) u none)

module _ (decode : Text → Option Bytes) (authority : Text → Option Text)
    (parse_ip : Text → Option IpAddr) (s : Server) where
  on_addr :
      ParsedHttpRequest
      → Conn
      → Bytes
      → Option PlainText
      → Outcome UrlError Addr
      → Outcome ProxyError ProxyResult
  on_addr r c buf u (ok ta) = granted r c buf u ta
  on_addr r c buf u (err e) = ok (ebc (no_address e) buf c)
  on_addr r c buf u panic = panic

  on_text :
      ParsedHttpRequest
      → Conn
      → Bytes
      → Option PlainText
      → Outcome ProxyError Text
      → Outcome ProxyError ProxyResult
  unfolding on_addr
  on_text r c buf u (ok a) = on_addr r c buf u (from_addr_str parse_ip (codes "tcp") a)
  on_text r c buf u (err e) = ok (ebc e buf c)
  on_text r c buf u panic = panic

  on_user :
      ParsedHttpRequest
      → Conn
      → Bytes
      → Outcome ProxyError (Option PlainText)
      → Outcome ProxyError ProxyResult
  unfolding on_text
  on_user r c buf (ok u) = on_text r c buf u (addr_str s authority r)
  on_user r c buf (err e) = ok (ebc e buf c)
  on_user r c buf panic = panic

  pub on_parse_result :
      ParsedHttpRequest → Conn → Bytes → Option ParseError → Outcome ProxyError ProxyResult
  unfolding on_user
  on_parse_result r c buf (some e) = ok (ebc (parse_failed e) buf c)
  on_parse_result r c buf none = on_user r c buf (authenticate s.um (length buf) decode r.headers)

  on_request : Conn → Bytes → Option ParsedHttpRequest → Outcome ProxyError ProxyResult
  unfolding on_parse_result
  on_request c buf (some r) = on_parse_result r c buf r.parse_result
  on_request c buf none = panic

  on_read : Outcome IoError Bytes × Conn → Outcome ProxyError ProxyResult
  unfolding on_request
  on_read (ok buf, c) = on_request c buf (parse_h1_request buf true)
  on_read (err e, c) = err (read_failed e)
  on_read (panic, c) = panic

  unfoldable pub handshake : Conn → Option Bytes → Outcome ProxyError ProxyResult
  unfolding on_read
  handshake base (some pd) = on_read (ok pd, base)
  handshake base none = on_read (read 1024 base)

  from_result : Outcome ProxyError ProxyResult → Outcome ProxyError ProxyResult
  from_result (err e) = ok (err_str e)
  from_result r = r

  unfoldable pub maps : MapParams Conn Conn PlainText → Outcome ProxyError ProxyResult
  unfolding from_result handshake
  maps p = elim p.c [ conn c ↦ from_result (handshake c p.b) | _ ↦ ok (err_str only_tcp_like) ]
