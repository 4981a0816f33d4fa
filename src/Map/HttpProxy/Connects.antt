-- ===== src/Map/HttpProxy/Connects.antt =====
-- A CONNECT request at the HTTP proxy (src/map/http_proxy.rs, src/net/http.rs, src/net/addr.rs).
use ruci.Prelude.{
  ℕ, ◌<◌, ◌^◌, ◌≡◌, refl, ap, ◌∙◌, Option, some, none, List, ◌∷◌, ◌++◌, Bytes, codes, length, All,
}
use ruci.Prelude.Monad.{ok}
use ruci.Utf8.{Text}
use ruci.Utf8.Strings.{IsString}
use ruci.Utf8.Numbers.{show_number}
use ruci.Net.Addr.{IpAddr, name, tcp, is_tcp_or_udp, to_static_str}
use ruci.Net.Addr.Url.{from_addr_str, from_pieces, host_addr}
use ruci.Net.Addr.Url.RoundTrip.{Bare, pieces-Bare, from_pieces-name, host_addr-name}
use ruci.Net.Conn.{Conn, write_all}
use ruci.Net.Http.{Header}
use ruci.Net.Http.Headers.{Plain, block}
use ruci.Net.Http.Reads.{PathChar, connect_text, connect_parsed, parse_h1_request-connect}
use ruci.Map.{build, conn}
use ruci.Map.HttpProxy.Given.{IsGiven, handshake_parsed}
use ruci.Map.HttpProxy.{
  Server, connect_reply_str, authenticate, addr_str, is_connect, granted, on_addr, on_text, on_user,
  on_parse_result, handshake,
}

abbrev pub authority_of : Text → ℕ → Text
authority_of host port = host ++ 58 ∷ show_number port

module _ (decode : Text → Option Bytes) (authority : Text → Option Text)
    (parse_ip : Text → Option IpAddr) (s : Server) where
  address_of :
      (host : Text) (port : ℕ)
      → Bare host
      → parse_ip host ≡ none
      → port < 2 ^ 16
      → from_addr_str parse_ip (codes "tcp") (authority_of host port)
        ≡ ok (record { addr = name host port; network = tcp })
  unfolding from_addr_str is_tcp_or_udp to_static_str
  address_of host port b n l =
      ap (from_pieces parse_ip (codes "tcp")) (pieces-Bare host port b)
      ∙ from_pieces-name parse_ip (codes "tcp") host port l
      ∙ ap (host_addr parse_ip (codes "tcp") host port) n
      ∙ host_addr-name parse_ip (λ _. codes "") tcp host port refl

  -- A server without users that is given a CONNECT request for a name and a port, by the layer before
  -- or by its own read of the connection, answers with the reply of success, and hands on the
  -- connection with that target over tcp and without a buffer: bytes that came behind the request in
  -- the same read are lost. The name has no colon and no bracket and is no ip; the path has no space
  -- and no end of line; the headers, one or more, have plain names and values; and path and headers
  -- are valid UTF-8.
  pub handshake_connects :
      (base c : Conn) (pre : Option Bytes) (host : Text) (port : ℕ) (h : Header) (hs : List Header)
      (body : Bytes)
      → IsGiven base pre (connect_text (authority_of host port) h hs body) c
      → s.um ≡ none
      → Bare host
      → parse_ip host ≡ none
      → port < 2 ^ 16
      → All PathChar (authority_of host port)
      → IsString (authority_of host port)
      → Plain h
      → All Plain hs
      → IsString (block h hs)
      → handshake decode authority parse_ip s base pre
        ≡ ok (
            build
              (some (record { addr = name host port; network = tcp }))
              none
              (conn (write_all connect_reply_str c))
              none
              none)
  unfolding on_parse_result authenticate on_user on_text on_addr addr_str granted is_connect
  handshake_connects base c pre host port h hs body given u b n l ch v p ps w =
      let pd = connect_text (authority_of host port) h hs body in
      let r = connect_parsed (authority_of host port) h hs in
      handshake_parsed decode authority parse_ip s base c pre pd r given
        (parse_h1_request-connect (authority_of host port) h hs body ch v p ps w) refl
      ∙ ap
          (λ k.
            on_user decode authority parse_ip s r c pd
              (authenticate k (length pd) decode r.headers))
          u
      ∙ ap (on_addr decode authority parse_ip s r c pd none) (address_of host port b n l)
