-- ===== src/Tests/Http.antt =====
-- src/net/http.rs on concrete requests.
use ruci.Prelude.{sym, subst, All}
use ruci.Utf8.Strings.{IsString, ascii-IsString}
use ruci.Utf8.Numbers.{show_number}
use ruci.Net.Addr.Url.RoundTrip.{Bare}
use ruci.Net.Http.Headers.{Plain, block}
use ruci.Net.Http.Reads.{PathChar, connect_text}
use ruci.Map.HttpProxy.Connects.{authority_of, handshake_connects}
use ruci.Prelude.Monad.{ok}
use ruci.User.{UsersMap}
use ruci.User.PlainText.{PlainText}
use ruci.User.PlainText
use ruci.Utf8.{Text}
use ruci.Utf8.Split.{parse_number, starts_with, split1}
use ruci.Net.Conn.{Conn, chunk, read, write_all}
use ruci.Net.Addr.{Addr, IpAddr, name, tcp, from}
use ruci.Net.Addr.Url.{from_addr_str, from_pieces, pieces, on_port, host_addr, lift}
use ruci.Net.Http.Bounds.{parse_h1_request-Total}
use ruci.Map.{Stream, build, ebc, buf_to_ob}
use ruci.Map.HttpProxy.{Server, auth_failed, handshake, addr_str, connect_reply_str}
use ruci.Map.HttpProxy.Refused.{handshake_refuses, handshake_cuts}
use ruci.Prelude.{
  ◌≢◌, ap, ◌≤◌, ◌-◌, arith, length, take, ℕ, ◌≡◌, refl, true, false, none, some, [], ◌∷◌, ◌++◌,
  codes, Option, Bytes,
}
use ruci.Utf8.Split.{split2, split_once}
use ruci.Net.Http.{
  parse_h1_request, start_line, after_method, scan, on_kind, request_line, header_part, add_headers,
  on_header, ending, target_begins, method_of, word, is_at, slice, byte_at, fail_if, Header,
  ParsedHttpRequest, get, connect, default, no_end_mark2, ◌>>=◌,
}

abbrev crlf : Bytes
crlf = 13 ∷ 10 ∷ []

abbrev request : Bytes
request = codes "GET /a HTTP/1.1" ++ crlf ++ codes "Host: x" ++ crlf ++ crlf ++ codes "body"

parse_test :
    parse_h1_request request false
    ≡ some (record {
      version = codes "1.1";
      method = get;
      path = codes "/a";
      headers = record { head = codes "Host"; value = codes "x" } ∷ [];
      parse_result = none;
      last_checked_index = 0;
      body_start_index = 11;
    })
unfolding parse_h1_request start_line after_method scan on_kind request_line header_part add_headers
    on_header ending split2 split_once target_begins method_of word is_at slice byte_at fail_if
    ◌>>=◌
parse_test = refl

-- Without the second space the request counts as parsed, with an empty path and no header.
unfinished_test :
    parse_h1_request (codes "GET /index.html-and-no-more") false
    ≡ some (record default { method = get; last_checked_index = 27 })
unfolding parse_h1_request start_line after_method scan on_kind target_begins method_of word is_at
    slice byte_at fail_if ◌>>=◌
unfinished_test = refl

-- As in the tests of src/net/http.rs.
no_end_mark2_test :
    parse_h1_request (codes "GET / HTTP/1.1" ++ crlf ++ codes "Header: Value") false
    ≡ some (record default {
      method = get;
      path = codes "/";
      version = codes "1.1";
      parse_result = some no_end_mark2;
    })
unfolding parse_h1_request start_line after_method scan on_kind request_line header_part ending
    target_begins method_of word is_at slice byte_at fail_if ◌>>=◌
no_end_mark2_test = refl

parse_h1_request-Total_example :
    (r : ParsedHttpRequest) × (parse_h1_request request false ≡ some r)
    × (r.body_start_index ≤ length request - 15)
parse_h1_request-Total_example = parse_h1_request-Total request false

-- A CONNECT request with the header of the standard.
abbrev asks : Bytes
asks =
    codes "CONNECT a.b:443 HTTP/1.1"
    ++ crlf
    ++ codes "Proxy-Authorization: Basic dTpw"
    ++ crlf
    ++ crlf

abbrev asked : ParsedHttpRequest
asked = record default {
  method = connect;
  path = codes "a.b:443";
  version = codes "1.1";
  headers = record { head = codes "Proxy-Authorization"; value = codes "Basic dTpw" } ∷ [];
  body_start_index = 35;
}

asks_test : parse_h1_request asks true ≡ some asked
unfolding parse_h1_request start_line after_method scan on_kind request_line header_part add_headers
    on_header ending split2 split_once target_begins method_of word is_at slice byte_at fail_if
    ◌>>=◌
asks_test = refl

-- Base64, of this one value.
decode : Text → Option Bytes
decode s = some (codes "u:p")

authority : Text → Option Text
authority s = some (codes "a.b")

parse_ip : Text → Option IpAddr
parse_ip s = none

abbrev users : UsersMap PlainText
users = record {
  id_map = (codes "u", PlainText.new (codes "u") (codes "p")) ∷ [];
  a_map = (codes "plaintext:u" ++ 10 ∷ codes "p", PlainText.new (codes "u") (codes "p")) ∷ [];
}

abbrev proxy : Server
proxy = record { um = some users; only_connect = false }

abbrev base : Conn
base = record { answers = []; written = [] }

-- A connection whose next read gives `bs`.
abbrev holds : Bytes → Conn
holds bs = record { answers = chunk bs ∷ []; written = [] }

holds-asks : read 1024 (holds asks) ≡ (ok asks, base)
unfolding read
holds-asks = refl

other_name : codes "Proxy-Authorization" ≢ codes "Proxy-Authorization "
other_name e = absurd (omega (arith, ap length e))

handshake_refuses_example :
    handshake decode authority parse_ip proxy (holds asks) none ≡ ok (ebc auth_failed asks base)
handshake_refuses_example =
    handshake_refuses decode authority parse_ip proxy users (holds asks) base none asks asked
      (holds-asks) refl asks_test refl (other_name, tt)

abbrev plain : Bytes
plain = codes "GET http://a.b/ HTTP/1.1" ++ crlf ++ codes "Host: a.b" ++ crlf ++ crlf

abbrev plain_parsed : ParsedHttpRequest
plain_parsed = record default {
  method = get;
  path = codes "http://a.b/";
  version = codes "1.1";
  headers = record { head = codes "Host"; value = codes "a.b" } ∷ [];
  body_start_index = 13;
}

plain_test : parse_h1_request plain true ≡ some plain_parsed
unfolding parse_h1_request start_line after_method scan on_kind request_line header_part add_headers
    on_header ending split2 split_once target_begins method_of word is_at slice byte_at fail_if
    ◌>>=◌
plain_test = refl

abbrev open_proxy : Server
open_proxy = record { um = none; only_connect = false }

abbrev web : Addr
web = record { addr = name (codes "a.b") 80; network = tcp }

web_test : addr_str open_proxy authority plain_parsed ≡ ok (codes "a.b:80")
unfolding addr_str authority
web_test = refl

port_test : from_addr_str parse_ip (codes "tcp") (codes "a.b:80") ≡ ok web
unfolding from_addr_str from_pieces pieces on_port host_addr parse_ip from lift parse_number
    starts_with split1
port_test = refl

holds-plain : read 1024 (holds plain) ≡ (ok plain, base)
unfolding read
holds-plain = refl

handshake_cuts_example :
    (n : ℕ) × (n ≤ length plain - 15)
    × (handshake decode authority parse_ip open_proxy (holds plain) none
        ≡ ok (build (some web) (buf_to_ob (take n plain)) (Stream.conn base) none none))
handshake_cuts_example =
    handshake_cuts decode authority parse_ip open_proxy (holds plain) base none plain plain_parsed
      (codes "a.b:80") web holds-plain refl plain_test refl (λ e. absurd (ground (arith, e)))
      web_test port_test

abbrev host_header : Header
host_header = record { head = codes "Host"; value = codes "a.b" }

host_Plain : Plain host_header
host_Plain = (
  ((λ e. omega arith), ((λ e. omega arith), ((λ e. omega arith), ((λ e. omega arith), tt)))),
  ((λ e. omega arith), ((λ e. omega arith), ((λ e. omega arith), ((λ e. omega arith), tt)))),
  (λ e. absurd (omega (arith, ap length e))),
  ((λ e. omega arith), ((λ e. omega arith), ((λ e. omega arith), tt))),
)

a_b_Bare : Bare (codes "a.b")
a_b_Bare = (
  ((λ e. omega arith), (λ e. omega arith)),
  (((λ e. omega arith), (λ e. omega arith)), (((λ e. omega arith), (λ e. omega arith)), tt)),
)

authority_test : authority_of (codes "a.b") 443 ≡ codes "a.b:443"
unfolding show_number
authority_test = refl

abbrev PathText : Text → Type 0
PathText = All PathChar

authority_PathChar : PathText (authority_of (codes "a.b") 443)
authority_PathChar = subst PathText (sym authority_test) (
  ((λ e. omega arith), (λ e. omega arith), (λ e. omega arith)),
  (
    ((λ e. omega arith), (λ e. omega arith), (λ e. omega arith)),
    (
      ((λ e. omega arith), (λ e. omega arith), (λ e. omega arith)),
      (
        ((λ e. omega arith), (λ e. omega arith), (λ e. omega arith)),
        (
          ((λ e. omega arith), (λ e. omega arith), (λ e. omega arith)),
          (
            ((λ e. omega arith), (λ e. omega arith), (λ e. omega arith)),
            (((λ e. omega arith), (λ e. omega arith), (λ e. omega arith)), tt),
          ),
        ),
      ),
    ),
  ),
)

abbrev hello_request : Bytes
hello_request = connect_text (authority_of (codes "a.b") 443) host_header [] (codes "hello")

hello_held : read 1024 (holds hello_request) ≡ (ok hello_request, base)
unfolding read block show_number
hello_held = refl

handshake_connects_example :
    handshake decode authority parse_ip open_proxy (holds hello_request) none
    ≡ ok (
        build
          (some (record { addr = name (codes "a.b") 443; network = tcp }))
          none
          (Stream.conn (write_all connect_reply_str base))
          none
          none)
unfolding parse_ip block
handshake_connects_example =
    handshake_connects decode authority parse_ip open_proxy (holds hello_request) base none
      (codes "a.b") 443 host_header [] (codes "hello") hello_held refl a_b_Bare refl (omega arith)
      authority_PathChar
      (subst IsString (sym authority_test) (
        ascii-IsString (codes "a.b:443") (
          omega arith,
          (
            omega arith,
            (omega arith, (omega arith, (omega arith, (omega arith, (omega arith, tt))))),
          ),
        )))
      host_Plain tt
      (ascii-IsString (block host_header []) (
        omega arith,
        (
          omega arith,
          (
            omega arith,
            (
              omega arith,
              (omega arith, (omega arith, (omega arith, (omega arith, (omega arith, tt))))),
            ),
          ),
        ),
      ))
