-- ===== src/Map/HttpProxy/Given.antt =====
-- Where the HTTP proxy has a request from (src/map/http_proxy.rs).
use ruci.Prelude.{◌≡◌, ap, ◌∙◌, Option, some, none, Bytes, true}
use ruci.Prelude.Monad.{ok}
use ruci.Utf8.{Text}
use ruci.Net.Addr.{IpAddr}
use ruci.Net.Conn.{Conn, read}
use ruci.Net.Http.{ParsedHttpRequest, parse_h1_request}
use ruci.Map.HttpProxy.{Server, on_request, on_read, on_parse_result, handshake}

-- The request `pd` was read by the layer before, or is what one read of 1024 bytes gives; `c` is the
-- connection behind it.
abbrev pub IsGiven : Conn → Option Bytes → Bytes → Conn → Type 0
IsGiven base (some d) pd c = (d ≡ pd) × (base ≡ c)
IsGiven base none pd c = read 1024 base ≡ (ok pd, c)

module _ (decode : Text → Option Bytes) (authority : Text → Option Text)
    (parse_ip : Text → Option IpAddr) (s : Server) where
  handshake-IsGiven :
      (base c : Conn) (pre : Option Bytes) (pd : Bytes)
      → IsGiven base pre pd c
      → handshake decode authority parse_ip s base pre
        ≡ on_request decode authority parse_ip s c pd (parse_h1_request pd true)
  unfolding handshake on_read
  handshake-IsGiven base c (some d) pd (e, f) =
      ap (λ b. on_request decode authority parse_ip s base b (parse_h1_request b true)) e
      ∙ ap (λ k. on_request decode authority parse_ip s k pd (parse_h1_request pd true)) f
  handshake-IsGiven base c none pd e = ap (on_read decode authority parse_ip s) e

  -- The request as it was parsed.
  pub handshake_parsed :
      (base c : Conn) (pre : Option Bytes) (pd : Bytes) (r : ParsedHttpRequest)
      → IsGiven base pre pd c
      → parse_h1_request pd true ≡ some r
      → r.parse_result ≡ none
      → handshake decode authority parse_ip s base pre
        ≡ on_parse_result decode authority parse_ip s r c pd none
  unfolding on_request
  handshake_parsed base c pre pd r g p e =
      handshake-IsGiven base c pre pd g
      ∙ ap (on_request decode authority parse_ip s c pd) p
      ∙ ap (on_parse_result decode authority parse_ip s r c pd) e
