-- ===== src/Map/HttpFilter.antt =====
-- src/map/http_filter.rs: a layer that looks at the first request and hands it on unchanged.
use ruci.Prelude.{
  Bool, true, false, not, ◌&&◌, Option, some, none, [], ◌∷◌, Bytes, codes, eq_bytes, if◌then◌else◌,
}
use ruci.Prelude.Monad.{Outcome, ok, err, panic}
use ruci.Utf8.{Text}
use ruci.Net.Addr.{Addr}
use ruci.Net.Conn.{Conn, IoError, read}
use ruci.Net.Http.{
  ParsedHttpRequest, ParseError, parse_h1_request, max_parse_url_len, get_first_header_by,
}
use ruci.Map.{conn, MapResult, build, ebc, err_str}
use ruci.Map.Ext.{MapParams}

-- What the filter reads of `CommonConfig` (src/net/http.rs).
pub record CommonConfig : Type 0 where
  pub authority : Text
  pub path : Text

pub data FilterError : Type 0 where
  read_failed : IoError → FilterError
  parse_failed : ParseError → FilterError
  wrong_host wrong_path only_tcp_like : FilterError

is_empty : Text → Bool
is_empty [] = true
is_empty (_ ∷ _) = false

module _ {U D : Type 0} where
  pass : Conn → Bytes → Option Addr → MapResult Conn U D FilterError
  pass c buf a = build a (some buf) (conn c) none none

  filtered :
      CommonConfig → ParsedHttpRequest → Conn → Bytes → Option Addr → MapResult Conn U D FilterError
  unfolding pass is_empty eq_bytes get_first_header_by
  filtered cfg r c buf a =
      if not (is_empty cfg.authority)
        && not (eq_bytes cfg.authority (get_first_header_by r (codes "Host")))
      then ebc wrong_host buf c
      else if not (eq_bytes cfg.path r.path)
      then ebc wrong_path buf c
      else pass c buf a

  on_config :
      Option CommonConfig
      → ParsedHttpRequest
      → Conn
      → Bytes
      → Option Addr
      → MapResult Conn U D FilterError
  unfolding filtered pass
  on_config none r c buf a = pass c buf a
  on_config (some cfg) r c buf a = filtered cfg r c buf a

  -- None is a panic of the parser.
  on_result :
      Option CommonConfig
      → ParsedHttpRequest
      → Option ParseError
      → Conn
      → Bytes
      → Option Addr
      → MapResult Conn U D FilterError
  unfolding on_config
  on_result config r (some e) c buf a = err_str (parse_failed e)
  on_result config r none c buf a = on_config config r c buf a

  on_parsed :
      Option CommonConfig
      → Option ParsedHttpRequest
      → Conn
      → Bytes
      → Option Addr
      → Option (MapResult Conn U D FilterError)
  unfolding on_result
  on_parsed config none c buf a = none
  on_parsed config (some r) c buf a = some (on_result config r r.parse_result c buf a)

  on_read :
      Option CommonConfig
      → Option Addr
      → Outcome IoError Bytes × Conn
      → Option (MapResult Conn U D FilterError)
  unfolding on_parsed
  on_read config a (ok buf, c) = on_parsed config (parse_h1_request buf false) c buf a
  on_read config a (err e, c) = some (err_str (read_failed e))
  on_read config a (panic, c) = none

  unfoldable pub maps :
      Option CommonConfig → MapParams Conn U D → Option (MapResult Conn U D FilterError)
  unfolding on_read
  maps config p = elim p.c [
    | conn c ↦ on_read config p.a (read max_parse_url_len c)
    | _ ↦ some (err_str only_tcp_like)
  ]
