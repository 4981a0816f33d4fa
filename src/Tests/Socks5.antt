-- ===== src/Tests/Socks5.antt =====
-- The SOCKS5 handshakes (src/map/socks5) on concrete inputs.
use ruci.Prelude.{
  true, ◌≤◌, ◌++◌, length, be_bytes, arith, ◌≡◌, refl, false, Option, none, some, [], ◌∷◌, Bytes,
  codes, be_value,
}
use ruci.Utf8.Strings.{IsString, ascii-IsString}
use ruci.Prelude.Monad.{Outcome, ok, panic}
use ruci.Utf8.{Text, from_utf8_lossy, lossy_loop, scan}
use ruci.Net.Addr.{Addr, NetAddr, SocketAddr, IpAddr, v4, name, socket, tcp}
use ruci.Net.Conn.{Conn, chunk}
use ruci.Map.{MapResult, build, ebc, conn, buf_to_ob}
use ruci.Socks5.Consts.{common_tcp_handshake_reply}
use ruci.Net.Conn
use ruci.Net.Helpers.{addr_to_socks5_bytes}
use ruci.Net.Helpers.RoundTrip.{on_wire}
use ruci.Socks5.Client
use ruci.Socks5.Client.{Client, ClientError}
use ruci.Socks5.Client.Connect.{connect_request, hello, login}
use ruci.Socks5.Server.PreRead.{handshake_pre_read}
use ruci.Socks5.Server.Connect.{handshake_grants, handshake_late}
use ruci.User.{UsersMap, add_user, auth_user_by_authstr}
use ruci.User
use ruci.User.PlainText
use ruci.User.PlainText.{PlainText, plain_text_user}
use ruci.Net.Addr
use ruci.Socks5.Session
use ruci.Socks5.Server.Auth.{negotiate}
use ruci.Socks5.Server.Request.{
  request, first_data, next_message, target, place, host, better_ip, lift_addr,
}
use ruci.Socks5.Session.{ServerError, cmd_too_short}
use ruci.Socks5.Server.Auth.Vouched.{KnownUser}
use ruci.Socks5.Server.Authenticated.{handshake-KnownUser}
use ruci.Socks5.Server.{Server, Result, handshake}

abbrev no_ip : Text → Option IpAddr
no_ip _ = none

abbrev no_udp : Conn → Addr → Result Conn
no_udp c a = panic

abbrev open_server : Server
open_server = record { um = none; support_udp = false }

abbrev request_bytes : Bytes
request_bytes = 5 ∷ 1 ∷ 0 ∷ 1 ∷ 127 ∷ 0 ∷ 0 ∷ 1 ∷ 0 ∷ 80 ∷ []

abbrev local : Addr
local = record { addr = socket (record { ip = v4 0x7f00_0001; port = 80 }); network = tcp }

connect_test :
    handshake no_ip no_udp false 1014 open_server
      (record {
        answers = chunk (5 ∷ 1 ∷ 0 ∷ []) ∷ chunk request_bytes ∷ chunk (codes "GET") ∷ [];
        written = [];
      })
      none
    ≡ ok (
        build
          (some local)
          (some (codes "GET"))
          (conn (record { answers = []; written = 5 ∷ 0 ∷ common_tcp_handshake_reply }))
          none
          none)
unfolding handshake negotiate request next_message target place host better_ip lift_addr first_data
    Conn.read Session.read Session.reply Addr.from be_value buf_to_ob Session.◌>>=◌
connect_test = refl

abbrev conn_after_hello : Conn
conn_after_hello = record {
  answers = chunk (1 ∷ 127 ∷ 0 ∷ 0 ∷ 1 ∷ 0 ∷ 80 ∷ []) ∷ [];
  written = 5 ∷ 0 ∷ [];
}

-- A hello that the layer before read leaves no room for the request.
pre_read_test :
    handshake no_ip no_udp false 1014 open_server
      (record { answers = chunk request_bytes ∷ []; written = [] })
      (some (5 ∷ 1 ∷ 0 ∷ []))
    ≡ ok (ebc (cmd_too_short 3) (5 ∷ 1 ∷ 0 ∷ []) (conn_after_hello))
unfolding handshake negotiate request next_message target place host better_ip lift_addr first_data
    Conn.read Session.read Session.reply Addr.from be_value buf_to_ob Session.◌>>=◌
pre_read_test = refl

abbrev pair : PlainText
pair = PlainText.new (codes "u") (codes "p")

abbrev users : UsersMap PlainText
users = add_user plain_text_user User.new pair

abbrev closed_server : Server
closed_server = record { um = some users; support_udp = false }

abbrev granted : MapResult Conn Conn PlainText ServerError
granted =
    build (some local) (some (codes "GET"))
      (conn (record { answers = []; written = 5 ∷ 2 ∷ 1 ∷ 0 ∷ common_tcp_handshake_reply }))
      (some pair) none

password_test :
    handshake no_ip no_udp false 1014 closed_server
      (record {
        answers =
            chunk (5 ∷ 1 ∷ 2 ∷ [])
            ∷ chunk (1 ∷ 1 ∷ b'u' ∷ 1 ∷ b'p' ∷ [])
            ∷ chunk request_bytes
            ∷ chunk (codes "GET")
            ∷ [];
        written = [];
      })
      none
    ≡ ok granted
unfolding handshake negotiate request next_message target place host better_ip lift_addr first_data
    Conn.read Session.read Session.reply Addr.from be_value buf_to_ob Session.◌>>=◌
    auth_user_by_authstr add_user plain_text_user PlainText.new from_utf8_lossy lossy_loop scan
password_test = refl

handshake-KnownUser_example : KnownUser users (some pair)
handshake-KnownUser_example =
    handshake-KnownUser users no_ip no_udp false 1014 closed_server
      (record {
        answers =
            chunk (5 ∷ 1 ∷ 2 ∷ [])
            ∷ chunk (1 ∷ 1 ∷ b'u' ∷ 1 ∷ b'p' ∷ [])
            ∷ chunk request_bytes
            ∷ chunk (codes "GET")
            ∷ [];
        written = [];
      })
      none granted refl password_test refl

abbrev www : NetAddr
www = name (codes "www.b") 443

abbrev client : Client
client = record { up = some pair; is_tail_of_chain = true; pre_defined_early_data = none }

abbrev no_dial : SocketAddr → Outcome ClientError Conn
no_dial so = panic

abbrev after_client : Conn
after_client = record {
  answers = [];
  written = hello (some pair) ++ login (some pair) ++ (connect_request www ++ codes "GET");
}

request_length : length (connect_request www) ≤ 1024
unfolding addr_to_socks5_bytes be_bytes
request_length = omega arith

www-IsString : IsString (codes "www.b")
www-IsString = ascii-IsString (codes "www.b") (omega arith)

handshake_grants_example :
    handshake no_ip no_udp false 1000 open_server
      (record {
        answers = chunk (5 ∷ 1 ∷ 0 ∷ []) ∷ chunk (connect_request www) ∷ chunk (codes "GET") ∷ [];
        written = [];
      })
      none
    ≡ ok (
        build
          (some (record { addr = www; network = tcp }))
          (buf_to_ob (codes "GET"))
          (conn (record { answers = []; written = 5 ∷ 0 ∷ common_tcp_handshake_reply }))
          none
          none)
unfolding on_wire
handshake_grants_example =
    handshake_grants no_ip www (www-IsString, omega arith) (omega arith) request_length no_udp 1000
      open_server refl (codes "GET") [] (omega arith)

handshake_late_example :
    handshake no_ip no_udp true 4 open_server
      (record { answers = chunk (5 ∷ 1 ∷ 0 ∷ []) ∷ chunk (connect_request www) ∷ []; written = [] })
      none
    ≡ ok (
        build
          (some (record { addr = www; network = tcp }))
          (buf_to_ob (0 ∷ 0 ∷ 0 ∷ 0 ∷ []))
          (conn (record { answers = []; written = 5 ∷ 0 ∷ common_tcp_handshake_reply }))
          none
          none)
unfolding on_wire
handshake_late_example =
    handshake_late no_ip www (www-IsString, omega arith) (omega arith) request_length no_udp 4
      open_server refl []

handshake_pre_read_example :
    handshake no_ip no_udp false 1000 open_server
      (record { answers = chunk request_bytes ∷ []; written = [] })
      (some (5 ∷ 1 ∷ 0 ∷ []))
    ≡ ok (
        ebc
          (cmd_too_short 3)
          (5 ∷ 1 ∷ 0 ∷ [])
          (Conn.read 3 (record { answers = chunk request_bytes ∷ []; written = 5 ∷ 0 ∷ [] })).1)
handshake_pre_read_example =
    handshake_pre_read no_ip no_udp false 1000 open_server refl request_bytes [] (omega arith)
