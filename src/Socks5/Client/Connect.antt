-- ===== src/Socks5/Client/Connect.antt =====
-- What the client says, and what it makes of the answers (src/map/socks5/client.rs).
use ruci.Prelude.{Bool, true, false, Option, some, none, List, [], ◌∷◌, Bytes}
use ruci.Net.Addr.{NetAddr, tcp}
use ruci.Net.Conn.{Conn, Answer, chunk}
use ruci.Net.Conn
use ruci.Net.Helpers.{addr_to_socks5_bytes}
use ruci.User.PlainText.{PlainText}
use ruci.Socks5.Consts.{version5, auth_none, auth_password, cmd_connect}
use ruci.Socks5.Client.{Client, adopted_method, userpass}

-- The request for an address.
abbrev pub connect_request : NetAddr → Bytes
connect_request a =
    version5 ∷ cmd_connect ∷ 0 ∷ addr_to_socks5_bytes (record { addr = a; network = tcp }) []

-- The messages of the negotiation, and the answers to it that let the client go on.
abbrev pub hello : Option PlainText → Bytes
hello up = version5 ∷ 1 ∷ adopted_method up ∷ []

abbrev pub login : Option PlainText → Bytes
login none = []
login (some upr) = userpass upr

abbrev pub accepting : Option PlainText → List Answer → List Answer
accepting none rest = chunk (version5 ∷ auth_none ∷ []) ∷ rest
accepting (some upr) rest = chunk (version5 ∷ auth_password ∷ []) ∷ chunk (1 ∷ 0 ∷ []) ∷ rest

-- The early data that go out, and those that are left.
abbrev pub out : Bool → Option Bytes → Bytes
out true (some ed) = ed
out _ _ = []

abbrev pub left : Bool → Option Bytes → Option Bytes
left true _ = none
left false b = b
