-- ===== src/Trojan/Client.antt =====
-- src/map/trojan/client.rs: the client's request.
use ruci.Prelude.{
  ℕ, Bool, true, false, not, ◌&&◌, Option, none, some, [], ◌∷◌, ◌++◌, if◌then◌else◌, Bytes,
  be_bytes,
}
use ruci.Prelude.Monad.{Outcome, ok, err}
use ruci.Net.Addr.{Addr, Network, ip, tcp, udp, unix}
use ruci.Net.Conn.{Conn, write_all}
use ruci.Net.Helpers.{addr_to_socks5_bytes}
use ruci.Map.{MapResult, conn, addr_conn, build}
use ruci.Trojan.Consts.{crlf, cmd_connect, cmd_udpassociate}
use ruci.Trojan.Users.{User}

pub data ClientError : Type 0 where
  unsupported_network : Network → ClientError

pub record Client : Type 0 where
  pub u : User
  pub is_tail_of_chain : Bool

abbrev pub ClientResult : Type 0
ClientResult = MapResult Conn Conn User ClientError

-- `buf.put_u8(..)` by the target's network, or the refusal.
command : Network → Option ℕ
command tcp = some cmd_connect
command udp = some cmd_udpassociate
command ip = none
command unix = none

unfoldable pub is_udp : Network → Bool
is_udp udp = true
is_udp _ = false

-- What is sent before the early data.
unfoldable pub request : User → ℕ → Addr → Bytes
request u cmd ta =
    u.hex ++ (be_bytes 2 crlf ++ (cmd ∷ (addr_to_socks5_bytes ta [] ++ be_bytes 2 crlf)))

-- The early data that go out with the request, and what is left for the next layer.
early : Bool → Option Bytes → Bytes × Option Bytes
early sends none = ([], none)
early sends (some []) = ([], some [])
early sends (some (b ∷ bs)) = if sends then (b ∷ bs, none) else ([], some (b ∷ bs))

send : Client → ℕ → Conn → Addr → Option Bytes → ClientResult
unfolding early is_udp request
send cl cmd base ta first_payload =
    let (ed, left) = early (cl.is_tail_of_chain && not (is_udp ta.network)) first_payload in
    let base = write_all (request cl.u cmd ta ++ ed) base in
    if is_udp ta.network
    then build (some ta) left (addr_conn base) none none
    else build none left (conn base) none none

unfoldable pub handshake : Client → Conn → Addr → Option Bytes → Outcome ClientError ClientResult
unfolding send command
handshake cl base ta first_payload = elim (command ta.network) [
  | none ↦ err (unsupported_network ta.network)
  | some cmd ↦ ok (send cl cmd base ta first_payload)
]
