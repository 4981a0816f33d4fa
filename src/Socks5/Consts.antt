-- ===== src/Socks5/Consts.antt =====
-- src/map/socks5/mod.rs: the protocol's constants.
use ruci.Prelude.{ℕ, [], ◌∷◌, Bytes}

abbrev pub version5 : ℕ
version5 = 0x05

abbrev pub auth_none : ℕ
auth_none = 0

abbrev pub auth_password : ℕ
auth_password = 2

abbrev pub auth_no_acceptable : ℕ
auth_no_acceptable = 0xff

abbrev pub cmd_connect : ℕ
cmd_connect = 1

abbrev pub cmd_bind : ℕ
cmd_bind = 2

abbrev pub cmd_udp_associate : ℕ
cmd_udp_associate = 3

abbrev pub success : ℕ
success = 0

abbrev pub userpass_subnegotiation_version : ℕ
userpass_subnegotiation_version = 1

abbrev pub common_tcp_handshake_reply : Bytes
common_tcp_handshake_reply = version5 ∷ 0 ∷ 0 ∷ 1 ∷ 0 ∷ 0 ∷ 0 ∷ 0 ∷ 0 ∷ 0 ∷ []
