-- ===== src/Trojan/Consts.antt =====
-- src/map/trojan/mod.rs: the constants of the protocol.
use ruci.Prelude.{ℕ, ◌+◌, ◌*◌}

abbrev pub crlf : ℕ
crlf = 0x0d * 256 + 0x0a

abbrev pub cmd_connect : ℕ
cmd_connect = 1

abbrev pub cmd_udpassociate : ℕ
cmd_udpassociate = 3

abbrev pub cmd_mux : ℕ
cmd_mux = 0x7f

abbrev pub pass_len : ℕ
pass_len = 56
