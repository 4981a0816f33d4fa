-- ===== src/Tests/Trojan.antt =====
-- The trojan handshake (src/map/trojan) on concrete inputs.
use ruci.Prelude.{
  ℕ, zero, suc, ◌≤◌, ◌≡◌, refl, true, none, some, [], ◌∷◌, ◌++◌, arith, Bytes, codes, length,
  be_bytes,
}
use ruci.Prelude.Monad.{ok}
use ruci.Utf8.{Text}
use ruci.Utf8.Strings.{ascii-IsString}
use ruci.Net.Addr.{NetAddr, name, tcp, udp}
use ruci.Net.Conn.{Conn, chunk}
use ruci.Net.Helpers.{addr_to_socks5_bytes}
use ruci.Net.Helpers.RoundTrip.{on_wire, IsDecodable}
use ruci.User.{UsersMap, auth_user_by_authstr}
use ruci.Map.{build, buf_to_ob, conn, addr_conn}
use ruci.Trojan.Users.{User, new, hex_display}
use ruci.Trojan.Client
use ruci.Trojan.Server
use ruci.Trojan.Consts.{crlf}
use ruci.Trojan.Server.{cap, read_header}
use ruci.Trojan.Server.Loop.{read_header_fuel}
use ruci.Trojan.Handshake.{IsHash, sent, fresh, carried, handshake_connect, handshake_associate}

abbrev zeros : ℕ → Bytes
zeros zero = []
zeros (suc n) = 0 ∷ zeros n

-- A hash that gives 28 zeros.
abbrev sha224 : Text → Bytes
sha224 _ = zeros 28

sha224-IsHash : IsHash sha224
sha224-IsHash = record { size = λ s. refl; bytes = λ s. omega arith }

abbrev user : User
user = new sha224 (codes "pass")

abbrev users : UsersMap User
users = record { id_map = []; a_map = (user.astr, user) ∷ [] }

user_known : auth_user_by_authstr users user.astr ≡ some user
unfolding auth_user_by_authstr new hex_display
user_known = refl

abbrev www : NetAddr
www = name (codes "www.b") 443

abbrev out_tcp : Bytes
out_tcp = sent (
    Client.handshake (record { u = user; is_tail_of_chain = true }) fresh
      (record { addr = www; network = tcp }) (some (codes "GET")))

abbrev out_udp : Bytes
out_udp = sent (
    Client.handshake (record { u = user; is_tail_of_chain = true }) fresh
      (record { addr = www; network = udp }) none)

out_tcp-length : length out_tcp ≤ cap
unfolding sent Client.handshake new hex_display addr_to_socks5_bytes be_bytes
out_tcp-length = omega arith

out_udp-length : length out_udp ≤ cap
unfolding sent Client.handshake new hex_display addr_to_socks5_bytes be_bytes
out_udp-length = omega arith

abbrev quiet : Conn
quiet = record { answers = []; written = [] }

connect-IsDecodable : IsDecodable www (be_bytes 2 crlf ++ carried true (some (codes "GET")))
unfolding be_bytes
connect-IsDecodable = (omega arith, omega arith)

associate-IsDecodable : IsDecodable www (be_bytes 2 crlf ++ [])
unfolding be_bytes
associate-IsDecodable = (omega arith, omega arith)

handshake_connect_example :
    Server.handshake users (record { answers = chunk out_tcp ∷ []; written = [] }) none
    ≡ ok (
        build
          (some (record { addr = on_wire www; network = tcp }))
          (buf_to_ob (codes "GET"))
          (conn quiet)
          (some user)
          none)
handshake_connect_example =
    handshake_connect sha224 sha224-IsHash users (codes "pass") user user_known true www
      (some (codes "GET")) [] [] (ascii-IsString (codes "www.b") (omega arith), omega arith)
      connect-IsDecodable out_tcp-length

handshake_associate_example :
    Server.handshake users (record { answers = chunk out_udp ∷ []; written = [] }) none
    ≡ ok (
        build
          (some (record { addr = on_wire www; network = udp }))
          none
          (addr_conn quiet)
          (some user)
          none)
handshake_associate_example =
    handshake_associate sha224 sha224-IsHash users (codes "pass") user user_known true www none []
      [] (ascii-IsString (codes "www.b") (omega arith), omega arith) associate-IsDecodable
      out_udp-length

read_header_fuel_example :
    read_header (suc 1023) cap [] quiet ≡ read_header (suc (suc 1023)) cap [] quiet
read_header_fuel_example = read_header_fuel 1023 cap [] quiet (omega arith)
