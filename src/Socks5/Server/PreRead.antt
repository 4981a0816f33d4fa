-- ===== src/Socks5/Server/PreRead.antt =====
-- An open server whose hello the layer before has read (src/map/socks5/server/mod.rs).
use ruci.Prelude.{
  ℕ, ◌≤◌, ◌≡◌, ap, Bool, Option, some, none, List, [], ◌∷◌, Bytes, length, take, arith,
}
use ruci.Prelude.Monad.{ok}
use ruci.Utf8.{Text}
use ruci.Net.Addr.{Addr, IpAddr}
use ruci.Net.Conn.{Conn, Answer, chunk}
use ruci.Net.Conn
use ruci.Map.{ebc}
use ruci.Socks5.Session.{Session, read, ◌>>=◌, cmd_too_short}
use ruci.Socks5.Session
use ruci.Socks5.Server.Auth.{negotiate}
use ruci.Socks5.Server.Request.{request, next_message}
use ruci.Socks5.Server.{Server, Result, begin, finish, execute, steps, handshake}

module _ {U : Type 0} (parse_ip : Text → Option IpAddr) (udp_associate : Conn → Addr → Result U)
    (late : Bool) (cap : ℕ) (sv : Server) (open_server : sv.um ≡ none) where
  -- A server without users that is handed the hello alone by the layer before refuses whatever
  -- request of three bytes or more comes next as too short: it reads no more of it than the hello's
  -- three bytes have room for, and hands these on to the fallback with the rest of the stream.
  pub handshake_pre_read :
      (m : Bytes) (rest : List Answer)
      → 3 ≤ length m
      → handshake parse_ip udp_associate late cap sv
          (record { answers = chunk m ∷ rest; written = [] })
          (some (5 ∷ 1 ∷ 0 ∷ []))
        ≡ ok (
            ebc
              (cmd_too_short 3)
              (take 3 m)
              (Conn.read 3 (record { answers = chunk m ∷ rest; written = 5 ∷ 0 ∷ [] })).1)
  unfolding handshake steps finish begin negotiate request next_message ◌>>=◌ Session.reply read
      Conn.read
  handshake_pre_read [] rest h = absurd (omega arith)
  handshake_pre_read (x ∷ []) rest h = absurd (omega arith)
  handshake_pre_read (x ∷ y ∷ []) rest h = absurd (omega arith)
  handshake_pre_read (x ∷ y ∷ z ∷ m) rest h =
      ap
        (λ um. finish (
          (negotiate um >>= λ _. request parse_ip >>= execute parse_ip udp_associate late cap sv) (
            begin (5 ∷ 1 ∷ 0 ∷ []) 3
              (record { answers = chunk (x ∷ y ∷ z ∷ m) ∷ rest; written = [] }))))
        open_server
