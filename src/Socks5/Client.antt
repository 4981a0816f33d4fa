-- ===== src/Socks5/Client.antt =====
-- src/map/socks5/client.rs: the client's side of the handshake. An error carries what was read, from
-- which the code makes its text. The UDP socket is the argument `dial`; `room` is the capacity of the
-- buffer where the code reads into all of it.
pub mod Connect
use ruci.Prelude.{
  ℕ, ◌%◌, Bool, true, false, not, ◌&&◌, Option, some, none, [], ◌∷◌, ◌++◌, ltb, leb, ◌==◌,
  if◌then◌else◌, Bytes, length, take, drop, eq_bytes,
}
use ruci.Prelude.Monad.{Outcome, ok, err, panic}
use ruci.Net.Addr.{
  Addr, SocketAddr, Network, tcp, udp, ip, unix, is_tcp_or_udp, get_socket_addr, default,
}
use ruci.Net.Conn.{Conn, IoError}
use ruci.Net.Conn
use ruci.Net.Helpers.{WireError, addr_to_socks5_bytes, socks5_bytes_to_addr}
use ruci.User.PlainText.{PlainText}
use ruci.Map.{MapResult, build, conn, addr_conn}
use ruci.Socks5.Consts.{version5, auth_none, auth_password, cmd_connect, cmd_udp_associate, success}

pub data ClientError : Type 0 where
  cannot_be_proxied : Network → ClientError
  protocol_err auth_failed response_failed udp_too_short udp_wrong : Bytes → ClientError
  udp_address : WireError → ClientError
  not_a_socket_addr : Addr → ClientError
  io : IoError → ClientError

pub record Client : Type 0 where
  pub up : Option PlainText
  pub is_tail_of_chain : Bool
  pub pre_defined_early_data : Option Bytes

abbrev Act : Type 0 → Type 0
Act A = Conn → Outcome ClientError A × Conn

module _ {A B : Type 0} where
  abbrev resume : Outcome ClientError A → (A → Act B) → Act B
  resume (ok a) f c = f a c
  resume (err e) f c = (err e, c)
  resume panic f c = (panic, c)

  infixl 5 ◌>>=◌
  abbrev ◌>>=◌ : Act A → (A → Act B) → Act B
  ◌>>=◌ m f c = let r = m c in resume r.0 f r.1

infixl 5 ◌>>◌
abbrev ◌>>◌ : {B : Type 0} → Act (Unit {0}) → Act B → Act B
m >> k = m >>= λ _. k

abbrev pure : {A : Type 0} → A → Act A
pure a c = (ok a, c)

abbrev ensure : Bool → ClientError → Act (Unit {0})
ensure true e c = (ok tt, c)
ensure false e c = (err e, c)

abbrev write_all : Bytes → Act (Unit {0})
write_all bs c = (ok tt, Conn.write_all bs c)

lift_io : Outcome IoError Bytes × Conn → Outcome ClientError Bytes × Conn
lift_io (ok bs, c) = (ok bs, c)
lift_io (err e, c) = (err (io e), c)
lift_io (panic, c) = (panic, c)

-- The bytes that `base.read(&mut buf).await?` puts at the front of `buf`.
read : ℕ → Act Bytes
unfolding lift_io
read room c = lift_io (Conn.read room c)

abbrev pub buf_len : ℕ
buf_len = 1024

unfoldable pub adopted_method : Option PlainText → ℕ
adopted_method none = auth_none
adopted_method (some _) = auth_password

-- Name and password, each behind its length `as u8`.
unfoldable pub userpass : PlainText → Bytes
userpass upr = 1 ∷ length upr.user % 256 ∷ (upr.user ++ (length upr.pass % 256 ∷ upr.pass))

authenticate : Option PlainText → Act (Unit {0})
unfolding read userpass eq_bytes
authenticate none = pure tt
authenticate (some upr) = do
  write_all (userpass upr)
  bs ← read buf_len
  ensure (eq_bytes bs (1 ∷ success ∷ [])) (auth_failed bs)

-- The hello, and the password if there is one.
negotiate : Option PlainText → Act (Unit {0})
unfolding adopted_method authenticate read eq_bytes
negotiate up = do
  write_all (version5 ∷ 1 ∷ adopted_method up ∷ [])
  bs ← read buf_len
  ensure (eq_bytes bs (version5 ∷ adopted_method up ∷ [])) (protocol_err bs)
  authenticate up

-- The early data with the configured ones behind them.
unfoldable pub join_early : Option Bytes → Option Bytes → Option Bytes
join_early the_ed none = the_ed
join_early none (some bf) = some bf
join_early (some ed) (some bf) = some (ed ++ bf)

-- The early data that the end of a chain sends itself, and what is left.
send_early : Bool → Option Bytes → Act (Option Bytes)
send_early true (some ed) = do write_all ed; pure none
send_early true none = pure none
send_early false the_ed = pure the_ed

-- `n >= k`, and the first three bytes say that all is well.
good_reply : ℕ → Bytes → Bool
unfolding eq_bytes
good_reply k bs = leb k (length bs) && eq_bytes (take 3 bs) (version5 ∷ 0 ∷ 0 ∷ [])

is_udp : Network → Bool
is_udp udp = true
is_udp _ = false

lift_addr : Outcome WireError Addr × Bytes → Act Addr
lift_addr (ok a, b) c = (ok a, c)
lift_addr (err e, b) c = (err (udp_address e), c)
lift_addr (panic, b) c = (panic, c)

socket_of : Addr → Option SocketAddr → Act SocketAddr
socket_of a (some so) c = (ok so, c)
socket_of a none c = (err (not_a_socket_addr a), c)

module _ {U : Type 0} where
  connect : Client → Addr → Option Bytes → Act (MapResult Conn U ℕ ClientError)
  unfolding send_early good_reply read
  connect cl a the_ed = do
    write_all (version5 ∷ cmd_connect ∷ 0 ∷ addr_to_socks5_bytes a [])
    bs ← read buf_len
    ensure (good_reply 10 bs) (response_failed bs)
    left ← send_early cl.is_tail_of_chain the_ed
    λ c. (ok (build none left (conn c) (some (adopted_method cl.up)) none), c)

  module _ (dial : SocketAddr → Outcome ClientError U) (room : ℕ) where
    opened : Addr → Option Bytes → ℕ → Outcome ClientError U → Act (MapResult Conn U ℕ ClientError)
    opened a the_ed m (ok u) = pure (build (some a) the_ed (addr_conn u) (some m) none)
    opened a the_ed m (err e) = λ c. (err e, c)
    opened a the_ed m panic = λ c. (panic, c)

    associate : Client → Addr → Option Bytes → Act (MapResult Conn U ℕ ClientError)
    unfolding opened read good_reply lift_addr socket_of
    associate cl a the_ed = do
      write_all (version5 ∷ cmd_udp_associate ∷ 0 ∷ addr_to_socks5_bytes default [])
      bs ← read room
      ensure (leb 3 (length bs)) (udp_too_short bs)
      ensure (good_reply 3 bs) (udp_wrong bs)
      server_udp_addr ← lift_addr (socks5_bytes_to_addr (drop 3 bs))
      server_udp_so ← socket_of server_udp_addr (get_socket_addr server_udp_addr)
      opened a the_ed (adopted_method cl.up) (dial server_udp_so)

    steps : Client → Addr → Option Bytes → Act (MapResult Conn U ℕ ClientError)
    unfolding negotiate join_early connect associate is_udp
    steps cl a b = do
      ensure (is_tcp_or_udp a.network) (cannot_be_proxied a.network)
      negotiate cl.up
      if is_udp a.network
          then associate cl a (join_early b cl.pre_defined_early_data)
          else connect cl a (join_early b cl.pre_defined_early_data)

    -- What comes back, and the connection as it was left.
    unfoldable pub handshake :
        Client
        → Conn
        → Addr
        → Option Bytes
        → Outcome ClientError (MapResult Conn U ℕ ClientError) × Conn
    unfolding steps
    handshake cl base a b = steps cl a b base
