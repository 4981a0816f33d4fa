-- ===== src/Socks5/Server.antt =====
-- src/map/socks5/server/mod.rs: the server's side of the handshake. `IpAddr::from_str` is the
-- argument `parse_ip`; server/udp2.rs (Udp2) is the argument `udp_associate`.
pub mod Auth
pub mod Request
pub mod Authenticated
pub mod Connect
pub mod PreRead
pub mod Udp
pub mod Udp2
use ruci.Prelude.{
  ℕ, Bool, true, false, Option, some, none, List, [], ◌∷◌, ◌++◌, ◌==◌, ◌&&◌, if◌then◌else◌, Bytes,
  length, take, drop, zeroed,
}
use ruci.Prelude.Monad.{Outcome, ok, err, panic}
use ruci.Utf8.{Text}
use ruci.Net.Addr.{Addr, IpAddr}
use ruci.Net.Conn.{Conn, IoError, read}
use ruci.User.{UsersMap}
use ruci.User
use ruci.User.PlainText.{PlainText, plain_text_user, strict_valid}
use ruci.User.PlainText
use ruci.Map.{MapResult, build, ebc, buf_to_ob, conn}
use ruci.Socks5.Consts.{cmd_connect, cmd_udp_associate, common_tcp_handshake_reply}
use ruci.Socks5.Session.{
  Session, Act, Stop, give_up, refuse, ServerError, io, cmd_not_supported, ◌>>=◌, ◌>>◌, pure,
  session, write_all,
}
use ruci.Socks5.Server.Auth.{negotiate}
use ruci.Socks5.Server.Request.{request, first_data}

pub record Server : Type 0 where
  pub um : Option (UsersMap PlainText)
  pub support_udp : Bool

pub record Config : Type 0 where
  pub support_udp : Bool
  pub user_whitespace_pass : Option Text
  pub user_passes : Option (List PlainText)

-- A user from the option that holds both in one text.
add_whitespace : Option Text → UsersMap PlainText → UsersMap PlainText
add_whitespace none m = m
add_whitespace (some s) m =
    let u = PlainText.from s in if strict_valid u then User.add_user plain_text_user m u else m

add_passes : Option (List PlainText) → UsersMap PlainText → UsersMap PlainText
add_passes none m = m
add_passes (some ups) m =
    User.add_popped plain_text_user (λ (u : PlainText). PlainText.new u.user u.pass) ups m

unfoldable pub new : Config → Server
unfolding add_whitespace add_passes
new option =
    let um = add_passes option.user_passes (add_whitespace option.user_whitespace_pass User.new) in
    record { um = if User.is_empty um then none else some um; support_udp = option.support_udp }

-- The session once the hello was read, or came from the layer before.
begin : Bytes → ℕ → Conn → Session
begin buf n c = record {
  buf = buf;
  n = n;
  remain_n = 0;
  authed = false;
  dealt_none = false;
  dealt_pass = false;
  opt_e = none;
  the_user = none;
  base = c;
}

-- `U` are the datagram connections.
abbrev pub Result : Type 0 → Type 0
Result U = Outcome ServerError (MapResult Conn U PlainText ServerError)

module _ {U : Type 0} where
  -- How the steps end: an early return, or the result of the last one.
  finish : Outcome Stop (Result U) × Session → Result U
  finish (ok r, s) = r
  finish (err (give_up e), s) = err e
  finish (err (refuse e), s) = ok (ebc e (take s.n s.buf) s.base)
  finish (panic, s) = panic

  -- `mr.d = d`
  with_user : Option PlainText → Result U → Result U
  with_user d (ok mr) = ok (record mr { d = d })
  with_user d (err e) = err e
  with_user d panic = panic

  -- The answer to a connect request, and what comes of it.
  answered : Bool → ℕ → Addr → Act (Result U)
  answered late room ad = do
    write_all common_tcp_handshake_reply
    first_data late room
    s ← session
    pure (ok (build (some ad) (buf_to_ob s.buf) (conn s.base) s.the_user none))

  module _ (parse_ip : Text → Option IpAddr) (udp_associate : Conn → Addr → Result U) (late : Bool)
      (room : ℕ) (sv : Server) where
    -- What is done about the command.
    pub execute : ℕ × Addr → Act (Result U)
    unfolding with_user answered
    execute (cmd, ad) = do
      s ← session
      if cmd == cmd_connect
          then answered late room ad
          else if cmd == cmd_udp_associate && sv.support_udp
          then pure (with_user s.the_user (udp_associate s.base ad))
          else pure (ok (ebc (cmd_not_supported cmd) s.buf s.base))

    pub steps : Act (Result U)
    unfolding execute
    steps = do negotiate sv.um; r ← request parse_ip; execute r

    -- The first read goes into 1024 bytes.
    started : Outcome IoError Bytes × Conn → Result U
    unfolding finish begin steps
    started (ok bs, c) = finish (steps (begin (bs ++ drop (length bs) (zeroed 1024)) (length bs) c))
    started (err e, c) = err (io e)
    started (panic, c) = panic

    unfoldable pub handshake : Conn → Option Bytes → Result U
    unfolding started finish begin steps
    handshake c none = started (read 1024 c)
    handshake c (some pd) = finish (steps (begin pd (length pd) c))
