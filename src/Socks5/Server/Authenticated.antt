-- ===== src/Socks5/Server/Authenticated.antt =====
-- Who gets past a server with users (src/map/socks5/server/mod.rs).
use ruci.Prelude.{
  ℕ, ◌≡◌, ◌≢◌, refl, sym, subst, Bool, true, false, Option, some, none, ◌++◌, ◌==◌, ◌&&◌, Bytes,
  length, take, drop, zeroed, if◌then◌else◌,
}
use ruci.Prelude.Monad.{Outcome, ok, err, panic}
use ruci.Utf8.{Text}
use ruci.Net.Addr.{Addr, IpAddr}
use ruci.Net.Conn.{Conn, IoError, read}
use ruci.User.{UsersMap}
use ruci.User.PlainText.{PlainText}
use ruci.Map.{MapResult, ebc}
use ruci.Socks5.Consts.{cmd_connect, cmd_udp_associate, common_tcp_handshake_reply}
use ruci.Socks5.Session.{
  Session, Act, Stop, give_up, refuse, ServerError, cmd_not_supported, resume, write_all, session,
  ◌>>=◌, pure,
}
use ruci.Socks5.Server.Auth.{negotiate}
use ruci.Socks5.Server.Auth.Vouched.{KnownUser, Vouched, negotiate-Keeps, negotiate-Leads}
use ruci.Socks5.Server.Request.{request, first_data}
use ruci.Socks5.Server.Request.Kept.{request-Keeps, first_data-Keeps}
use ruci.Socks5.Server.{
  Server, Result, begin, finish, with_user, answered, execute, steps, started, handshake,
}

module _ {U : Type 0} (users : UsersMap PlainText) where
  -- A result without an error carries a user that the map knows.
  abbrev pub Granted : Result U → Type 0
  Granted r =
      (mr : MapResult Conn U PlainText ServerError) → r ≡ ok mr → mr.e ≡ none → KnownUser users mr.d

  err-ne-ok :
      {e : ServerError} {mr : MapResult Conn U PlainText ServerError}
      → ◌≢◌ {A = Result U} (err e) (ok mr)
  err-ne-ok x = cc

  panic-ne-ok : {mr : MapResult Conn U PlainText ServerError} → ◌≢◌ {A = Result U} panic (ok mr)
  panic-ne-ok x = cc

  -- `ebc` gives a result with an error.
  ebc-ne-none :
      (e : ServerError) (b : Bytes) (c : Conn) (mr : MapResult Conn U PlainText ServerError)
      → ◌≡◌ {A = Result U} (ok (ebc e b c)) (ok mr)
      → mr.e ≢ none
  ebc-ne-none e b c mr x y = cc

  abbrev Grants : (Session → Type 0) → Act (Result U) → Type 0
  Grants Pre m = (s : Session) → Pre s → Granted (finish (m s))

  bind-Grants :
      {A : Type 0} (Pre : Session → Type 0) (Mid : A → Session → Type 0) (m : Act A)
      (f : A → Act (Result U))
      → ((s : Session) → Pre s → (a : A) → (m s).0 ≡ ok a → Mid a (m s).1)
      → ((a : A) → Grants (Mid a) (f a))
      → Grants Pre (m >>= f)
  unfolding finish ◌>>=◌
  bind-Grants {A = A} Pre Mid m f h k s p = go (m s).0 (m s).1 (h s p)
    where
      go :
          (r : Outcome Stop A) (t : Session)
          → ((a : A) → r ≡ ok a → Mid a t)
          → Granted (finish (resume r f t))
      go (ok a) t q mr x y = k a t (q a refl) mr x y
      go (err (give_up e)) t q mr x y = absurd (err-ne-ok x)
      go (err (refuse e)) t q mr x y = absurd (ebc-ne-none e (take t.n t.buf) t.base mr x y)
      go panic t q mr x y = absurd (panic-ne-ok x)

  if-Grants :
      (Pre : Session → Type 0) (b : Bool) (m k : Act (Result U))
      → Grants Pre m
      → Grants Pre k
      → Grants Pre (if b then m else k)
  if-Grants Pre true m k h h' = h
  if-Grants Pre false m k h h' = h'

  -- A result that carries `d`.
  carries-Granted :
      (d : Option PlainText) (mr' : MapResult Conn U PlainText ServerError)
      → KnownUser users d
      → mr'.d ≡ d
      → Granted (ok mr')
  carries-Granted d mr' (p, u, a, b) e mr x y = (p, u, cc, b)

  with_user-Granted :
      (d : Option PlainText) (r : Result U) → KnownUser users d → Granted (with_user d r)
  unfolding with_user
  with_user-Granted d (ok mr') k = carries-Granted d _ k refl
  with_user-Granted d (err e) k = λ mr x y. absurd (err-ne-ok x)
  with_user-Granted d panic k = λ mr x y. absurd (panic-ne-ok x)

  pure-Granted : (r : Result U) (s : Session) → Granted r → Granted (finish (pure r s))
  unfolding finish
  pure-Granted r s h = h

false-ne-true : false ≢ true
false-ne-true e = cc

-- The user of the session is known.
module _ (users : UsersMap PlainText) where
  abbrev Known : Session → Type 0
  Known s = KnownUser users s.the_user

  -- The session that a step looks at is the one at hand.
  session-Known : (s : Session) → Known s → (t : Session) → (session s).0 ≡ ok t → Known t × Known s
  session-Known s k t e = (subst Known (ok-inj e) k, k)
    where
      ok-inj : {a b : Session} → ◌≡◌ {A = Outcome Stop Session} (ok a) (ok b) → a ≡ b
      ok-inj e = cc

  module _ {U : Type 0} (parse_ip : Text → Option IpAddr) (udp_associate : Conn → Addr → Result U)
      (late : Bool) (room : ℕ) (sv : Server) where
    answered-Grants : (ad : Addr) → Grants users Known (answered {U = U} late room ad)
    unfolding answered
    answered-Grants ad =
        bind-Grants users Known (λ _. Known) (write_all common_tcp_handshake_reply) _ (λ s k _ _. k)
          (λ _.
            bind-Grants users Known (λ _. Known) (first_data late room) _
              (λ s k _ _. first_data-Keeps (λ _ d. KnownUser users d) late room s k)
              (λ _.
                bind-Grants users Known (λ t s. Known t × Known s) session _ session-Known
                  (λ t s k. pure-Granted users _ s (carries-Granted users t.the_user _ k.0 refl))))

    execute-Grants :
        (r : ℕ × Addr) → Grants users Known (execute parse_ip udp_associate late room sv r)
    unfolding execute
    execute-Grants (cmd, ad) =
        bind-Grants users Known (λ t s. Known t × Known s) session _ session-Known
          (λ t.
            if-Grants users (λ s. Known t × Known s) (cmd == cmd_connect) _ _
              (λ s k. answered-Grants ad s k.1)
              (if-Grants users (λ s. Known t × Known s) (cmd == cmd_udp_associate && sv.support_udp)
                _ _
                (λ s k.
                  pure-Granted users _ s
                    (with_user-Granted users t.the_user (udp_associate t.base ad) k.0))
                (λ s k. pure-Granted users _ s (λ mr x y.
                  absurd (ebc-ne-none users (cmd_not_supported cmd) t.buf t.base mr x y)))))

    steps-Grants :
        sv.um ≡ some users
        → Grants users
            (λ s. Vouched users s.authed s.the_user)
            (steps parse_ip udp_associate late room sv)
    unfolding steps
    steps-Grants known =
        bind-Grants users (λ s. Vouched users s.authed s.the_user) (λ _. Known) (negotiate sv.um) _
          (λ s v a e.
            subst (λ um. Vouched users (negotiate um s).1.authed (negotiate um s).1.the_user)
              (sym known) (negotiate-Keeps users s v) (negotiate-Leads sv.um s a e))
          (λ _.
            bind-Grants users Known (λ _. Known) (request parse_ip) _
              (λ s k _ _. request-Keeps (λ _ d. KnownUser users d) parse_ip s k)
              (λ r. execute-Grants r))

    begin-Vouched :
        (b : Bytes) (n : ℕ) (c : Conn) → Vouched users (begin b n c).authed (begin b n c).the_user
    unfolding begin
    begin-Vouched b n c e = absurd (false-ne-true e)

    started-Granted :
        sv.um ≡ some users
        → (r : Outcome IoError Bytes × Conn)
        → Granted users (started parse_ip udp_associate late room sv r)
    unfolding started
    started-Granted known (ok bs, c) =
        steps-Grants known _ (begin-Vouched (bs ++ drop (length bs) (zeroed 1024)) (length bs) c)
    started-Granted known (err e, c) = λ mr x y. absurd (err-ne-ok users x)
    started-Granted known (panic, c) = λ mr x y. absurd (panic-ne-ok users x)

    -- A server with users lets nobody through whom its map does not know: a handshake that gives a
    -- result without an error carries as its data a user whose name and password authenticate, be it
    -- for a connection or for datagrams, whatever the client sends and in whatever pieces.
    pub handshake-KnownUser :
        (c : Conn) (pre_read_data : Option Bytes) (mr : MapResult Conn U PlainText ServerError)
        → sv.um ≡ some users
        → handshake parse_ip udp_associate late room sv c pre_read_data ≡ ok mr
        → mr.e ≡ none
        → KnownUser users mr.d
    unfolding handshake
    handshake-KnownUser c none mr known x y = started-Granted known (read 1024 c) mr x y
    handshake-KnownUser c (some pd) mr known x y =
        steps-Grants known _ (begin-Vouched pd (length pd) c) mr x y
