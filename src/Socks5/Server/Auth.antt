-- ===== src/Socks5/Server/Auth.antt =====
-- src/map/socks5/server/mod.rs, `Server::handshake`: the hello, and the loop over its methods.
pub mod Vouched
use ruci.Prelude.{
  ℕ, zero, suc, ◌+◌, ◌-◌, Bool, true, false, not, ◌&&◌, ◌||◌, Option, some, none, [], ◌∷◌, ltb, leb,
  ◌==◌, if◌then◌else◌, Bytes, length, take,
}
use ruci.Prelude.Monad.{Outcome, panic}
use ruci.Utf8.{from_utf8_lossy}
use ruci.User.{UsersMap, auth_user_by_authstr}
use ruci.User.PlainText.{PlainText}
use ruci.User.PlainText
use ruci.Socks5.Consts.{
  version5, auth_none, auth_password, auth_no_acceptable, success, userpass_subnegotiation_version,
}
use ruci.Socks5.Session.{
  Session, Act, Stop, give_up, refuse, ServerError, hello_too_short, version_wrong, methods_wrong,
  auth_failed, not_authed, MethodError, password_unconfigured, parse_failed, data_too_short, ◌>>=◌,
  ◌>>◌, pure, stop, session, modify, ensure, index, slice, reply, write_all, read,
}

-- How a round of the loop ends.
pub data Control : Type 0 where
  continue break : Control

-- `opt_e = Some(e); continue;`
remember : MethodError → Act Control
remember e = do modify (λ s. record s { opt_e = some e }); pure Control.continue

-- `remain_n -= k`, checked in a debug build.
consume : ℕ → Act (Unit {0})
consume k s =
    if leb k s.remain_n then (Outcome.ok tt, record s { remain_n = s.remain_n - k }) else (panic, s)

none_method : Option (UsersMap PlainText) → Act Control
none_method um = do
  s ← session
  if s.dealt_none then pure break else (do
    modify (λ s. record s { dealt_none = true })
    elim um [
      | some _ ↦ pure Control.continue
      | none ↦ (do reply version5 auth_none; modify (λ s. record s { authed = true }); pure break)
    ])

-- The bytes of the user name and password: the next message, or what came behind the hello.
auth_bytes : ℕ → Act Bytes
auth_bytes nmp2 = do
  s ← session
  if s.n == nmp2
      then (do
        n ← read
        modify (λ s. record s { n = n; remain_n = n })
        s ← session
        pure (take n s.buf))
      else slice 3 s.n s.buf

-- Whether the user is known, and what the server answers.
verdict : UsersMap PlainText → PlainText → Act Control
verdict um this_up = elim (auth_user_by_authstr um this_up.astr) [
  | some _ ↦ (do
    modify (λ s. record s { authed = true; opt_e = none })
    write_all (userpass_subnegotiation_version ∷ success ∷ [])
    modify (λ s. record s { the_user = some this_up })
    pure break)
  | none ↦ (do
    write_all (userpass_subnegotiation_version ∷ 1 ∷ [])
    stop (refuse (auth_failed this_up)))
]

-- The password behind a name of `ul` bytes.
password : UsersMap PlainText → ℕ → Bytes → Act Control
unfolding verdict remember consume
password um ul auth_bs = do
  s ← session
  if ltb s.n (ul + 2) then remember (data_too_short s.n) else (do
    u_bytes ← slice 2 (2 + ul) auth_bs
    pl ← index (2 + ul) auth_bs
    if ltb s.n (ul + 2 + pl) then remember (data_too_short s.n) else (do
      consume (2 + ul + 1 + pl)
      p_bytes ← slice (2 + ul + 1) (2 + ul + 1 + pl) auth_bs
      verdict um (PlainText.new (from_utf8_lossy u_bytes) (from_utf8_lossy p_bytes))))

credentials : UsersMap PlainText → Bytes → Act Control
unfolding password remember
credentials um auth_bs = do
  ul ← index 1 auth_bs
  v ← index 0 auth_bs
  if ltb (length auth_bs) 5 || not (v == userpass_subnegotiation_version) || ul == 0
      then remember parse_failed
      else password um ul auth_bs

password_method : Option (UsersMap PlainText) → ℕ → Act Control
unfolding remember auth_bytes credentials
password_method um nmp2 = do
  s ← session
  if s.dealt_pass then pure break else (do
    modify (λ s. record s { dealt_pass = true })
    elim um [
      | none ↦ remember password_unconfigured
      | some users ↦ (do
        reply version5 auth_password
        auth_bs ← auth_bytes nmp2
        credentials users auth_bs)
    ])

method : Option (UsersMap PlainText) → ℕ → ℕ → Act Control
unfolding none_method password_method
method um nmp2 m =
    if m == auth_none
    then none_method um
    else if m == auth_password
    then password_method um nmp2
    else pure Control.continue

-- `for i in 2..nmp2`, by the number of rounds that are left.
unfoldable pub methods : Option (UsersMap PlainText) → ℕ → ℕ → ℕ → Act (Unit {0})
unfolding method
methods um nmp2 zero i = pure tt
methods um nmp2 (suc k) i = do
  s ← session
  m ← index i s.buf
  c ← method um nmp2 m
  elim c [ continue ↦ methods um nmp2 k (i + 1) | break ↦ pure tt ]

refused : ServerError → Act (Unit {0})
refused e = do reply version5 auth_no_acceptable; stop (refuse e)

-- The hello up to the verdict on the client.
unfoldable pub negotiate : Option (UsersMap PlainText) → Act (Unit {0})
unfolding methods refused
negotiate um = do
  s ← session
  ensure (leb 3 s.n) (give_up (hello_too_short s.n))
  v ← index 0 s.buf
  ensure (v == version5) (refuse (version_wrong v))
  nm ← index 1 s.buf
  if nm == 0 || ltb s.n (2 + nm) then refused (methods_wrong nm s.n) else (do
    modify (λ t. record t { remain_n = s.n - (2 + nm) })
    methods um (2 + nm) nm 2
    s ← session
    if s.authed then pure tt else refused (not_authed s.opt_e))
