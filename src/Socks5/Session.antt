-- ===== src/Socks5/Session.antt =====
-- src/map/socks5/server/mod.rs: the local variables of `Server::handshake`, and the steps on them.
pub mod Keeps
use ruci.Prelude.{
  ℕ, ◌+◌, ◌-◌, Bool, true, false, Option, some, none, [], ◌∷◌, ◌++◌, ltb, leb, if◌then◌else◌, Bytes,
  length, take, drop, get_elem?,
}
use ruci.Prelude.Monad.{Outcome, ok, err, panic}
use ruci.Net.Addr
use ruci.Net.Conn.{Conn, IoError}
use ruci.Net.Conn
use ruci.User.PlainText.{PlainText}

-- What the loop over the methods remembers of a failure.
pub data MethodError : Type 0 where
  password_unconfigured parse_failed : MethodError
  data_too_short : ℕ → MethodError

pub data ServerError : Type 0 where
  hello_too_short version_wrong cmd_too_short second_version_wrong cmd_unsupported : ℕ → ServerError
  methods_wrong : ℕ → ℕ → ServerError
  auth_failed : PlainText → ServerError
  not_authed : Option MethodError → ServerError
  bind_unsupported : ServerError
  atyp_unknown short_of_port cmd_not_supported : ℕ → ServerError
  address : Addr.Error → ServerError
  io : IoError → ServerError

-- How the function returns early: `Err(e)`, or `ebc` with the buffer cut to `n` bytes.
pub data Stop : Type 0 where
  give_up refuse : ServerError → Stop

pub record Session : Type 0 where
  pub buf : Bytes
  pub n : ℕ
  pub remain_n : ℕ
  pub authed : Bool
  pub dealt_none : Bool
  pub dealt_pass : Bool
  pub opt_e : Option MethodError
  pub the_user : Option PlainText
  pub base : Conn

abbrev pub Act : Type 0 → Type 0
Act A = Session → Outcome Stop A × Session

module _ {A B : Type 0} where
  abbrev pub resume : Outcome Stop A → (A → Act B) → Act B
  resume (ok a) f s = f a s
  resume (err e) f s = (err e, s)
  resume panic f s = (panic, s)

  infixl 5 ◌>>=◌
  unfoldable pub ◌>>=◌ : Act A → (A → Act B) → Act B
  ◌>>=◌ m f s = let r = m s in resume r.0 f r.1

infixl 5 ◌>>◌
abbrev pub ◌>>◌ : {B : Type 0} → Act (Unit {0}) → Act B → Act B
m >> k = m >>= λ _. k

abbrev pub pure : {A : Type 0} → A → Act A
pure a s = (ok a, s)

abbrev pub stop : {A : Type 0} → Stop → Act A
stop e s = (err e, s)

abbrev pub session : Act Session
session s = (ok s, s)

abbrev pub modify : (Session → Session) → Act (Unit {0})
modify f s = (ok tt, f s)

-- `if !test { return .. }`
abbrev pub ensure : Bool → Stop → Act (Unit {0})
ensure true e s = (ok tt, s)
ensure false e s = (err e, s)

-- `bs[i]`
abbrev pub index : ℕ → Bytes → Act ℕ
index i bs s = elim (get_elem? bs i) [ none ↦ (panic, s) | some b ↦ (ok b, s) ]

-- `&bs[i..j]`, where `i` is not beyond `j`.
abbrev pub slice : ℕ → ℕ → Bytes → Act Bytes
slice i j bs s = if leb j (length bs) then (ok (take (j - i) (drop i bs)), s) else (panic, s)

-- `buf[0] = a; buf[1] = b; base.write_all(&buf[..2])`
reply_in : ℕ → ℕ → Bytes → Act (Unit {0})
reply_in a b (_ ∷ _ ∷ rest) s =
    (ok tt, record s { buf = a ∷ b ∷ rest; base = Conn.write_all (a ∷ b ∷ []) s.base })
reply_in a b _ s = (panic, s)

unfoldable pub reply : ℕ → ℕ → Act (Unit {0})
unfolding reply_in
reply a b s = reply_in a b s.buf s

abbrev pub write_all : Bytes → Act (Unit {0})
write_all bs s = (ok tt, record s { base = Conn.write_all bs s.base })

-- What a read gave, over the front of the buffer.
got : Outcome IoError Bytes × Conn → Session → Outcome Stop ℕ × Session
got (ok bs, c) s = (ok (length bs), record s { buf = bs ++ drop (length bs) s.buf; base = c })
got (err e, c) s = (err (give_up (io e)), record s { base = c })
got (panic, c) s = (panic, record s { base = c })

-- `base.read(&mut buf).await?`
unfoldable pub read : Act ℕ
unfolding got
read s = got (Conn.read (length s.buf) s.base) s

-- `buf.advance(k)`
abbrev pub advance : ℕ → Act (Unit {0})
advance k s = if leb k (length s.buf) then (ok tt, record s { buf = drop k s.buf }) else (panic, s)
