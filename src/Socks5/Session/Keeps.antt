-- ===== src/Socks5/Session/Keeps.antt =====
-- Steps that keep what is known of the client: a property of whether he is authenticated, and as
-- which user (src/map/socks5/server/mod.rs).
use ruci.Prelude.{
  ℕ, ◌≡◌, ◌≢◌, Bool, true, false, Option, some, none, [], ◌∷◌, Bytes, length, leb, if◌then◌else◌,
  get_elem?, Bool-cases, inl, inr,
}
use ruci.Prelude.Monad.{Outcome, ok, err, panic}
use ruci.Net.Conn.{Conn, IoError}
use ruci.Net.Conn
use ruci.User.PlainText.{PlainText}
use ruci.Socks5.Session.{
  Session, Act, Stop, resume, ◌>>=◌, ensure, index, slice, reply, reply_in, read, got, advance,
}

module _ (P : Bool → Option PlainText → Type 0) where
  abbrev pub Holds : Session → Type 0
  Holds s = P s.authed s.the_user

  abbrev pub Keeps : {A : Type 0} → Act A → Type 0
  Keeps m = (s : Session) → Holds s → Holds (m s).1

  pub bind-Keeps :
      {A B : Type 0} (m : Act A) (f : A → Act B)
      → Keeps m
      → ((a : A) → Keeps (f a))
      → Keeps (m >>= f)
  unfolding ◌>>=◌
  bind-Keeps {A = A} m f h k s p = go (m s).0 (m s).1 (h s p)
    where
      go : (r : Outcome Stop A) (t : Session) → Holds t → Holds (resume r f t).1
      go (ok a) t q = k a t q
      go (err e) t q = q
      go panic t q = q

  pub index-Keeps : (i : ℕ) (bs : Bytes) → Keeps (index i bs)
  index-Keeps i bs s p = go (get_elem? bs i)
    where
      go :
          (o : Option ℕ)
          → Holds
              (elim o as (λ _. Outcome Stop ℕ × Session) [
                | none ↦ (panic, s)
                | some b ↦ (ok b, s)
              ]).1
      go none = p
      go (some b) = p

  pub slice-Keeps : (i j : ℕ) (bs : Bytes) → Keeps (slice i j bs)
  slice-Keeps i j bs s p = elim (Bool-cases (leb j (length bs))) [ inl e ↦ rw e p | inr e ↦ rw e p ]

  pub if-Keeps :
      {A : Type 0} (b : Bool) (m k : Act A) → Keeps m → Keeps k → Keeps (if b then m else k)
  if-Keeps true m k h h' = h
  if-Keeps false m k h h' = h'

  pub ensure-Keeps : (b : Bool) (e : Stop) → Keeps (ensure b e)
  ensure-Keeps true e s p = p
  ensure-Keeps false e s p = p

  pub advance-Keeps : (k : ℕ) → Keeps (advance k)
  advance-Keeps k s p = elim (Bool-cases (leb k (length s.buf))) [ inl e ↦ rw e p | inr e ↦ rw e p ]

  pub reply-Keeps : (a b : ℕ) → Keeps (reply a b)
  unfolding reply reply_in
  reply-Keeps a b s p = go s.buf
    where
      go : (bs : Bytes) → Holds (reply_in a b bs s).1
      go [] = p
      go (_ ∷ []) = p
      go (_ ∷ _ ∷ _) = p

  got-Keeps : (r : Outcome IoError Bytes × Conn) → Keeps (got r)
  unfolding got
  got-Keeps (ok bs, c) s p = p
  got-Keeps (err e, c) s p = p
  got-Keeps (panic, c) s p = p

  pub read-Keeps : Keeps read
  unfolding read
  read-Keeps s p = got-Keeps (Conn.read (length s.buf) s.base) s p

pub err-ne-ok : {A : Type 0} {e : Stop} {a : A} → err e ≢ ok a
err-ne-ok k = cc

pub panic-ne-ok : {A : Type 0} {a : A} → ◌≢◌ {A = Outcome Stop A} panic (ok a)
panic-ne-ok k = cc

-- Steps that leave a property of the session where they do not return early.
module _ (Q : Session → Type 0) where
  abbrev pub Leads : {A : Type 0} → Act A → Type 0
  Leads {A} m = (s : Session) (a : A) → (m s).0 ≡ ok a → Q (m s).1

  pub bind-Leads :
      {A B : Type 0} (m : Act A) (f : A → Act B) → ((a : A) → Leads (f a)) → Leads (m >>= f)
  unfolding ◌>>=◌
  bind-Leads {A = A} {B = B} m f h s b e = go (m s).0 (m s).1 e
    where
      go : (r : Outcome Stop A) (t : Session) → (resume r f t).0 ≡ ok b → Q (resume r f t).1
      go (ok a) t k = h a t b k
      go (err e) t k = absurd (err-ne-ok k)
      go panic t k = absurd (panic-ne-ok k)

  pub if-Leads :
      {A : Type 0} (b : Bool) (m k : Act A) → Leads m → Leads k → Leads (if b then m else k)
  if-Leads true m k h h' = h
  if-Leads false m k h h' = h'
