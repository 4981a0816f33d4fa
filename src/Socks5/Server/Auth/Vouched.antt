-- ===== src/Socks5/Server/Auth/Vouched.antt =====
-- Whoever `authed` is said of in the negotiation is a user of the map (src/map/socks5/server/mod.rs).
use ruci.Prelude.{
  ℕ, zero, suc, ◌+◌, ◌-◌, ◌≡◌, refl, Bool, true, false, not, ◌||◌, Option, some, ltb, leb, ◌==◌,
  Bytes, length, Option-cases, Bool-cases, inl, inr, if◌then◌else◌,
}
use ruci.Prelude.Monad.{ok}
use ruci.User.{UsersMap, auth_user_by_authstr}
use ruci.User.PlainText.{PlainText}
use ruci.Socks5.Consts.{
  version5, auth_none, auth_password, auth_no_acceptable, userpass_subnegotiation_version,
}
use ruci.Socks5.Session.{
  Session, Act, MethodError, pure, session, modify, index, slice, reply, read, refuse, give_up,
  hello_too_short, version_wrong, ensure, not_authed, ◌>>=◌, ServerError, methods_wrong,
}
use ruci.Socks5.Session.Keeps.{
  Keeps, Leads, bind-Leads, if-Leads, err-ne-ok, bind-Keeps, index-Keeps, slice-Keeps, if-Keeps,
  ensure-Keeps, reply-Keeps, read-Keeps,
}
use ruci.Socks5.Server.Auth.{
  Control, continue, break, remember, consume, none_method, auth_bytes, verdict, password,
  credentials, password_method, method, methods, negotiate, refused,
}

module _ (users : UsersMap PlainText) where
  -- The user of the session is one that the map knows by his name and password.
  abbrev pub KnownUser : Option PlainText → Type 0
  KnownUser d =
      (p : PlainText) × (u : PlainText) × (d ≡ some p)
      × (auth_user_by_authstr users p.astr ≡ some u)

  -- If the client is authenticated, he is such a user.
  abbrev pub Vouched : Bool → Option PlainText → Type 0
  Vouched authed d = authed ≡ true → KnownUser d

  verdict-Keeps : (p : PlainText) → Keeps Vouched (verdict users p)
  unfolding verdict ◌>>=◌
  verdict-Keeps p s h = elim (Option-cases (auth_user_by_authstr users p.astr)) [
    | inl e ↦ rw (verdict, e) h
    | inr (u, e) ↦ rw (verdict, e) (λ _. (p, u, refl, e))
  ]

  consume-Keeps : (k : ℕ) → Keeps Vouched (consume k)
  unfolding consume
  consume-Keeps k s h = elim (Bool-cases (leb k s.remain_n)) [ inl e ↦ rw e h | inr e ↦ rw e h ]

  remember-Keeps : (e : MethodError) → Keeps Vouched (remember e)
  unfolding remember ◌>>=◌
  remember-Keeps e s h = h

  password-Keeps : (ul : ℕ) (bs : Bytes) → Keeps Vouched (password users ul bs)
  unfolding password
  password-Keeps ul bs =
      bind-Keeps Vouched session _ (λ s h. h)
        (λ s. if-Keeps Vouched (ltb s.n (ul + 2)) _ _ (remember-Keeps _) (
          bind-Keeps Vouched (slice 2 (2 + ul) bs) _ (slice-Keeps Vouched 2 (2 + ul) bs) (λ u_bytes.
            bind-Keeps Vouched (index (2 + ul) bs) _ (index-Keeps Vouched (2 + ul) bs) (λ pl.
              if-Keeps Vouched (ltb s.n (ul + 2 + pl)) _ _ (remember-Keeps _) (
                bind-Keeps Vouched (consume (2 + ul + 1 + pl)) _ (consume-Keeps _) (λ _.
                  bind-Keeps Vouched (slice (2 + ul + 1) (2 + ul + 1 + pl) bs) _
                    (slice-Keeps Vouched _ _ bs) (λ p_bytes. verdict-Keeps _)))))))

  credentials-Keeps : (bs : Bytes) → Keeps Vouched (credentials users bs)
  unfolding credentials
  credentials-Keeps bs = bind-Keeps Vouched (index 1 bs) _ (index-Keeps Vouched 1 bs) (λ ul.
      bind-Keeps Vouched (index 0 bs) _ (index-Keeps Vouched 0 bs) (λ v.
        if-Keeps Vouched
          (ltb (length bs) 5 || not (v == userpass_subnegotiation_version) || ul == 0) _ _
          (remember-Keeps _) (password-Keeps ul bs)))

  auth_bytes-Keeps : (nmp2 : ℕ) → Keeps Vouched (auth_bytes nmp2)
  unfolding auth_bytes
  auth_bytes-Keeps nmp2 =
      bind-Keeps Vouched session _ (λ s h. h)
        (λ s.
          if-Keeps Vouched (s.n == nmp2) _ _
            (bind-Keeps Vouched read _ (read-Keeps Vouched) (λ n.
              bind-Keeps Vouched (modify (λ s. record s { n = n; remain_n = n })) _ (λ s h. h)
                (λ _. bind-Keeps Vouched session _ (λ s h. h) (λ s s' h. h))))
            (slice-Keeps Vouched 3 s.n s.buf))

  none_method-Keeps : Keeps Vouched (none_method (some users))
  unfolding none_method
  none_method-Keeps =
      bind-Keeps Vouched session _ (λ s h. h)
        (λ s.
          if-Keeps Vouched s.dealt_none _ _ (λ s h. h)
            (bind-Keeps Vouched (modify (λ s. record s { dealt_none = true })) _ (λ s h. h)
              (λ _ s h. h)))

  password_method-Keeps : (nmp2 : ℕ) → Keeps Vouched (password_method (some users) nmp2)
  unfolding password_method
  password_method-Keeps nmp2 =
      bind-Keeps Vouched session _ (λ s h. h)
        (λ s.
          if-Keeps Vouched s.dealt_pass _ _ (λ s h. h)
            (bind-Keeps Vouched (modify (λ s. record s { dealt_pass = true })) _ (λ s h. h)
              (λ _.
                bind-Keeps Vouched (reply version5 auth_password) _
                  (reply-Keeps Vouched version5 auth_password)
                  (λ _.
                    bind-Keeps Vouched (auth_bytes nmp2) _ (auth_bytes-Keeps nmp2)
                      (λ bs. credentials-Keeps bs)))))

  method-Keeps : (nmp2 m : ℕ) → Keeps Vouched (method (some users) nmp2 m)
  unfolding method
  method-Keeps nmp2 m =
      if-Keeps Vouched (m == auth_none) _ _ none_method-Keeps
        (if-Keeps Vouched (m == auth_password) _ _ (password_method-Keeps nmp2) (λ s h. h))

  control-Keeps :
      (more : Act (Unit {0}))
      → Keeps Vouched more
      → (c : Control)
      → Keeps Vouched (elim c as (λ _. Act (Unit {0})) [ continue ↦ more | break ↦ pure tt ])
  control-Keeps more h continue s k = h s k
  control-Keeps more h break s k = k

  methods-Keeps : (nmp2 k i : ℕ) → Keeps Vouched (methods (some users) nmp2 k i)
  unfolding methods
  methods-Keeps nmp2 zero i = λ s h. h
  methods-Keeps nmp2 (suc k) i =
      bind-Keeps Vouched session _ (λ s h. h)
        (λ s. bind-Keeps Vouched (index i s.buf) _ (index-Keeps Vouched i s.buf) (λ m.
          bind-Keeps Vouched (method (some users) nmp2 m) _ (method-Keeps nmp2 m)
            (control-Keeps _ (methods-Keeps nmp2 k (i + 1)))))

  refused-Keeps : (e : ServerError) → Keeps Vouched (refused e)
  unfolding refused
  refused-Keeps e =
      bind-Keeps Vouched (reply version5 auth_no_acceptable) _
        (reply-Keeps Vouched version5 auth_no_acceptable) (λ _ s h. h)

  pub negotiate-Keeps : Keeps Vouched (negotiate (some users))
  unfolding negotiate
  negotiate-Keeps =
      bind-Keeps Vouched session _ (λ s h. h)
        (λ s.
          bind-Keeps Vouched (ensure (leb 3 s.n) (give_up (hello_too_short s.n))) _
            (ensure-Keeps Vouched _ _)
            (λ _. bind-Keeps Vouched (index 0 s.buf) _ (index-Keeps Vouched 0 s.buf) (λ v.
              bind-Keeps Vouched (ensure (v == version5) (refuse (version_wrong v))) _
                (ensure-Keeps Vouched _ _)
                (λ _. bind-Keeps Vouched (index 1 s.buf) _ (index-Keeps Vouched 1 s.buf) (λ nm.
                  if-Keeps Vouched (nm == 0 || ltb s.n (2 + nm)) _ _ (refused-Keeps _) (
                    bind-Keeps Vouched (modify (λ t. record t { remain_n = s.n - (2 + nm) })) _
                      (λ s h. h)
                      (λ _.
                        bind-Keeps Vouched (methods (some users) (2 + nm) nm 2) _
                          (methods-Keeps (2 + nm) nm 2)
                          (λ _.
                            bind-Keeps Vouched session _ (λ s h. h)
                              (λ s.
                                if-Keeps Vouched s.authed _ _ (λ s h. h) (refused-Keeps _))))))))))

-- Where the negotiation goes on, the client is authenticated.
abbrev pub Settled : Session → Type 0
Settled s = s.authed ≡ true

refused-Leads : (e : ServerError) → Leads Settled (refused e)
unfolding refused
refused-Leads e =
    bind-Leads Settled (reply version5 auth_no_acceptable) _ (λ _ t a k. absurd (err-ne-ok k))

last_in :
    (b : Bool) (s : Session) (a : Unit {0})
    → s.authed ≡ b
    → ((if b then pure tt else refused (not_authed s.opt_e)) s).0 ≡ ok a
    → Settled ((if b then pure tt else refused (not_authed s.opt_e)) s).1
last_in true s a e k = e
last_in false s a e k = refused-Leads (not_authed s.opt_e) s a k

last-Leads :
    Leads Settled (do s ← session; if s.authed then pure tt else refused (not_authed s.opt_e))
unfolding ◌>>=◌
last-Leads s a e = last_in s.authed s a refl e

pub negotiate-Leads : (um : Option (UsersMap PlainText)) → Leads Settled (negotiate um)
unfolding negotiate
negotiate-Leads um = bind-Leads Settled session _ (λ s.
    bind-Leads Settled (ensure (leb 3 s.n) (give_up (hello_too_short s.n))) _ (λ _.
      bind-Leads Settled (index 0 s.buf) _ (λ v.
        bind-Leads Settled (ensure (v == version5) (refuse (version_wrong v))) _ (λ _.
          bind-Leads Settled (index 1 s.buf) _ (λ nm.
            if-Leads Settled (nm == 0 || ltb s.n (2 + nm)) _ _
              (refused-Leads (methods_wrong nm s.n))
              (bind-Leads Settled (modify (λ t. record t { remain_n = s.n - (2 + nm) })) _
                (λ _. bind-Leads Settled (methods um (2 + nm) nm 2) _ (λ _. last-Leads))))))))
