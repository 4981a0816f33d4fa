-- ===== src/Socks5/Server/Request/Kept.antt =====
-- The request changes neither whether the client is authenticated, nor as whom
-- (src/map/socks5/server/mod.rs).
use ruci.Prelude.{ℕ, ◌+◌, ◌-◌, Bool, not, ◌||◌, Option, [], ◌∷◌, ltb, leb, ◌==◌, Bytes, take}
use ruci.Prelude.Monad.{Outcome, ok, err, panic}
use ruci.Utf8.{Text}
use ruci.Net.Addr.{Addr, IpAddr}
use ruci.Net.Addr
use ruci.Net.Conn.{Conn, IoError}
use ruci.Net.Conn
use ruci.Net.Helpers.{atyp_ip4, atyp_ip6, atyp_domain}
use ruci.User.PlainText.{PlainText}
use ruci.Socks5.Consts.{version5, cmd_connect, cmd_bind, cmd_udp_associate}
use ruci.Socks5.Session.{
  refuse, cmd_too_short, second_version_wrong, cmd_unsupported, bind_unsupported, short_of_port,
  session, modify, ensure, index, slice, read, advance,
}
use ruci.Socks5.Session.Keeps.{
  Keeps, bind-Keeps, index-Keeps, slice-Keeps, if-Keeps, ensure-Keeps, read-Keeps, advance-Keeps,
}
use ruci.Socks5.Server.Request.{
  Place, next_message, place, host, lift_addr, target, request, first_read, first_data_in,
  first_data,
}

module _ (P : Bool → Option PlainText → Type 0) where
  next_message-Keeps : Keeps P next_message
  unfolding next_message
  next_message-Keeps =
      bind-Keeps P session _ (λ s h. h)
        (λ s.
          if-Keeps P (ltb 0 s.remain_n) _ _
            (bind-Keeps P (advance (s.n - s.remain_n)) _ (advance-Keeps P _) (λ _ s h. h))
            (bind-Keeps P read _ (read-Keeps P) (λ n s h. h)))

  place-Keeps : (at : ℕ) (b : Bytes) → Keeps P (place at b)
  unfolding place
  place-Keeps at b =
      if-Keeps P (at == atyp_ip4) _ _
        (bind-Keeps P (slice 4 8 b) _ (slice-Keeps P 4 8 b) (λ _ s h. h))
        (if-Keeps P (at == atyp_ip6) _ _
          (bind-Keeps P (slice 4 20 b) _ (slice-Keeps P 4 20 b) (λ _ s h. h))
          (if-Keeps P (at == atyp_domain) _ _
            (bind-Keeps P (index 4 b) _ (index-Keeps P 4 b) (λ _ s h. h)) (λ s h. h)))

  host-Keeps : (p : Place) (b : Bytes) → Keeps P (host p b)
  unfolding host
  host-Keeps p b =
      if-Keeps P p.is_name _ _
        (bind-Keeps P (slice p.off (p.off + p.l - 2) b) _ (slice-Keeps P _ _ b) (λ _ s h. h))
        (λ s h. h)

  module _ (parse_ip : Text → Option IpAddr) where
    lift_addr-Keeps : (r : Outcome Addr.Error Addr) → Keeps P (lift_addr parse_ip r)
    unfolding lift_addr
    lift_addr-Keeps (ok a) s h = h
    lift_addr-Keeps (err e) s h = h
    lift_addr-Keeps panic s h = h

    target-Keeps : Keeps P (target parse_ip)
    unfolding target
    target-Keeps =
        bind-Keeps P session _ (λ s h. h)
          (λ s. bind-Keeps P (index 3 s.buf) _ (index-Keeps P 3 s.buf) (λ at.
            bind-Keeps P (place at s.buf) _ (place-Keeps at s.buf) (λ p.
              bind-Keeps P (host p s.buf) _ (host-Keeps p s.buf) (λ name.
                bind-Keeps P (ensure (leb (p.off + p.l) s.n) (refuse (short_of_port s.n))) _
                  (ensure-Keeps P _ _)
                  (λ _.
                    bind-Keeps P (index (p.off + p.l - 2) s.buf) _ (index-Keeps P _ s.buf) (λ hi.
                      bind-Keeps P (index (p.off + p.l - 1) s.buf) _ (index-Keeps P _ s.buf) (λ lo.
                        bind-Keeps P (advance (p.off + p.l)) _ (advance-Keeps P _) (λ _.
                          bind-Keeps P
                            (modify (λ t. record t { buf = take (s.n - (p.off + p.l)) t.buf })) _
                            (λ s h. h) (λ _. lift_addr-Keeps _)))))))))

    pub request-Keeps : Keeps P (request parse_ip)
    unfolding request
    request-Keeps = bind-Keeps P next_message _ next_message-Keeps (λ _.
        bind-Keeps P session _ (λ s h. h)
          (λ s.
            bind-Keeps P (ensure (leb 7 s.n) (refuse (cmd_too_short s.n))) _ (ensure-Keeps P _ _)
              (λ _. bind-Keeps P (index 0 s.buf) _ (index-Keeps P 0 s.buf) (λ v.
                bind-Keeps P (ensure (v == version5) (refuse (second_version_wrong v))) _
                  (ensure-Keeps P _ _)
                  (λ _. bind-Keeps P (index 1 s.buf) _ (index-Keeps P 1 s.buf) (λ cmd.
                    bind-Keeps P (ensure (not (cmd == cmd_bind)) (refuse bind_unsupported)) _
                      (ensure-Keeps P _ _)
                      (λ _.
                        bind-Keeps P
                          (ensure (cmd == cmd_udp_associate || cmd == cmd_connect)
                            (refuse (cmd_unsupported cmd)))
                          _ (ensure-Keeps P _ _)
                          (λ _. bind-Keeps P (target parse_ip) _ target-Keeps (λ _ s h. h)))))))))

  first_read-Keeps : (room : ℕ) (r : Outcome IoError Bytes × Conn) → Keeps P (first_read room r)
  unfolding first_read
  first_read-Keeps room (ok bs, c) s h = h
  first_read-Keeps room (err e, c) s h = h
  first_read-Keeps room (panic, c) s h = h

  first_data_in-Keeps : (late : Bool) (room : ℕ) (b : Bytes) → Keeps P (first_data_in late room b)
  unfolding first_data_in
  first_data_in-Keeps Bool.true room [] s h = h
  first_data_in-Keeps Bool.false room [] s h = first_read-Keeps room (Conn.read room s.base) s h
  first_data_in-Keeps late room (_ ∷ _) s h = h

  pub first_data-Keeps : (late : Bool) (room : ℕ) → Keeps P (first_data late room)
  unfolding first_data
  first_data-Keeps late room s h = first_data_in-Keeps late room s.buf s h
