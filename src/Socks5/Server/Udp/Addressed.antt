-- ===== src/Socks5/Server/Udp/Addressed.antt =====
-- To whom an association sends (src/map/socks5/server/udp.rs).
use ruci.Prelude.{
  ℕ, ◌≡◌, ◌⊎◌, inl, inr, refl, ap, ◌∙◌, Bool, true, false, Bool-cases, ◌||◌, some, none, List, [],
  ◌∷◌, All, All-append, take, Bytes,
}
use ruci.Prelude.Monad.{Outcome, ok, err, panic}
use ruci.Utf8.{Text}
use ruci.Net.Addr.{Addr, SocketAddr, Network, socket, eq_ip, get_ip, get_port, is_unspecified}
use ruci.Socks5.Diagram.{DiagramError, decode_udp_diagram}
use ruci.Socks5.Udp.{get_socket_addr_or_resolve}
use ruci.Socks5.Udp.Delivers.{diagram}
use ruci.Socks5.Server.Udp.{
  Association, cap, Message, Event, tcp_read, tcp_failed, received, recv_failed, wrote, Status,
  running, start, step, run, on_decoded, to_remote, push, on_written, on_datagram, learned, on_ip,
  read_event, while_running, datagram_of,
}

-- The datagram `bs` from `from` is one of those that the events bring.
abbrev pub Received : {E : Type 0} → List (Event E) → Bytes → SocketAddr → Type 0
Received [] bs from = ⊥
Received (received b r ∷ xs) bs from = ((b ≡ bs) × (r ≡ from)) ⊎ Received xs bs from
Received (tcp_read _ ∷ xs) bs from = Received xs bs from
Received (tcp_failed ∷ xs) bs from = Received xs bs from
Received (recv_failed _ ∷ xs) bs from = Received xs bs from
Received (wrote _ ∷ xs) bs from = Received xs bs from

-- `R` are the datagrams that come in.
module _ {E : Type 0} (res : Text → ℕ → Outcome E SocketAddr) (user : SocketAddr)
    (R : Bytes → SocketAddr → Type 0) where
  -- What a datagram from the ip of the user held, sent to the target that it named.
  abbrev pub ForTarget : Bytes × SocketAddr → Type 0
  ForTarget (d, to) =
      (bs : Bytes) × (from : SocketAddr) × (a : Addr) × R bs from
      × (eq_ip from.ip user.ip ≡ true)
      × (decode_udp_diagram (take 1500 bs) ≡ (ok a, d))
      × (get_socket_addr_or_resolve res a.addr ≡ ok to)

  -- A datagram from another ip, wrapped with the remote that it came from, sent to the user.
  abbrev pub ForUser : Bytes × SocketAddr → Type 0
  ForUser (d, to) =
      (bs : Bytes) × (from : SocketAddr) × R bs from
      × (eq_ip from.ip user.ip ≡ false)
      × (d ≡ diagram from (take 1500 bs))
      × (to ≡ user)

  abbrev pub Queued : Message → Type 0
  Queued (none, x) = ForTarget x
  Queued (some from, (buf, to)) = ForUser (diagram from buf, to)

  abbrev pub Addressed : Association E → Type 0
  Addressed s = (s.user ≡ user) × All Queued s.channel × All (λ x. ForUser x ⊎ ForTarget x) s.sent

  push-Addressed :
      (x : Message) (s : Association E) → Queued x → Addressed s → Addressed (push res x s)
  unfolding push
  push-Addressed x s q k = elim (Bool-cases s.writing) [
    | inl e ↦ rw e (k.0, All-append Queued s.channel (x ∷ []) k.1 (q, tt), k.2)
    | inr e ↦ rw e k
  ]

  -- The user's datagram `bs`, decoded.
  module _ (bs : Bytes) (from : SocketAddr) (got : R bs from)
      (is_user : eq_ip from.ip user.ip ≡ true) where
    to_remote-Addressed :
        (buf : Bytes) (a : Addr) (r : Outcome E SocketAddr) (s : Association E)
        → decode_udp_diagram (take cap bs) ≡ (ok a, buf)
        → get_socket_addr_or_resolve res a.addr ≡ r
        → Addressed s
        → Addressed (to_remote res buf r s)
    unfolding to_remote
    to_remote-Addressed buf a (ok so) s e g k =
        push-Addressed (none, (buf, so)) s (bs, from, a, got, is_user, e, g) k
    to_remote-Addressed buf a (err _) s e g k = k
    to_remote-Addressed buf a panic s e g k = k

    on_decoded-Addressed :
        (r : Outcome DiagramError Addr × Bytes) (s : Association E)
        → decode_udp_diagram (take cap bs) ≡ r
        → Addressed s
        → Addressed (on_decoded res r s)
    unfolding on_decoded
    on_decoded-Addressed (ok a, buf) s e k =
        to_remote-Addressed buf a (get_socket_addr_or_resolve res a.addr) s e refl k
    on_decoded-Addressed (err _, buf) s e k = k
    on_decoded-Addressed (panic, buf) s e k = k

  module _ (known : is_unspecified user.ip ≡ false) where
    learned_known : (v raddr : SocketAddr) → v ≡ user → learned res v raddr ≡ user
    unfolding learned
    learned_known v raddr e = ap (λ w. learned res w raddr) e ∙ rw known refl

    -- What the test of the source address says.
    from_user :
        (v raddr : SocketAddr)
        → v ≡ user
        → (is_unspecified v.ip || eq_ip raddr.ip v.ip) ≡ eq_ip raddr.ip user.ip
    from_user v raddr e = ap (λ w. is_unspecified w.ip || eq_ip raddr.ip w.ip) e ∙ rw known refl

    on_datagram-Addressed :
        (bs : Bytes) (raddr : SocketAddr) (s : Association E)
        → R bs raddr
        → Addressed s
        → Addressed (on_datagram res (take cap bs) raddr s)
    unfolding on_datagram
    on_datagram-Addressed bs raddr s got k =
        let test = from_user s.user raddr k.0 in
        elim (Bool-cases (eq_ip raddr.ip user.ip)) [
          | inl e ↦
              rw (test, e)
                (on_decoded-Addressed bs raddr got e (decode_udp_diagram (take cap bs))
                  (record s { user = learned res s.user raddr }) refl
                  (learned_known s.user raddr k.0, k.1, k.2))
          | inr e ↦
              rw (test, e)
                (push-Addressed (some raddr, (take cap bs, s.user)) s (bs, raddr, got, e, refl, k.0)
                  k)
        ]

    on_written-Addressed :
        (sends : Bool) (queue : List Message) (s : Association E)
        → All Queued queue
        → Addressed s
        → Addressed (on_written res sends queue s)
    unfolding on_written datagram_of
    on_written-Addressed sends [] s q k = k
    on_written-Addressed true ((some from, (buf, to)) ∷ later) s q k =
        (k.0, q.1, All-append _ s.sent ((diagram from buf, to) ∷ []) k.2 (inl q.0, tt))
    on_written-Addressed true ((none, (buf, to)) ∷ later) s q k =
        (k.0, q.1, All-append _ s.sent ((buf, to) ∷ []) k.2 (inr q.0, tt))
    on_written-Addressed false (x ∷ later) s q k = (k.0, tt, k.2)

    abbrev Comes : Event E → Type 0
    Comes (received bs from) = R bs from
    Comes _ = Unit

    read_event-Addressed :
        (x : Event E) (s : Association E) → Comes x → Addressed s → Addressed (read_event res x s)
    unfolding read_event
    read_event-Addressed (tcp_read _) s c k = k
    read_event-Addressed tcp_failed s c k = k
    read_event-Addressed (received buf raddr) s c k = on_datagram-Addressed buf raddr s c k
    read_event-Addressed (recv_failed _) s c k = k
    read_event-Addressed (wrote _) s c k = k

    while_running-Addressed :
        (st : Status E) (x : Event E) (s : Association E)
        → Comes x
        → Addressed s
        → Addressed (while_running res st x s)
    unfolding while_running
    while_running-Addressed running x s c k = read_event-Addressed x s c k
    while_running-Addressed _ x s c k = k

    step-Addressed :
        (x : Event E) (s : Association E) → Comes x → Addressed s → Addressed (step res x s)
    unfolding step
    step-Addressed (wrote sends) s c k = on_written-Addressed sends s.channel s k.1 k
    step-Addressed (tcp_read b) s c k = while_running-Addressed s.status (tcp_read b) s c k
    step-Addressed tcp_failed s c k = while_running-Addressed s.status tcp_failed s c k
    step-Addressed (received b r) s c k = while_running-Addressed s.status (received b r) s c k
    step-Addressed (recv_failed e) s c k = while_running-Addressed s.status (recv_failed e) s c k

    run-Addressed :
        (xs : List (Event E)) (s : Association E)
        → ((bs : Bytes) (from : SocketAddr) → Received xs bs from → R bs from)
        → Addressed s
        → Addressed (run res xs s)
    unfolding run
    run-Addressed [] s c k = k
    run-Addressed (received b r ∷ xs) s c k =
        run-Addressed xs (step res (received b r) s) (λ bs from m. c bs from (inr m))
          (step-Addressed (received b r) s (c b r (inl (refl, refl))) k)
    run-Addressed (tcp_read b ∷ xs) s c k =
        run-Addressed xs (step res (tcp_read b) s) c (step-Addressed (tcp_read b) s tt k)
    run-Addressed (tcp_failed ∷ xs) s c k =
        run-Addressed xs (step res tcp_failed s) c (step-Addressed tcp_failed s tt k)
    run-Addressed (recv_failed e ∷ xs) s c k =
        run-Addressed xs (step res (recv_failed e) s) c (step-Addressed (recv_failed e) s tt k)
    run-Addressed (wrote b ∷ xs) s c k =
        run-Addressed xs (step res (wrote b) s) c (step-Addressed (wrote b) s tt k)

-- In an association whose user named the socket that it sends from, not the unspecified ip, and
-- whatever happens in whatever order, that socket stays the user's, and every datagram that is sent
-- comes from one that was received and of which 1500 bytes at most are kept: one from the ip of the
-- user goes without its header to the target that this names, and one from any other ip goes to the
-- user, wrapped with the address that it came from.
pub run-start-Addressed :
    {E : Type 0} (res : Text → ℕ → Outcome E SocketAddr) (user : SocketAddr)
    → is_unspecified user.ip ≡ false
    → (network : Network) (xs : List (Event E))
    → Addressed res user
        (Received xs)
        (run res xs (start res (record { addr = socket user; network = network })))
unfolding start on_ip get_ip get_port
run-start-Addressed res user known network xs =
    run-Addressed res user (Received xs) known xs _ (λ bs from m. m) (refl, tt, tt)
