-- ===== src/Socks5/Server/Udp2.antt =====
-- src/map/socks5/server/udp2.rs: the association that the handshake makes. The port of the new socket,
-- and the first datagram, or the error or the passing of 15s instead of it, are arguments. The socket
-- that is handed on (../udp.rs) is known by its peer.
use ruci.Prelude.{
  ℕ, Bool, true, false, not, ◌&&◌, Option, some, none, ◌∷◌, if◌then◌else◌, Bytes, be_bytes, ◌≡◌,
  ◌≤◌, ◌||◌, Bool-cases, inl, inr, ap, ◌∙◌, refl, length,
}
use ruci.Prelude.Monad.{Outcome, ok, err, panic}
use ruci.Net.Addr.{
  Addr, IpAddr, SocketAddr, Network, socket, udp, eq_ip, is_unspecified, get_ip, get_socket_addr,
}
use ruci.Net.Conn.{Conn, write_all}
use ruci.Net.Helpers.RoundTrip.{IsSocketAddr}
use ruci.Map.{MapResult, build, addr_conn}
use ruci.Socks5.Consts.{version5, success}
use ruci.Socks5.Diagram.{DiagramError, decode_udp_diagram}
use ruci.Socks5.Udp.Delivers.{diagram, decoded-diagram}

pub data AssociateError (E : Type 0) : Type 0 where
  timed_out : AssociateError E
  receive : E → AssociateError E
  not_user : SocketAddr → IpAddr → AssociateError E
  first_addr : DiagramError → AssociateError E

pub data First (E : Type 0) : Type 0 where
  late : First E
  failed : E → First E
  datagram : Bytes → SocketAddr → First E

-- The ip of the old connection, and the port of the new socket.
abbrev pub reply : ℕ → Bytes
reply port = version5 ∷ success ∷ 0 ∷ 1 ∷ 0 ∷ 0 ∷ 0 ∷ 0 ∷ be_bytes 2 port

abbrev Res : Type 0 → Type 0 → Type 0 → Type 0
Res D E F = Outcome (AssociateError E) (MapResult Conn SocketAddr D F)

module _ {D E F : Type 0} where
  -- The second `expect` does not panic: the first would have.
  on_peer : Addr → Bytes → Option SocketAddr → Res D E F
  on_peer ad buf (some client_soa) =
      ok (build (some ad) (some buf) (addr_conn client_soa) none none)
  on_peer ad buf none = panic

  on_decoded : Addr → Bool → SocketAddr → Outcome DiagramError Addr × Bytes → Res D E F
  unfolding on_peer
  on_decoded client unspecified so (ok ad, buf) =
      on_peer ad buf (if unspecified then some so else get_socket_addr client)
  on_decoded client unspecified so (err e, buf) = err (first_addr e)
  on_decoded client unspecified so (panic, buf) = panic

  on_ip : Addr → Bytes → SocketAddr → Option IpAddr → Res D E F
  unfolding on_decoded
  on_ip client buf so (some cip) =
      if not (is_unspecified cip) && not (eq_ip so.ip cip)
      then err (not_user so cip)
      else on_decoded client (is_unspecified cip) so (decode_udp_diagram buf)
  on_ip client buf so none = panic

  on_first : Addr → First E → Res D E F
  unfolding on_ip
  on_first client late = err timed_out
  on_first client (failed e) = err (receive e)
  on_first client (datagram buf so) = on_ip client buf so (get_ip client)

  unfoldable pub udp_associate : ℕ → First E → Conn → Addr → Res D E F × Conn
  unfolding on_first
  udp_associate port first base client = (on_first client first, write_all (reply port) base)

  on_decoded-diagram :
      (client : Addr) (unspecified : Bool) (so peer target : SocketAddr) (buf : Bytes)
      → IsSocketAddr target
      → 1 ≤ length buf
      → (if unspecified then some so else get_socket_addr client) ≡ some peer
      → on_decoded client unspecified so (decode_udp_diagram (diagram target buf))
        ≡ ok (
            build
              (some (record { addr = socket target; network = udp }))
              (some buf)
              (addr_conn peer)
              none
              none)
  unfolding on_decoded
  on_decoded-diagram client u so peer target buf h l e =
      ap (on_decoded client u so) (decoded-diagram target buf h l)
      ∙ ap (on_peer (record { addr = socket target; network = udp }) buf) e

  -- A client that did not say where it sends from, or sends from the ip that it named, is answered
  -- the port of the new socket, and its first datagram gives the target and the early data; later
  -- datagrams are taken from the socket that it came from in the first case, and from the one that
  -- was named in the second. The payload must not be empty.
  pub udp_associate-diagram :
      (port : ℕ) (base : Conn) (client so target : SocketAddr) (network : Network) (buf : Bytes)
      → IsSocketAddr target
      → 1 ≤ length buf
      → (is_unspecified client.ip || eq_ip so.ip client.ip) ≡ true
      → udp_associate port
          (datagram (diagram target buf) so)
          base
          (record { addr = socket client; network = network })
        ≡ (
          ok (
              build
                (some (record { addr = socket target; network = udp }))
                (some buf)
                (addr_conn (if is_unspecified client.ip then so else client))
                none
                none),
          write_all (reply port) base,
        )
  unfolding udp_associate on_first on_ip get_ip get_socket_addr
  udp_associate-diagram port base client so target network buf h l known =
      let named : Addr = record { addr = socket client; network = network } in
      let written : Res D E F → Res D E F × Conn = λ r. (r, write_all (reply port) base) in
      elim (Bool-cases (is_unspecified client.ip)) [
        | inl e ↦ rw e (ap written (on_decoded-diagram named true so so target buf h l refl))
        | inr e ↦
            let same_ip : eq_ip so.ip client.ip ≡ true = rw (← known, e) refl in
            rw (e, same_ip)
              (ap written (on_decoded-diagram named false so client target buf h l refl))
      ]
