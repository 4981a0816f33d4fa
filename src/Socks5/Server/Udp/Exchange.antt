-- ===== src/Socks5/Server/Udp/Exchange.antt =====
-- A datagram and its answer through an association (src/map/socks5/server/udp.rs, udp.rs).
use ruci.Prelude.{
  ℕ, ◌+◌, ◌-◌, arith, length-take, ◌≤◌, ◌≡◌, refl, ap, ◌∙◌, true, false, some, none, List, [], ◌∷◌,
  min, take, length, Bytes,
}
use ruci.Prelude.Monad.{Outcome}
use ruci.Utf8.{Text}
use ruci.Net.Addr.{Addr, v4, SocketAddr, socket, udp, eq_ip, get_ip, get_port, is_unspecified}
use ruci.Net.Addr.Laws.{eq_socket_addr_refl}
use ruci.Net.Helpers.RoundTrip.{IsSocketAddr, so_size}
use ruci.Socks5.Diagram.{decode_udp_diagram}
use ruci.Socks5.Udp.{ready, over_udp, poll_read_addr, get_socket_addr_or_resolve}
use ruci.Socks5.Udp.Delivers.{
  diagram, take-diagram, so_size_bounds, decoded-diagram, poll_read_addr-poll_write_addr,
}
use ruci.Socks5.Server.Udp.{
  Association, Message, cap, on_written, received, wrote, start, step, run, on_decoded, to_remote,
  push, on_written, running, on_datagram, learned, on_ip, read_event, while_running, datagram_of,
}

-- The association of a client that did not say where its datagrams will come from.
abbrev pub unknown : Addr
unknown = record { addr = socket (record { ip = v4 0; port = 0 }); network = udp }

-- An association that runs.
abbrev live : {E : Type 0} → SocketAddr → List Message → List (Bytes × SocketAddr) → Association E
live user channel sent = record {
  user = user;
  status = running;
  channel = channel;
  writing = true;
  sent = sent;
}

abbrev anyone : SocketAddr
anyone = record { ip = v4 0; port = 0 }

-- What of a payload for a socket fits into the buffer behind the header.
abbrev pub held : SocketAddr → Bytes → Bytes
held so buf = take (cap - (3 + so_size so.ip)) buf

held_some : (so : SocketAddr) (buf : Bytes) → 1 ≤ length buf → 1 ≤ length (held so buf)
held_some so buf h =
    omega (arith, length-take (cap - (3 + so_size so.ip)) buf, so_size_bounds so.ip)

module _ {E : Type 0} (res : Text → ℕ → Outcome E SocketAddr) where
  -- The first datagram tells who the user is.
  step_asked :
      (client target : SocketAddr) (asked : Bytes)
      → IsSocketAddr target
      → 1 ≤ length asked
      → step res (received (diagram target asked) client) (live anyone [] [])
        ≡ live client ((none, (held target asked, target)) ∷ []) []
  unfolding step while_running read_event on_datagram on_decoded to_remote push learned
      get_socket_addr_or_resolve is_unspecified
  step_asked client target asked h l =
      ap (λ b. on_decoded res (decode_udp_diagram b) (live client [] []))
        (take-diagram cap target asked (omega arith))
      ∙ ap (λ d. on_decoded res d (live client [] []))
          (decoded-diagram target (held target asked) h (held_some target asked l))

  -- A datagram from elsewhere is for the user.
  step_answered :
      (client remote : SocketAddr) (answer : Bytes) (sent : List (Bytes × SocketAddr))
      → is_unspecified client.ip ≡ false
      → eq_ip remote.ip client.ip ≡ false
      → step res (received answer remote) (live client [] sent)
        ≡ live client ((some remote, (take cap answer, client)) ∷ []) sent
  unfolding step while_running read_event on_datagram push
  step_answered client remote answer sent hc hn = rw (hc, hn) refl

-- A client asks for an association without saying where it will send from, and sends a payload for a
-- target; a remote of another ip answers. Then the payload goes to the target, without what does not
-- fit with its header into 1500 bytes, and the first 1500 bytes of the answer to the client, which
-- reads them, cut to its room, as coming from the remote. Neither may be empty.
pub run_exchanges :
    {E : Type 0} (res : Text → ℕ → Outcome E SocketAddr) (client target remote server : SocketAddr)
    (asked answer : Bytes) (room : ℕ)
    → IsSocketAddr target
    → IsSocketAddr remote
    → 1 ≤ length asked
    → 1 ≤ length answer
    → is_unspecified client.ip ≡ false
    → eq_ip remote.ip client.ip ≡ false
    → (run res
          (received (diagram target asked) client
            ∷ wrote true
            ∷ received answer remote
            ∷ wrote true
            ∷ [])
          (start res unknown)).sent
        ≡ (held target asked, target) ∷ (diagram remote (take 1500 answer), client) ∷ []
      × poll_read_addr res server room (ready (diagram remote (take 1500 answer), server))
        ≡ ready (
          take (min room (length (take 1500 answer))) (take 1500 answer),
          record { addr = socket remote; network = udp },
        )
unfolding run step start on_ip on_written datagram_of get_ip get_port get_socket_addr_or_resolve
run_exchanges res client target remote server asked answer room ht hr la lb hc hn = (
  ap (λ s. (run res (wrote true ∷ received answer remote ∷ wrote true ∷ []) s).sent)
        (step_asked res client target asked ht la)
      ∙ ap (λ s. (run res (wrote true ∷ []) s).sent)
          (step_answered res client remote answer ((held target asked, target) ∷ []) hc hn),
  (poll_read_addr-poll_write_addr res (λ b. ready (length b)) (over_udp res remote) remote server
      server (take cap answer) room refl hr (omega (arith, length-take cap answer))
      (eq_socket_addr_refl server)).1,
)
