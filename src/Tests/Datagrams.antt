-- ===== src/Tests/Datagrams.antt =====
-- Datagrams of SOCKS5 (src/map/socks5/udp.rs, server/udp.rs) on concrete inputs.
use ruci.Prelude.{ℕ, List, none, some, ◌||◌, ◌≡◌, refl, true, false, [], ◌∷◌, arith}
use ruci.Prelude.Monad.{Outcome, err}
use ruci.Utf8.{Text}
use ruci.Net.Addr.{SocketAddr, v4, socket, udp, eq_ip, is_unspecified}
use ruci.Socks5.Udp.{poll_read_addr, ready}
use ruci.Socks5.Udp.Delivers.{diagram}
use ruci.Socks5.Server.Udp.{Event, start, run, received, wrote, tcp_failed}
use ruci.Socks5.Server.Udp.Exchange.{run_exchanges, unknown}
use ruci.Socks5.Server.Udp.Addressed.{Addressed, Received, run-start-Addressed}
use ruci.Net.Conn.{Conn, write_all}
use ruci.Map.{build, addr_conn}
use ruci.Socks5.Server.Udp2.{udp_associate, udp_associate-diagram, datagram, reply}

abbrev client : SocketAddr
client = record { ip = v4 7; port = 1000 }

abbrev target : SocketAddr
target = record { ip = v4 8; port = 53 }

abbrev server : SocketAddr
server = record { ip = v4 9; port = 1080 }

-- A resolver that knows no name.
abbrev no_names : Text → ℕ → Outcome ℕ SocketAddr
no_names _ _ = err 1

client_specified : is_unspecified client.ip ≡ false
unfolding is_unspecified
client_specified = refl

target_elsewhere : eq_ip target.ip client.ip ≡ false
unfolding eq_ip
target_elsewhere = refl

run_exchanges_example :
    (run no_names
        (received (diagram target (1 ∷ [])) client
          ∷ wrote true
          ∷ received (2 ∷ 3 ∷ []) target
          ∷ wrote true
          ∷ [])
        (start no_names unknown)).sent
      ≡ (1 ∷ [], target) ∷ (diagram target (2 ∷ 3 ∷ []), client) ∷ []
    × poll_read_addr no_names server 1 (ready (diagram target (2 ∷ 3 ∷ []), server))
      ≡ ready (2 ∷ [], record { addr = socket target; network = udp })
run_exchanges_example =
    run_exchanges no_names client target target server (1 ∷ []) (2 ∷ 3 ∷ []) 1
      (omega arith, omega arith) (omega arith, omega arith) (omega arith) (omega arith)
      client_specified target_elsewhere

abbrev events : List (Event ℕ)
events =
    received (diagram target (1 ∷ [])) client
    ∷ received (2 ∷ []) target
    ∷ tcp_failed
    ∷ wrote true
    ∷ wrote true
    ∷ []

run-start-Addressed_example :
    Addressed no_names client
      (Received events)
      (run no_names events (start no_names (record { addr = socket client; network = udp })))
run-start-Addressed_example = run-start-Addressed no_names client client_specified udp events

abbrev tcp : Conn
tcp = record { answers = []; written = [] }

client_known : (is_unspecified client.ip || eq_ip client.ip client.ip) ≡ true
unfolding is_unspecified eq_ip
client_known = refl

udp_associate-diagram_example :
    udp_associate {D = ℕ} {E = ℕ} {F = ℕ} 4000
      (datagram (diagram target (1 ∷ [])) client)
      tcp
      (record { addr = socket client; network = udp })
    ≡ (
      Outcome.ok (
          build
            (some (record { addr = socket target; network = udp }))
            (some (1 ∷ []))
            (addr_conn client)
            none
            none),
      write_all (reply 4000) tcp,
    )
unfolding is_unspecified
udp_associate-diagram_example =
    udp_associate-diagram 4000 tcp client client target udp (1 ∷ []) (omega arith, omega arith)
      (omega arith) client_known
