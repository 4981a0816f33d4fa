-- ===== src/Socks5/Server/Connect.antt =====
-- An open server at the end of a client's connect request (src/map/socks5).
use ruci.Prelude.{
  ℕ, ◌≤◌, ◌≡◌, refl, ap, ◌∙◌, Bool, true, false, Option, some, none, List, [], ◌∷◌, ◌++◌, leb,
  Bytes, length, drop, zeroed, arith, take_all, drop_all,
}
use ruci.Prelude.Monad.{ok}
use ruci.Utf8.{Text}
use ruci.Net.Addr.{Addr, IpAddr, NetAddr, tcp}
use ruci.Net.Conn.{Conn, Answer, chunk}
use ruci.Net.Conn
use ruci.Net.Helpers.RoundTrip.{length-addr_to_socks5_bytes, on_wire, IsNetAddr, FitsWire}
use ruci.Map.{build, conn, buf_to_ob}
use ruci.Socks5.Consts.{version5, auth_none, cmd_connect, common_tcp_handshake_reply}
use ruci.Socks5.Client.Connect.{connect_request}
use ruci.Socks5.Session.{Session, read, ◌>>=◌}
use ruci.Socks5.Session
use ruci.Socks5.Server.Auth.{negotiate}
use ruci.Socks5.Server.Request.{request, next_message, first_data}
use ruci.Socks5.Server.Request.Reads.{reached, target-connect_request}
use ruci.Socks5.Server.{Server, Result, begin, finish, answered, execute, steps, started, handshake}

-- The session that waits for the request: the buffer holds the answer to the hello.
waiting : Conn → Session
waiting c = record {
  buf = 5 ∷ 0 ∷ 0 ∷ drop 3 (zeroed 1024);
  n = 3;
  remain_n = 0;
  authed = true;
  dealt_none = true;
  dealt_pass = false;
  opt_e = none;
  the_user = none;
  base = c;
}

abbrev hello : Bytes
hello = version5 ∷ 1 ∷ auth_none ∷ []

negotiate-hello :
    (c : Conn)
    → negotiate none (begin (hello ++ drop 3 (zeroed 1024)) 3 c)
      ≡ (ok tt, waiting (Conn.write_all (5 ∷ 0 ∷ []) c))
unfolding negotiate begin waiting Session.reply ◌>>=◌
negotiate-hello c = refl

-- A read that fills the buffer's front with a whole message.
read-message :
    (m : Bytes) (rest : List Answer) (w : Bytes) (s : Session)
    → length m ≤ length s.buf
    → read (record s { base = record { answers = chunk m ∷ rest; written = w } }) ≡ (
      ok (length m),
      record s { buf = m ++ drop (length m) s.buf; base = record { answers = rest; written = w } },
    )
unfolding read Conn.read
read-message m rest w s h = rw (take_all (length s.buf) m h, drop_all (length s.buf) m h) refl

buffer : Bytes
buffer = 5 ∷ 0 ∷ 0 ∷ drop 3 (zeroed 1024)

-- The session once the request was read.
asked : NetAddr → List Answer → Bytes → Session
unfolding waiting
asked a rest w = record (waiting (record { answers = rest; written = w })) {
  buf = [];
  n = length (connect_request a);
}

module _ (parse_ip : Text → Option IpAddr) (a : NetAddr) (valid : IsNetAddr a) (fits : FitsWire a)
    (room : length (connect_request a) ≤ 1024) where
  request-connect_request :
      (rest : List Answer) (w : Bytes)
      → request parse_ip
          (waiting (record { answers = chunk (connect_request a) ∷ rest; written = w }))
        ≡ (
          ok (cmd_connect, record { addr = reached parse_ip (on_wire a); network = tcp }),
          asked a rest w,
        )
  unfolding request next_message ◌>>=◌ waiting asked buffer
  request-connect_request rest w =
      let long : leb 7 (length (connect_request a)) ≡ true =
        ground (arith, length-addr_to_socks5_bytes a tcp) in
      let filled =
        read-message (connect_request a) rest w (waiting (record { answers = []; written = [] }))
          room in
      let found =
        target-connect_request parse_ip (drop (length (connect_request a)) buffer) a
          (waiting (record { answers = rest; written = w })) valid fits in
      rw (filled, long)
        (ap (λ r. Session.resume r.0 (λ ad. Session.pure (cmd_connect, ad)) r.1) found)

  module _ {U : Type 0} (udp_associate : Conn → Addr → Result U) (cap : ℕ) (sv : Server)
      (open_server : sv.um ≡ none) where
    target_addr : Addr
    target_addr = record { addr = reached parse_ip (on_wire a); network = tcp }

    -- The handshake up to the answer.
    handshake_answers :
        (late : Bool) (rest : List Answer)
        → handshake parse_ip udp_associate late cap sv
            (record { answers = chunk hello ∷ chunk (connect_request a) ∷ rest; written = [] })
            none
          ≡ finish (answered late cap target_addr (asked a rest (5 ∷ 0 ∷ [])))
    unfolding handshake started steps Conn.read ◌>>=◌ execute target_addr
    handshake_answers late rest =
        let start =
          begin (hello ++ drop 3 (zeroed 1024)) 3
            (record { answers = chunk (connect_request a) ∷ rest; written = [] }) in
        ap
          (λ um. finish (
            (negotiate um >>= λ _. request parse_ip >>= execute parse_ip udp_associate late cap sv)
              start))
          open_server
        ∙ ap
            (λ r. finish (
              Session.resume r.0
                (λ _. request parse_ip >>= execute parse_ip udp_associate late cap sv) r.1))
            (negotiate-hello _)
        ∙ ap (λ r. finish (Session.resume r.0 (execute parse_ip udp_associate late cap sv) r.1))
            (request-connect_request rest (5 ∷ 0 ∷ []))

    -- A server without users, sent the client's hello and connect request, each in one piece, and
    -- then the first data in time, answers success and hands on these data and the rest of the
    -- stream, with the address that the wire form keeps; a name that is a textual ip has the ip
    -- beside it. The request fits 1024 bytes, the first data fit the buffer, and a bare name fits its
    -- length byte.
    pub handshake_grants :
        (ed : Bytes) (rest : List Answer)
        → length ed ≤ cap
        → handshake parse_ip udp_associate false cap sv
            (record {
              answers = chunk hello ∷ chunk (connect_request a) ∷ chunk ed ∷ rest;
              written = [];
            })
            none
          ≡ ok (
              build
                (some (record { addr = reached parse_ip (on_wire a); network = tcp }))
                (buf_to_ob ed)
                (conn (record { answers = rest; written = 5 ∷ 0 ∷ common_tcp_handshake_reply }))
                none
                none)
    unfolding finish answered first_data ◌>>=◌ Conn.read asked waiting target_addr
    handshake_grants ed rest h =
        handshake_answers false (chunk ed ∷ rest) ∙ rw (take_all cap ed h, drop_all cap ed h) refl

    -- A server without users, sent the client's hello and connect request, each in one piece, but
    -- not the first data within the time limit, hands on zeros in their place, as many as its buffer
    -- has room for. The request fits 1024 bytes, and a bare name fits its length byte.
    pub handshake_late :
        (rest : List Answer)
        → handshake parse_ip udp_associate true cap sv
            (record { answers = chunk hello ∷ chunk (connect_request a) ∷ rest; written = [] })
            none
          ≡ ok (
              build
                (some (record { addr = reached parse_ip (on_wire a); network = tcp }))
                (buf_to_ob (zeroed cap))
                (conn (record { answers = rest; written = 5 ∷ 0 ∷ common_tcp_handshake_reply }))
                none
                none)
    unfolding finish answered first_data ◌>>=◌ asked waiting target_addr
    handshake_late rest = handshake_answers true rest
