-- ===== src/Tests/Reader.antt =====
-- The UDP reader and writer (src/map/trojan/udp.rs) on concrete inputs.
use ruci.Prelude.{◌≡◌, refl, [], ◌∷◌, ◌++◌, map, take, min, arith, codes, Bytes, be_bytes, be_value}
use ruci.Prelude.Monad.{err, get_be}
use ruci.Utf8.Strings.{ascii-IsString, IsString}
use ruci.Net.Addr.{NetAddr, name, Addr, udp}
use ruci.Net.Helpers.{addr_to_socks5_bytes, socks5_bytes_to_addr, atyp_wrong}
use ruci.Net.Helpers.RoundTrip.{IsDecodable}
use ruci.Trojan.Writer.{frame}
use ruci.Trojan.Reader.{
  Reader, base, buf, left_buf, Got, bytes, ReadPoll, ready_ok, ready_err, in_address,
  poll_read_addr,
}
use ruci.Trojan.Reader.Deliver.{sender}
use ruci.Trojan.Reader.Stream.{Datagram, Fits, frames, polls, received, polls-frames}
use ruci.Trojan.Reader.Chunks.{gather, gather-frame}
use ruci.Trojan.Reader.Faults.{exact_fit_drops_rest, stale_left_misreads, cut_header_panics}

abbrev www : NetAddr
www = name (codes "www.b") 43

abbrev www_addr : Addr
www_addr = record { addr = www; network = udp }

www-IsString : IsString (codes "www.b")
www-IsString = ascii-IsString (codes "www.b") (omega arith)

-- The reader of the test in src/map/trojan/udp.rs, with room for 1024 bytes.
abbrev start : Reader
start = record { buf = []; state = base; left_data_len = 0; old_ad = www_addr }

abbrev hello : Datagram
hello = record { to = www; network = udp; payload = codes "hello" }

hello-Fits : Fits 1024 hello
hello-Fits = record {
  valid = (www-IsString, omega arith);
  name_fits = omega arith;
  word = omega arith;
  room = omega arith;
}

frame_test :
    frame www_addr (codes "hello")
    ≡ 3 ∷ 5 ∷ 119 ∷ 119 ∷ 119 ∷ 46 ∷ 98 ∷ 0 ∷ 43 ∷ 0 ∷ 5 ∷ 13 ∷ 10 ∷ codes "hello"
unfolding frame addr_to_socks5_bytes be_bytes
frame_test = refl

polls-frames_example :
    polls (bytes (frames (hello ∷ hello ∷ [])) ∷ Got.pending ∷ []) 1024 start
    ≡ map received (hello ∷ hello ∷ [])
polls-frames_example =
    polls-frames hello (hello ∷ []) (Got.pending ∷ []) 1024 start (hello-Fits, (hello-Fits, tt))
      refl refl refl

abbrev two_left : Reader
two_left = record start { buf = frame www_addr (codes "hello") ++ (9 ∷ []); state = buf }

-- Two bytes at a time: "he", "ll", "o".
gather-frame_example :
    ((gather (Got.pending ∷ Got.pending ∷ Got.pending ∷ []) 2 two_left).0 ≡ codes "hello")
    × ((gather (Got.pending ∷ Got.pending ∷ Got.pending ∷ []) 2 two_left).1.buf ≡ 9 ∷ [])
gather-frame_example =
    gather-frame (Got.pending ∷ []) Got.pending Got.pending www udp (codes "hello") (9 ∷ []) 2
      two_left (www-IsString, omega arith) (omega arith) (omega arith) (omega arith) (omega arith)
      refl refl

exact_fit_drops_rest_example :
    let first = λ (r : Bytes).
      poll_read_addr Got.pending 5
        (record two_left { buf = frame www_addr (codes "hello") ++ r }) in
    ((first (codes "lost")).0 ≡ ready_ok (codes "hello") (sender www))
    × ((poll_read_addr (bytes (7 ∷ [])) 5 (first (codes "lost")).1).0
        ≡ (poll_read_addr (bytes (7 ∷ [])) 5 (first []).1).0)
exact_fit_drops_rest_example =
    exact_fit_drops_rest Got.pending (bytes (7 ∷ [])) www udp (codes "hello") (codes "lost") [] 5 5
      two_left (www-IsString, omega arith) (omega arith) (omega arith) refl refl

abbrev one_left : Reader
one_left = record {
  buf = codes "o" ++ (2 ∷ 0 ∷ 0 ∷ 0 ∷ 0 ∷ 0 ∷ 0 ∷ []);
  state = left_buf;
  left_data_len = 1;
  old_ad = www_addr;
}

bad_address : (socks5_bytes_to_addr (2 ∷ 0 ∷ 0 ∷ 0 ∷ 0 ∷ 0 ∷ 0 ∷ [])).0 ≡ err (atyp_wrong 2)
unfolding socks5_bytes_to_addr get_be be_value
bad_address = refl

-- The address type of the next frame, 3, comes out as data from www.b.
stale_left_misreads_example :
    let last = (poll_read_addr Got.pending 1024 one_left).1 in
    let failed = poll_read_addr Got.pending 1024 last in
    (failed.0 ≡ ready_err (in_address (atyp_wrong 2)))
    × ((poll_read_addr (bytes (3 ∷ 5 ∷ [])) 1024 failed.1).0
        ≡ ready_ok (take (min 1 (min 1024 2)) (3 ∷ 5 ∷ [])) www_addr)
stale_left_misreads_example =
    stale_left_misreads Got.pending Got.pending (codes "o") (2 ∷ 0 ∷ 0 ∷ 0 ∷ 0 ∷ 0 ∷ 0 ∷ [])
      (3 ∷ 5 ∷ []) www_addr (atyp_wrong 2) 1024 one_left
      (record { in_left_buf = refl; bytes = refl; counted = refl; from = refl }) (omega arith)
      (omega arith) (omega arith) bad_address (omega arith)

abbrev cut : Reader
cut = record start {
  buf = addr_to_socks5_bytes www_addr [] ++ (be_bytes 2 5 ++ (13 ∷ []));
  state = buf;
}

cut-IsDecodable : IsDecodable www (be_bytes 2 5 ++ (13 ∷ []))
unfolding be_bytes
cut-IsDecodable = (omega arith, omega arith)

cut_header_panics_example : (poll_read_addr Got.pending 1024 cut).0 ≡ ReadPoll.panic
cut_header_panics_example =
    cut_header_panics Got.pending www udp 5 (13 ∷ []) 1024 cut (www-IsString, omega arith)
      cut-IsDecodable (omega arith) (omega arith) refl refl
