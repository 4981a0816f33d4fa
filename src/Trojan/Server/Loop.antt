-- ===== src/Trojan/Server/Loop.antt =====
-- The read loop of the handshake (src/map/trojan/server.rs).
use ruci.Prelude.{
  ℕ, zero, suc, ◌+◌, ◌-◌, ◌≤◌, ◌<◌, ◌≡◌, ◌≢◌, refl, ap, ◌∙◌, true, none, some, List, [], ◌∷◌, ◌++◌,
  arith, Bytes, length, Option-cases, inl, inr, length-append, take_all, drop_all,
}
use ruci.Prelude.Monad.{Outcome, ok, err, panic}
use ruci.Net.Conn.{Conn, Answer, chunk, IoError, read}
use ruci.Trojan.Server.{cap, find_crlf, crlf_found, read_header, round}

round_ext :
    (filled : Bytes) (r : Outcome IoError Bytes × Conn)
    (f g : Bytes → Conn → Outcome IoError Bytes × Conn)
    → ((next : Bytes) (c : Conn)
        → length filled < length next
        → length next < cap
        → f next c ≡ g next c)
    → round filled r f ≡ round filled r g
unfolding round
round_ext filled (err e, c) f g h = refl
round_ext filled (panic, c) f g h = refl
round_ext filled (ok [], c) f g h = refl
round_ext filled (ok (b ∷ bs), c) f g h =
    ground (arith, length-append filled (b ∷ bs), h (filled ++ b ∷ bs) c)

-- With as much fuel as the buffer has room the loop has ended by itself: more of it changes nothing.
pub read_header_fuel :
    (fuel size : ℕ) (filled : Bytes) (c : Conn)
    → cap ≤ length filled + suc fuel
    → read_header (suc fuel) size filled c ≡ read_header (suc (suc fuel)) size filled c
unfolding read_header
read_header_fuel zero size filled c h =
    round_ext filled (read (size - length filled) c) _ _ (λ next c' lt room. absurd (omega arith))
read_header_fuel (suc fuel) size filled c h =
    round_ext filled (read (size - length filled) c) _ _
      (λ next c' lt room. read_header_fuel fuel size next c' (omega arith))

find_crlf_from : (i : ℕ) (s : Bytes) (j : ℕ) → find_crlf i s ≡ some j → i ≤ j
unfolding find_crlf
find_crlf_from i [] j e = cc
find_crlf_from i (x ∷ []) j e = cc
find_crlf_from i (x ∷ y ∷ s) j e = ground (arith, find_crlf_from (i + 1) (y ∷ s) j)

find_crlf-ne-none : (i : ℕ) (s t : Bytes) → find_crlf i (s ++ 0x0d ∷ 0x0a ∷ t) ≢ none
unfolding find_crlf
find_crlf-ne-none i [] t = ground arith
find_crlf-ne-none i (x ∷ []) t = ground arith
find_crlf-ne-none i (x ∷ y ∷ s) t = ground (arith, find_crlf-ne-none (i + 1) (y ∷ s) t)

found_behind : (x : ℕ) (s t : Bytes) → 48 ≤ x → crlf_found 0 ((x ∷ s) ++ 0x0d ∷ 0x0a ∷ t) ≡ true
unfolding crlf_found
found_behind x [] t h = ground arith
found_behind x (y ∷ s) t h = elim (Option-cases (find_crlf 1 ((y ∷ s) ++ 0x0d ∷ 0x0a ∷ t))) [
  | inl e ↦ absurd (find_crlf-ne-none 1 (y ∷ s) t e)
  | inr (j, e) ↦ ground (arith, e, find_crlf_from 1 ((y ∷ s) ++ 0x0d ∷ 0x0a ∷ t) j e)
]

read_whole :
    (room : ℕ) (bs : Bytes) (rest : List Answer) (w : Bytes)
    → length bs ≤ room
    → read room (record { answers = chunk bs ∷ rest; written = w })
      ≡ (ok bs, record { answers = rest; written = w })
unfolding read
read_whole room bs rest w h = rw (take_all room bs h, drop_all room bs h)

round_found :
    (bs : Bytes) (c : Conn) (more : Bytes → Conn → Outcome IoError Bytes × Conn)
    → crlf_found 0 bs ≡ true
    → round [] (ok bs, c) more ≡ (ok bs, c)
unfolding round
round_found [] c more h = refl
round_found (b ∷ bs) c more h = ground arith

-- A header that arrives in one piece, with CR LF behind a digit inside, is read at once, and the
-- answers behind it stay.
pub read_header_whole :
    (fuel x : ℕ) (s t : Bytes) (rest : List Answer) (w : Bytes)
    → 48 ≤ x
    → length ((x ∷ s) ++ 0x0d ∷ 0x0a ∷ t) ≤ cap
    → read_header
        (suc fuel)
        cap
        []
        (record { answers = chunk ((x ∷ s) ++ 0x0d ∷ 0x0a ∷ t) ∷ rest; written = w })
      ≡ (ok ((x ∷ s) ++ 0x0d ∷ 0x0a ∷ t), record { answers = rest; written = w })
unfolding read_header
read_header_whole fuel x s t rest w h l =
    ap (λ r. round [] r (read_header fuel cap)) (read_whole cap _ rest w l)
    ∙ round_found ((x ∷ s) ++ 0x0d ∷ 0x0a ∷ t) _ (read_header fuel cap) (found_behind x s t h)
