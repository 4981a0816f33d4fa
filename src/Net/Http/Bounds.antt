-- ===== src/Net/Http/Bounds.antt =====
-- The parser of HTTP requests (src/net/http.rs) stays within its bytes.
use ruci.Prelude.{
  ℕ, zero, suc, ◌+◌, ◌-◌, ◌≤◌, ◌<◌, ◌⊎◌, ◌≡◌, refl, ap, inl, inr, Bool, true, false, not, ◌||◌,
  Option, some, none, List, [], ◌∷◌, Bytes, ltb, ◌==◌, if◌then◌else◌, length, take, drop, eq_bytes,
  codes, arith, Bool-cases, length-take, length-drop, eq_bytes_iff, le→leb, ltb_false→le,
}
use ruci.Prelude.Monad.{ok, err, panic}
use ruci.Utf8.{Text}
use ruci.Utf8.Split.{split_once}
use ruci.Net.Http.{
  ParseError, Method, post, get, head, delete, options, connect, unspecified, ParsedHttpRequest,
  default, Parse, ◌>>=◌, fail_if, byte_at, slice, is_at, word, put_or_post, connect_method,
  method_of, after_first, ending, add_headers, on_header, header_part, request_line, kind, line_end,
  space, other, Kind, on_kind, scan, target_begins, is_connect, scan_end, start_line, returned,
  parse_h1_request, elem_or_panic, too_short, not_for_h2c, unexpected_proxy, after_method, no_slash,
  expect_connect_but_not,
}

-- No panic: a result with `Q`, or a request that is returned early; which says of no body where it begins.
abbrev Good : {A : Type 0} → (A → Type 0) → Parse A → Type 0
Good Q (ok a) = Q a
Good Q (err r) = r.body_start_index ≡ 0
Good Q panic = ⊥

bind-Good :
    {A B : Type 0} (Q : A → Type 0) (R : B → Type 0) (m : Parse A) (f : A → Parse B)
    → Good Q m
    → ((a : A) → Q a → Good R (f a))
    → Good R (m >>= f)
unfolding ◌>>=◌
bind-Good Q R (ok a) f h k = k a h
bind-Good Q R (err r) f h k = h
bind-Good Q R panic f h k = absurd h

weaken-Good :
    {A : Type 0} (Q R : A → Type 0) (m : Parse A) → Good Q m → ((a : A) → Q a → R a) → Good R m
weaken-Good Q R (ok a) h k = k a h
weaken-Good Q R (err r) h k = h
weaken-Good Q R panic h k = absurd h

fail_if-Good :
    (b : Bool) (r : ParsedHttpRequest) (e : ParseError)
    → r.body_start_index ≡ 0
    → Good (λ _. b ≡ false) (fail_if b r e)
unfolding fail_if
fail_if-Good true r e h = h
fail_if-Good false r e h = refl

byte_at-Good : (bs : Bytes) (i : ℕ) → i < length bs → Good (λ _. Unit {0}) (byte_at bs i)
unfolding byte_at elem_or_panic
byte_at-Good [] i h = absurd (omega arith)
byte_at-Good (b ∷ bs) zero h = tt
byte_at-Good (b ∷ bs) (suc i) h = byte_at-Good bs i (omega arith)

slice-Good :
    (bs : Bytes) (a b : ℕ) → a ≤ b → b ≤ length bs → Good (λ s. length s ≡ b - a) (slice bs a b)
unfolding slice
slice-Good bs a b h k =
    rw (le→leb a b h, le→leb b (length bs) k)
      (omega (arith, length-take (b - a) (drop a bs), length-drop a bs))

is_at-Good :
    (bs : Bytes) (a b : ℕ) (w : Bytes)
    → a ≤ b
    → b ≤ length bs
    → Good (λ _. Unit {0}) (is_at bs a b w)
unfolding is_at
is_at-Good bs a b w h k =
    bind-Good (λ s. length s ≡ b - a) (λ _. Unit {0}) (slice bs a b) _ (slice-Good bs a b h k)
      (λ s _. tt)

or_zero : Option ℕ → ℕ
or_zero (some n) = n
or_zero none = 0

Small : Method × ℕ → Type 0
Small m = (m.1 ≤ 7) × (m.1 ≡ 0 ⊎ 3 ≤ m.1)

word-Good :
    (bs : Bytes) (b : ℕ) (rest : Bytes) (m : Method) (o : Method × ℕ)
    → 3 ≤ b
    → b ≤ 7
    → 16 ≤ length bs
    → Small o
    → Good Small (word bs b rest m o)
unfolding word Small
word-Good bs b rest m o h k l s =
    bind-Good (λ _. Unit {0}) Small (is_at bs 1 b rest) _
      (is_at-Good bs 1 b rest (omega arith) (omega arith))
      (λ is _. elim (Bool-cases is) [ inl e ↦ rw e (k, inr h) | inr e ↦ rw e s ])

put_or_post-Good : (bs : Bytes) → 16 ≤ length bs → Good Small (put_or_post bs)
unfolding put_or_post Small
put_or_post-Good bs l =
    bind-Good (λ _. Unit {0}) Small (is_at bs 1 3 (codes "UT")) _
      (is_at-Good bs 1 3 (codes "UT") (omega arith) (omega arith))
      (λ is _. elim (Bool-cases is) [
        | inl e ↦ rw e (omega arith)
        | inr e ↦ rw e (
            word-Good bs 4 (codes "OST") post (unspecified, 0) (omega arith) (omega arith) l
              (omega arith, inl refl))
      ])

connect_method-Good : (bs : Bytes) (p : Bool) → 16 ≤ length bs → Good Small (connect_method bs p)
unfolding connect_method Small
connect_method-Good bs p l =
    bind-Good Small Small (word bs 7 (codes "ONNECT") connect (unspecified, 0)) _
      (word-Good bs 7 (codes "ONNECT") connect (unspecified, 0) (omega arith) (omega arith) l
        (omega arith, inl refl))
      (λ m h.
        bind-Good _ Small (fail_if _ _ unexpected_proxy) _
          (fail_if-Good _ (record default { method = connect }) unexpected_proxy (omega arith))
          (λ _ _. h))

method_of-Good : (bs : Bytes) (p : Bool) (b : ℕ) → 16 ≤ length bs → Good Small (method_of bs p b)
unfolding method_of Small
method_of-Good bs p b l =
    if-Good (b == 71) _ _ (named 3 (codes "ET") get (omega arith) (omega arith)) (
      if-Good (b == 80) _ _ (put_or_post-Good bs l) (
        if-Good (b == 72) _ _ (named 4 (codes "EAD") head (omega arith) (omega arith)) (
          if-Good (b == 68) _ _ (named 6 (codes "ELETE") delete (omega arith) (omega arith)) (
            if-Good (b == 79) _ _ (named 7 (codes "PTIONS") options (omega arith) (omega arith))
              (if-Good (b == 67) _ _ (connect_method-Good bs p l) (omega arith, inl refl))))))
  where
    if-Good :
        (t : Bool) (x y : Parse (Method × ℕ))
        → Good Small x
        → Good Small y
        → Good Small (if t then x else y)
    if-Good true x y h k = h
    if-Good false x y h k = k

    named :
        (k : ℕ) (w : Bytes) (m : Method)
        → 3 ≤ k
        → k ≤ 7
        → Good Small (word bs k w m (unspecified, 0))
    named k w m h i = word-Good bs k w m (unspecified, 0) h i l (omega arith, inl refl)

after_first-bound :
    (n i : ℕ) (o : Option ℕ)
    → ((j : ℕ) → o ≡ some j → j + 4 ≤ n)
    → after_first o ≡ some i
    → i + 4 ≤ suc n
unfolding after_first or_zero
after_first-bound n i none h e = absurd (ground (arith, e))
after_first-bound n i (some j) h e = omega (arith, h j refl, ap (or_zero) e)

abbrev end_bytes : Bytes
end_bytes = 13 ∷ 10 ∷ 13 ∷ 10 ∷ []

here-bound :
    (bs : Bytes) (i : ℕ) (t : Bool) (o : Option ℕ)
    → eq_bytes (take 4 bs) end_bytes ≡ t
    → ((j : ℕ) → o ≡ some j → j + 4 ≤ length bs - 1)
    → 1 ≤ length bs
    → (if t then some 0 else after_first o) ≡ some i
    → i + 4 ≤ length bs
unfolding or_zero
here-bound bs i true o k h l e =
    omega
      (arith, ap length ((eq_bytes_iff (take 4 bs) end_bytes).0 k), length-take 4 bs, ap or_zero e)
here-bound bs i false o k h l e = omega (arith, after_first-bound (length bs - 1) i o h e)

-- Where the end of the headers is, its four bytes are.
pub ending-bound : (bs : Bytes) (i : ℕ) → ending bs ≡ some i → i + 4 ≤ length bs
unfolding ending
ending-bound [] i e = absurd (ground (arith, e))
ending-bound (b ∷ bs) i e =
    here-bound (b ∷ bs) i (eq_bytes (take 4 (b ∷ bs)) end_bytes) (ending bs) refl
      (λ j k. omega (arith, ending-bound bs j k)) (omega arith) e

add_headers-Good :
    (ls : List Text) (r : ParsedHttpRequest)
    → r.body_start_index ≡ 0
    → Good (λ q. q.body_start_index ≡ 0) (add_headers ls r)
unfolding add_headers
add_headers-Good [] r e = e
add_headers-Good (l ∷ ls) r e =
    with_line (split_once (codes ": ") l) (λ q k. add_headers-Good ls q k)
  where
    with_line :
        (o : Option (Text × Text))
        → ((q : ParsedHttpRequest)
            → q.body_start_index ≡ 0
            → Good (λ q. q.body_start_index ≡ 0) (add_headers ls q))
        → Good (λ q. q.body_start_index ≡ 0) (on_header (add_headers ls) r o)
    with_line none k = unfold on_header in e
    with_line (some (x, v)) k = unfold on_header in k _ e

abbrev BodyIn : ℕ → ParsedHttpRequest → Type 0
BodyIn n r = r.body_start_index ≤ n - 15

header_part-Good :
    (N : ℕ) (bs : Bytes) (r : ParsedHttpRequest) (o : Option ℕ)
    → r.body_start_index ≡ 0
    → ((i : ℕ) → o ≡ some i → i + 4 ≤ N - 15)
    → Good (BodyIn N) (header_part bs r o)
unfolding header_part
header_part-Good N bs r none e h = omega (arith, e)
header_part-Good N bs r (some i) e h =
    bind-Good (λ q. q.body_start_index ≡ 0) (BodyIn N) (add_headers _ r) _ (add_headers-Good _ r e)
      (λ q _. h i refl)

-- The steps of the two functions below, each with what comes behind it.
module _ {B : Type 0} (R : B → Type 0) where
  fail_if-then :
      (b : Bool) (r : ParsedHttpRequest) (e : ParseError) (f : Unit {0} → Parse B)
      → r.body_start_index ≡ 0
      → (b ≡ false → Good R (f tt))
      → Good R (fail_if b r e >>= f)
  fail_if-then b r e f h k =
      bind-Good (λ _. b ≡ false) R (fail_if b r e) f (fail_if-Good b r e h) (λ _ i. k i)

  byte_at-then :
      (bs : Bytes) (i : ℕ) (f : ℕ → Parse B)
      → i < length bs
      → ((b : ℕ) → Good R (f b))
      → Good R (byte_at bs i >>= f)
  byte_at-then bs i f h k =
      bind-Good (λ _. Unit {0}) R (byte_at bs i) f (byte_at-Good bs i h) (λ b _. k b)

  slice-then :
      (bs : Bytes) (a b : ℕ) (f : Bytes → Parse B)
      → a ≤ b
      → b ≤ length bs
      → ((s : Bytes) → length s ≡ b - a → Good R (f s))
      → Good R (slice bs a b >>= f)
  slice-then bs a b f h i k =
      bind-Good (λ s. length s ≡ b - a) R (slice bs a b) f (slice-Good bs a b h i) k

  is_at-then :
      (bs : Bytes) (a b : ℕ) (w : Bytes) (f : Bool → Parse B)
      → a ≤ b
      → b ≤ length bs
      → ((t : Bool) → Good R (f t))
      → Good R (is_at bs a b w >>= f)
  is_at-then bs a b w f h i k =
      bind-Good (λ _. Unit {0}) R (is_at bs a b w) f (is_at-Good bs a b w h i) (λ t _. k t)

request_line-Good :
    (bs : Bytes) (slash i : ℕ) (r : ParsedHttpRequest)
    → r.body_start_index ≡ 0
    → 4 ≤ slash
    → slash ≤ i
    → i < length bs
    → Good (BodyIn (length bs)) (request_line bs slash i r)
unfolding request_line
request_line-Good bs slash i r e low h l =
    fail_if-then R (ltb (n - i - 1) 10) r _ _ zero_in (λ long.
      slice-then R bs slash i _ h (omega arith) (λ path _.
        is_at-then R bs (i + 1) (i + 5) (codes "HTTP") _ (omega arith) (omega (arith, room long))
          (λ http. fail_if-then R (not http) _ _ _ zero_in (λ _.
            slice-then R bs (i + 6) (i + 9) _ (omega arith) (omega (arith, room long)) (λ version _.
              byte_at-then R bs (i + 9) _ (omega (arith, room long)) (λ cr.
                byte_at-then R bs (i + 10) _ (omega (arith, room long)) (λ lf.
                  fail_if-then R (not (cr == 13) || not (lf == 10)) _ _ _ zero_in (λ _.
                    slice-then R bs (i + 11) n _ (omega (arith, room long)) (omega arith) (λ left k.
                      header_part-Good n left _ (ending left) e
                        (λ j f. omega (arith, ending-bound left j f, k)))))))))))
  where
    n : ℕ
    n = length bs

    R : ParsedHttpRequest → Type 0
    R = BodyIn n

    zero_in : r.body_start_index ≡ 0
    zero_in = e

    room : ltb (n - i - 1) 10 ≡ false → i + 11 ≤ n
    room long = omega (arith, ltb_false→le (n - i - 1) 10 long)

scan-Good :
    (bs : Bytes) (slash k i : ℕ) (r : ParsedHttpRequest)
    → r.body_start_index ≡ 0
    → 4 ≤ slash
    → slash ≤ i
    → i + k ≤ length bs
    → Good (BodyIn (length bs)) (scan bs slash r k i)
unfolding scan
scan-Good bs slash zero i r e low h l = omega (arith, e)
scan-Good bs slash (suc k) i r e low h l =
    byte_at-then (BodyIn (length bs)) bs i _ (omega arith) (λ b.
      on_kind-Good (kind b) (scan-Good bs slash k (suc i) r e low (omega arith) (omega arith)))
  where
    on_kind-Good :
        (c : Kind)
        → Good (BodyIn (length bs)) (scan bs slash r k (suc i))
        → Good (BodyIn (length bs)) (on_kind bs slash r i (scan bs slash r k) c)
    on_kind-Good line_end m = unfold on_kind in omega (arith, e)
    on_kind-Good space m = unfold on_kind in request_line-Good bs slash i r e low h (omega arith)
    on_kind-Good other m = unfold on_kind in m

target_begins-Good :
    (bs : Bytes) (p : Bool) (slash : ℕ) (r : ParsedHttpRequest)
    → r.body_start_index ≡ 0
    → slash + 7 ≤ length bs
    → Good (λ _. Unit {0}) (target_begins bs p slash r)
unfolding target_begins
target_begins-Good bs true slash r e h = elim (Bool-cases (is_connect r.method)) [
  | inl k ↦ rw k tt
  | inr k ↦ rw k (
      is_at-then (λ _. Unit {0}) bs slash (slash + 7) (codes "http://") _ (omega arith) h
        (λ t. fail_then t))
]
  where
    fail_then : (t : Bool) → Good (λ _. Unit {0}) (fail_if (not t) r expect_connect_but_not)
    fail_then t =
        weaken-Good _ (λ _. Unit {0}) (fail_if (not t) r expect_connect_but_not)
          (fail_if-Good (not t) r expect_connect_but_not (omega (arith, e))) (λ _ _. tt)
target_begins-Good bs false slash r e h =
    byte_at-then (λ _. Unit {0}) bs slash _ (omega arith)
      (λ b.
        weaken-Good _ (λ _. Unit {0}) (fail_if (not (b == 47)) r no_slash)
          (fail_if-Good (not (b == 47)) r no_slash (omega (arith, e))) (λ _ _. tt))

scan_end-bound : (p : Bool) (n : ℕ) → scan_end p n ≤ n
scan_end-bound p n = ground arith

after_method-Good :
    (bs : Bytes) (p : Bool) (m : Method × ℕ)
    → Small m
    → 16 ≤ length bs
    → Good (BodyIn (length bs)) (after_method bs p m)
unfolding after_method Small
after_method-Good bs p (m, at) s l = fail_if-then R (at == 0) _ _ _ refl (λ nonzero.
    let low = above nonzero s.1 in
    byte_at-then R bs at _ (omega arith) (λ b.
      fail_if-then R (not (b == 32)) _ _ _ (omega arith) (λ _.
        bind-Good (λ _. Unit {0}) R (target_begins bs p (at + 1) r) _
          (target_begins-Good bs p (at + 1) r refl (omega arith))
          (λ _ _.
            scan-Good bs (at + 1) (scan_end p n - (at + 1)) (at + 1) r refl low (omega arith)
              (omega (arith, scan_end-bound p n))))))
  where
    n : ℕ
    n = length bs

    R : ParsedHttpRequest → Type 0
    R = BodyIn n

    r : ParsedHttpRequest
    r = record default { method = m }

    above : (at == 0) ≡ false → (at ≡ 0) ⊎ (3 ≤ at) → 4 ≤ at + 1
    above h k = ground arith

start_line-Good : (bs : Bytes) (p : Bool) → Good (BodyIn (length bs)) (start_line bs p)
unfolding start_line
start_line-Good bs p = fail_if-then R (ltb n 16) default too_short _ (omega arith) (λ e.
    byte_at-then R bs 4 _ (omega (arith, ltb_false→le n 16 e)) (λ b4.
      fail_if-then R (b4 == 42) default not_for_h2c _ (omega arith) (λ _.
        byte_at-then R bs 0 _ (omega (arith, ltb_false→le n 16 e)) (λ b0.
          bind-Good Small R (method_of bs p b0) _ (method_of-Good bs p b0 (ltb_false→le n 16 e))
            (λ m s. after_method-Good bs p m s (ltb_false→le n 16 e))))))
  where
    n : ℕ
    n = length bs

    R : ParsedHttpRequest → Type 0
    R = BodyIn n

-- On any bytes the parser returns without a panic, since its length checks cover every index and every
-- slice; but the index at which it says that the body begins is counted from the headers, and so it is
-- at least 15 short of the end of the bytes.
pub parse_h1_request-Total :
    (bs : Bytes) (is_proxy : Bool)
    → (r : ParsedHttpRequest) × (parse_h1_request bs is_proxy ≡ some r)
      × (r.body_start_index ≤ length bs - 15)
unfolding parse_h1_request
parse_h1_request-Total bs p = by_outcome (start_line bs p) (start_line-Good bs p)
  where
    by_outcome :
        (o : Parse ParsedHttpRequest)
        → Good (BodyIn (length bs)) o
        → (r : ParsedHttpRequest) × (returned o ≡ some r) × (r.body_start_index ≤ length bs - 15)
    by_outcome (ok r) h = (r, unfold returned in refl, h)
    by_outcome (err r) h = (r, unfold returned in refl, omega (arith, h))
    by_outcome panic h = absurd h
