-- ===== src/Net/Http/Reads.antt =====
-- A printed request, as src/net/http.rs reads it back.
use ruci.Prelude.{
  ℕ, suc, zero, ◌+◌, ◌-◌, ◌<◌, ◌≤◌, ◌≡◌, ◌≢◌, refl, ap, sym, ◌∙◌, true, some, List, [], ◌∷◌, ◌++◌,
  Bytes, arith, All, codes, length, length-append, take, drop, drop_all, take_all,
  take-length_append, drop-length_append, eq_bytes, le→leb, le→ltb_false, length-drop,
}
use ruci.Prelude.Monad.{ok}
use ruci.Utf8.{Text, from_utf8_lossy}
use ruci.Utf8.Strings.{IsString}
use ruci.Net.Http.{
  Header, ParsedHttpRequest, ◌>>=◌, byte_at, slice, is_at, fail_if, kind, other, on_kind, scan,
  request_line, header_part, ending, elem_or_panic, start_line, after_method, method_of, word,
  target_begins, default, connect, parse_h1_request, returned,
}
use ruci.Net.Http.Headers.{Plain, block, header_part-block}

drop-add : (i n : ℕ) (bs : Bytes) → drop (i + n) bs ≡ drop n (drop i bs)
drop-add zero n bs = ap (λ k. drop k bs) (omega arith)
drop-add (suc i) n [] = drop_all (suc i + n) [] (omega arith) ∙ sym (drop_all n [] (omega arith))
drop-add (suc i) n (b ∷ bs) =
    ap (λ k. drop k (b ∷ bs)) {y = suc (i + n)} (omega arith) ∙ drop-add i n bs

drop-suc :
    (i : ℕ) (bs : Bytes) (c : ℕ) (rest : Bytes) → drop i bs ≡ c ∷ rest → drop (suc i) bs ≡ rest
drop-suc i bs c rest e =
    ap (λ k. drop k bs) {x = suc i} {y = i + 1} (omega arith) ∙ drop-add i 1 bs ∙ ap (drop 1) e

-- What stands at `i`.
byte_at-drop : (bs : Bytes) (i c : ℕ) (rest : Bytes) → drop i bs ≡ c ∷ rest → byte_at bs i ≡ ok c
unfolding byte_at elem_or_panic
byte_at-drop [] zero c rest e = absurd (omega (arith, ap length e))
byte_at-drop [] (suc i) c rest e = absurd (omega (arith, ap length e))
byte_at-drop (b ∷ bs) zero c rest e = ground (arith, e)
byte_at-drop (b ∷ bs) (suc i) c rest e = byte_at-drop bs i c rest e

slice-drop :
    (bs : Bytes) (i a b : ℕ) (d : Bytes)
    → drop i bs ≡ d
    → a ≤ b
    → b ≤ length d
    → i ≤ length bs
    → slice bs (i + a) (i + b) ≡ ok (take (b - a) (drop a d))
unfolding slice
slice-drop bs i a b d e h k l =
    rw
      (
        le→leb (i + a) (i + b) (omega arith),
        le→leb (i + b) (length bs) (omega (arith, length-drop i bs, ap length e)),
      )
      (ap (λ k. ok (take k (drop (i + a) bs))) (omega arith)
        ∙ ap (λ k. ok (take (b - a) k)) (drop-add i a bs ∙ ap (drop a) e))

-- A path: no space and no end of line.
abbrev pub PathChar : ℕ → Type 0
PathChar c = (c ≢ 13) × (c ≢ 10) × (c ≢ 32)

kind-other : (c : ℕ) → PathChar c → kind c ≡ other
kind-other c (a, b, d) = ground arith

-- The loop goes on to the space behind the path.
scan-path :
    (bs : Bytes) (slash k i : ℕ) (r : ParsedHttpRequest) (path tail : Bytes)
    → drop i bs ≡ path ++ 32 ∷ tail
    → All PathChar path
    → length path < k
    → scan bs slash r k i ≡ request_line bs slash (i + length path) r
unfolding scan ◌>>=◌ on_kind
scan-path bs slash zero i r path tail e p l = absurd (omega arith)
scan-path bs slash (suc k) i r [] tail e p l =
    ap (λ m. m >>= λ b. on_kind bs slash r i (scan bs slash r k) (kind b))
      (byte_at-drop bs i 32 tail e)
    ∙ ap (λ j. request_line bs slash j r) {x = i} (omega arith)
scan-path bs slash (suc k) i r (c ∷ path) tail e (p, ps) l =
    ap (λ m. m >>= λ b. on_kind bs slash r i (scan bs slash r k) (kind b))
      (byte_at-drop bs i c (path ++ 32 ∷ tail) e)
    ∙ ap (on_kind bs slash r i (scan bs slash r k)) (kind-other c p)
    ∙ scan-path bs slash k (suc i) r path tail (drop-suc i bs c (path ++ 32 ∷ tail) e) ps
        (omega arith)
    ∙ ap (λ j. request_line bs slash j r) {x = suc i + length path} (omega arith)

-- The space, the version and the end of the line, as they stand before what is left.
abbrev version_line : Bytes → Bytes
version_line left = 32 ∷ 72 ∷ 84 ∷ 84 ∷ 80 ∷ 47 ∷ 49 ∷ 46 ∷ 49 ∷ 13 ∷ 10 ∷ left

module _ (bs : Bytes) (slash i : ℕ) (path left : Bytes) (e : drop i bs ≡ version_line left) where
  long : length bs ≡ i + 11 + length left
  long = omega (arith, length-drop i bs, ap length e)

  http_there : is_at bs (i + 1) (i + 5) (codes "HTTP") ≡ ok true
  unfolding is_at eq_bytes ◌>>=◌
  http_there =
      ap (λ m. m >>= λ s. ok (eq_bytes s (codes "HTTP")))
        (slice-drop bs i 1 5 (version_line left) e (omega arith) (omega arith)
          (omega (arith, long)))

  version_there : slice bs (i + 6) (i + 9) ≡ ok (codes "1.1")
  version_there =
      slice-drop bs i 6 9 (version_line left) e (omega arith) (omega arith) (omega (arith, long))

  cr_there : byte_at bs (i + 9) ≡ ok 13
  cr_there = byte_at-drop bs (i + 9) 13 (10 ∷ left) (drop-add i 9 bs ∙ ap (drop 9) e)

  lf_there : byte_at bs (i + 10) ≡ ok 10
  lf_there = byte_at-drop bs (i + 10) 10 left (drop-add i 10 bs ∙ ap (drop 10) e)

  left_there : slice bs (i + 11) (length bs) ≡ ok left
  left_there =
      ap (slice bs (i + 11)) {y = i + length (version_line left)} (omega (arith, long))
      ∙ slice-drop bs i 11 (length (version_line left)) (version_line left) e (omega arith)
          (omega arith) (omega (arith, long))
      ∙ ap ok (take_all (length (version_line left) - 11) left (omega arith))

  request_line-reads :
      (r : ParsedHttpRequest)
      → slice bs slash i ≡ ok path
      → IsString path
      → request_line bs slash i r
        ≡ header_part left (record r { path = path; version = codes "1.1" }) (ending left)
  unfolding request_line fail_if ◌>>=◌
  request_line-reads r p u =
      rw
        (
          le→ltb_false 10 (length bs - i - 1) (omega (arith, long)),
          p,
          http_there,
          version_there,
          cr_there,
          lf_there,
          left_there,
          u,
        )
        (unfold from_utf8_lossy in refl)

-- A CONNECT request comes to its path.
connect-scan :
    (rest : Bytes)
    → 8 ≤ length rest
    → start_line (codes "CONNECT " ++ rest) true
      ≡ scan (codes "CONNECT " ++ rest) 8 (record default { method = connect }) (length rest) 8
unfolding start_line method_of word is_at slice byte_at fail_if after_method target_begins ◌>>=◌
connect-scan rest h =
    rw
      (
        le→ltb_false 16 (length (codes "CONNECT " ++ rest)) (omega arith),
        le→leb 7 (length (codes "CONNECT " ++ rest)) (omega arith),
      )
      (ap (λ k. scan (codes "CONNECT " ++ rest) 8 (record default { method = connect }) k 8)
        (omega arith))

-- The request with a path, headers and what stands behind them.
abbrev pub connect_text : Text → Header → List Header → Bytes → Bytes
connect_text path h hs body =
    codes "CONNECT " ++ (path ++ version_line (block h hs ++ 13 ∷ 10 ∷ 13 ∷ 10 ∷ body))

abbrev pub connect_parsed : Text → Header → List Header → ParsedHttpRequest
connect_parsed path h hs = record default {
  method = connect;
  path = path;
  version = codes "1.1";
  headers = h ∷ hs;
  body_start_index = length (block h hs) + 4;
}

module _ (path : Text) (h : Header) (hs : List Header) (body : Bytes) where
  left_of : Bytes
  left_of = block h hs ++ 13 ∷ 10 ∷ 13 ∷ 10 ∷ body

  space_there : drop (8 + length path) (connect_text path h hs body) ≡ version_line left_of
  unfolding left_of
  space_there =
      drop-add 8 (length path) (connect_text path h hs body)
      ∙ drop-length_append path (version_line left_of)

  path_there : slice (connect_text path h hs body) 8 (8 + length path) ≡ ok path
  unfolding left_of
  path_there =
      slice-drop (connect_text path h hs body) 8 0 (length path) (path ++ version_line left_of) refl
        (omega arith) (omega (arith, length-append path (version_line left_of))) (omega arith)
      ∙ ap (λ k. ok (take k (path ++ version_line left_of))) {y = length path} (omega arith)
      ∙ ap ok (take-length_append path (version_line left_of))

  pub start_line-connect :
      All PathChar path
      → IsString path
      → Plain h
      → All Plain hs
      → IsString (block h hs)
      → start_line (connect_text path h hs body) true ≡ ok (connect_parsed path h hs)
  unfolding left_of
  start_line-connect c u p ps v =
      connect-scan (path ++ version_line left_of)
        (omega (arith, length-append path (version_line left_of)))
      ∙ scan-path (connect_text path h hs body) 8 _ 8 (record default { method = connect }) path _
          refl c (omega (arith, length-append path (version_line left_of)))
      ∙ request_line-reads (connect_text path h hs body) 8 (8 + length path) path left_of
          space_there (record default { method = connect }) path_there u
      ∙ header_part-block h hs body _ p ps v

  pub parse_h1_request-connect :
      All PathChar path
      → IsString path
      → Plain h
      → All Plain hs
      → IsString (block h hs)
      → parse_h1_request (connect_text path h hs body) true ≡ some (connect_parsed path h hs)
  unfolding parse_h1_request
  parse_h1_request-connect c u p ps v = ap returned (start_line-connect c u p ps v)
