-- ===== src/Net/Http/Headers.antt =====
-- The headers of a request, as src/net/http.rs reads them back.
use ruci.Prelude.{
  ℕ, suc, ◌+◌, ◌≡◌, ◌≢◌, refl, ap, sym, ◌∙◌, Option, some, none, List, [], ◌∷◌, ◌++◌, Bytes, arith,
  All, ==_false, All-append, append_assoc, codes, length, length-append, take-length_append,
  eq_bytes,
}
use ruci.Prelude.Monad.{ok}
use ruci.Utf8.{Text, from_utf8_lossy}
use ruci.Utf8.Strings.{IsString}
use ruci.Utf8.Split.{starts_with, split_once, into_head, split2, into_first}
use ruci.Net.Http.{
  Header, ParsedHttpRequest, Parse, ◌>>=◌, ending, after_first, on_header, add_headers, header_part,
}

abbrev pub Misses : ℕ → Text → Type 0
Misses c = All (λ d. d ≢ c)

-- The name has no colon, begins with something, and neither part has a carriage return.
abbrev pub Plain : Header → Type 0
Plain h = Misses 58 h.head × Misses 13 h.head × (h.head ≢ []) × Misses 13 h.value

unfoldable pub line : Header → Text
line h = h.head ++ 58 ∷ 32 ∷ h.value

-- The lines with an end of line between them.
unfoldable pub block : Header → List Header → Text
unfolding line
block h [] = line h
block h (k ∷ ks) = line h ++ 13 ∷ 10 ∷ block k ks

abbrev end_bytes : Bytes
end_bytes = 13 ∷ 10 ∷ 13 ∷ 10 ∷ []

plus : ℕ → Option ℕ → Option ℕ
plus n (some k) = some (n + k)
plus n none = none

plus-suc : (n : ℕ) (o : Option ℕ) → after_first (plus n o) ≡ plus (suc n) o
unfolding plus after_first
plus-suc n none = refl
plus-suc n (some k) = ap some (omega arith)

plus-zero : (o : Option ℕ) → o ≡ plus 0 o
unfolding plus
plus-zero none = refl
plus-zero (some k) = ap some (omega arith)

plus-two : (o : Option ℕ) → after_first (after_first o) ≡ plus 2 o
unfolding plus after_first
plus-two none = refl
plus-two (some k) = ap some (omega arith)

ending-skip : (c : ℕ) (s : Text) → c ≢ 13 → ending (c ∷ s) ≡ after_first (ending s)
unfolding ending eq_bytes
ending-skip c s h = rw (==_false c 13 h) refl

-- Text without a carriage return is skipped.
ending-Misses : (l rest : Text) → Misses 13 l → ending (l ++ rest) ≡ plus (length l) (ending rest)
ending-Misses [] rest h = plus-zero (ending rest)
ending-Misses (c ∷ l) rest (h, hs) =
    ending-skip c (l ++ rest) h
    ∙ ap after_first (ending-Misses l rest hs)
    ∙ plus-suc (length l) (ending rest)

ending-cr :
    (c : ℕ) (rest : Text)
    → c ≢ 13
    → ending (13 ∷ 10 ∷ c ∷ rest) ≡ after_first (ending (10 ∷ c ∷ rest))
unfolding ending eq_bytes
ending-cr c rest h = rw (==_false c 13 h) refl

-- And so is an end of line that a line follows.
ending-line :
    (c : ℕ) (rest : Text) → c ≢ 13 → ending (13 ∷ 10 ∷ c ∷ rest) ≡ plus 2 (ending (c ∷ rest))
ending-line c rest h =
    ending-cr c rest h
    ∙ ap after_first (ending-skip 10 (c ∷ rest) (λ e. omega arith))
    ∙ plus-two (ending (c ∷ rest))

line-Misses : (h : Header) → Plain h → Misses 13 (line h)
unfolding line
line-Misses h (_, a, _, b) =
    All-append (λ c. c ≢ 13) h.head _ a ((λ e. omega arith), ((λ e. omega arith), b))

block_first :
    (k : Header) (ks : List Header)
    → Plain k
    → (c : ℕ) × (s : Text) × (block k ks ≡ c ∷ s) × (c ≢ 13)
unfolding block line
block_first k [] (_, m, n, _) = first_of k.head m n
  where
    first_of :
        (x : Text)
        → Misses 13 x
        → x ≢ []
        → (c : ℕ) × (s : Text) × (x ++ 58 ∷ 32 ∷ k.value ≡ c ∷ s) × (c ≢ 13)
    first_of [] m n = absurd (n refl)
    first_of (c ∷ x) (m, ms) n = (c, _, refl, m)
block_first k (j ∷ js) (_, m, n, _) = first_of k.head m n
  where
    first_of :
        (x : Text)
        → Misses 13 x
        → x ≢ []
        → (c : ℕ) × (s : Text) × (x ++ 58 ∷ 32 ∷ k.value ++ 13 ∷ 10 ∷ block j js ≡ c ∷ s) × (c ≢ 13)
    first_of [] m n = absurd (n refl)
    first_of (c ∷ x) (m, ms) n = (c, _, refl, m)

ending-here : (body : Bytes) → ending (13 ∷ 10 ∷ 13 ∷ 10 ∷ body) ≡ some 0
unfolding ending eq_bytes
ending-here body = refl

ending-next :
    (t rest : Text) (c : ℕ) (s : Text)
    → t ≡ c ∷ s
    → c ≢ 13
    → ending (13 ∷ 10 ∷ (t ++ rest)) ≡ plus 2 (ending (t ++ rest))
ending-next t rest c s e h = rw e (ending-line c (s ++ rest) h)

ending-block :
    (h : Header) (hs : List Header) (body : Bytes)
    → Plain h
    → All Plain hs
    → ending (block h hs ++ 13 ∷ 10 ∷ 13 ∷ 10 ∷ body) ≡ some (length (block h hs))
unfolding block plus
ending-block h [] body p ps =
    ending-Misses (line h) _ (line-Misses h p)
    ∙ ap (plus (length (line h))) (ending-here body)
    ∙ ap some (omega arith)
ending-block h (k ∷ ks) body p (q, qs) =
    let (c, s, e, n) = block_first k ks q in
    let rest = 13 ∷ 10 ∷ 13 ∷ 10 ∷ body in
    ap ending (append_assoc (line h) (13 ∷ 10 ∷ block k ks) rest)
    ∙ ending-Misses (line h) (13 ∷ 10 ∷ (block k ks ++ rest)) (line-Misses h p)
    ∙ ap (plus (length (line h))) (ending-next (block k ks) rest c s e n)
    ∙ ap (λ o. plus (length (line h)) (plus 2 o)) (ending-block k ks body q qs)
    ∙ ap some (omega (arith, length-append (line h) (13 ∷ 10 ∷ block k ks)))

split2-Misses : (s : Text) → Misses 13 s → split2 13 10 s ≡ s ∷ []
unfolding split2 into_first
split2-Misses [] h = refl
split2-Misses (c ∷ []) h = refl
split2-Misses (c ∷ d ∷ s) (h, hs) =
    rw (==_false c 13 h) (ap (into_first c) (split2-Misses (d ∷ s) hs))

split2-first :
    (l rest : Text) → Misses 13 l → split2 13 10 (l ++ 13 ∷ 10 ∷ rest) ≡ l ∷ split2 13 10 rest
unfolding split2 into_first
split2-first [] rest h = refl
split2-first (c ∷ []) rest (h, hs) = rw (==_false c 13 h) refl
split2-first (c ∷ d ∷ l) rest (h, hs) =
    rw (==_false c 13 h) (ap (into_first c) (split2-first (d ∷ l) rest hs))

lines : Header → List Header → List Text
lines h [] = line h ∷ []
lines h (k ∷ ks) = line h ∷ lines k ks

split2-block :
    (h : Header) (hs : List Header)
    → Plain h
    → All Plain hs
    → split2 13 10 (block h hs) ≡ lines h hs
unfolding block lines
split2-block h [] p ps = split2-Misses (line h) (line-Misses h p)
split2-block h (k ∷ ks) p (q, qs) =
    split2-first (line h) (block k ks) (line-Misses h p)
    ∙ ap (◌∷◌ (line h)) (split2-block k ks q qs)

split_once-colon :
    (x v : Text) → Misses 58 x → split_once (codes ": ") (x ++ 58 ∷ 32 ∷ v) ≡ some (x, v)
unfolding split_once starts_with into_head
split_once-colon [] v h = refl
split_once-colon (c ∷ x) v (h, hs) =
    rw (==_false 58 c (λ e. h (sym e))) (ap (into_head c) (split_once-colon x v hs))

add_headers-lines :
    (h : Header) (hs : List Header) (r : ParsedHttpRequest)
    → Plain h
    → All Plain hs
    → add_headers (lines h hs) r ≡ ok (record r { headers = r.headers ++ h ∷ hs })
unfolding add_headers on_header lines line
add_headers-lines h [] r p ps = ap (on_header ok r) (split_once-colon h.head h.value p.0)
add_headers-lines h (k ∷ ks) r p (q, qs) =
    ap (on_header (add_headers (lines k ks)) r) (split_once-colon h.head h.value p.0)
    ∙ add_headers-lines k ks _ q qs
    ∙ ap (λ l. ok (record r { headers = l })) (append_assoc r.headers (h ∷ []) (k ∷ ks))

-- The part behind the request line, when its headers are plain and are a string.
pub header_part-block :
    (h : Header) (hs : List Header) (body : Bytes) (r : ParsedHttpRequest)
    → Plain h
    → All Plain hs
    → IsString (block h hs)
    → header_part
        (block h hs ++ 13 ∷ 10 ∷ 13 ∷ 10 ∷ body)
        r
        (ending (block h hs ++ 13 ∷ 10 ∷ 13 ∷ 10 ∷ body))
      ≡ ok (record r { headers = r.headers ++ h ∷ hs; body_start_index = length (block h hs) + 4 })
unfolding header_part ◌>>=◌
header_part-block h hs body r p ps u =
    ap (header_part left r) (ending-block h hs body p ps)
    ∙ ap (λ t. add_headers (split2 13 10 (from_utf8_lossy t)) r >>= marked)
        (take-length_append (block h hs) (13 ∷ 10 ∷ 13 ∷ 10 ∷ body))
    ∙ ap (λ t. add_headers (split2 13 10 t) r >>= marked) u
    ∙ ap (λ ls. add_headers ls r >>= marked) (split2-block h hs p ps)
    ∙ ap (λ m. m >>= marked) (add_headers-lines h hs r p ps)
  where
    left : Bytes
    left = block h hs ++ 13 ∷ 10 ∷ 13 ∷ 10 ∷ body

    marked : ParsedHttpRequest → Parse ParsedHttpRequest
    marked q = ok (record q { body_start_index = length (block h hs) + 4 })
