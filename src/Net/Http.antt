-- ===== src/Net/Http.antt =====
-- src/net/http.rs: the first request of an HTTP/1 connection. An index or a slice beyond the bytes
-- panics; a `return` is an `err` that carries the request as it is then.
pub mod Bounds
pub mod Headers
pub mod Reads
use ruci.Prelude.{
  ℕ, zero, suc, ◌+◌, ◌-◌, Bool, true, false, not, ◌&&◌, ◌||◌, Option, some, none, List, [], ◌∷◌,
  ◌++◌, Bytes, leb, ltb, ◌==◌, if◌then◌else◌, length, take, drop, get_elem?, eq_bytes, codes,
}
use ruci.Prelude.Monad.{Outcome, ok, err, panic}
use ruci.Utf8.{Text, from_utf8_lossy}
use ruci.Utf8.Split.{split2, split_once}

pub data ParseError : Type 0 where
  too_short not_for_h2c unexpected_proxy space_index_wrong expect_connect_but_not no_slash
        early_linefeed first_line_less_than_10 str_http_not_found_in_right_place no_end_mark
        no_end_mark2 header_no_colon_or_colon_not_followed_by_space :
      ParseError

pub data Method : Type 0 where
  unspecified get put post head delete options connect : Method

pub record Header : Type 0 where
  pub head : Text
  pub value : Text

-- `parse_result` is none for `Ok(())`.
pub record ParsedHttpRequest : Type 0 where
  pub version : Text
  pub method : Method
  pub path : Text
  pub headers : List Header
  pub parse_result : Option ParseError
  pub last_checked_index : ℕ
  pub body_start_index : ℕ

abbrev pub default : ParsedHttpRequest
default = record {
  version = [];
  method = unspecified;
  path = [];
  headers = [];
  parse_result = none;
  last_checked_index = 0;
  body_start_index = 0;
}

abbrev pub max_parse_url_len : ℕ
max_parse_url_len = 3000

first_header : List Header → Text → Text
unfolding eq_bytes
first_header [] key = []
first_header (h ∷ hs) key =
    let rest = first_header hs key in if eq_bytes h.head key then h.value else rest

unfoldable pub get_first_header_by : ParsedHttpRequest → Text → Text
unfolding first_header
get_first_header_by r key = first_header r.headers key

abbrev pub Parse : Type 0 → Type 0
Parse = Outcome ParsedHttpRequest

infixl 5 ◌>>=◌
unfoldable pub ◌>>=◌ : {A B : Type 0} → Parse A → (A → Parse B) → Parse B
ok a >>= f = f a
err r >>= f = err r
panic >>= f = panic

infixl 5 ◌>>◌
abbrev pub ◌>>◌ : {B : Type 0} → Parse (Unit {0}) → Parse B → Parse B
m >> k = m >>= λ _. k

abbrev pub pure : {A : Type 0} → A → Parse A
pure = ok

-- `request.parse_result = Err(e); return request;`, if the test holds.
unfoldable pub fail_if : Bool → ParsedHttpRequest → ParseError → Parse (Unit {0})
fail_if true r e = err (record r { parse_result = some e })
fail_if false r e = ok tt

elem_or_panic : Option ℕ → Parse ℕ
elem_or_panic (some b) = ok b
elem_or_panic none = panic

-- `bs[i]` and `bs[a..b]`
unfoldable pub byte_at : Bytes → ℕ → Parse ℕ
unfolding elem_or_panic
byte_at bs i = elem_or_panic (get_elem? bs i)

unfoldable pub slice : Bytes → ℕ → ℕ → Parse Bytes
slice bs a b = if leb a b && leb b (length bs) then ok (take (b - a) (drop a bs)) else panic

unfoldable pub is_at : Bytes → ℕ → ℕ → Bytes → Parse Bool
unfolding slice eq_bytes
is_at bs a b word = do s ← slice bs a b; pure (eq_bytes s word)

-- The method, and where a space has to stand behind it: 0 for no method.
unfoldable pub word : Bytes → ℕ → Bytes → Method → Method × ℕ → Parse (Method × ℕ)
word bs b rest m other = do is ← is_at bs 1 b rest; pure (if is then (m, b) else other)

put_or_post : Bytes → Parse (Method × ℕ)
put_or_post bs = do
  is ← is_at bs 1 3 (codes "UT")
  if is then pure (put, 3) else word bs 4 (codes "OST") post (unspecified, 0)

connect_method : Bytes → Bool → Parse (Method × ℕ)
connect_method bs is_proxy = do
  m ← word bs 7 (codes "ONNECT") connect (unspecified, 0)
  fail_if ((m.1 == 7) && not is_proxy) (record default { method = connect }) unexpected_proxy
  pure m

unfoldable pub method_of : Bytes → Bool → ℕ → Parse (Method × ℕ)
unfolding put_or_post connect_method
method_of bs is_proxy b =
    if b == 71
    then word bs 3 (codes "ET") get (unspecified, 0)
    else if b == 80
    then put_or_post bs
    else if b == 72
    then word bs 4 (codes "EAD") head (unspecified, 0)
    else if b == 68
    then word bs 6 (codes "ELETE") delete (unspecified, 0)
    else if b == 79
    then word bs 7 (codes "PTIONS") options (unspecified, 0)
    else if b == 67
    then connect_method bs is_proxy
    else pure (unspecified, 0)

-- `windows(4).position(|x| x == b"\r\n\r\n")`
after_first : Option ℕ → Option ℕ
after_first (some n) = some (suc n)
after_first none = none

unfoldable pub ending : Bytes → Option ℕ
unfolding after_first eq_bytes
ending [] = none
ending (b ∷ bs) =
    let later = after_first (ending bs) in
    if eq_bytes (take 4 (b ∷ bs)) (13 ∷ 10 ∷ 13 ∷ 10 ∷ []) then some 0 else later

-- A line without ": " ends the loop over the headers, with what there is by then.
unfoldable pub on_header :
    (ParsedHttpRequest → Parse ParsedHttpRequest)
    → ParsedHttpRequest
    → Option (Text × Text)
    → Parse ParsedHttpRequest
on_header rest r (some (h, v)) =
    rest (record r { headers = r.headers ++ record { head = h; value = v } ∷ [] })
on_header rest r none =
    err (record r { parse_result = some header_no_colon_or_colon_not_followed_by_space })

unfoldable pub add_headers : List Text → ParsedHttpRequest → Parse ParsedHttpRequest
add_headers [] r = ok r
add_headers (l ∷ ls) r = on_header (add_headers ls) r (split_once (codes ": ") l)

unfoldable pub header_part : Bytes → ParsedHttpRequest → Option ℕ → Parse ParsedHttpRequest
unfolding from_utf8_lossy
header_part left_bs r (some index_of_ending) = do
  r ← add_headers (split2 13 10 (from_utf8_lossy (take index_of_ending left_bs))) r
  pure (record r { body_start_index = index_of_ending + 4 })
header_part left_bs r none = pure (record r { parse_result = some no_end_mark2 })

-- The rest, once the second space was found at `i`.
unfoldable pub request_line : Bytes → ℕ → ℕ → ParsedHttpRequest → Parse ParsedHttpRequest
unfolding from_utf8_lossy
request_line bs should_slash_index i r = do
  fail_if (ltb (length bs - i - 1) 10) r first_line_less_than_10
  path ← slice bs should_slash_index i
  let r1 = record r { path = from_utf8_lossy path }
  http ← is_at bs (i + 1) (i + 5) (codes "HTTP")
  fail_if (not http) r1 str_http_not_found_in_right_place
  version ← slice bs (i + 6) (i + 9)
  let r2 = record r1 { version = from_utf8_lossy version }
  cr ← byte_at bs (i + 9)
  lf ← byte_at bs (i + 10)
  fail_if (not (cr == 13) || not (lf == 10)) r2 no_end_mark
  left_bs ← slice bs (i + 11) (length bs)
  header_part left_bs r2 (ending left_bs)

-- What the loop does with a byte.
pub data Kind : Type 0 where
  line_end space other : Kind

abbrev kind : ℕ → Kind
kind b = if b == 13 || b == 10 then line_end else if b == 32 then space else other

unfoldable pub on_kind :
    Bytes
    → ℕ
    → ParsedHttpRequest
    → ℕ
    → (ℕ → Parse ParsedHttpRequest)
    → Kind
    → Parse ParsedHttpRequest
on_kind bs slash r i rest line_end = err (record r { parse_result = some early_linefeed })
on_kind bs slash r i rest space = request_line bs slash i r
on_kind bs slash r i rest other = rest (suc i)

-- The loop from `i` on, with `k` places to go.
unfoldable pub scan : Bytes → ℕ → ParsedHttpRequest → ℕ → ℕ → Parse ParsedHttpRequest
scan bs slash r zero i = pure (record r { last_checked_index = i })
scan bs slash r (suc k) i = byte_at bs i >>= λ b. on_kind bs slash r i (scan bs slash r k) (kind b)

is_connect : Method → Bool
is_connect connect = true
is_connect _ = false

-- What has to stand where the path begins.
unfoldable pub target_begins : Bytes → Bool → ℕ → ParsedHttpRequest → Parse (Unit {0})
unfolding is_connect
target_begins bs true slash r = if is_connect r.method then pure tt else (do
  is ← is_at bs slash (slash + 7) (codes "http://")
  fail_if (not is) r expect_connect_but_not)
target_begins bs false slash r = do b ← byte_at bs slash; fail_if (not (b == 47)) r no_slash

-- How far the loop goes.
abbrev pub scan_end : Bool → ℕ → ℕ
scan_end is_proxy n = if not is_proxy && ltb max_parse_url_len n then max_parse_url_len else n

-- The space, and what comes behind it.
unfoldable pub after_method : Bytes → Bool → Method × ℕ → Parse ParsedHttpRequest
after_method bs is_proxy (method, should_space_index) = do
  let r = record default { method = method }
  fail_if (should_space_index == 0) r space_index_wrong
  b ← byte_at bs should_space_index
  fail_if (not (b == 32)) r space_index_wrong
  let slash = should_space_index + 1
  target_begins bs is_proxy slash r
  scan bs slash r (scan_end is_proxy (length bs) - slash) slash

unfoldable pub start_line : Bytes → Bool → Parse ParsedHttpRequest
start_line bs is_proxy = do
  fail_if (ltb (length bs) 16) default too_short
  b4 ← byte_at bs 4
  fail_if (b4 == 42) default not_for_h2c
  b0 ← byte_at bs 0
  m ← method_of bs is_proxy b0
  after_method bs is_proxy m

returned : Parse ParsedHttpRequest → Option ParsedHttpRequest
returned (ok r) = some r
returned (err r) = some r
returned panic = none

-- None is a panic.
unfoldable pub parse_h1_request : Bytes → Bool → Option ParsedHttpRequest
unfolding returned
parse_h1_request bs is_proxy = returned (start_line bs is_proxy)
