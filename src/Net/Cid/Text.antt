-- ===== src/Net/Cid/Text.antt =====
-- The text of an identifier (src/net/mod.rs: `Display` and `FromStr` of `CID`).
use ruci.Prelude.{
  ℕ, ◌<◌, ◌^◌, ◌≡◌, ◌≢◌, refl, ap, ◌∙◌, Option, some, none, List, [], ◌∷◌, ◌++◌, arith, All,
  append_assoc, length-append,
}
use ruci.Prelude.Monad.{Outcome, ok, err}
use ruci.Utf8.{Text}
use ruci.Utf8.Split.{split1, parse_u32}
use ruci.Utf8.Numbers.{
  show_number, parse_number-show_number, show_number-IsDigit, show_number-first, digits-stop,
  parse_number-digits, split1-none, split1-first, IsDigit,
}
use ruci.Net.Cid.{Cid, push_num, new, default}

-- The numbers with a dash between them.
joined : ℕ → List ℕ → Text
joined n [] = show_number n
joined n (m ∷ ns) = show_number n ++ 45 ∷ joined m ns

text_of : List ℕ → Text
text_of [] = 95 ∷ []
text_of (n ∷ ns) = joined n ns

unfoldable pub to_string : Cid → Text
unfolding text_of joined
to_string c = text_of c.id_list

-- The text that is no number.
pub data CidError : Type 0 where
  cannot_parse : Text → CidError

push_parsed : (Cid → Outcome CidError Cid) → Text → Cid → Option ℕ → Outcome CidError Cid
push_parsed rest s cid (some u) = rest (push_num cid u)
push_parsed rest s cid none = err (cannot_parse s)

push_all : List Text → Cid → Outcome CidError Cid
unfolding push_parsed
push_all [] cid = ok cid
push_all (s ∷ ss) cid = push_parsed (push_all ss) s cid (parse_u32 s)

parsed : Text → Option ℕ → Outcome CidError Cid
parsed s (some u) = ok (new u)
parsed s none = push_all (split1 45 s) default

unfoldable pub from_str : Text → Outcome CidError Cid
unfolding parsed push_all
from_str s = parsed s (parse_u32 s)

parse_u32-show_number : (n : ℕ) → n < 2 ^ 32 → parse_u32 (show_number n) ≡ some n
parse_u32-show_number n h = parse_number-show_number 0xffffffff n (omega arith) h

no_dash : (s : Text) → All IsDigit s → All (λ c. c ≢ 45) s
no_dash [] h = tt
no_dash (c ∷ s) (h, hs) = ((λ e. omega arith), no_dash s hs)

no_dash_number : (n : ℕ) → All (λ c. c ≢ 45) (show_number n)
no_dash_number n = no_dash (show_number n) (show_number-IsDigit n)

push_all-number :
    (ids : List ℕ) (n : ℕ) (ss : List Text)
    → n < 2 ^ 32
    → push_all (show_number n ∷ ss) (record { id_list = ids })
      ≡ push_all ss (record { id_list = ids ++ n ∷ [] })
unfolding push_all push_parsed push_num
push_all-number ids n ss h =
    ap (push_parsed (push_all ss) (show_number n) (record { id_list = ids }))
      (parse_u32-show_number n h)

push_all-joined :
    (ids : List ℕ) (n : ℕ) (ns : List ℕ)
    → n < 2 ^ 32
    → All (λ m. m < 2 ^ 32) ns
    → push_all (split1 45 (joined n ns)) (record { id_list = ids })
      ≡ ok (record { id_list = ids ++ n ∷ ns })
unfolding joined
push_all-joined ids n [] h hs =
    ap (λ l. push_all l (record { id_list = ids }))
      (split1-none 45 (show_number n) (no_dash_number n))
    ∙ push_all-number ids n [] h
    ∙ unfold push_all in refl
push_all-joined ids n (m ∷ ns) h (hm, hs) =
    ap (λ l. push_all l (record { id_list = ids }))
      (split1-first 45 (show_number n) (joined m ns) (no_dash_number n))
    ∙ push_all-number ids n (split1 45 (joined m ns)) h
    ∙ push_all-joined (ids ++ n ∷ []) m ns hm hs
    ∙ ap (λ l. ok (record { id_list = l })) (append_assoc ids (n ∷ []) (m ∷ ns))

not_one_number : (n m : ℕ) (ns : List ℕ) → parse_u32 (joined n (m ∷ ns)) ≡ none
unfolding joined
not_one_number n m ns =
    parse_number-digits 0xffffffff (show_number n ++ 45 ∷ joined m ns)
      (show_number-first n (45 ∷ joined m ns))
      (omega (arith, length-append (show_number n) (45 ∷ joined m ns)))
    ∙ digits-stop 0xffffffff 0 45 (show_number n) (joined m ns) (omega arith)

from_text_of :
    (ids : List ℕ)
    → ids ≢ []
    → All (λ m. m < 2 ^ 32) ids
    → from_str (text_of ids) ≡ ok (record { id_list = ids })
unfolding from_str text_of joined
from_text_of [] h hs = absurd (h refl)
from_text_of (n ∷ []) h (k, ks) =
    ap (parsed (show_number n)) (parse_u32-show_number n k) ∙ unfold parsed new in refl
from_text_of (n ∷ m ∷ ns) h (k, ks) =
    ap (parsed (joined n (m ∷ ns))) (not_one_number n m ns)
    ∙ unfold parsed in push_all-joined [] n (m ∷ ns) k ks

-- An identifier with a number is read back from its text, its numbers being 32 bits wide.
pub from_str-to_string :
    (c : Cid) → c.id_list ≢ [] → All (λ m. m < 2 ^ 32) c.id_list → from_str (to_string c) ≡ ok c
unfolding to_string
from_str-to_string c h hs = from_text_of c.id_list h hs
