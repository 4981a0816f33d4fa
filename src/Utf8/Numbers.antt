-- ===== src/Utf8/Numbers.antt =====
-- Numbers as decimal text, and that `parse` reads them back; splitting at a character that is not
-- there, and where the first one stands.
use ruci.Prelude.{
  ℕ, zero, suc, ◌+◌, ◌-◌, ◌*◌, ◌/◌, ◌%◌, ◌≤◌, ◌<◌, ◌≡◌, ◌≢◌, refl, ◌∙◌, inl, inr, Bool, true, false,
  ◌&&◌, Option, some, none, [], ◌∷◌, ◌++◌, leb, ltb, ltb→lt, if◌then◌else◌, length, length-append,
  append-nil, subst, ◌^◌, arith, All, Bool-cases, All-append,
}
use ruci.Utf8.{Text, within}
use ruci.Utf8.Split.{digits, parse_number, split1, into_first}

unfoldable pub first_of : Text → ℕ
first_of [] = 0
first_of (c ∷ s) = c

abbrev pub IsDigit : ℕ → Type 0
IsDigit c = (48 ≤ c) × (c ≤ 57)

-- The lowest decimal digits of `n`, at most `fuel` and one.
show_digits : ℕ → ℕ → Text
show_digits zero n = (48 + n % 10) ∷ []
show_digits (suc fuel) n =
    let before = show_digits fuel (n / 10) in
    if ltb n 10 then (48 + n) ∷ [] else before ++ (48 + n % 10) ∷ []

-- `Display` of an unsigned number, of ten digits at most.
unfoldable pub show_number : ℕ → Text
unfolding show_digits
show_number n = show_digits 9 n

digit_step : ℕ → ℕ → Option ℕ → Option ℕ
digit_step max c (some acc) =
    if within 48 57 c && leb (acc * 10 + (c - 48)) max then some (acc * 10 + (c - 48)) else none
digit_step max c none = none

digits-concat :
    (max acc c : ℕ) (s : Text) → digits max acc (s ++ c ∷ []) ≡ digit_step max c (digits max acc s)
unfolding digits digit_step
digits-concat max acc c [] = refl
digits-concat max acc c (d ∷ s) =
    by_test (within 48 57 d && leb (acc * 10 + (d - 48)) max)
      (digits-concat max (acc * 10 + (d - 48)) c s)
  where
    by_test :
        (t : Bool)
        → digits max (acc * 10 + (d - 48)) (s ++ c ∷ [])
          ≡ digit_step max c (digits max (acc * 10 + (d - 48)) s)
        → (if t then digits max (acc * 10 + (d - 48)) (s ++ c ∷ []) else none)
          ≡ digit_step max c (if t then digits max (acc * 10 + (d - 48)) s else none)
    by_test true e = e
    by_test false e = refl

power : ℕ → ℕ
power zero = 10
power (suc k) = power k * 10

digits-show_digits :
    (max fuel n : ℕ) → n < power fuel → n ≤ max → digits max 0 (show_digits fuel n) ≡ some n
unfolding power show_digits
digits-show_digits max zero n h k = unfold digits in ground arith
digits-show_digits max (suc fuel) n h k = elim (Bool-cases (ltb n 10)) [
  | inl e ↦ rw e (unfold digits in ground arith)
  | inr e ↦
      rw
        (
          e,
          digits-concat max 0 (48 + n % 10) (show_digits fuel (n / 10)),
          digits-show_digits max fuel (n / 10) (omega arith) (omega arith),
        )
        (unfold digit_step in ground arith)
]

show_digits-IsDigit : (fuel n : ℕ) → All IsDigit (show_digits fuel n)
unfolding show_digits
show_digits-IsDigit zero n = ((omega arith, omega arith), tt)
show_digits-IsDigit (suc fuel) n = elim (Bool-cases (ltb n 10)) [
  | inl e ↦ rw e ((omega (arith, ltb→lt n 10 e), omega (arith, ltb→lt n 10 e)), tt)
  | inr e ↦ rw e (
      All-append IsDigit (show_digits fuel (n / 10)) _ (show_digits-IsDigit fuel (n / 10))
        ((omega arith, omega arith), tt))
]

show_digits-length : (fuel n : ℕ) → 1 ≤ length (show_digits fuel n)
unfolding show_digits
show_digits-length zero n = omega arith
show_digits-length (suc fuel) n = elim (Bool-cases (ltb n 10)) [
  | inl e ↦ rw e (omega arith)
  | inr e ↦ rw e (omega (arith, length-append (show_digits fuel (n / 10)) ((48 + n % 10) ∷ [])))
]

-- Behind a digit there is no sign to skip.
pub parse_number-digits :
    (max : ℕ) (s : Text) → IsDigit (first_of s) → 1 ≤ length s → parse_number max s ≡ digits max 0 s
unfolding parse_number first_of
parse_number-digits max [] h l = absurd (omega arith)
parse_number-digits max (c ∷ []) h l = refl
parse_number-digits max (c ∷ d ∷ s) h l = ground arith

pub show_number-IsDigit : (n : ℕ) → All IsDigit (show_number n)
unfolding show_number
show_number-IsDigit n = show_digits-IsDigit 9 n

pub show_number-first : (n : ℕ) (rest : Text) → IsDigit (first_of (show_number n ++ rest))
unfolding show_number
show_number-first n rest =
    first_digit (show_digits 9 n) (show_digits-length 9 n) (show_digits-IsDigit 9 n)
  where
    first_digit : (s : Text) → 1 ≤ length s → All IsDigit s → IsDigit (first_of (s ++ rest))
    first_digit [] l h = absurd (omega arith)
    first_digit (c ∷ s) l h = unfold first_of in h.0

pub parse_number-show_number :
    (max n : ℕ) → n ≤ max → n < 2 ^ 32 → parse_number max (show_number n) ≡ some n
unfolding show_number
parse_number-show_number max n h k =
    parse_number-digits max (show_digits 9 n)
      (subst (λ s. IsDigit (first_of s)) (append-nil (show_digits 9 n)) (show_number-first n []))
      (show_digits-length 9 n)
    ∙ digits-show_digits max 9 n (unfold power in omega arith) h

-- A character that is no digit.
pub digits-stop : (max acc c : ℕ) (s rest : Text) → c < 48 → digits max acc (s ++ c ∷ rest) ≡ none
unfolding digits
digits-stop max acc c [] rest h = ground arith
digits-stop max acc c (d ∷ s) rest h =
    by_test (within 48 57 d && leb (acc * 10 + (d - 48)) max)
      (digits-stop max (acc * 10 + (d - 48)) c s rest h)
  where
    by_test :
        (t : Bool)
        → digits max (acc * 10 + (d - 48)) (s ++ c ∷ rest) ≡ none
        → (if t then digits max (acc * 10 + (d - 48)) (s ++ c ∷ rest) else none) ≡ none
    by_test true e = e
    by_test false e = refl

pub split1-none : (p : ℕ) (s : Text) → All (λ c. c ≢ p) s → split1 p s ≡ s ∷ []
unfolding split1 into_first
split1-none p [] h = refl
split1-none p (c ∷ s) (h, hs) = ground (arith, split1-none p s hs)

pub split1-first :
    (p : ℕ) (s rest : Text) → All (λ c. c ≢ p) s → split1 p (s ++ p ∷ rest) ≡ s ∷ split1 p rest
unfolding split1 into_first
split1-first p [] rest h = ground arith
split1-first p (c ∷ s) rest (h, hs) = ground (arith, split1-first p s rest hs)
