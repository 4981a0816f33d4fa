-- ===== src/Map/Listen/Counts.antt =====
-- How often the tasks of src/map/fold.rs hold an identifier.
use ruci.Prelude.{
  ℕ, zero, suc, ◌+◌, ◌≡◌, ◌⊎◌, inl, inr, refl, ap, Bool, true, false, Option, some, none, List, [],
  ◌∷◌, ◌++◌, arith, eq_bytes, eq_bytes_iff, Bool-cases, All,
}
use ruci.Net.Cid.{Cid}
use ruci.Map.Listen.{Tasks, pick}

unfoldable pub last : List ℕ → ℕ
last [] = 0
last (n ∷ []) = n
last (_ ∷ m ∷ ns) = last (m ∷ ns)

pub last-concat : (ns : List ℕ) (m : ℕ) → last (ns ++ m ∷ []) ≡ m
unfolding last
last-concat [] m = refl
last-concat (n ∷ []) m = refl
last-concat (n ∷ k ∷ ns) m = last-concat (k ∷ ns) m

abbrev one_if : Bool → ℕ
one_if true = 1
one_if false = 0

unfoldable pub hit : List ℕ → Cid → ℕ
unfolding eq_bytes
hit c d = one_if (eq_bytes c d.id_list)

-- A number that is counted once or not at all: and not, for an identifier with another last number.
pub hit-cases : (c : List ℕ) (d : Cid) → (hit c d ≡ 0) ⊎ ((hit c d ≡ 1) × (c ≡ d.id_list))
unfolding hit
hit-cases c d = elim (Bool-cases (eq_bytes c d.id_list)) [
  | inl e ↦ inr (ap one_if e, (eq_bytes_iff c d.id_list).0 e)
  | inr e ↦ inl (ap one_if e)
]

unfoldable pub count : {A : Type 0} → (A → Cid) → List ℕ → List A → ℕ
count f c [] = 0
count f c (x ∷ xs) = hit c (f x) + count f c xs

-- How many of the loops, the folds and the results have the identifier.
unfoldable pub held : {C U D E I : Type 0} → List ℕ → Tasks C U D E I → ℕ
held c s =
    count (λ p. p.cid) c s.folds + count (λ r. r.id) c s.sent + count (λ l. l.cid) c s.in_iters

-- What holds of a value, if there is one.
abbrev pub Holds : {A : Type 0} → (A → Type 0) → Option A → Type 0
Holds P (some x) = P x
Holds P none = Unit

module _ {A : Type 0} where
  abbrev pub Picked : (A → Type 0) → (A → Cid) → List A → A × List A → Type 0
  Picked P f xs r =
      P (r.0) × All P (r.1) × ((c : List ℕ) → count f c xs ≡ hit c (f (r.0)) + count f c (r.1))

  pub pick-Picked :
      (P : A → Type 0) (f : A → Cid) (i : ℕ) (xs : List A)
      → All P xs
      → Holds (Picked P f xs) (pick i xs)
  unfolding pick count
  pick-Picked P f i [] h = tt
  pick-Picked P f zero (x ∷ xs) (h, hs) = (h, hs, λ c. refl)
  pick-Picked P f (suc i) (x ∷ xs) (h, hs) = deeper (pick i xs) (pick-Picked P f i xs hs)
    where
      deeper :
          (o : Option (A × List A))
          → Holds (Picked P f xs) o
          → Holds (Picked P f (x ∷ xs)) (elim o [ some (y, ys) ↦ some (y, x ∷ ys) | none ↦ none ])
      deeper none k = tt
      deeper (some (y, ys)) k = (k.0, (h, k.1), λ c. omega (arith, k.2 c))
