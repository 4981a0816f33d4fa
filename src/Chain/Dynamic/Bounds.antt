-- ===== src/Chain/Dynamic/Bounds.antt =====
-- The finite dynamic chain (rucimp/src/modes/chain/config/dynamic.rs) stays within its maps, and ends
-- when its selector goes up.
use ruci.Prelude.{
  ℕ, zero, suc, ◌-◌, ◌<◌, ◌≡◌, refl, ap, sym, ◌∙◌, Option, some, none, List, [], ◌∷◌, arith, length,
  get_elem?, ℤ, pos, negsuc, rank, Bool-cases, leb, inl, inr, leb→le, leb_false→lt, ◌≤◌, ◌⊎◌, subst,
}
use ruci.Net.Cid.{Cid}
use ruci.Map.Ext.{MapBox}
use ruci.Map.Fold.{FoldParams, FoldResult, Ovod, fold, next_map, dynamic}
use ruci.Map.Fold.Ends.{fold_ends, Shrinks}
use ruci.Chain.Dynamic.{Finite, NextSelector, at_index, next_finite, finite}

get_elem?-some :
    {A : Type 0} (xs : List A) (i : ℕ) → i < length xs → (x : A) × (get_elem? xs i ≡ some x)
get_elem?-some [] i h = absurd (omega arith)
get_elem?-some (x ∷ xs) zero h = (x, refl)
get_elem?-some (x ∷ xs) (suc i) h = get_elem?-some xs i (omega arith)

-- Every index that the selector chooses is above the one it was given.
abbrev pub GoesUp : {D : Type 0} → NextSelector D → Type 0
GoesUp sel = (j : ℤ) (vs : _) (i : ℕ) → sel j vs ≡ some (pos i) → rank j < suc i

-- The chain has no map for what the selector answered.
abbrev pub OutOfRange : ℕ → Option ℤ → Type 0
OutOfRange n none = Unit
OutOfRange n (some (negsuc _)) = Unit
OutOfRange n (some (pos iu)) = n ≤ iu

module _ {C U D E : Type 0} where
  -- The state `f` gives its map at `iu`, which the selector chose, and moves there.
  abbrev pub Moves : Finite C U D E → Option ℤ → Option (MapBox C U D E) × Finite C U D E → Type 0
  Moves f o r =
      (iu : ℕ) × (m : MapBox C U D E) × (o ≡ some (pos iu))
      × (iu < length f.mb_vec)
      × (get_elem? f.mb_vec iu ≡ some m)
      × (r ≡ (some m, record f { current_index = pos iu }))

  at_index-cases :
      (f : Finite C U D E) (o : Option ℤ)
      → (OutOfRange (length f.mb_vec) o × (at_index f o ≡ (none, f))) ⊎ Moves f o (at_index f o)
  unfolding at_index
  at_index-cases f none = inl (tt, refl)
  at_index-cases f (some (negsuc _)) = inl (tt, refl)
  at_index-cases f (some (pos iu)) = elim (Bool-cases (leb (length f.mb_vec) iu)) [
    | inl e ↦ inl (leb→le _ _ e, rw e refl)
    | inr e ↦
        let h = leb_false→lt _ _ e in
        let (m, there) = get_elem?-some f.mb_vec iu h in
        inr (iu, m, refl, h, there, rw (e, there) refl)
  ]

  -- A finite dynamic chain never leaves its maps: its iterator either gives the map at the index that
  -- the selector chose, which is one of them, and moves there; or the choice is none, below 0 or beyond
  -- the last map, and then it gives none and stays where it is.
  pub next_finite_in_range :
      (f : Finite C U D E) (cid : Cid) (vs : Ovod D)
      → (OutOfRange (length f.mb_vec) (f.selector f.current_index vs)
          × (next_finite f cid vs ≡ (none, f)))
        ⊎ Moves f (f.selector f.current_index vs) (next_finite f cid vs)
  unfolding next_finite
  next_finite_in_range f cid vs = at_index-cases f (f.selector f.current_index vs)

  abbrev left_over : Finite C U D E → ℕ
  left_over f = length f.mb_vec - rank f.current_index

  steps_up : Shrinks (finite {C = C} {U = U} {D = D} {E = E}) (λ f. GoesUp f.selector) left_over
  unfolding finite dynamic next_map
  steps_up cid s f left m up e = elim (next_finite_in_range f cid (some s.calculated_output_vec)) [
    | inl (_, idle) ↦ absurd (ground (arith, idle, e))
    | inr (iu, k, chosen, inside, _, r) ↦
        subst (λ g. (left_over g < left_over f) × GoesUp g.selector) (ap (λ k. k.1) (sym r ∙ e))
          (omega (arith, up f.current_index _ iu chosen), up)
  ]

  -- A finite dynamic chain whose selector only goes up ends its fold, since it takes no map twice: one
  -- more than its number of maps is enough fuel.
  pub fold-finite_ends :
      (n : ℕ) (p : FoldParams C U D E (Finite C U D E))
      → GoesUp p.maps.selector
      → length p.maps.mb_vec < n
      → (r : FoldResult C U D E (Finite C U D E)) × (fold n finite p ≡ some r)
  fold-finite_ends n p up h =
      fold_ends finite (λ f. GoesUp f.selector) left_over steps_up n p up (omega arith)
