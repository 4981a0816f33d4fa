-- ===== src/Chain/Dynamic/Static.antt =====
-- The finite dynamic chain (rucimp/src/modes/chain/config/dynamic.rs) beside the static one.
use ruci.Prelude.{
  ℕ, zero, suc, ◌≡◌, refl, ap, sym, ◌∙◌, some, none, List, [], ◌∷◌, arith, length, drop, get_elem?,
  ℤ, pos, negsuc, rank, Bool-cases, leb, leb→le, inl, inr, drop_all, subst, ◌≤◌,
}
use ruci.Net.Cid.{Cid}
use ruci.Map.Ext.{MapBox}
use ruci.Map.Fold.{Acc, FoldParams, fold, next_map, dynamic, vec_iter, next_of}
use ruci.Map.Fold.Similar.{Similar, settled, with_maps, fold_similar}
use ruci.Chain.Dynamic.{Finite, NextSelector, at_index, next_finite, finite}

-- From -1 to 0, and on by one.
abbrev pub IsSuccessor : {D : Type 0} → NextSelector D → Type 0
IsSuccessor sel = (j : ℤ) (vs : _) → sel j vs ≡ some (pos (rank j))

module _ {C U D E : Type 0} where
  abbrev Follows : Finite C U D E → List (MapBox C U D E) → Type 0
  Follows f ms = IsSuccessor f.selector × (ms ≡ drop (rank f.current_index) f.mb_vec)

  next_dropped :
      (i : ℕ) (xs : List (MapBox C U D E)) (cid : Cid) (s : Acc C U D E)
      → next_map vec_iter cid s (drop i xs) ≡ (get_elem? xs i, drop (suc i) xs)
  unfolding next_map vec_iter next_of
  next_dropped zero [] cid s = refl
  next_dropped (suc i) [] cid s = refl
  next_dropped zero (x ∷ xs) cid s = refl
  next_dropped (suc i) (x ∷ xs) cid s = next_dropped i xs cid s

  get_elem?-none : (i : ℕ) (xs : List (MapBox C U D E)) → length xs ≤ i → get_elem? xs i ≡ none
  get_elem?-none i [] h = refl
  get_elem?-none zero (x ∷ xs) h = absurd (omega arith)
  get_elem?-none (suc i) (x ∷ xs) h = get_elem?-none i xs (omega arith)

  at_follows :
      (f : Finite C U D E) (i : ℕ)
      → rank f.current_index ≡ i
      → ((at_index f (some (pos i))).0 ≡ get_elem? f.mb_vec i)
        × (drop (suc i) f.mb_vec
            ≡ drop
                (rank (at_index f (some (pos i))).1.current_index)
                (at_index f (some (pos i))).1.mb_vec)
        × ((at_index f (some (pos i))).1.selector ≡ f.selector)
  unfolding at_index
  at_follows f i e = elim (Bool-cases (leb (length f.mb_vec) i)) [
    | inl k ↦
        let h = leb→le _ _ k in
        (
          rw k (sym (get_elem?-none i f.mb_vec h)),
          rw (k, e) (drop_all (suc i) f.mb_vec (omega arith) ∙ sym (drop_all i f.mb_vec h)),
          rw k refl,
        )
    | inr k ↦ (rw k refl, rw k refl, rw k refl)
  ]

  follows : Similar finite (vec_iter {C = C} {U = U} {D = D} {E = E}) Follows
  follows cid s f ms r = (
    ap (λ k. k.0) asked ∙ here.0 ∙ sym (ap (λ k. k.0) dropped),
    (
      subst IsSuccessor (sym (ap (λ k. k.1.selector) asked ∙ here.2)) r.0,
      ap (λ k. k.1) dropped
          ∙ here.1
          ∙ ap (λ k. drop (rank k.1.current_index) k.1.mb_vec) (sym asked),
    ),
  )
    where
      i : ℕ
      i = rank f.current_index

      here :
          ((at_index f (some (pos i))).0 ≡ get_elem? f.mb_vec i)
          × (drop (suc i) f.mb_vec
              ≡ drop
                  (rank (at_index f (some (pos i))).1.current_index)
                  (at_index f (some (pos i))).1.mb_vec)
          × ((at_index f (some (pos i))).1.selector ≡ f.selector)
      here = at_follows f i refl

      asked : next_map finite cid s f ≡ at_index f (some (pos i))
      asked = unfold next_map finite dynamic next_finite in ap (at_index f) (r.0 f.current_index _)

      dropped : next_map vec_iter cid s ms ≡ (get_elem? f.mb_vec i, drop (suc i) f.mb_vec)
      dropped = ap (next_map vec_iter cid s) r.1 ∙ next_dropped i f.mb_vec cid s

  -- A static chain is a finite dynamic one whose selector goes to the next map: from its start both
  -- folds give the same result, up to what is left of the iterator, or end neither with this fuel.
  pub fold-finite_vec :
      (n : ℕ) (p : FoldParams C U D E (Finite C U D E))
      → IsSuccessor p.maps.selector
      → p.maps.current_index ≡ negsuc 0
      → settled (fold n finite p) ≡ settled (fold n vec_iter (with_maps p p.maps.mb_vec))
  fold-finite_vec n p succ start =
      fold_similar finite vec_iter Follows follows n p p.maps.mb_vec (succ, rw start refl)
