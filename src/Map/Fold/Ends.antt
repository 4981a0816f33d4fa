-- ===== src/Map/Fold/Ends.antt =====
-- `fold` (src/map/fold.rs) over any iterator: when it ends, and that it forgets identifiers.
use ruci.Prelude.{
  ℕ, zero, suc, ◌<◌, ◌≡◌, refl, ap, ◌∙◌, inl, inr, false, Option, some, none, arith, Bool-cases,
}
use ruci.Net.Cid.{Cid}
use ruci.Map.Ext.{ProxyBehavior, MapBox}
use ruci.Prelude.{List, [], ◌∷◌}
use ruci.Map.Fold.Vec.{next_vec, loop_one}
use ruci.Map.Fold.{
  vec_iter, DynIterator, Acc, FoldParams, FoldResult, stops, params_of, called, added, new,
  next_map, loop, result, ended, fold, id_or,
}
use ruci.Map.Fold.Rounds.{loop_end, loop_stop, loop_next}

module _ {C U D E I : Type 0} (it : DynIterator C U D E I) where
  -- From a state in `Inv`, whatever the data, the number `μ` of the state gets smaller with each map
  -- that the iterator gives, and the state stays in `Inv`.
  abbrev pub Shrinks : (I → Type 0) → (I → ℕ) → Type 0
  Shrinks Inv μ =
      (cid : Cid) (s : Acc C U D E) (maps left : I) (m : MapBox C U D E)
      → Inv maps
      → next_map it cid s maps ≡ (some m, left)
      → (μ left < μ maps) × Inv left

  abbrev pub Ends : ℕ → Cid → ProxyBehavior → I → Acc C U D E → Type 0
  Ends n cid beh maps s = (r : I × Acc C U D E) × (loop n it cid beh maps s ≡ some r)

  -- One round, when the rounds after it end.
  round-Ends :
      (n : ℕ) (cid : Cid) (beh : ProxyBehavior) (maps left : I) (s : Acc C U D E)
      (o : Option (MapBox C U D E))
      → next_map it cid s maps ≡ (o, left)
      → ((m : MapBox C U D E) → o ≡ some m → Ends n cid beh left (added cid beh m s))
      → Ends (suc n) cid beh maps s
  round-Ends n cid beh maps left s none e rest = ((left, s), loop_end n it cid beh maps left s e)
  round-Ends n cid beh maps left s (some m) e rest = elim (Bool-cases (stops t.last_r)) [
    | inl k ↦ ((left, t), loop_stop n it cid beh maps left m s e k)
    | inr k ↦ let r = rest m refl in (r.0, loop_next n it cid beh maps left m s e k ∙ r.1)
  ]
    where
      t : Acc C U D E
      t = added cid beh m s

  module _ (Inv : I → Type 0) (μ : I → ℕ) (d : Shrinks Inv μ) where
    loop-Ends :
        (n : ℕ) (cid : Cid) (beh : ProxyBehavior) (maps : I) (s : Acc C U D E)
        → Inv maps
        → μ maps < n
        → Ends n cid beh maps s
    loop-Ends zero cid beh maps s v h = absurd (omega arith)
    loop-Ends (suc n) cid beh maps s v h =
        let (o, left) = next_map it cid s maps in
        round-Ends n cid beh maps left s o refl (λ m e.
          let k = d cid s maps left m v (ap (λ o. (o, left)) e) in
          loop-Ends n cid beh left (added cid beh m s) k.1 (omega (arith, k.0)))

    -- If each map that the iterator gives lowers a number of its state, whatever the maps before it
    -- answered, the fold ends: fuel above that number is enough.
    pub fold_ends :
        (n : ℕ) (p : FoldParams C U D E I)
        → Inv p.maps
        → μ p.maps < n
        → (r : FoldResult C U D E I) × (fold n it p ≡ some r)
    unfolding fold ended
    fold_ends n p v h =
        let (r, e) = loop-Ends n p.cid p.behavior p.maps (new p) v h in
        (result p.cid r, ap (ended p.cid) e)

module _ {C U D E : Type 0} where
  -- The identifier that a map gives lasts for one map: behind a second one that gives none, which was
  -- called under it, the result has the identifier that the fold was given.
  pub fold_forgets_id :
      (p : FoldParams C U D E (List (MapBox C U D E))) (m m' : MapBox C U D E) (id : Cid)
      → p.maps ≡ m ∷ m' ∷ []
      → stops (called p.cid p.behavior m (new p)) ≡ false
      → (called p.cid p.behavior m (new p)).new_id ≡ some id
      → (m'.maps id p.behavior (params_of (added p.cid p.behavior m (new p)))).new_id ≡ none
      → (r : FoldResult C U D E (List (MapBox C U D E))) × (fold 3 vec_iter p ≡ some r)
        × (r.id ≡ p.cid)
  unfolding fold ended result added called id_or
  fold_forgets_id p m m' id e go given silent = (
    result p.cid ([], t),
    ap (λ ms. ended p.cid (loop 3 vec_iter p.cid p.behavior ms (new p))) e ∙ ap (ended p.cid) ran,
    ap (id_or p.cid)
        (ap (λ i. (m'.maps (id_or p.cid i) p.behavior (params_of s)).new_id) given ∙ silent),
  )
    where
      s : Acc C U D E
      s = added p.cid p.behavior m (new p)

      t : Acc C U D E
      t = added p.cid p.behavior m' s

      ran : loop 3 vec_iter p.cid p.behavior (m ∷ m' ∷ []) (new p) ≡ some ([], t)
      ran =
          loop_next 2 vec_iter p.cid p.behavior (m ∷ m' ∷ []) (m' ∷ []) m (new p)
            (next_vec p.cid m (m' ∷ []) (new p)) go
          ∙ loop_one 0 p.cid p.behavior m' s
