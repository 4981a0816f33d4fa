-- ===== src/Map/Fold/Similar.antt =====
-- Iterators that give the same maps make `fold` (src/map/fold.rs) give the same results.
use ruci.Prelude.{ℕ, zero, suc, ◌≡◌, refl, sym, ap, ◌∙◌, inl, inr, Option, some, none, Bool-cases}
use ruci.Net.Cid.{Cid}
use ruci.Map.Ext.{ProxyBehavior, MapBox}
use ruci.Map.Fold.{
  DynIterator, Acc, FoldParams, FoldResult, stops, added, new, next_map, round, loop, result, ended,
  fold,
}

module _ {C U D E : Type 0} where
  -- The result of a fold without what is left of its iterator.
  -- The result of a fold without what is left of its iterator.
  unfoldable pub settle : {I : Type 0} → FoldResult C U D E I → FoldResult C U D E (Unit {0})
  settle r = record {
    a = r.a;
    b = r.b;
    c = r.c;
    d = r.d;
    e = r.e;
    id = r.id;
    chain_tag = r.chain_tag;
    left_maps_iter = tt;
    no_timeout = r.no_timeout;
  }

  unfoldable pub settled :
      {I : Type 0} → Option (FoldResult C U D E I) → Option (FoldResult C U D E (Unit {0}))
  settled (some r) = some (settle r)
  settled none = none

  unfoldable pub with_maps : {I J : Type 0} → FoldParams C U D E I → J → FoldParams C U D E J
  with_maps p maps = record {
    cid = p.cid;
    behavior = p.behavior;
    initial_state = p.initial_state;
    maps = maps;
    chain_tag = p.chain_tag;
  }

  acc_of : {I : Type 0} → Option (I × Acc C U D E) → Option (Acc C U D E)
  acc_of (some r) = some r.1
  acc_of none = none

  settled_acc : Cid → Option (Acc C U D E) → Option (FoldResult C U D E (Unit {0}))
  unfolding settle result
  settled_acc cid (some s) = some (settle (result {I = Unit {0}} cid (tt, s)))
  settled_acc cid none = none

  settled-ended :
      {I : Type 0} (cid : Cid) (r : Option (I × Acc C U D E))
      → settled (ended cid r) ≡ settled_acc cid (acc_of r)
  unfolding acc_of settled settle ended result settled_acc
  settled-ended cid none = refl
  settled-ended cid (some r) = refl

  module _ {I J : Type 0} where
    round_similar :
        (cid : Cid) (beh : ProxyBehavior) (s : Acc C U D E) (o : Option (MapBox C U D E)) (i : I)
        (j : J) (f : I → Acc C U D E → Option (I × Acc C U D E))
        (g : J → Acc C U D E → Option (J × Acc C U D E))
        → ((t : Acc C U D E) → acc_of (f i t) ≡ acc_of (g j t))
        → acc_of (round cid beh s f (o, i)) ≡ acc_of (round cid beh s g (o, j))
    unfolding round acc_of
    round_similar cid beh s none i j f g h = refl
    round_similar cid beh s (some m) i j f g h =
        elim (Bool-cases (stops (added cid beh m s).last_r)) [
          | inl e ↦ rw e refl
          | inr e ↦ rw e (h (added cid beh m s))
        ]

  module _ {I J : Type 0} (it : DynIterator C U D E I) (jt : DynIterator C U D E J)
      (R : I → J → Type 0) where
    -- In related states both give the same map, or none, and go to related states.
    abbrev pub Similar : Type 0
    Similar =
        (cid : Cid) (s : Acc C U D E) (i : I) (j : J)
        → R i j
        → ((next_map it cid s i).0 ≡ (next_map jt cid s j).0)
          × R (next_map it cid s i).1 (next_map jt cid s j).1

    module _ (sim : Similar) where
      loop_similar :
          (n : ℕ) (cid : Cid) (beh : ProxyBehavior) (s : Acc C U D E) (i : I) (j : J)
          → R i j
          → acc_of (loop n it cid beh i s) ≡ acc_of (loop n jt cid beh j s)
      unfolding loop acc_of
      loop_similar zero cid beh s i j r = refl
      loop_similar (suc n) cid beh s i j r =
          let (o, left) = next_map it cid s i in
          let (o', left') = next_map jt cid s j in
          round_similar cid beh s o left left' (loop n it cid beh) (loop n jt cid beh)
            (λ t. loop_similar n cid beh t left left' (sim cid s i j r).1)
          ∙ ap (λ k. acc_of (round cid beh s (loop n jt cid beh) (k, left'))) (sim cid s i j r).0

      pub fold_similar :
          (n : ℕ) (p : FoldParams C U D E I) (j : J)
          → R p.maps j
          → settled (fold n it p) ≡ settled (fold n jt (with_maps p j))
      unfolding fold with_maps new
      fold_similar n p j r =
          settled-ended p.cid (loop n it p.cid p.behavior p.maps (new p))
          ∙ ap (settled_acc p.cid) (loop_similar n p.cid p.behavior (new p) p.maps j r)
          ∙ sym (settled-ended p.cid (loop n jt p.cid p.behavior j (new p)))
