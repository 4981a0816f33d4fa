-- ===== src/Map/Listen/Quiet.antt =====
-- Folds (src/map/fold.rs) whose maps give no identifiers of their own.
use ruci.Prelude.{
  [], ◌∷◌, All, ℕ, zero, suc, ◌≡◌, ap, Bool, true, false, Option, some, none, if◌then◌else◌,
}
use ruci.Net.Cid.{Cid}
use ruci.Map.Ext.{ProxyBehavior, MapParams, MapBox}
use ruci.Map.Fold.{
  vec_iter, next_of, DynIterator, Acc, FoldParams, stops, called, added, new, next_map, round, loop,
  result, ended, fold, id_or,
}
use ruci.Map.Listen.Counts.{Holds}

module _ {C U D E : Type 0} where
  abbrev pub IsSilent : MapBox C U D E → Type 0
  IsSilent m =
      (id : Cid) (beh : ProxyBehavior) (q : MapParams C U D) → (m.maps id beh q).new_id ≡ none

  module _ {I : Type 0} (it : DynIterator C U D E I) (Inv : I → Type 0) where
    -- From a state in `Inv` the iterator gives silent maps only, and stays in `Inv`.
    abbrev pub Quiet : Type 0
    Quiet =
        (cid : Cid) (s : Acc C U D E) (maps : I)
        → Inv maps
        → Holds IsSilent (next_map it cid s maps).0 × Inv (next_map it cid s maps).1

    abbrev Ok : I × Acc C U D E → Type 0
    Ok r = Inv r.0 × (r.1.last_r.new_id ≡ none)

    round_quiet :
        (cid : Cid) (beh : ProxyBehavior) (s : Acc C U D E) (o : Option (MapBox C U D E)) (left : I)
        (f : I → Acc C U D E → Option (I × Acc C U D E))
        → Holds IsSilent o
        → Inv left
        → s.last_r.new_id ≡ none
        → ((t : Acc C U D E) → t.last_r.new_id ≡ none → Holds Ok (f left t))
        → Holds Ok (round cid beh s f (o, left))
    unfolding round
    round_quiet cid beh s none left f m v e h = (v, e)
    round_quiet cid beh s (some adder) left f m v e h =
        by_stop (stops (added cid beh adder s).last_r) (unfold added called in m _ beh _)
      where
        by_stop :
            (b : Bool)
            → (added cid beh adder s).last_r.new_id ≡ none
            → Holds Ok
                (if b then some (left, added cid beh adder s) else f left (added cid beh adder s))
        by_stop true k = (v, k)
        by_stop false k = h (added cid beh adder s) k

    loop_quiet :
        Quiet
        → (n : ℕ) (cid : Cid) (beh : ProxyBehavior) (maps : I) (s : Acc C U D E) → Inv maps
        → s.last_r.new_id ≡ none
        → Holds Ok (loop n it cid beh maps s)
    unfolding loop
    loop_quiet q zero cid beh maps s v e = tt
    loop_quiet q (suc n) cid beh maps s v e =
        let left = (next_map it cid s maps).1 in
        round_quiet cid beh s (next_map it cid s maps).0 left (loop n it cid beh) (q cid s maps v).0
          (q cid s maps v).1 e (λ t k. loop_quiet q n cid beh left t (q cid s maps v).1 k)

    -- A fold that is given no identifier but its own keeps that.
    pub fold_quiet :
        Quiet
        → (n : ℕ) (p : FoldParams C U D E I) → Inv p.maps
        → p.initial_state.new_id ≡ none
        → Holds (λ r. Inv r.left_maps_iter × (r.id ≡ p.cid)) (fold n it p)
    unfolding fold new ended result id_or
    fold_quiet q n p v e =
        kept (loop n it p.cid p.behavior p.maps (new p))
          (loop_quiet q n p.cid p.behavior p.maps (new p) v e)
      where
        kept :
            (o : Option (I × Acc C U D E))
            → Holds Ok o
            → Holds (λ r. Inv r.left_maps_iter × (r.id ≡ p.cid)) (ended p.cid o)
        kept none h = tt
        kept (some r) h = (h.0, ap (id_or p.cid) h.1)

  -- A static list of silent maps.
  pub vec_quiet : Quiet vec_iter (All IsSilent)
  unfolding next_map vec_iter next_of
  vec_quiet cid s [] h = (tt, tt)
  vec_quiet cid s (m ∷ ms) (h, hs) = (h, hs)
