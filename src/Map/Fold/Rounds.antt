-- ===== src/Map/Fold/Rounds.antt =====
-- One round of the loop of `fold` (src/map/fold.rs), over any iterator.
use ruci.Prelude.{ℕ, suc, ◌≡◌, refl, ap, ◌∙◌, true, false, some, none}
use ruci.Net.Cid.{Cid}
use ruci.Map.Ext.{ProxyBehavior, MapBox}
use ruci.Map.Fold.{DynIterator, Acc, stops, added, next_map, round, loop}

module _ {C U D E I : Type 0} (n : ℕ) (it : DynIterator C U D E I) (cid : Cid) (beh : ProxyBehavior)
    (maps left : I) where
  pub loop_end :
      (s : Acc C U D E)
      → next_map it cid s maps ≡ (none, left)
      → loop (suc n) it cid beh maps s ≡ some (left, s)
  unfolding loop round
  loop_end s e = ap (round cid beh s (loop n it cid beh)) e

  module _ (m : MapBox C U D E) (s : Acc C U D E)
      (e : next_map it cid s maps ≡ (some m, left)) where
    pub loop_stop :
        stops (added cid beh m s).last_r ≡ true
        → loop (suc n) it cid beh maps s ≡ some (left, added cid beh m s)
    unfolding loop round
    loop_stop h = ap (round cid beh s (loop n it cid beh)) e ∙ rw h refl

    pub loop_next :
        stops (added cid beh m s).last_r ≡ false
        → loop (suc n) it cid beh maps s ≡ loop n it cid beh left (added cid beh m s)
    unfolding loop round
    loop_next h = ap (round cid beh s (loop n it cid beh)) e ∙ rw h refl
