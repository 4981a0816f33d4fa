-- ===== src/Map/Listen/Apart.antt =====
-- From the start of a listener (src/map/fold.rs) on, whatever its tasks do, their identifiers differ.
use ruci.Prelude.{
  ℕ, suc, ◌+◌, ◌^◌, ◌≤◌, ◌<◌, ◌≡◌, refl, ap, inl, inr, Option, some, none, List, [], ◌∷◌, arith,
  length, All, subst,
}
use ruci.Utf8.{Text}
use ruci.Prelude.Monad.{Outcome, ok, err, panic}
use ruci.Net.Cid.{clone_push, recorded, Cid}
use ruci.Map.{Stream, MapResult, generator, conn, addr_conn}
use ruci.Map.Ext.{decode, MapBox, get_chain_tag}
use ruci.Map.Fold.{DynIterator, FoldParams, FoldResult, fold}
use ruci.Map.Listen.{
  InIter, Tasks, Event, recv, closed, folded, pick, spawn_fold, accept, accept_as, deal, finish,
  on_recv, on_closed, on_end, on_folded, step, run, start_from, checked, from_first,
  fold_from_start,
}
use ruci.Map.Listen.Counts.{last, hit-cases, count, held, Holds}
use ruci.Map.Listen.Quiet.{Quiet, IsSilent}
use ruci.Map.Listen.Ids.{Apart, Anonymous, step-Apart, hit_pushed}

module _ {C U D E I : Type 0} (fuel : ℕ) (it : DynIterator C U D E I) where
  deal-made :
      (r : FoldResult C U D E I) (c : Stream C U) (s : Tasks C U D E I) → (deal r c s).made ≡ s.made
  unfolding deal
  deal-made r generator s = refl
  deal-made r Stream.none s = refl
  deal-made r (conn _) s = refl
  deal-made r (addr_conn _) s = refl

  accept-made :
      (l : InIter I) (r : MapResult C U D E) (s : Tasks C U D E I) (o : Option Cid)
      → (accept_as l r s o).made ≤ suc s.made
  unfolding accept_as
  accept-made l r s (some id) = omega arith
  accept-made l r s none = omega arith

  folded-made :
      (s : Tasks C U D E I) (o : Option (FoldParams C U D E I × List (FoldParams C U D E I)))
      → (on_folded fuel it s o).made ≡ s.made
  unfolding on_folded
  folded-made s none = refl
  folded-made s (some (p, ps)) = at_end (fold fuel it p)
    where
      at_end : (o : Option (FoldResult C U D E I)) → (on_end s ps o).made ≡ s.made
      at_end none = unfold on_end in refl
      at_end (some r) = unfold on_end finish in deal-made r r.c (record s { folds = ps })

  -- The counter goes up by one at most.
  step-made : (e : Event C U D E) (s : Tasks C U D E I) → (step fuel it e s).made ≤ suc s.made
  unfolding step
  step-made (recv i r) s = received (pick i s.in_iters)
    where
      received : (o : Option (InIter I × List (InIter I))) → (on_recv r s o).made ≤ suc s.made
      received none = unfold on_recv in omega arith
      received (some (l, ls)) = unfold on_recv accept in accept-made l r s r.new_id
  step-made (closed i) s = unheard (pick i s.in_iters)
    where
      unheard : (o : Option (InIter I × List (InIter I))) → (on_closed s o).made ≤ suc s.made
      unheard none = unfold on_closed in omega arith
      unheard (some (l, ls)) = unfold on_closed in omega arith
  step-made (folded i) s = omega (arith, folded-made s (pick i s.folds))

  module _ (Inv : I → Type 0) (quiet : Quiet it Inv) where
    pub run-Apart :
        (es : List (Event C U D E)) (s : Tasks C U D E I)
        → All Anonymous es
        → s.made + length es < 2 ^ 32
        → Apart Inv s
        → Apart Inv (run fuel it es s)
    unfolding run
    run-Apart [] s n b a = a
    run-Apart (e ∷ es) s (n, ns) b a =
        run-Apart es (step fuel it e s) ns (omega (arith, step-made e s))
          (step-Apart Inv fuel it quiet e s n (omega arith) a)

module _ {C U D E I : Type 0} (Inv : I → Type 0) where
  -- What holds of the tasks, if the first map gave no error.
  abbrev Started : (Tasks C U D E I → Type 0) → Outcome E (Tasks C U D E I) → Type 0
  Started P (ok s) = P s
  Started P (err _) = Unit
  Started P panic = Unit

  -- What the start leaves, at a counter of `made`.
  abbrev From : ℕ → Tasks C U D E I → Type 0
  From made s = Apart Inv s × (s.made ≤ suc made)

  one-Apart :
      (in_cid : Cid) (made : ℕ) (tag : Text) (left : I) (r : MapResult C U D E)
      → suc made < 2 ^ 32
      → Inv left
      → r.new_id ≡ none
      → Apart Inv (record {
        made = suc made;
        in_iters = [];
        folds = spawn_fold (clone_push in_cid (recorded made)) tag left r ∷ [];
        sent = [];
      })
  unfolding spawn_fold held count
  one-Apart in_cid made tag left r b v e = record {
    folds_quiet = ((v, e), tt);
    iters_quiet = tt;
    fresh = λ c k. omega (arith, hit_pushed c in_cid made b k);
    once = λ c. elim (hit-cases c (clone_push in_cid (recorded made))) [
      | inl z ↦ omega (arith, z)
      | inr (z, _) ↦ omega (arith, z)
    ];
  }

  start-Apart :
      (in_cid : Cid) (made : ℕ) (tag : Text) (left : I) (r : MapResult C U D E) (c : Stream C U)
      → last in_cid.id_list ≤ made
      → suc made < 2 ^ 32
      → Inv left
      → r.new_id ≡ none
      → Apart Inv (start_from in_cid made tag left r c)
  unfolding start_from spawn_fold held count
  start-Apart in_cid made tag left r generator h b v e = record {
    folds_quiet = tt;
    iters_quiet = (v, tt);
    fresh = λ c k. elim (hit-cases c in_cid) [
      | inl z ↦ omega (arith, z)
      | inr (_, z) ↦ absurd (omega (arith, ap last z))
    ];
    once =
        λ c. elim (hit-cases c in_cid) [ inl z ↦ omega (arith, z) | inr (z, _) ↦ omega (arith, z) ];
  }
  start-Apart in_cid made tag left r Stream.none h b v e = one-Apart in_cid made tag left r b v e
  start-Apart in_cid made tag left r (conn _) h b v e = one-Apart in_cid made tag left r b v e
  start-Apart in_cid made tag left r (addr_conn _) h b v e = one-Apart in_cid made tag left r b v e

  start-made :
      (in_cid : Cid) (made : ℕ) (tag : Text) (left : I) (r : MapResult C U D E) (c : Stream C U)
      → (start_from in_cid made tag left r c).made ≤ suc made
  unfolding start_from
  start-made in_cid made tag left r generator = omega arith
  start-made in_cid made tag left r Stream.none = omega arith
  start-made in_cid made tag left r (conn _) = omega arith
  start-made in_cid made tag left r (addr_conn _) = omega arith

  checked-Apart :
      (in_cid : Cid) (made : ℕ) (tag : Text) (left : I) (r : MapResult C U D E) (o : Option E)
      → last in_cid.id_list ≤ made
      → suc made < 2 ^ 32
      → Inv left
      → r.new_id ≡ none
      → Started (From made) (checked in_cid made tag left r o)
  unfolding checked
  checked-Apart in_cid made tag left r (some x) h b v e = tt
  checked-Apart in_cid made tag left r none h b v e =
      (start-Apart in_cid made tag left r r.c h b v e, start-made in_cid made tag left r r.c)

  module _ (fuel : ℕ) (it : DynIterator C U D E I) (quiet : Quiet it Inv) where
    begun :
        (in_cid : Cid) (made : ℕ) (inmaps : I)
        → last in_cid.id_list ≤ made
        → suc made < 2 ^ 32
        → Holds IsSilent (it.next_with_data inmaps in_cid none).0
        → Inv (it.next_with_data inmaps in_cid none).1
        → Started (From made) (fold_from_start it in_cid made inmaps)
    unfolding fold_from_start from_first
    begun in_cid made inmaps h b m v = with_first (it.next_with_data inmaps in_cid none).0 m
      where
        left : I
        left = (it.next_with_data inmaps in_cid none).1

        with_first :
            (o : Option (MapBox C U D E))
            → Holds IsSilent o
            → Started (From made) (from_first in_cid made left o)
        with_first none k = tt
        with_first (some first) k =
            checked-Apart in_cid made (get_chain_tag first) left _ _ h b v (k in_cid decode _)

    -- A listener whose maps and streams bring no identifiers of their own gives each of its connections
    -- another one: whatever its tasks do next, in whatever order, no two of its loops, folds and results
    -- hold the same, up to 2 ^ 32 events. The counter begins at the last number of the listener's own
    -- identifier or above.
    pub held-run :
        (in_cid : Cid) (made : ℕ) (inmaps : I) (s : Tasks C U D E I) (es : List (Event C U D E))
        → fold_from_start it in_cid made inmaps ≡ ok s
        → last in_cid.id_list ≤ made
        → suc made + length es < 2 ^ 32
        → Holds IsSilent (it.next_with_data inmaps in_cid none).0
        → Inv (it.next_with_data inmaps in_cid none).1
        → All Anonymous es
        → (c : List ℕ) → held c (run fuel it es s) ≤ 1
    held-run in_cid made inmaps s es e h b m v n =
        let (a, k) = subst (Started (From made)) e (begun in_cid made inmaps h (omega arith) m v) in
        (run-Apart fuel it Inv quiet es s n (omega arith) a).once
