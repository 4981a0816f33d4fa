-- ===== src/Map/Listen/Ids.antt =====
-- The identifiers that the tasks of src/map/fold.rs hold are all different.
use ruci.Prelude.{
  ℕ, suc, ◌+◌, ◌%◌, ◌^◌, ◌≤◌, ◌<◌, ◌≡◌, ap, sym, inl, inr, Option, some, none, List, ◌∷◌, arith,
  All, subst,
}
use ruci.Net.Cid.{clone_push, recorded, new_id_num, Cid, push_num}
use ruci.Map.{Stream, MapResult, generator, conn, addr_conn}
use ruci.Map.Fold.{DynIterator, FoldParams, FoldResult, fold}
use ruci.Map.Listen.{
  InIter, Tasks, Event, recv, closed, folded, pick, spawn_fold, accept, accept_as, deal, finish,
  on_recv, on_closed, on_end, on_folded, step,
}
use ruci.Map.Listen.Counts.{
  last, last-concat, hit, hit-cases, count, held, Holds, Picked, pick-Picked,
}
use ruci.Map.Listen.Quiet.{Quiet, fold_quiet}

-- An event whose stream brings no identifier.
abbrev pub Anonymous : {C U D E : Type 0} → Event C U D E → Type 0
Anonymous (recv _ r) = r.new_id ≡ none
Anonymous (closed _) = Unit
Anonymous (folded _) = Unit

pub hit_pushed :
    (c : List ℕ) (d : Cid) (made : ℕ)
    → suc made < 2 ^ 32
    → suc made < last c
    → hit c (clone_push d (recorded made)) ≡ 0
unfolding clone_push new_id_num push_num
hit_pushed c d made b h = elim (hit-cases c (clone_push d (recorded made))) [
  | inl e ↦ e
  | inr (_, e) ↦ absurd (omega (arith, ap last e, last-concat d.id_list (suc made % 2 ^ 32)))
]

module _ {C U D E I : Type 0} (Inv : I → Type 0) where
  abbrev pub QuietFold : FoldParams C U D E I → Type 0
  QuietFold p = Inv p.maps × (p.initial_state.new_id ≡ none)

  -- Each identifier is held once at most, and none whose last number was not made yet.
  pub record Apart (s : Tasks C U D E I) : Type 0 where
    pub folds_quiet : All QuietFold s.folds
    pub iters_quiet : All (λ l. Inv l.dmiter) s.in_iters
    pub fresh : (c : List ℕ) → s.made < last c → held c s ≡ 0
    pub once : (c : List ℕ) → held c s ≤ 1

  held_once :
      (c : List ℕ) (d : Cid) (s : Tasks C U D E I)
      → Apart s
      → suc s.made < 2 ^ 32
      → hit c (clone_push d (recorded s.made)) + held c s ≤ 1
  unfolding clone_push new_id_num push_num
  held_once c d s a b = elim (hit-cases c (clone_push d (recorded s.made))) [
    | inl e ↦ omega (arith, e, a.once c)
    | inr (k, e) ↦ omega (
      arith,
      k,
      a.fresh c (omega (arith, ap last e, last-concat d.id_list (suc s.made % 2 ^ 32))),
    )
  ]

  accept-Apart :
      (l : InIter I) (r : MapResult C U D E) (s : Tasks C U D E I)
      → Inv l.dmiter
      → r.new_id ≡ none
      → Apart s
      → suc s.made < 2 ^ 32
      → Apart (accept_as l r s none)
  unfolding accept_as spawn_fold held count
  accept-Apart l r s v e a b = record {
    folds_quiet = ((v, e), a.folds_quiet);
    iters_quiet = a.iters_quiet;
    fresh = λ c h. omega (arith, hit_pushed c l.cid s.made b h, a.fresh c (omega arith));
    once = λ c. omega (arith, held_once c l.cid s a b);
  }

  recv-Apart :
      (r : MapResult C U D E) (s : Tasks C U D E I) (o : Option (InIter I × List (InIter I)))
      → Holds (Picked (λ l. Inv l.dmiter) (λ l. l.cid) s.in_iters) o
      → r.new_id ≡ none
      → Apart s
      → suc s.made < 2 ^ 32
      → Apart (on_recv r s o)
  unfolding on_recv accept
  recv-Apart r s none h e a b = a
  recv-Apart r s (some (l, ls)) h e a b =
      subst (λ i. Apart (accept_as l r s i)) (sym e) (accept-Apart l r s h.0 e a b)

  closed-Apart :
      (s : Tasks C U D E I) (o : Option (InIter I × List (InIter I)))
      → Holds (Picked (λ l. Inv l.dmiter) (λ l. l.cid) s.in_iters) o
      → Apart s
      → Apart (on_closed s o)
  unfolding on_closed held count
  closed-Apart s none h a = a
  closed-Apart s (some (l, ls)) h a = record {
    folds_quiet = a.folds_quiet;
    iters_quiet = h.1;
    fresh = λ c k. omega (arith, a.fresh c k, h.2 c);
    once = λ c. omega (arith, a.once c, h.2 c);
  }

  sent-Apart :
      (p : FoldParams C U D E I) (ps : List (FoldParams C U D E I)) (r : FoldResult C U D E I)
      (s : Tasks C U D E I)
      → Picked QuietFold (λ q. q.cid) s.folds (p, ps)
      → r.id ≡ p.cid
      → Apart s
      → Apart (record s { folds = ps; sent = r ∷ s.sent })
  unfolding held count
  sent-Apart p ps r s h e a = record {
    folds_quiet = h.1;
    iters_quiet = a.iters_quiet;
    fresh = λ c k. omega (arith, a.fresh c k, h.2 c, ap (hit c) e);
    once = λ c. omega (arith, a.once c, h.2 c, ap (hit c) e);
  }

  -- Where the result of the fold `p`, which has its identifier, goes.
  deal-Apart :
      (p : FoldParams C U D E I) (ps : List (FoldParams C U D E I)) (r : FoldResult C U D E I)
      (c : Stream C U) (s : Tasks C U D E I)
      → Picked QuietFold (λ q. q.cid) s.folds (p, ps)
      → Inv r.left_maps_iter
      → r.id ≡ p.cid
      → Apart s
      → Apart (deal r c (record s { folds = ps }))
  unfolding deal held count
  deal-Apart p ps r generator s h v e a = record {
    folds_quiet = h.1;
    iters_quiet = (v, a.iters_quiet);
    fresh = λ c k. omega (arith, a.fresh c k, h.2 c, ap (hit c) e);
    once = λ c. omega (arith, a.once c, h.2 c, ap (hit c) e);
  }
  deal-Apart p ps r Stream.none s h v e a = sent-Apart p ps r s h e a
  deal-Apart p ps r (conn _) s h v e a = sent-Apart p ps r s h e a
  deal-Apart p ps r (addr_conn _) s h v e a = sent-Apart p ps r s h e a

  end-Apart :
      (p : FoldParams C U D E I) (ps : List (FoldParams C U D E I))
      (o : Option (FoldResult C U D E I)) (s : Tasks C U D E I)
      → Picked QuietFold (λ q. q.cid) s.folds (p, ps)
      → Holds (λ r. Inv r.left_maps_iter × (r.id ≡ p.cid)) o
      → Apart s
      → Apart (on_end s ps o)
  unfolding on_end finish
  end-Apart p ps none s h k a = a
  end-Apart p ps (some r) s h k a = deal-Apart p ps r r.c s h k.0 k.1 a

  module _ (fuel : ℕ) (it : DynIterator C U D E I) (quiet : Quiet it Inv) where
    folded-Apart :
        (s : Tasks C U D E I) (o : Option (FoldParams C U D E I × List (FoldParams C U D E I)))
        → Holds (Picked QuietFold (λ q. q.cid) s.folds) o
        → Apart s
        → Apart (on_folded fuel it s o)
    unfolding on_folded
    folded-Apart s none h a = a
    folded-Apart s (some (p, ps)) h a =
        end-Apart p ps (fold fuel it p) s h (fold_quiet it Inv quiet fuel p h.0.0 h.0.1) a

    pub step-Apart :
        (e : Event C U D E) (s : Tasks C U D E I)
        → Anonymous e
        → suc s.made < 2 ^ 32
        → Apart s
        → Apart (step fuel it e s)
    unfolding step
    step-Apart (recv i r) s n b a =
        recv-Apart r s (pick i s.in_iters)
          (pick-Picked (λ l. Inv l.dmiter) (λ l. l.cid) i s.in_iters a.iters_quiet) n a b
    step-Apart (closed i) s n b a =
        closed-Apart s (pick i s.in_iters)
          (pick-Picked (λ l. Inv l.dmiter) (λ l. l.cid) i s.in_iters a.iters_quiet) a
    step-Apart (folded i) s n b a =
        folded-Apart s (pick i s.folds) (pick-Picked QuietFold (λ p. p.cid) i s.folds a.folds_quiet)
          a
