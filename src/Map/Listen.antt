-- ===== src/Map/Listen.antt =====
-- src/map/fold.rs: `fold_from_start` and `in_iter_fold_forever`, which fold every connection that a
-- listener accepts. The tasks run side by side: a state holds the loops that still receive, the folds
-- that were spawned and have not ended, and what was sent to the dealer; an event is what one of the
-- tasks does next. There is a recorder, which numbers the connections.
pub mod Counts
pub mod Quiet
pub mod Ids
pub mod Apart
use ruci.Prelude.{
  ℕ, zero, suc, ◌+◌, ◌%◌, ◌^◌, Bool, true, false, Option, some, none, List, [], ◌∷◌, ◌++◌,
}
use ruci.Prelude.Monad.{Outcome, ok, err, panic}
use ruci.Utf8.{Text}
use ruci.Net.Cid.{Cid, recorded, clone_push}
use ruci.Map.{Stream, conn, addr_conn, generator, MapResult}
use ruci.Map.Ext.{ProxyBehavior, decode, MapParams, MapBox, get_chain_tag}
use ruci.Map.Fold.{DynIterator, FoldParams, FoldResult, id_or, fold}

-- `InIterFoldForeverParams`; what its generator will give comes with the events.
pub record InIter (I : Type 0) : Type 0 where
  pub cid : Cid
  pub dmiter : I
  pub first_tag : Text

-- `made` counts what `last_connection_id`, an AtomicU32, was raised by.
pub record Tasks (C U D E I : Type 0) : Type 0 where
  pub made : ℕ
  pub in_iters : List (InIter I)
  pub folds : List (FoldParams C U D E I)
  pub sent : List (FoldResult C U D E I)

pub data Event (C U D E : Type 0) : Type 0 where
  -- The loop at this place receives a stream, or sees its generator closed.
  recv : ℕ → MapResult C U D E → Event C U D E
  closed : ℕ → Event C U D E
  -- The fold at this place ends.
  folded : ℕ → Event C U D E

-- An element and the others.
unfoldable pub pick : {A : Type 0} → ℕ → List A → Option (A × List A)
pick i [] = none
pick zero (x ∷ xs) = some (x, xs)
pick (suc i) (x ∷ xs) = elim (pick i xs) [ some (y, ys) ↦ some (y, x ∷ ys) | none ↦ none ]

module _ {C U D E I : Type 0} where
  unfoldable pub spawn_fold : Cid → Text → I → MapResult C U D E → FoldParams C U D E I
  spawn_fold cid tag maps r = record {
    cid = cid;
    behavior = decode;
    initial_state = r;
    maps = maps;
    chain_tag = tag;
  }

  -- A stream with an identifier of its own keeps it; the counter is left alone then.
  unfoldable pub accept_as :
      InIter I → MapResult C U D E → Tasks C U D E I → Option Cid → Tasks C U D E I
  accept_as l r s (some id) = record s { folds = spawn_fold id l.first_tag l.dmiter r ∷ s.folds }
  accept_as l r s none = record s {
    made = suc s.made;
    folds = spawn_fold (clone_push l.cid (recorded s.made)) l.first_tag l.dmiter r ∷ s.folds;
  }

  unfoldable pub accept : InIter I → MapResult C U D E → Tasks C U D E I → Tasks C U D E I
  accept l r s = accept_as l r s r.new_id

  -- A generator is listened to in its turn; anything else goes to the dealer.
  unfoldable pub deal : FoldResult C U D E I → Stream C U → Tasks C U D E I → Tasks C U D E I
  deal r generator s = record s {
    in_iters =
        record { cid = r.id; dmiter = r.left_maps_iter; first_tag = r.chain_tag } ∷ s.in_iters;
  }
  deal r _ s = record s { sent = r ∷ s.sent }

  unfoldable pub finish : FoldResult C U D E I → Tasks C U D E I → Tasks C U D E I
  finish r s = deal r r.c s

  unfoldable pub on_recv :
      MapResult C U D E → Tasks C U D E I → Option (InIter I × List (InIter I)) → Tasks C U D E I
  on_recv r s (some (l, _)) = accept l r s
  on_recv r s none = s

  unfoldable pub on_closed : Tasks C U D E I → Option (InIter I × List (InIter I)) → Tasks C U D E I
  on_closed s (some (_, ls)) = record s { in_iters = ls }
  on_closed s none = s

  -- `s` with the other folds, for a fold that ended.
  unfoldable pub on_end :
      Tasks C U D E I
      → List (FoldParams C U D E I)
      → Option (FoldResult C U D E I)
      → Tasks C U D E I
  on_end s ps (some r) = finish r (record s { folds = ps })
  on_end s ps none = s

  module _ (fuel : ℕ) (it : DynIterator C U D E I) where
    unfoldable pub on_folded :
        Tasks C U D E I
        → Option (FoldParams C U D E I × List (FoldParams C U D E I))
        → Tasks C U D E I
    on_folded s (some (p, ps)) = on_end s ps (fold fuel it p)
    on_folded s none = s

    -- An event of a task that is not there, or of a fold that does not end with the fuel, is none.
    unfoldable pub step : Event C U D E → Tasks C U D E I → Tasks C U D E I
    step (recv i r) s = on_recv r s (pick i s.in_iters)
    step (closed i) s = on_closed s (pick i s.in_iters)
    step (folded i) s = on_folded s (pick i s.folds)

    unfoldable pub run : List (Event C U D E) → Tasks C U D E I → Tasks C U D E I
    run [] s = s
    run (e ∷ es) s = let t = step e s in run es t

  -- What goes on once the first map has answered: a loop for a generator, one fold for another stream.
  unfoldable pub start_from : Cid → ℕ → Text → I → MapResult C U D E → Stream C U → Tasks C U D E I
  start_from cid made tag left r generator = record {
    made = made;
    in_iters = record { cid = cid; dmiter = left; first_tag = tag } ∷ [];
    folds = [];
    sent = [];
  }
  start_from cid made tag left r _ = record {
    made = suc made;
    in_iters = [];
    folds = spawn_fold (clone_push cid (recorded made)) tag left r ∷ [];
    sent = [];
  }

  unfoldable pub checked :
      Cid → ℕ → Text → I → MapResult C U D E → Option E → Outcome E (Tasks C U D E I)
  checked cid made tag left r (some e) = err e
  checked cid made tag left r none = ok (start_from cid made tag left r r.c)

  unfoldable pub from_first : Cid → ℕ → I → Option (MapBox C U D E) → Outcome E (Tasks C U D E I)
  from_first in_cid made left none = panic
  from_first in_cid made left (some first) =
      let r = first.maps in_cid decode (record { a = none; b = none; c = Stream.none; d = [] }) in
      checked in_cid made (get_chain_tag first) left r r.e

  unfoldable pub fold_from_start : DynIterator C U D E I → Cid → ℕ → I → Outcome E (Tasks C U D E I)
  fold_from_start it in_cid made inmaps =
      let (o, left) = it.next_with_data inmaps in_cid none in from_first in_cid made left o
