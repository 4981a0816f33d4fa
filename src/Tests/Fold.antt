-- ===== src/Tests/Fold.antt =====
-- Folds (src/map/fold.rs, rucimp/src/modes/chain/config/dynamic.rs) on concrete chains.
use ruci.Prelude.{
  ℕ, ◌≡◌, ap, ◌≢◌, ◌⊎◌, refl, true, false, none, some, [], ◌∷◌, ◌++◌, List, Option, codes, arith,
  map, ℤ, pos, negsuc, rank,
}
use ruci.Map.{MapResult, conn, build, is_none_or_generator}
use ruci.Map.Ext.{decode, MapBox, set_chain_tag, get_chain_tag}
use ruci.Map.Fold.{
  FoldParams, FoldResult, vec_iter, fold, stops, called, params_of, added, new, next_map, loop,
  round, ended, result, or_tag, id_or, Ovod, next_of,
}
use ruci.Map.Fold.Vec.{fold_vec, final_id, run_through, IsUnbroken, first_tag}
use ruci.Map.Fold.Ends.{fold_forgets_id}
use ruci.Map.Fold.Similar.{settled, with_maps}
use ruci.Chain.Dynamic.{Finite, finite, next_finite, at_index}
use ruci.Chain.Dynamic.Bounds.{next_finite_in_range, fold-finite_ends, OutOfRange, Moves}
use ruci.Chain.Dynamic.Static.{fold-finite_vec}

abbrev Box : Type 0
Box = MapBox ℕ ℕ ℕ ℕ

-- A layer that leaves the connection as it is and reports `d`.
abbrev layer : ℕ → Box
layer d = record { ext_fields = none; maps = λ id beh q. build q.a q.b q.c (some d) none }

abbrev tagged : Box
tagged = set_chain_tag (codes "in") (layer 2)

-- One that gives the connection the identifier 9.
abbrev renames : Box
renames = record {
  ext_fields = none;
  maps = λ id beh q. record (build q.a q.b q.c none none) {
    new_id = some (record { id_list = 9 ∷ [] });
  };
}

abbrev chain : List Box
chain = layer 1 ∷ tagged ∷ layer 3 ∷ []

abbrev given : FoldParams ℕ ℕ ℕ ℕ (List Box)
given = record {
  cid = record { id_list = 5 ∷ 6 ∷ [] };
  behavior = decode;
  initial_state = build none (some (codes "early")) (conn 7) none none;
  maps = chain;
  chain_tag = [];
}

fold_vec_example :
    (r : FoldResult ℕ ℕ ℕ ℕ (List Box)) × (ran : List Box) × (last : MapResult ℕ ℕ ℕ ℕ) × (fold 4
        vec_iter given
      ≡ some r)
    × (chain ≡ ran ++ r.left_maps_iter)
    × IsUnbroken given.cid decode ran (new given)
    × ((last, r.d) ≡ run_through given.cid decode ran given.initial_state (none ∷ []))
    × (((r.a ≡ last.a) × (r.b ≡ last.b)) × ((r.c ≡ last.c) × (r.e ≡ last.e)))
    × (r.no_timeout ≡ last.no_timeout)
    × (r.id ≡ final_id given.cid last.new_id)
    × (r.chain_tag ≡ first_tag ([] ∷ map get_chain_tag ran))
    × ((r.left_maps_iter ≡ []) ⊎ ((is_none_or_generator r.c ≡ true) ⊎ (r.e ≢ none)))
fold_vec_example = fold_vec 4 given (omega arith)

-- The layers hand the buffer on; the tag is the second's.
fold_test :
    fold 4 vec_iter given
    ≡ some (record {
      a = none;
      b = some (codes "early");
      c = conn 7;
      d = none ∷ some 1 ∷ some 2 ∷ some 3 ∷ [];
      e = none;
      id = record { id_list = 5 ∷ 6 ∷ [] };
      chain_tag = codes "in";
      left_maps_iter = [];
      no_timeout = false;
    })
unfolding fold loop round next_map vec_iter next_of added called params_of id_or or_tag
    get_chain_tag set_chain_tag stops ended result new is_none_or_generator
fold_test = refl

abbrev renamed : FoldParams ℕ ℕ ℕ ℕ (List Box)
renamed = record given { maps = renames ∷ layer 1 ∷ [] }

goes_on : stops (called given.cid decode renames (new renamed)) ≡ false
unfolding stops called is_none_or_generator params_of new
goes_on = refl

renames_test :
    (called given.cid decode renames (new renamed)).new_id ≡ some (record { id_list = 9 ∷ [] })
unfolding called
renames_test = refl

fold_forgets_id_example :
    (r : FoldResult ℕ ℕ ℕ ℕ (List Box)) × (fold 3 vec_iter renamed ≡ some r) × (r.id ≡ given.cid)
fold_forgets_id_example =
    fold_forgets_id renamed renames (layer 1) (record { id_list = 9 ∷ [] }) refl goes_on
      renames_test refl

-- The selector of a static chain.
abbrev following : ℤ → Ovod ℕ → Option ℤ
following j vs = some (pos (rank j))

abbrev machine : Finite ℕ ℕ ℕ ℕ
machine = record { mb_vec = chain; selector = following; current_index = negsuc 0 }

abbrev driven : FoldParams ℕ ℕ ℕ ℕ (Finite ℕ ℕ ℕ ℕ)
driven = with_maps given machine

next_finite_in_range_example :
    (OutOfRange 3 (some (pos 0)) × (next_finite machine given.cid none ≡ (none, machine)))
    ⊎ Moves machine (some (pos 0)) (next_finite machine given.cid none)
next_finite_in_range_example = next_finite_in_range machine given.cid none

next_finite_test : (next_finite machine given.cid none).0 ≡ some (layer 1)
unfolding next_finite at_index
next_finite_test = refl

rank_of : Option ℤ → ℕ
rank_of (some z) = rank z
rank_of none = 0

fold-finite_ends_example :
    (r : FoldResult ℕ ℕ ℕ ℕ (Finite ℕ ℕ ℕ ℕ)) × (fold 4 finite driven ≡ some r)
unfolding with_maps rank_of
fold-finite_ends_example =
    fold-finite_ends 4 driven (λ j vs i e. omega (arith, ap rank_of e)) (omega arith)

fold-finite_vec_example :
    settled (fold 4 finite driven) ≡ settled (fold 4 vec_iter (with_maps driven chain))
unfolding with_maps
fold-finite_vec_example = fold-finite_vec 4 driven (λ j vs. refl) refl
