-- ===== src/Tests/Listen.antt =====
-- A listener (src/map/fold.rs) that accepts two connections.
use ruci.Prelude.{ℕ, ◌≤◌, ◌≡◌, refl, none, some, [], ◌∷◌, List, arith, All}
use ruci.Prelude.Monad.{ok}
use ruci.Net.Cid.{clone_push, new_id_num, push_num, Cid}
use ruci.Map.{conn, generator, MapResult, build}
use ruci.Map.Ext.{MapBox, get_chain_tag}
use ruci.Map.Fold.{
  FoldResult, vec_iter, next_of, fold, loop, round, next_map, added, called, params_of, id_or,
  or_tag, stops, ended, result, new,
}
use ruci.Map.Listen.{
  Tasks, Event, recv, closed, folded, fold_from_start, from_first, checked, start_from, run, step,
  on_recv, on_closed, on_folded, on_end, pick, accept, accept_as, spawn_fold, finish, deal,
}
use ruci.Map.Listen.Counts.{held, last}
use ruci.Map.Listen.Quiet.{vec_quiet, IsSilent}
use ruci.Map.Listen.Apart.{held-run}
use ruci.Map.{is_none_or_generator}

abbrev Box : Type 0
Box = MapBox ℕ ℕ ℕ ℕ

abbrev listens : Box
listens = record { ext_fields = none; maps = λ id beh q. build none none generator none none }

abbrev layer : Box
layer = record { ext_fields = none; maps = λ id beh q. build q.a q.b q.c (some 4) none }

abbrev root : Cid
root = record { id_list = 1 ∷ [] }

abbrev tasks : Tasks ℕ ℕ ℕ ℕ (List Box)
tasks = record {
  made = 1;
  in_iters = record { cid = root; dmiter = layer ∷ []; first_tag = [] } ∷ [];
  folds = [];
  sent = [];
}

start_test : fold_from_start vec_iter root 1 (listens ∷ layer ∷ []) ≡ ok tasks
unfolding fold_from_start from_first checked start_from vec_iter next_of get_chain_tag
start_test = refl

abbrev stream : ℕ → MapResult ℕ ℕ ℕ ℕ
stream c = build none none (conn c) none none

-- Two connections, of which the first ends first.
abbrev events : List (Event ℕ ℕ ℕ ℕ)
events = recv 0 (stream 7) ∷ recv 0 (stream 8) ∷ folded 1 ∷ closed 0 ∷ folded 0 ∷ []

-- What the dealer got: the identifiers, with the latest first.
ids : List (FoldResult ℕ ℕ ℕ ℕ (List Box)) → List (List ℕ)
ids [] = []
ids (r ∷ rs) = r.id.id_list ∷ ids rs

run_test : ids (run 2 vec_iter events tasks).sent ≡ (1 ∷ 3 ∷ []) ∷ (1 ∷ 2 ∷ []) ∷ []
unfolding ids run step on_recv on_closed on_folded on_end pick accept accept_as spawn_fold finish
    deal clone_push new_id_num push_num fold loop round next_map vec_iter next_of added called
    params_of id_or or_tag get_chain_tag stops ended result new is_none_or_generator
run_test = refl

held-run_example : held (1 ∷ 2 ∷ []) (run 2 vec_iter events tasks) ≤ 1
unfolding vec_iter next_of last
held-run_example =
    held-run (All IsSilent) 2 vec_iter vec_quiet root 1 (listens ∷ layer ∷ []) tasks events
      start_test (omega arith) (omega arith) (λ id beh q. refl) ((λ id beh q. refl), tt)
      (refl, (refl, (tt, (tt, (tt, tt))))) (1 ∷ 2 ∷ [])
