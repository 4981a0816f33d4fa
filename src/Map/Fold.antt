-- ===== src/Map/Fold.antt =====
-- src/map/fold.rs: the iterators over maps, and `fold`, which runs a connection through them. The
-- iterators that other files add come through the interface `DynIterator`.
pub mod Rounds
pub mod Vec
pub mod Ends
pub mod Similar
use ruci.Prelude.{
  ℕ, zero, suc, Bool, true, false, not, Option, some, none, List, [], ◌∷◌, ◌++◌, Bytes,
  if◌then◌else◌,
}
use ruci.Utf8.{Text}
use ruci.Net.Addr.{Addr}
use ruci.Net.Cid.{Cid}
use ruci.Net.Cid
use ruci.Map.{Stream, MapResult, is_none_or_generator}
use ruci.Map.Ext.{ProxyBehavior, MapParams, MapBox, get_chain_tag}

abbrev pub Ovod : Type 0 → Type 0
Ovod D = Option (List (Option D))

-- An iterator of states `I`: each call gives the next map, if there is one, and the state after it.
pub record DynIterator (C U D E I : Type 0) : Type 0 where
  pub next_with_data : I → Cid → Ovod D → Option (MapBox C U D E) × I
  pub next : I → Option (MapBox C U D E) × I
  pub requires_no_data : I → Bool

pub record Acc (C U D E : Type 0) : Type 0 where
  pub last_r : MapResult C U D E
  pub calculated_output_vec : List (Option D)
  pub tag : Text

pub record FoldResult (C U D E I : Type 0) : Type 0 where
  pub a : Option Addr
  pub b : Option Bytes
  pub c : Stream C U
  pub d : List (Option D)
  pub e : Option E
  pub id : Cid
  pub chain_tag : Text
  pub left_maps_iter : I
  pub no_timeout : Bool

pub record FoldParams (C U D E I : Type 0) : Type 0 where
  pub cid : Cid
  pub behavior : ProxyBehavior
  pub initial_state : MapResult C U D E
  pub maps : I
  pub chain_tag : Text

is_some : {A : Type 0} → Option A → Bool
is_some (some _) = true
is_some none = false

-- `tag` if there is one already, else the map's.
unfoldable pub or_tag : Text → Text → Text
or_tag [] ct = ct
or_tag (c ∷ cs) ct = c ∷ cs

unfoldable pub id_or : Cid → Option Cid → Cid
id_or cid (some id) = id
id_or cid none = cid

module _ {C U D E : Type 0} where
  -- `DynMIterWrapper` and `DynVecIterWrapper`.
  unfoldable pub next_of : List (MapBox C U D E) → Option (MapBox C U D E) × List (MapBox C U D E)
  next_of [] = (none, [])
  next_of (m ∷ ms) = (some m, ms)

  unfoldable pub vec_iter : DynIterator C U D E (List (MapBox C U D E))
  unfolding next_of
  vec_iter = record {
    next_with_data = λ ms _ _. next_of ms;
    next = next_of;
    requires_no_data = λ ms. true;
  }

  -- The two tests that leave the loop after a map.
  unfoldable pub stops : MapResult C U D E → Bool
  unfolding is_some is_none_or_generator
  stops r = if is_none_or_generator r.c then true else is_some r.e

  unfoldable pub params_of : Acc C U D E → MapParams C U D
  params_of s = record {
    a = s.last_r.a;
    b = s.last_r.b;
    c = s.last_r.c;
    d = s.calculated_output_vec;
  }

  unfoldable pub called : Cid → ProxyBehavior → MapBox C U D E → Acc C U D E → MapResult C U D E
  called cid behavior adder s = adder.maps (id_or cid s.last_r.new_id) behavior (params_of s)

  -- A round of the loop with the map `adder`.
  unfoldable pub added : Cid → ProxyBehavior → MapBox C U D E → Acc C U D E → Acc C U D E
  added cid behavior adder s =
      let r = called cid behavior adder s in
      record {
        last_r = r;
        calculated_output_vec = s.calculated_output_vec ++ r.d ∷ [];
        tag = or_tag s.tag (get_chain_tag adder);
      }

  unfoldable pub new : {I : Type 0} → FoldParams C U D E I → Acc C U D E
  new p = record {
    last_r = p.initial_state;
    calculated_output_vec = p.initial_state.d ∷ [];
    tag = p.chain_tag;
  }

  module _ {I : Type 0} where
    -- An iterator that is only asked with data keeps the default methods of the trait.
    unfoldable pub dynamic :
        (I → Cid → Ovod D → Option (MapBox C U D E) × I) → DynIterator C U D E I
    dynamic next_with_data = record {
      next_with_data = next_with_data;
      next = λ maps. next_with_data maps Cid.default none;
      requires_no_data = λ _. false;
    }

    unfoldable pub next_map :
        DynIterator C U D E I → Cid → Acc C U D E → I → Option (MapBox C U D E) × I
    next_map it cid s maps =
        if it.requires_no_data maps
        then it.next maps
        else it.next_with_data maps cid (some s.calculated_output_vec)

    -- A round with the map that the iterator gave, or the end; `rest` are the rounds after it.
    unfoldable pub round :
        Cid
        → ProxyBehavior
        → Acc C U D E
        → (I → Acc C U D E → Option (I × Acc C U D E))
        → Option (MapBox C U D E) × I
        → Option (I × Acc C U D E)
    round cid behavior s rest (none, left) = some (left, s)
    round cid behavior s rest (some adder, left) =
        let t = added cid behavior adder s in if stops t.last_r then some (left, t) else rest left t

    -- The loop; without fuel it has no answer.
    unfoldable pub loop :
        ℕ → DynIterator C U D E I → Cid → ProxyBehavior → I → Acc C U D E → Option (I × Acc C U D E)
    loop zero it cid behavior maps s = none
    loop (suc n) it cid behavior maps s =
        round cid behavior s (loop n it cid behavior) (next_map it cid s maps)

    unfoldable pub result : Cid → I × Acc C U D E → FoldResult C U D E I
    result cid r = record {
      a = r.1.last_r.a;
      b = r.1.last_r.b;
      c = r.1.last_r.c;
      d = r.1.calculated_output_vec;
      e = r.1.last_r.e;
      id = id_or cid r.1.last_r.new_id;
      chain_tag = r.1.tag;
      left_maps_iter = r.0;
      no_timeout = r.1.last_r.no_timeout;
    }

    unfoldable pub ended : Cid → Option (I × Acc C U D E) → Option (FoldResult C U D E I)
    ended cid (some r) = some (result cid r)
    ended cid none = none

    unfoldable pub fold :
        ℕ → DynIterator C U D E I → FoldParams C U D E I → Option (FoldResult C U D E I)
    fold fuel it p = let cid = p.cid in ended cid (loop fuel it cid p.behavior p.maps (new p))
