-- ===== src/Chain/Dynamic.antt =====
-- rucimp/src/modes/chain/config/dynamic.rs: iterators whose next map depends on the data of the maps
-- before it. An index of type i64 is a ℤ; a position in a vector is far below 2 ^ 63.
pub mod Bounds
pub mod Static
use ruci.Prelude.{
  ℕ, Bool, true, false, Option, some, none, List, leb, length, get_elem?, if◌then◌else◌, ℤ, pos,
  negsuc,
}
use ruci.Utf8.{Text}
use ruci.Net.Cid.{Cid}
use ruci.Map.Ext.{MapBox}
use ruci.Map.Fold.{DynIterator, Ovod, dynamic}

-- `NextSelector::next_index`, which does not change the selector.
abbrev pub NextSelector : Type 0 → Type 0
NextSelector D = ℤ → Ovod D → Option ℤ

pub record Finite (C U D E : Type 0) : Type 0 where
  pub mb_vec : List (MapBox C U D E)
  pub selector : NextSelector D
  pub current_index : ℤ

-- `IndexNextMapGenerator::next_map`, over generators of states `G`.
abbrev pub IndexNextMapGenerator : Type 0 → Type 0 → Type 0 → Type 0 → Type 0 → Type 0
IndexNextMapGenerator C U D E G = G → Cid → ℤ → Ovod D → Option (ℤ × Option (MapBox C U D E)) × G

pub record IndexInfinite (G : Type 0) : Type 0 where
  pub tag : Text
  pub generator : G
  pub current_state_index : ℤ

unfoldable pub new : {G : Type 0} → Text → G → IndexInfinite G
new tag generator = record { tag = tag; generator = generator; current_state_index = negsuc 0 }

module _ {C U D E : Type 0} where
  -- The map at the index that the selector chose.
  unfoldable pub at_index : Finite C U D E → Option ℤ → Option (MapBox C U D E) × Finite C U D E
  at_index f (some (negsuc _)) = (none, f)
  at_index f (some (pos iu)) =
      if leb (length f.mb_vec) iu
      then (none, f)
      else (get_elem? f.mb_vec iu, record f { current_index = pos iu })
  at_index f none = (none, f)

  unfoldable pub next_finite :
      Finite C U D E → Cid → Ovod D → Option (MapBox C U D E) × Finite C U D E
  next_finite f _ vs = at_index f (f.selector f.current_index vs)

  unfoldable pub finite : DynIterator C U D E (Finite C U D E)
  unfolding dynamic next_finite
  finite = dynamic next_finite

  module _ {G : Type 0} where
    -- What the generator gave; its own state is `g` by now.
    state_index :
        IndexInfinite G
        → Option (ℤ × Option (MapBox C U D E))
        → Option (MapBox C U D E) × IndexInfinite G
    state_index s (some (pos i, m)) = (m, record s { current_state_index = pos i })
    state_index s (some (negsuc _, m)) = (none, s)
    state_index s none = (none, s)

    unfoldable pub next_infinite :
        IndexNextMapGenerator C U D E G
        → IndexInfinite G
        → Cid
        → Ovod D
        → Option (MapBox C U D E) × IndexInfinite G
    unfolding state_index
    next_infinite next_map s cid vs =
        let (oi, g) = next_map s.generator cid s.current_state_index vs in
        state_index (record s { generator = g }) oi

    unfoldable pub infinite :
        IndexNextMapGenerator C U D E G → DynIterator C U D E (IndexInfinite G)
    unfolding dynamic next_infinite
    infinite next_map = dynamic (next_infinite next_map)
