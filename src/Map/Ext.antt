-- ===== src/Map/Ext.antt =====
-- src/map/mod.rs: a map with the fields that a chain sets on it, and what it is called with.
use ruci.Prelude.{Bool, false, Option, some, none, List, [], ◌∷◌, Bytes}
use ruci.Utf8.{Text}
use ruci.Net.Addr.{Addr}
use ruci.Net.Cid.{Cid}
use ruci.Map.{Stream, MapResult, build}

pub data ProxyBehavior : Type 0 where
  unspecified encode decode : ProxyBehavior

-- The receiver of a shutdown, which only a listener looks at, is left out.
pub record MapParams (C U D : Type 0) : Type 0 where
  pub a : Option Addr
  pub b : Option Bytes
  pub c : Stream C U
  pub d : List (Option D)

pub record MapExtFields : Type 0 where
  pub is_tail_of_chain : Bool
  pub chain_tag : Text
  pub fixed_target_addr : Option Addr
  pub pre_defined_early_data : Option Bytes

abbrev pub default : MapExtFields
default = record {
  is_tail_of_chain = false;
  chain_tag = [];
  fixed_target_addr = none;
  pre_defined_early_data = none;
}

-- `maps` is all that a layer does: what its reads and writes give is in what it answers.
pub record MapBox (C U D E : Type 0) : Type 0 where
  pub ext_fields : Option MapExtFields
  pub maps : Cid → ProxyBehavior → MapParams C U D → MapResult C U D E

last : {A : Type 0} → List (Option A) → Option A
last [] = none
last (x ∷ []) = x
last (_ ∷ x ∷ xs) = last (x ∷ xs)

unfoldable pub to_result : {C U D E : Type 0} → MapParams C U D → MapResult C U D E
unfolding last
to_result p = build p.a p.b p.c (last p.d) none

or_default : Option MapExtFields → MapExtFields
or_default (some ef) = ef
or_default none = default

module _ {C U D E : Type 0} where
  get_ext_fields_clone_or_default : MapBox C U D E → MapExtFields
  unfolding or_default
  get_ext_fields_clone_or_default m = or_default m.ext_fields

  set_ext_fields : MapBox C U D E → MapExtFields → MapBox C U D E
  set_ext_fields m fs = record m { ext_fields = some fs }

  unfoldable pub set_chain_tag : Text → MapBox C U D E → MapBox C U D E
  unfolding get_ext_fields_clone_or_default set_ext_fields
  set_chain_tag tag m =
      set_ext_fields m (record (get_ext_fields_clone_or_default m) { chain_tag = tag })

  unfoldable pub set_is_tail_of_chain : Bool → MapBox C U D E → MapBox C U D E
  unfolding get_ext_fields_clone_or_default set_ext_fields
  set_is_tail_of_chain is m =
      set_ext_fields m (record (get_ext_fields_clone_or_default m) { is_tail_of_chain = is })

  unfoldable pub set_configured_target_addr : Option Addr → MapBox C U D E → MapBox C U D E
  unfolding get_ext_fields_clone_or_default set_ext_fields
  set_configured_target_addr a m =
      set_ext_fields m (record (get_ext_fields_clone_or_default m) { fixed_target_addr = a })

  unfoldable pub set_pre_defined_early_data : Option Bytes → MapBox C U D E → MapBox C U D E
  unfolding get_ext_fields_clone_or_default set_ext_fields
  set_pre_defined_early_data ed m =
      set_ext_fields m (record (get_ext_fields_clone_or_default m) { pre_defined_early_data = ed })

  unfoldable pub get_chain_tag : MapBox C U D E → Text
  get_chain_tag m = elim m.ext_fields [ some ef ↦ ef.chain_tag | none ↦ [] ]

  unfoldable pub get_pre_defined_early_data : MapBox C U D E → Option Bytes
  get_pre_defined_early_data m = elim m.ext_fields [
    | some ef ↦ ef.pre_defined_early_data
    | none ↦ none
  ]

  unfoldable pub is_tail_of_chain : MapBox C U D E → Bool
  is_tail_of_chain m = elim m.ext_fields [ some ef ↦ ef.is_tail_of_chain | none ↦ false ]

  unfoldable pub configured_target_addr : MapBox C U D E → Option Addr
  configured_target_addr m = elim m.ext_fields [ some ef ↦ ef.fixed_target_addr | none ↦ none ]
