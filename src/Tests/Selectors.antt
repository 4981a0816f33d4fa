-- ===== src/Tests/Selectors.antt =====
-- The selectors of src/relay/route.rs on concrete inputs.
use ruci.Prelude.{eq_bytes, ℕ, ◌≡◌, refl, true, false, none, some, [], ◌∷◌, codes, Option, List}
use ruci.Utf8.{Text}
use ruci.Net.Addr.{default, eq_ip}
use ruci.Route.RuleSet.{InboundInfo, contains, eq_network, same}
use ruci.Route.Selectors.{
  InboundInfoOutSelector, TagOutSelector, matches, select_info, select_tag, get_user_from_opt_data,
  select_fixed,
}
use ruci.Route.Selectors.First.{select_info-first, info_of}
use ruci.User.{get}

abbrev from_l1 : InboundInfo
from_l1 = record { users = none; in_tag = codes "l1"; target_addr = default; is_fallback = false }

abbrev from_l2 : InboundInfo
from_l2 = record from_l1 { in_tag = codes "l2" }

abbrev as_text : Text → Option Text
as_text t = some t

abbrev no_params : List (Option Text)
no_params = []

abbrev selector : InboundInfoOutSelector ℕ
selector = record {
  outbounds_ruleset_vec = (from_l2 ∷ [], codes "d0") ∷ (from_l1 ∷ from_l2 ∷ [], codes "d1") ∷ [];
  outbounds_map = (codes "d1", 7) ∷ [];
  ok_default = 1;
  fb_default = none;
}

-- A user is a part of what the rules ask.
select_user_test :
    select_info as_text selector false default (codes "l1") (some (codes "u") ∷ []) ≡ some 1
unfolding select_info matches get get_user_from_opt_data contains eq_bytes eq_ip eq_network same
select_user_test = refl

tags : TagOutSelector ℕ
tags = record {
  outbounds_tag_route_map = some ((codes "l1", codes "d1") ∷ (codes "l2", codes "d2") ∷ []);
  fallback_tag_route_map = none;
  outbounds_map = (codes "d1", 7) ∷ [];
  ok_default = some 1;
  fb_default = none;
}

select_tag_test :
    (select_tag tags false (codes "l1") ≡ some 7)
    × (select_tag tags false (codes "l2") ≡ some 1)
    × (select_tag tags true (codes "l1") ≡ none)
unfolding select_tag tags get
select_tag_test = (refl, refl, refl)

select_fixed_test : (select_fixed {O = ℕ} 3 false ≡ some 3) × (select_fixed {O = ℕ} 3 true ≡ none)
unfolding select_fixed
select_fixed_test = (refl, refl)

other_misses :
    matches (from_l2 ∷ [], codes "d0") (info_of as_text false default (codes "l1") no_params) ≡ none
unfolding matches get_user_from_opt_data contains eq_bytes eq_ip eq_network same
other_misses = refl

pair_hits :
    matches
      (from_l1 ∷ from_l2 ∷ [], codes "d1")
      (info_of as_text false default (codes "l1") no_params)
    ≡ some (codes "d1")
unfolding matches get_user_from_opt_data contains eq_bytes eq_ip eq_network same
pair_hits = refl

d1_known : get (codes "d1") selector.outbounds_map ≡ some 7
unfolding get
d1_known = refl

select_info-first_example :
    select_info as_text selector false default (codes "l1") no_params ≡ some 7
select_info-first_example =
    select_info-first as_text ((from_l2 ∷ [], codes "d0") ∷ []) []
      (from_l1 ∷ from_l2 ∷ [], codes "d1") (codes "d1") 7 selector false default (codes "l1")
      no_params refl (other_misses, tt) pair_hits d1_known
