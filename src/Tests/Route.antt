-- ===== src/Tests/Route.antt =====
-- Rule sets (rucimp/src/route/mod.rs) on concrete inputs.
use ruci.Prelude.{◌≡◌, refl, true, false, none, some, [], ◌∷◌, codes}
use ruci.Net.Addr.{Addr, name, tcp}
use ruci.Route.RuleSet.{
  RuleSet, InboundInfo, RuleSetOutSelector, black_list, white_list, matches, matches_whitelist,
  matches_blacklist, select,
}
use ruci.Route.RuleSet.Matches.{matches_whitelist-name, matches_blacklist-unruled, select-first}
use ruci.User.{get}
use ruci.Prelude.{ℕ}

-- `RuleSet::default()` with a tag.
abbrev blank : RuleSet
blank = record {
  out_tag = codes "a";
  mode = white_list;
  in_tags = none;
  is_fallback = none;
  userset = none;
  ta_ip_countries = none;
  ta_networks = none;
  ta_ipv4 = none;
  ta_ipv6 = none;
  ta_domain_matcher = none;
  mmdb_reader = none;
}

abbrev www : Addr
www = record { addr = name (codes "www.b") 443; network = tcp }

abbrev info : InboundInfo
info = record { users = none; in_tag = codes "in"; target_addr = www; is_fallback = true }

abbrev black : RuleSet
black = record blank { mode = black_list; out_tag = codes "b" }

abbrev selector : RuleSetOutSelector ℕ
selector = record {
  outbounds_rules_vec = blank ∷ black ∷ [];
  outbounds_map = (codes "b", 7) ∷ [];
  default = 1;
}

matches_whitelist-name_example : matches_whitelist blank info ≡ false
matches_whitelist-name_example = matches_whitelist-name blank info (codes "www.b") 443 refl

matches_blacklist-unruled_example : matches_blacklist black info ≡ true
matches_blacklist-unruled_example = matches_blacklist-unruled black info refl

blank_misses : matches blank info ≡ false
unfolding matches
blank_misses = refl

black_hits : matches black info ≡ true
unfolding matches
black_hits = refl

select_test : select selector info ≡ some 7
unfolding select matches get
select_test = refl

b_known : get (codes "b") selector.outbounds_map ≡ some 7
unfolding get
b_known = refl

select-first_example : select selector info ≡ some 7
select-first_example =
    select-first (blank ∷ []) [] black selector info (some 7) refl (blank_misses, tt) black_hits
      b_known
