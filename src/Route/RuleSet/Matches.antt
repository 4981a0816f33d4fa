-- ===== src/Route/RuleSet/Matches.antt =====
-- What rule sets match, and which one is taken (rucimp/src/route/mod.rs).
use ruci.Prelude.{
  ℕ, Option, ◌≡◌, refl, ap, ◌∙◌, true, false, some, none, List, [], ◌∷◌, ◌++◌, All, arith,
}
use ruci.Utf8.{Text}
use ruci.User
use ruci.Net.Addr.{name}
use ruci.Route.RuleSet.{
  RuleSet, InboundInfo, RuleSetOutSelector, matches, matches_whitelist, matches_blacklist,
  out_tag_of, outbound, or_default, select, ips_in, in_set,
}

-- A white list matches no target that is known by its name only, not even one without rules on
-- addresses.
pub matches_whitelist-name :
    (rs : RuleSet) (r : InboundInfo) (n : Text) (port : ℕ)
    → r.target_addr.addr ≡ name n port
    → matches_whitelist rs r ≡ false
unfolding matches_whitelist ips_in
matches_whitelist-name rs r n port e =
    let no_ip : ips_in rs true r.target_addr.addr ≡ false = ap (λ a. ips_in rs true a) e in
    ground (arith, no_ip)

-- A black list without rules on networks matches everything.
pub matches_blacklist-unruled :
    (rs : RuleSet) (r : InboundInfo) → rs.ta_networks ≡ none → matches_blacklist rs r ≡ true
unfolding matches_blacklist in_set
matches_blacklist-unruled rs r e = ground arith

out_tag_of-first :
    (before after : List RuleSet) (rs : RuleSet) (ii : InboundInfo)
    → All (λ q. matches q ii ≡ false) before
    → matches rs ii ≡ true
    → out_tag_of (before ++ rs ∷ after) ii ≡ some rs.out_tag
unfolding out_tag_of
out_tag_of-first [] after rs ii h e = rw e refl
out_tag_of-first (q ∷ before) after rs ii h e = rw (h.0) (out_tag_of-first before after rs ii h.1 e)

-- The selector takes the outbound that the map has under the tag of the first rule set that matches,
-- whatever stands behind it, and the default if the map has none under this tag.
pub select-first :
    {O : Type 0} (before after : List RuleSet) (rs : RuleSet) (s : RuleSetOutSelector O)
    (ii : InboundInfo) (known : Option O)
    → s.outbounds_rules_vec ≡ before ++ rs ∷ after
    → All (λ q. matches q ii ≡ false) before
    → matches rs ii ≡ true
    → User.get rs.out_tag s.outbounds_map ≡ known
    → select s ii ≡ some (elim known [ some out ↦ out | none ↦ s.default ])
unfolding select or_default
select-first before after rs s ii known v h e g =
    ap (λ rules. some (outbound s (out_tag_of rules ii))) v
    ∙ ap (λ t. some (outbound s t)) (out_tag_of-first before after rs ii h e)
    ∙ ap (λ o. some (or_default s.default o)) g
