-- ===== src/Route/Selectors/First.antt =====
-- Which outbound the selectors of src/relay/route.rs take.
use ruci.Prelude.{
  ◌≡◌, refl, ap, ◌∙◌, Bool, Option, some, none, List, [], ◌∷◌, ◌++◌, All, if◌then◌else◌,
}
use ruci.Utf8.{Text}
use ruci.Net.Addr.{Addr}
use ruci.Route.RuleSet.{InboundInfo}
use ruci.Route.Selectors.{
  InboundInfoOutTagPair, InboundInfoOutSelector, matches, first_tag, or_later, named_or, found_or,
  select_info, get_user_from_opt_data,
}
use ruci.User

-- What is asked of the rules: where the connection comes from and goes to, and its users.
abbrev pub info_of :
    {D : Type 0} → (D → Option Text) → Bool → Addr → Text → List (Option D) → InboundInfo
info_of get_user is_fallback addr tag params = record {
  users = get_user_from_opt_data get_user params;
  in_tag = tag;
  target_addr = addr;
  is_fallback = is_fallback;
}

first_tag-first :
    (before after : List InboundInfoOutTagPair) (rs : InboundInfoOutTagPair) (t : Text)
    (r : InboundInfo)
    → All (λ q. matches q r ≡ none) before
    → matches rs r ≡ some t
    → first_tag (before ++ rs ∷ after) r ≡ some t
unfolding first_tag or_later
first_tag-first [] after rs t r h e = rw e refl
first_tag-first (q ∷ before) after rs t r h e = rw (h.0) (first_tag-first before after rs t r h.1 e)

-- A connection whose pairs of rules match first at one, and whose outbound is known under the tag of
-- that pair, goes to this outbound, whatever pairs stand behind it, fallback or not.
pub select_info-first :
    {O D : Type 0} (get_user : D → Option Text) (before after : List InboundInfoOutTagPair)
    (rs : InboundInfoOutTagPair) (t : Text) (out : O) (s : InboundInfoOutSelector O)
    (is_fallback : Bool) (addr : Addr) (tag : Text) (params : List (Option D))
    → s.outbounds_ruleset_vec ≡ before ++ rs ∷ after
    → All (λ q. matches q (info_of get_user is_fallback addr tag params) ≡ none) before
    → matches rs (info_of get_user is_fallback addr tag params) ≡ some t
    → User.get t s.outbounds_map ≡ some out
    → select_info get_user s is_fallback addr tag params ≡ some out
unfolding select_info named_or
select_info-first get_user before after rs t out s fb addr tag params v h e g =
    let d = if fb then s.fb_default else some s.ok_default in
    let r = info_of get_user fb addr tag params in
    ap (λ rules. named_or d s.outbounds_map (first_tag rules r)) v
    ∙ ap (named_or d s.outbounds_map) (first_tag-first before after rs t r h e)
    ∙ ap (found_or d) g
