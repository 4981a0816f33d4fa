-- ===== src/Route/RuleSet.antt =====
-- rucimp/src/route/mod.rs, with the feature geoip: rule sets, and the selector that goes through them.
-- A hash set is a list. The ip ranges, the regular expressions and the country database, which other
-- crates implement, are the functions that look a value up in them.
pub mod Matches
use ruci.Prelude.{
  ℕ, Bool, true, false, not, ◌&&◌, ◌||◌, Option, some, none, List, [], ◌∷◌, if◌then◌else◌, eq_bytes,
}
use ruci.Utf8.{Text}
use ruci.Net.Addr.{
  Addr, NetAddr, socket, name, name_and_socket, IpAddr, v4, v6, Network, ip, tcp, udp, unix,
}
use ruci.User

pub data Mode : Type 0 where
  black_list white_list : Mode

pub record DomainMatcher : Type 0 where
  pub domain_regex : Option (Text → Bool)
  pub domain_set : Option (List Text)

-- Users are told apart by their texts of authentication.
abbrev pub UserVec : Type 0
UserVec = List Text

pub record InboundInfo : Type 0 where
  pub users : Option UserVec
  pub in_tag : Text
  pub target_addr : Addr
  pub is_fallback : Bool

pub record RuleSet : Type 0 where
  pub out_tag : Text
  pub mode : Mode
  pub in_tags : Option (List Text)
  pub is_fallback : Option Bool
  pub userset : Option (List UserVec)
  pub ta_ip_countries : Option (List Text)
  pub ta_networks : Option (List Network)
  pub ta_ipv4 : Option (ℕ → Bool)
  pub ta_ipv6 : Option (ℕ → Bool)
  pub ta_domain_matcher : Option DomainMatcher
  pub mmdb_reader : Option (IpAddr → Text)

unfoldable pub same : Bool → Bool → Bool
same true b = b
same false b = not b

unfoldable pub eq_network : Network → Network → Bool
eq_network ip ip = true
eq_network tcp tcp = true
eq_network udp udp = true
eq_network unix unix = true
eq_network _ _ = false

unfoldable pub eq_users : UserVec → UserVec → Bool
unfolding eq_bytes
eq_users [] [] = true
eq_users (u ∷ us) (v ∷ vs) = eq_bytes u v && eq_users us vs
eq_users _ _ = false

unfoldable pub contains : {A : Type 0} → (A → A → Bool) → List A → A → Bool
contains eq [] a = false
contains eq (x ∷ xs) a = eq x a || contains eq xs a

-- A test of a set that may be missing.
in_set : {A : Type 0} → (A → A → Bool) → Bool → Option (List A) → A → Bool
unfolding contains
in_set eq true_if_empty (some xs) a = contains eq xs a
in_set eq true_if_empty none a = true_if_empty

in_range : Bool → Option (ℕ → Bool) → ℕ → Bool
in_range true_if_empty (some range) a = range a
in_range true_if_empty none a = true_if_empty

in_ranges : RuleSet → Bool → IpAddr → Bool
unfolding in_range
in_ranges rs true_if_empty (v4 a) = in_range true_if_empty rs.ta_ipv4 a
in_ranges rs true_if_empty (v6 a) = in_range true_if_empty rs.ta_ipv6 a

unwrap_or_default : Option Bool → Bool
unwrap_or_default (some b) = b
unwrap_or_default none = false

is_none : {A : Type 0} → Option A → Bool
is_none none = true
is_none (some _) = false

is_in_in_tags : RuleSet → Bool → Text → Bool
unfolding in_set eq_bytes
is_in_in_tags rs true_if_empty tag = in_set eq_bytes true_if_empty rs.in_tags tag

is_in_userset : RuleSet → Bool → UserVec → Bool
unfolding in_set eq_users
is_in_userset rs true_if_empty us = in_set eq_users true_if_empty rs.userset us

ips_in : RuleSet → Bool → NetAddr → Bool
unfolding in_ranges
ips_in rs true_if_empty (socket so) = in_ranges rs true_if_empty so.ip
ips_in rs true_if_empty (name_and_socket _ so _) = in_ranges rs true_if_empty so.ip
ips_in rs true_if_empty (name _ _) = false

is_in_ips : RuleSet → Bool → Addr → Bool
unfolding ips_in
is_in_ips rs true_if_empty a = ips_in rs true_if_empty a.addr

is_in_networks : RuleSet → Bool → Addr → Bool
unfolding in_set eq_network
is_in_networks rs true_if_empty a = in_set eq_network true_if_empty rs.ta_networks a.network

regex_hits : Option (Text → Bool) → Text → Bool
regex_hits (some is_match) domain = is_match domain
regex_hits none domain = false

set_has : Option (List Text) → Text → Bool
unfolding contains eq_bytes
set_has (some dms) domain = contains eq_bytes dms domain
set_has none domain = false

domain_in : Option DomainMatcher → Bool → NetAddr → Bool
unfolding regex_hits set_has
domain_in (some dm) true_if_empty (name domain _) =
    regex_hits dm.domain_regex domain || set_has dm.domain_set domain
domain_in _ true_if_empty _ = true_if_empty

-- Neither list below asks it.
unfoldable pub is_in_domain : RuleSet → Bool → Addr → Bool
unfolding domain_in
is_in_domain rs true_if_empty a = domain_in rs.ta_domain_matcher true_if_empty a.addr

countries_in : Option (IpAddr → Text) → Option (List Text) → Bool → NetAddr → Bool
unfolding contains eq_bytes
countries_in (some country) (some cs) true_if_empty (socket so) =
    contains eq_bytes cs (country so.ip)
countries_in (some country) (some cs) true_if_empty (name_and_socket _ so _) =
    contains eq_bytes cs (country so.ip)
countries_in _ _ true_if_empty _ = true_if_empty

is_in_ta_ip_countries : RuleSet → Bool → Addr → Bool
unfolding countries_in
is_in_ta_ip_countries rs true_if_empty a =
    countries_in rs.mmdb_reader rs.ta_ip_countries true_if_empty a.addr

-- Either list is a chain of early returns.
unfoldable pub matches_whitelist : RuleSet → InboundInfo → Bool
unfolding same unwrap_or_default is_in_in_tags is_in_userset is_none is_in_networks is_in_ips
    is_in_ta_ip_countries
matches_whitelist rs r =
    if not (same r.is_fallback (unwrap_or_default rs.is_fallback))
    then false
    else if not (is_in_in_tags rs true r.in_tag)
    then false
    else if not (elim r.users [ some us ↦ is_in_userset rs true us | none ↦ is_none rs.userset ])
    then false
    else if not (is_in_networks rs true r.target_addr)
    then false
    else if not (is_in_ips rs true r.target_addr)
    then false
    else if not (is_in_ta_ip_countries rs true r.target_addr)
    then false
    else true

unfoldable pub matches_blacklist : RuleSet → InboundInfo → Bool
unfolding same unwrap_or_default is_in_in_tags is_in_userset is_none is_in_networks is_in_ips
    is_in_ta_ip_countries
matches_blacklist rs r =
    if same r.is_fallback (unwrap_or_default rs.is_fallback)
    then true
    else if is_in_in_tags rs false r.in_tag
    then true
    else if elim r.users [ some us ↦ is_in_userset rs false us | none ↦ not (is_none rs.userset) ]
    then true
    else if is_in_networks rs true r.target_addr
    then true
    else if is_in_ips rs false r.target_addr
    then true
    else if is_in_ta_ip_countries rs true r.target_addr
    then true
    else false

unfoldable pub matches : RuleSet → InboundInfo → Bool
unfolding matches_whitelist matches_blacklist
matches rs r = elim rs.mode [
  | black_list ↦ matches_blacklist rs r
  | white_list ↦ matches_whitelist rs r
]

-- The first rule set that matches gives the tag.
out_tag_of : List RuleSet → InboundInfo → Option Text
out_tag_of [] ii = none
out_tag_of (rs ∷ rest) ii =
    let later = out_tag_of rest ii in if matches rs ii then some rs.out_tag else later

-- `O` are the outbounds.
pub record RuleSetOutSelector (O : Type 0) : Type 0 where
  pub outbounds_rules_vec : List RuleSet
  pub outbounds_map : List (Text × O)
  pub default : O

or_default : {O : Type 0} → O → Option O → O
or_default d (some o) = o
or_default d none = d

-- The outbound under a tag, or the default.
unfoldable pub outbound : {O : Type 0} → RuleSetOutSelector O → Option Text → O
unfolding or_default
outbound s (some k) = or_default s.default (User.get k s.outbounds_map)
outbound s none = s.default

unfoldable pub select : {O : Type 0} → RuleSetOutSelector O → InboundInfo → Option O
unfolding out_tag_of outbound
select s ii = some (outbound s (out_tag_of s.outbounds_rules_vec ii))
