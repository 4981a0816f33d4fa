-- ===== src/Route/Selectors.antt =====
-- src/relay/route.rs: the selectors of an outbound that ruci has itself. `O` are the outbounds, `D` the
-- data that the maps reported, of which `get_user` gives the user's text of authentication.
pub mod First
use ruci.Prelude.{
  Bool, true, false, ◌&&◌, ◌==◌, Option, some, none, List, [], ◌∷◌, if◌then◌else◌, eq_bytes,
}
use ruci.Utf8.{Text}
use ruci.Net.Addr.{Addr, NetAddr, SocketAddr, socket, name, name_and_socket, eq_ip}
use ruci.Route.RuleSet.{InboundInfo, UserVec, same, eq_network, eq_users, contains}
use ruci.User

push_user : Option Text → UserVec → UserVec
push_user (some u) v = u ∷ v
push_user none v = v

users_of : {D : Type 0} → (D → Option Text) → List (Option D) → UserVec
users_of get_user [] = []
users_of get_user (none ∷ ds) = users_of get_user ds
users_of get_user (some d ∷ ds) = push_user (get_user d) (users_of get_user ds)

none_if_empty : UserVec → Option UserVec
none_if_empty [] = none
none_if_empty (u ∷ us) = some (u ∷ us)

unfoldable pub get_user_from_opt_data :
    {D : Type 0} → (D → Option Text) → List (Option D) → Option UserVec
unfolding push_user users_of none_if_empty
get_user_from_opt_data get_user ds = none_if_empty (users_of get_user ds)

module _ {O : Type 0} where
  -- `FixedOutSelector::select`
  unfoldable pub select_fixed : O → Bool → Option O
  select_fixed default true = none
  select_fixed default false = some default

pub record TagOutSelector (O : Type 0) : Type 0 where
  pub outbounds_tag_route_map : Option (List (Text × Text))
  pub fallback_tag_route_map : Option (List (Text × Text))
  pub outbounds_map : List (Text × O)
  pub ok_default : Option O
  pub fb_default : Option O

get_in : Option (List (Text × Text)) → Text → Option Text
get_in (some fm) tag = User.get tag fm
get_in none tag = none

module _ {O : Type 0} where
  found_or : Option O → Option O → Option O
  found_or d (some out) = some out
  found_or d none = d

  -- The outbound that a tag names, or the default `d`.
  named_or : Option O → List (Text × O) → Option Text → Option O
  named_or d m (some k) = found_or d (User.get k m)
  named_or d m none = d

  -- `TagOutSelector::select`
  unfoldable pub select_tag : TagOutSelector O → Bool → Text → Option O
  unfolding get_in named_or found_or
  select_tag s is_fallback in_chain_tag =
      let ov =
        if is_fallback
        then get_in s.fallback_tag_route_map in_chain_tag
        else get_in s.outbounds_tag_route_map in_chain_tag in
      named_or (if is_fallback then s.fb_default else s.ok_default) s.outbounds_map ov

eq_socket : SocketAddr → SocketAddr → Bool
eq_socket a b = eq_ip a.ip b.ip && a.port == b.port

eq_net_addr : NetAddr → NetAddr → Bool
eq_net_addr (socket a) (socket b) = eq_socket a b
eq_net_addr (name n p) (name m q) = eq_bytes n m && p == q
eq_net_addr (name_and_socket n a p) (name_and_socket m b q) =
    eq_bytes n m && eq_socket a b && p == q
eq_net_addr _ _ = false

eq_opt_users : Option UserVec → Option UserVec → Bool
eq_opt_users (some us) (some vs) = eq_users us vs
eq_opt_users none none = true
eq_opt_users _ _ = false

-- Equality of values, as Rust derives it.
eq_info : InboundInfo → InboundInfo → Bool
eq_info a b =
    eq_opt_users a.users b.users
    && eq_bytes a.in_tag b.in_tag
    && (eq_net_addr a.target_addr.addr b.target_addr.addr
        && eq_network a.target_addr.network b.target_addr.network)
    && same a.is_fallback b.is_fallback

abbrev pub InboundInfoOutTagPair : Type 0
InboundInfoOutTagPair = List InboundInfo × Text

unfoldable pub matches : InboundInfoOutTagPair → InboundInfo → Option Text
unfolding eq_info eq_opt_users eq_net_addr eq_socket
matches (infos, out_tag) r = if contains eq_info infos r then some out_tag else none

pub record InboundInfoOutSelector (O : Type 0) : Type 0 where
  pub outbounds_ruleset_vec : List InboundInfoOutTagPair
  pub outbounds_map : List (Text × O)
  pub ok_default : O
  pub fb_default : Option O

or_later : Option Text → Option Text → Option Text
or_later (some s) later = some s
or_later none later = later

-- The first pair that matches gives the tag.
first_tag : List InboundInfoOutTagPair → InboundInfo → Option Text
first_tag [] r = none
first_tag (rs ∷ rest) r = or_later (matches rs r) (first_tag rest r)

module _ {O D : Type 0} (get_user : D → Option Text) where
  -- `InboundInfoOutSelector::select`
  unfoldable pub select_info :
      InboundInfoOutSelector O → Bool → Addr → Text → List (Option D) → Option O
  unfolding first_tag or_later named_or found_or
  select_info s is_fallback addr in_chain_tag params =
      let r : InboundInfo = record {
        users = get_user_from_opt_data get_user params;
        in_tag = in_chain_tag;
        target_addr = addr;
        is_fallback = is_fallback;
      } in
      let out_tag = first_tag s.outbounds_ruleset_vec r in
      named_or (if is_fallback then s.fb_default else some s.ok_default) s.outbounds_map out_tag
