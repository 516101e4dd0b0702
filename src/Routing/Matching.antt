-- ===== src/Routing/Matching.antt =====
-- `RouteMatcher::matches` of model.rs and `RouteRuleStore` of stores.rs: rules in the order of their
-- priority, and the first enabled one that matches a target.
pub mod Best
use dynet.Base.{
  ℕ, ◌≡◌, refl, Bool, true, false, ◌&&◌, ◌||◌, List, [], ◌∷◌, ◌++◌, Option, none, some, find, keep,
  All, if◌then◌else◌, arith,
}
use Prim.Native.Nat.{Ordering}
use dynet.Base.Int.{int_ord}
use dynet.Base.Net.{IpAddr, v4, v6}
use dynet.Base.Order.{Ord, nat_ord, list_ord, cmp, eqb, then_with, is_le}
use dynet.Base.Sort.{sort_by}
use dynet.Base.Opt.{is_some_and}
use dynet.Base.Text.{Text, text, to_ascii_lowercase, eq_ignore_ascii_case, ends_with}
use dynet.Routing.Types.{
  RouteMatcher, domain_exact, domain_suffix, ip_exact, ip_cidr, RouteRule, TargetContext,
  RouteMatch, inherit,
}
use dynet.Routing.Cidr.{ip_matches_cidr}

unfoldable pub same_ip : IpAddr → IpAddr → Bool
same_ip (v4 a) (v4 b) = eqb a b
same_ip (v6 a) (v6 b) = eqb a b
same_ip _ _ = false

abbrev pub suffix_matches : Text → Text → Bool
suffix_matches suffix domain =
    eq_ignore_ascii_case domain suffix
    || ends_with (to_ascii_lowercase domain) (b'.' ∷ to_ascii_lowercase suffix)

unfoldable pub matches : RouteMatcher → TargetContext → Bool
unfolding same_ip
matches (domain_exact domain) target =
    is_some_and (λ target_domain. eq_ignore_ascii_case target_domain domain) target.domain
matches (domain_suffix suffix) target = is_some_and (suffix_matches suffix) target.domain
matches (ip_exact address) target = same_ip target.address.ip address
matches (ip_cidr cidr) target = ip_matches_cidr target.address.ip cidr

abbrev pub RouteRuleStore : Type 0
RouteRuleStore = List RouteRule

-- Higher priorities first; rules of one priority by their ids.
abbrev pub rule_order : RouteRule → RouteRule → Ordering
rule_order left right = then_with (cmp right.priority left.priority) (cmp left.id right.id)

unfoldable pub from_rules : List RouteRule → RouteRuleStore
unfolding sort_by
from_rules rules = sort_by rule_order rules

abbrev pub applies : TargetContext → RouteRule → Bool
applies target rule = rule.enabled && matches rule.matcher target

unfoldable pub route_match : Option RouteRule → RouteMatch
route_match none = record { group_id = none; rule_id = none; ipv6_policy = inherit }
route_match (some rule) = record {
  group_id = some rule.group_id;
  rule_id = some rule.id;
  ipv6_policy = rule.ipv6_policy;
}

unfoldable pub match_group : RouteRuleStore → TargetContext → RouteMatch
unfolding route_match
match_group rules target =
    route_match (find (λ rule. matches rule.matcher target) (keep (λ rule. rule.enabled) rules))
