-- ===== src/Seed.antt =====
-- crates/dynet-runtime/src/persistence/validation.rs: which seeds the database takes. The messages of
-- the errors are data.
pub mod Names
pub mod Chains
pub mod Sound
pub mod Tables
pub mod Routes
pub mod Refusals
pub mod Flows
pub mod InForce
pub mod Tests
use dynet.Base.{
  ℕ, zero, suc, ◌+◌, Bool, true, false, not, ◌&&◌, ◌!=◌, List, [], ◌∷◌, map, Option, none, some,
  find, any, length, ◌==◌, if◌then◌else◌,
}
use dynet.Base.Order.{nat_ord, list_ord, eqb}
use dynet.Base.OrdMap.{OrdMap, get, insert}
use dynet.Base.Outcome.{Outcome, ok, err, panic, ok_or, ◌>>=◌, ◌>>◌}
use dynet.Base.Text.{Text, text}
use dynet.Base.Trim.{trim}
use dynet.Routing.Types.{
  NodeId, GroupId, RuleId, ForwardNode, ForwardGroup, GroupMember, RouteRule, next_label,
}
use dynet.Routing.Dns.{DnsUpstreamId, DnsUpstream, DnsRacePolicy, udp, https, DnsHttpsEndpoint}
use dynet.Runtime.{RuntimeSeed}

-- The messages of `InvalidBootstrap` and of `InvalidDnsUpstream`, with the names they print.
pub data BootstrapMessage : Type 0 where
  reserved_node reserved_group : BootstrapMessage
  duplicate_name : Text → BootstrapMessage
  duplicate_rule : RuleId → BootstrapMessage
  duplicate_upstream : DnsUpstreamId → BootstrapMessage
  no_nodes no_enabled_upstream zero_timeout : BootstrapMessage
  default_missing default_disabled default_without_member : GroupId → BootstrapMessage
  member_without_group : GroupId → BootstrapMessage
  member_without_node : NodeId → BootstrapMessage
  rule_without_group : RuleId → GroupId → BootstrapMessage
  next_disabled_node next_disabled_group next_undeclared : GroupId → Text → BootstrapMessage
  next_cycle : Text → BootstrapMessage

pub data DnsUpstreamMessage : Type 0 where
  empty_host bad_path : DnsUpstreamMessage

-- The errors that the validation gives.
pub data RuntimeStoreError : Type 0 where
  invalid_bootstrap : BootstrapMessage → RuntimeStoreError
  invalid_dns_upstream : DnsUpstreamId → DnsUpstreamMessage → RuntimeStoreError

abbrev pub Checked : Type 0 → Type 0
Checked A = Outcome RuntimeStoreError A

abbrev pub Names : Type 0
Names = OrdMap Text (Unit {0})

-- `for x in xs { check(x)?; }`
abbrev pub each : {A : Type 0} → (A → Checked (Unit {0})) → List A → Checked (Unit {0})
each check [] = ok tt
each check (x ∷ xs) = check x >>= λ done. each check xs

-- `if !names.insert(id) { return Err(…) }`
unfoldable pub add_name : BootstrapMessage → Text → Names → Checked Names
add_name duplicated id names = elim (get id names) [
  | none ↦ ok (insert id tt names)
  | some _ ↦ err (invalid_bootstrap duplicated)
]

-- The loops over nodes and over groups, which have a reserved name.
unfoldable pub add_forwarding_names : BootstrapMessage → List Text → Names → Checked Names
add_forwarding_names reserved [] names = ok names
add_forwarding_names reserved (id ∷ ids) names = elim (eqb id (text "direct")) [
  | true ↦ err (invalid_bootstrap reserved)
  | false ↦ add_name (duplicate_name id) id names >>= λ more. add_forwarding_names reserved ids more
]

-- The loops over rules and over upstreams.
unfoldable pub add_ids : (Text → BootstrapMessage) → List Text → Names → Checked Names
add_ids duplicated [] names = ok names
add_ids duplicated (id ∷ ids) names =
    add_name (duplicated id) id names >>= λ more. add_ids duplicated ids more

unfoldable pub validate_unique_rule_ids : List RouteRule → Checked (Unit {0})
validate_unique_rule_ids rules =
    add_ids duplicate_rule (map (λ rule. rule.id) rules) [] >>= λ names. ok tt

unfoldable pub validate_unique_dns_ids : List DnsUpstream → Checked (Unit {0})
validate_unique_dns_ids upstreams =
    add_ids duplicate_upstream (map (λ upstream. upstream.id) upstreams) [] >>= λ names. ok tt

unfoldable pub validate_unique_ids :
    List ForwardNode → List ForwardGroup → List RouteRule → List DnsUpstream → Checked (Unit {0})
validate_unique_ids nodes groups rules upstreams =
    add_forwarding_names reserved_node (map (λ node. node.id) nodes) [] >>= λ names.
    add_forwarding_names reserved_group (map (λ group. group.id) groups) names >>= λ all.
    validate_unique_rule_ids rules >>= λ done. validate_unique_dns_ids upstreams

abbrev pub find_group : List ForwardGroup → Text → Option ForwardGroup
find_group groups id = find (λ group. eqb group.id id) groups

abbrev pub find_node : List ForwardNode → Text → Option ForwardNode
find_node nodes id = find (λ node. eqb node.id id) nodes

abbrev pub require : Bool → BootstrapMessage → Checked (Unit {0})
require condition e = if condition then ok tt else err (invalid_bootstrap e)

unfoldable pub validate_group_next_reference :
    List ForwardNode → List ForwardGroup → ForwardGroup → Checked (Unit {0})
validate_group_next_reference nodes groups group =
    let next = next_label group.next in
    elim (eqb next (text "direct")) [
      | true ↦ ok tt
      | false ↦ elim (find_node nodes next) [
        | some node ↦ require node.enabled (next_disabled_node group.id next)
        | none ↦ elim (find_group groups next) [
          | some other ↦ require other.enabled (next_disabled_group group.id next)
          | none ↦ err (invalid_bootstrap (next_undeclared group.id next))
        ]
      ]
    ]

-- The loop of `validate_group_next_cycle`; `none` means that the fuel ran out.
unfoldable pub follow :
    ℕ → List ForwardNode → List ForwardGroup → Text → Names → Option (Checked (Unit {0}))
follow zero nodes groups current seen = none
follow (suc fuel) nodes groups current seen = elim (get current seen) [
  | some _ ↦ some (err (invalid_bootstrap (next_cycle current)))
  | none ↦ elim (find_group groups current) [
    | none ↦ some (ok tt)
    | some group ↦
        let next = next_label group.next in
        elim (eqb next (text "direct")) [
          | true ↦ some (ok tt)
          | false ↦ elim (any (λ node. eqb node.id next) nodes) [
            | true ↦ some (ok tt)
            | false ↦ follow fuel nodes groups next (insert current tt seen)
          ]
        ]
  ]
]

-- A loop that is out of fuel counts as a panic.
abbrev pub ended : Option (Checked (Unit {0})) → Checked (Unit {0})
ended none = panic
ended (some r) = r

unfoldable pub validate_group_next_cycle :
    List ForwardNode → List ForwardGroup → Text → Checked (Unit {0})
validate_group_next_cycle nodes groups start =
    ended (follow (length groups + 2) nodes groups start [])

unfoldable pub validate_group_next_refs : List ForwardNode → List ForwardGroup → Checked (Unit {0})
validate_group_next_refs nodes groups =
    each (validate_group_next_reference nodes groups) groups >>= λ done.
    each (λ group. validate_group_next_cycle nodes groups group.id) groups

unfoldable pub validate_member :
    List ForwardNode → List ForwardGroup → GroupMember → Checked (Unit {0})
validate_member nodes groups member =
    if any (λ group. eqb group.id member.group_id) groups
    then (if any (λ node. eqb node.id member.node_id) nodes
        then ok tt
        else err (invalid_bootstrap (member_without_node member.node_id)))
    else err (invalid_bootstrap (member_without_group member.group_id))

unfoldable pub validate_rule : List ForwardGroup → RouteRule → Checked (Unit {0})
validate_rule groups rule =
    if any (λ group. eqb group.id rule.group_id) groups
    then ok tt
    else err (invalid_bootstrap (rule_without_group rule.id rule.group_id))

unfoldable pub validate_references :
    List ForwardNode → List ForwardGroup → List GroupMember → List RouteRule → Checked (Unit {0})
validate_references nodes groups members rules =
    each (validate_member nodes groups) members >>= λ done.
    each (validate_rule groups) rules >>= λ done_rules. validate_group_next_refs nodes groups

abbrev pub starts_with_slash : Text → Bool
starts_with_slash [] = false
starts_with_slash (c ∷ t) = c == b'/'

abbrev pub is_empty : Text → Bool
is_empty [] = true
is_empty (c ∷ t) = false

unfoldable pub validate_dns_upstream : DnsUpstream → Checked (Unit {0})
validate_dns_upstream upstream = elim upstream.transport [
  | udp ↦ ok tt
  | https endpoint ↦
      if is_empty (trim endpoint.host)
      then err (invalid_dns_upstream upstream.id empty_host)
      else if starts_with_slash endpoint.path
      then ok tt
      else err (invalid_dns_upstream upstream.id bad_path)
]

-- The default group of a seed is there, enabled, and has an enabled member.
unfoldable pub validate_default : RuntimeSeed → Checked (Unit {0})
validate_default seed = elim (find_group seed.groups seed.default_group_id) [
  | none ↦ err (invalid_bootstrap (default_missing seed.default_group_id))
  | some group ↦
      if group.enabled
      then (if any (λ member. eqb member.group_id seed.default_group_id && member.enabled)
            seed.group_members
          then ok tt
          else err (invalid_bootstrap (default_without_member seed.default_group_id)))
      else err (invalid_bootstrap (default_disabled seed.default_group_id))
]

abbrev pub no_node : List ForwardNode → Bool
no_node [] = true
no_node (n ∷ ns) = false

-- `validate_seed` and `validate_bootstrap`.
unfoldable pub validate_seed : RuntimeSeed → Checked (Unit {0})
validate_seed seed =
    validate_unique_ids seed.nodes seed.groups seed.route_rules seed.dns_upstreams >>= λ unique.
    require (not (no_node seed.nodes)) no_nodes >>= λ some_node.
    validate_default seed >>= λ default.
    validate_references seed.nodes seed.groups seed.group_members seed.route_rules >>= λ references.
    require (any (λ upstream. upstream.enabled) seed.dns_upstreams) no_enabled_upstream
    >>= λ enabled. each validate_dns_upstream seed.dns_upstreams >>= λ upstreams.
        require (seed.dns_policy.timeout != 0) zero_timeout
