-- ===== src/Mapping/Bounded.antt =====
-- dns_mapping.rs: what options are like that are accepted, and how many rules they make.
use dynet.Base.{
  ℕ, ◌+◌, ◌*◌, ◌≤◌, ◌≡◌, ◌≢◌, refl, inl, inr, Bool, true, false, ◌&&◌, ◌||◌, not, List, [], ◌∷◌,
  Option, none, some, length, ◌==◌, if◌then◌else◌, Bool-cases, arith, ◌∙◌, length-append,
}
use dynet.Base.Order.{nat_ord, list_ord}
use dynet.Base.Opt.{map_option}
use dynet.Base.Text.{Text, text}
use dynet.Mapping.Scope.{validate_scope}
use dynet.Mapping.Scoped.{or_else-both, IsScope, validate_scope-IsScope}
use dynet.Mapping.{
  zero_port, same_port, not_unspecified, wants_ipv6, wants_ipv4, scope_error, is_unspecified,
  is_ipv6, DnsMappingOptions, validate_options,
}
use dynet.Mapping.Apply.{family_rules, source_rules, mapping_rules}

map_option-none : {A B : Type 0} (f : A → B) (o : Option A) → map_option f o ≡ none → o ≡ none
map_option-none f none h = refl
map_option-none f (some a) h = cc

length-source_rules :
    (options : DnsMappingOptions) (nfproto family : Text) (sources : List Text)
    → length (source_rules options nfproto family sources) ≡ 2 * length sources
length-source_rules options nfproto family [] = refl
length-source_rules options nfproto family (source ∷ sources) =
    omega (arith, length-source_rules options nfproto family sources)

ipv6_part :
    (options : DnsMappingOptions)
    → length (
        family_rules options (
          if options.ipv6_enabled
          then (text "ipv6", text "ip6", options.scope.ipv6_sources) ∷ []
          else []))
      ≡ (if options.ipv6_enabled then 2 * length options.scope.ipv6_sources else 0)
ipv6_part options = elim (Bool-cases options.ipv6_enabled) [
  | inl e ↦ rw e (
      length-append (source_rules options (text "ipv6") (text "ip6") options.scope.ipv6_sources) []
      ∙ omega (
        arith,
        length-source_rules options (text "ipv6") (text "ip6") options.scope.ipv6_sources,
      ))
  | inr e ↦ rw e refl
]

ap2_add : {a b c d : ℕ} → a ≡ b → c ≡ d → a + c ≡ b + d
ap2_add p q = omega arith

bound :
    (unspecified v6_target ipv6_enabled : Bool)
    → (if not unspecified
        then some not_unspecified
        else if ipv6_enabled && not v6_target
        then some wants_ipv6
        else if not ipv6_enabled && v6_target
        then some wants_ipv4
        else none)
      ≡ none
    → (unspecified ≡ true) × (v6_target ≡ ipv6_enabled)
bound false v6_target ipv6_enabled h = cc
bound true true true h = (refl, refl)
bound true false false h = (refl, refl)
bound true false true h = cc
bound true true false h = cc

ports-ok :
    (source target : ℕ) (unspecified v6_target ipv6_enabled : Bool)
    → (if source == 0 || target == 0
        then some zero_port
        else if source == target
        then some same_port
        else if not unspecified
        then some not_unspecified
        else if ipv6_enabled && not v6_target
        then some wants_ipv6
        else if not ipv6_enabled && v6_target
        then some wants_ipv4
        else none)
      ≡ none
    → (source ≢ 0)
      × (target ≢ 0)
      × (source ≢ target)
      × (unspecified ≡ true)
      × (v6_target ≡ ipv6_enabled)
ports-ok source target unspecified v6_target ipv6_enabled h =
    elim (Bool-cases (source == 0 || target == 0)) [
      | inl z ↦ cc (rw z at h)
      | inr z ↦ elim (Bool-cases (source == target)) [
        | inl e ↦ cc (rw (z, e) at h)
        | inr e ↦ (
          λ a. ground (arith, z, a),
          λ a. ground (arith, z, a),
          λ a. ground (arith, e, a),
          (bound unspecified v6_target ipv6_enabled (rw (z, e) at h)).0,
          (bound unspecified v6_target ipv6_enabled (rw (z, e) at h)).1,
        )
      ]
    ]

-- Two rules for each source of the families that are mapped.
length-mapping_rules :
    (options : DnsMappingOptions)
    → length (mapping_rules options)
      ≡ 2 * length options.scope.ipv4_sources
        + (if options.ipv6_enabled then 2 * length options.scope.ipv6_sources else 0)
unfolding mapping_rules
length-mapping_rules options =
    length-append (source_rules options (text "ipv4") (text "ip") options.scope.ipv4_sources) (
      family_rules options (
        if options.ipv6_enabled
        then (text "ipv6", text "ip6", options.scope.ipv6_sources) ∷ []
        else []))
    ∙ ap2_add (length-source_rules options (text "ipv4") (text "ip") options.scope.ipv4_sources)
        (ipv6_part options)

-- Options that are accepted.
pub record IsMapping (options : DnsMappingOptions) : Type 0 where
  pub scope : IsScope options.ipv6_enabled options.scope
  pub from_port : options.source_port ≢ 0
  pub to_port : options.target.port ≢ 0
  pub ports_differ : options.source_port ≢ options.target.port
  pub unspecified : is_unspecified options.target.ip ≡ true
  pub family : is_ipv6 options.target.ip ≡ options.ipv6_enabled
  pub some_rule : 2 ≤ length (mapping_rules options)
  pub few_rules : length (mapping_rules options) ≤ 256

-- Options that are accepted name an interface by up to 15 plain characters and, for each family, up to
-- 64 distinct texts, each the CIDR of a network of that family without host bits; the ports are not
-- zero and differ, the listener is bound to the unspecified address of the right family, and there are
-- at least two and at most 256 rules.
pub validate_options-IsMapping :
    (options : DnsMappingOptions) → validate_options options ≡ none → IsMapping options
unfolding validate_options
validate_options-IsMapping options h =
    let (scoped, rest) =
      or_else-both (map_option scope_error (validate_scope options.ipv6_enabled options.scope)) _
        h in
    let scope =
      validate_scope-IsScope options.ipv6_enabled options.scope
        (map_option-none scope_error _ scoped) in
    let (from, to, differ, unspecified, family) =
      ports-ok options.source_port options.target.port (is_unspecified options.target.ip)
        (is_ipv6 options.target.ip) options.ipv6_enabled rest in
    record {
      scope = scope;
      from_port = from;
      to_port = to;
      ports_differ = differ;
      unspecified = unspecified;
      family = family;
      some_rule = ground (arith, length-mapping_rules options, scope.some_ipv4);
      few_rules = ground (arith, length-mapping_rules options, scope.ipv4.0, scope.ipv6.0);
    }
