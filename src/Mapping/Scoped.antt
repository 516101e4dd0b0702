-- ===== src/Mapping/Scoped.antt =====
-- scope.rs: what a traffic scope is like that is accepted.
use dynet.Base.{
  ℕ, ◌-◌, ◌*◌, ◌/◌, ◌%◌, ◌^◌, ◌≤◌, ◌≡◌, ◌≢◌, refl, ◌⊎◌, inl, inr, Bool, true, false, List, [], ◌∷◌,
  Option, none, some, length, all, ltb, leb, ◌==◌, All, All-map, Distinct, Bool-cases, Option-cases,
  arith, sym,
}
use native.Mathlib.Omega.{div_any}
use dynet.Base.Net.{IpAddr, v4, v6, Bytes}
use dynet.Base.Order.{nat_ord, list_ord}
use dynet.Base.OrdMap.{OrdMap, get, insert}
use dynet.Base.Opt.{or_else}
use dynet.Base.Parse.{parse_ip, parse_unsigned, split_once}
use dynet.Base.Text.{Text}
use dynet.Base.OrdMap.Fresh.{Fresh, get-insert-none}
use dynet.Mapping.Scope.{
  TrafficScope, SourceFamily, v4_sources, v6_sources, is_interface_char, address_number,
  canonical_number, require_canonical_v4, require_canonical_v6, validate_interface, validate_cidr,
  validate_source, validate_each, validate_sources, validate_scope,
}

-- An address whose bits after the prefix are zero.
abbrev pub IsNetwork : ℕ → Bytes → ℕ → Type 0
IsNetwork width address prefix =
    (prefix ≤ width)
    × ((address_number address % 2 ^ (width - prefix) ≡ 0) ⊎ (address_number address ≡ 0))

-- The address and the prefix are of the family, and a network.
abbrev pub FamilyNetwork : SourceFamily → IpAddr → ℕ → Type 0
FamilyNetwork v4_sources (v4 address) prefix = IsNetwork 32 address prefix
FamilyNetwork v6_sources (v6 address) prefix = IsNetwork 128 address prefix
FamilyNetwork family ip prefix = ⊥

-- A source is the CIDR of a network of the family.
abbrev pub IsCidr : SourceFamily → Text → Type 0
IsCidr family source =
    (address : Text) × (prefix : Text) × (ip : IpAddr) × (bits : ℕ) × (split_once b'/' source
      ≡ some (address, prefix))
    × (parse_ip address ≡ some ip)
    × (parse_unsigned 256 prefix ≡ some bits)
    × FamilyNetwork family ip bits

-- Of a check that succeeds after another.
pub or_else-both : {A : Type 0} (a b : Option A) → or_else a b ≡ none → (a ≡ none) × (b ≡ none)
or_else-both none b h = (refl, h)
or_else-both (some a) b h = cc

multiple : (n m : ℕ) → n / m * m ≡ n → n % m ≡ 0
multiple n m h = omega (arith, div_any n m)

canonical-IsNetwork :
    (width prefix : ℕ) (address : Bytes)
    → leb prefix width ≡ true
    → canonical_number width prefix (address_number address) ≡ address_number address
    → IsNetwork width address prefix
canonical-IsNetwork width prefix address le h = elim (Bool-cases (prefix == 0)) [
  | inl z ↦ (ground (arith, le), inr (sym (rw z at h)))
  | inr z ↦ (
    ground (arith, le),
    inl (multiple (address_number address) (2 ^ (width - prefix)) (rw z at h)),
  )
]

eq_by_test : (a b : ℕ) → ((a == b) ≢ false) → a ≡ b
eq_by_test a b h = elim (Bool-cases (a == b)) [ inl e ↦ ground (arith, e) | inr e ↦ absurd (h e) ]

cidr-Network :
    (family : SourceFamily) (source : Text) (ip : IpAddr) (bits : ℕ)
    → validate_cidr family source ip bits ≡ none
    → FamilyNetwork family ip bits
unfolding validate_cidr require_canonical_v4 require_canonical_v6
cidr-Network v4_sources source (v4 address) bits h = elim (Bool-cases (leb bits 32)) [
  | inl le ↦
      canonical-IsNetwork 32 bits address le
        (eq_by_test _ _ (λ e. cc (rw (validate_cidr, le, require_canonical_v4, e) at h)))
  | inr gt ↦ cc (rw (validate_cidr, gt) at h)
]
cidr-Network v6_sources source (v6 address) bits h = elim (Bool-cases (leb bits 128)) [
  | inl le ↦
      canonical-IsNetwork 128 bits address le
        (eq_by_test _ _ (λ e. cc (rw (validate_cidr, le, require_canonical_v6, e) at h)))
  | inr gt ↦ cc (rw (validate_cidr, gt) at h)
]
cidr-Network v4_sources source (v6 address) bits h = cc
cidr-Network v6_sources source (v4 address) bits h = cc

validate_source-IsCidr :
    (family : SourceFamily) (source : Text)
    → validate_source family source ≡ none
    → IsCidr family source
unfolding validate_source
validate_source-IsCidr family source h = elim (Option-cases (split_once b'/' source)) [
  | inl s ↦ cc (rw (validate_source, s) at h)
  | inr ((address, prefix), s) ↦ elim (Option-cases (parse_ip address)) [
    | inl i ↦ cc (rw (validate_source, s, i) at h)
    | inr (ip, i) ↦ elim (Option-cases (parse_unsigned 256 prefix)) [
      | inl p ↦ cc (rw (validate_source, s, i, p) at h)
      | inr (bits, p) ↦ (
        address,
        prefix,
        ip,
        bits,
        s,
        i,
        p,
        cidr-Network family source ip bits (rw (validate_source, s, i, p) at h),
      )
    ]
  ]
]

each-Distinct :
    (family : SourceFamily) (sources : List Text) (unique : OrdMap Text (Unit {0}))
    → validate_each family sources unique ≡ none
    → All (IsCidr family) sources × Distinct sources × Fresh unique sources
unfolding validate_each
each-Distinct family [] unique h = (tt, tt, tt)
each-Distinct family (source ∷ sources) unique h =
    let (valid, rest) = or_else-both (validate_source family source) _ h in
    elim (Option-cases (get source unique)) [
      | inr (u, e) ↦ cc (rw e at rest)
      | inl e ↦
          let (cidrs, distinct, new) =
            each-Distinct family sources (insert source tt unique) (rw e at rest) in
          (
            (validate_source-IsCidr family source valid, cidrs),
            (All-map (λ j z. (get-insert-none source j unique z).0) sources new, distinct),
            (e, All-map (λ j z. (get-insert-none source j unique z).1) sources new),
          )
    ]

-- At most 64 sources, which are distinct, and CIDRs of networks of the family.
abbrev pub AreSources : SourceFamily → List Text → Type 0
AreSources family sources = (length sources ≤ 64) × All (IsCidr family) sources × Distinct sources

validate_sources-AreSources :
    (family : SourceFamily) (sources : List Text)
    → validate_sources family sources ≡ none
    → AreSources family sources
unfolding validate_sources
validate_sources-AreSources family sources h = elim (Bool-cases (ltb 64 (length sources))) [
  | inl e ↦ cc (rw (validate_sources, e) at h)
  | inr e ↦
      let (cidrs, distinct, new) =
        each-Distinct family sources [] (rw (validate_sources, e) at h) in
      (ground (arith, e), cidrs, distinct)
]

-- A scope that is accepted.
pub record IsScope (ipv6_enabled : Bool) (scope : TrafficScope) : Type 0 where
  pub named : (1 ≤ length scope.interface) × (length scope.interface ≤ 15)
  pub plain : all is_interface_char scope.interface ≡ true
  pub ipv4 : AreSources v4_sources scope.ipv4_sources
  pub ipv6 : AreSources v6_sources scope.ipv6_sources
  pub some_ipv4 : 1 ≤ length scope.ipv4_sources
  pub some_ipv6 : ipv6_enabled ≡ true → 1 ≤ length scope.ipv6_sources

validate_interface-ok :
    (interface : Text)
    → validate_interface interface ≡ none
    → (1 ≤ length interface) × (length interface ≤ 15) × (all is_interface_char interface ≡ true)
unfolding validate_interface
validate_interface-ok interface h = ground (arith, h)

pub validate_scope-IsScope :
    (ipv6_enabled : Bool) (scope : TrafficScope)
    → validate_scope ipv6_enabled scope ≡ none
    → IsScope ipv6_enabled scope
unfolding validate_scope
validate_scope-IsScope ipv6_enabled scope h =
    let (i, h1) = or_else-both (validate_interface scope.interface) _ h in
    let (low_sources, h2) = or_else-both (validate_sources v4_sources scope.ipv4_sources) _ h1 in
    let (high_sources, h3) = or_else-both (validate_sources v6_sources scope.ipv6_sources) _ h2 in
    let (low, high, plain) = validate_interface-ok scope.interface i in
    record {
      named = (low, high);
      plain = plain;
      ipv4 = validate_sources-AreSources v4_sources scope.ipv4_sources low_sources;
      ipv6 = validate_sources-AreSources v6_sources scope.ipv6_sources high_sources;
      some_ipv4 = ground (arith, h3);
      some_ipv6 = ground (arith, h3);
    }
