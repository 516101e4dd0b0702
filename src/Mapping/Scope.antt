-- ===== src/Mapping/Scope.antt =====
-- crates/dynet-capture/src/linux/scope.rs: which interface and sources the optional Linux rules may
-- name. The messages of the errors are data. A check
-- gives the error, if there is one.
use dynet.Base.{
  ℕ, ◌+◌, ◌-◌, ◌*◌, ◌/◌, ◌^◌, Bool, ◌&&◌, ◌||◌, List, [], ◌∷◌, Option, none, some, length, all, ltb,
  leb, ◌==◌, if◌then◌else◌,
}
use mathlib.Core.List.{foldl}
use dynet.Base.Net.{IpAddr, v4, v6, Bytes}
use dynet.Base.Order.{nat_ord, list_ord}
use dynet.Base.OrdMap.{OrdMap, get, insert}
use dynet.Base.Opt.{or_else}
use dynet.Base.Parse.{parse_ip, parse_unsigned, split_once}
use dynet.Base.Text.{Text}

pub record TrafficScope : Type 0 where
  pub interface : Text
  pub ipv4_sources : List Text
  pub ipv6_sources : List Text

-- `IpFamily` of this file.
pub data SourceFamily : Type 0 where
  v4_sources v6_sources : SourceFamily

pub data ScopeError : Type 0 where
  bad_interface no_ipv4_source no_ipv6_source : ScopeError
  too_many_sources : SourceFamily → ScopeError
  duplicate_source no_cidr bad_address bad_prefix wrong_family prefix_range host_bits :
      SourceFamily → Text → ScopeError

abbrev pub max_source_selectors : ℕ
max_source_selectors = 64

-- `is_ascii_alphanumeric() || "_.:-".contains(value)`
abbrev pub is_interface_char : ℕ → Bool
is_interface_char c =
    (leb b'0' c && leb c b'9')
    || (leb b'A' c && leb c b'Z')
    || (leb b'a' c && leb c b'z')
    || c == b'_'
    || c == b'.'
    || c == b':'
    || c == b'-'

unfoldable pub validate_interface : Text → Option ScopeError
validate_interface interface =
    if length interface == 0 || ltb 15 (length interface)
    then some bad_interface
    else if all is_interface_char interface
    then none
    else some bad_interface

-- `u32::from` and `u128::from` of an address.
abbrev pub address_number : Bytes → ℕ
address_number octets = foldl (λ n octet. n * 256 + octet) 0 octets

-- `number & mask`, with the mask of so many leading ones among `width` bits.
abbrev pub canonical_number : ℕ → ℕ → ℕ → ℕ
canonical_number width prefix number =
    if prefix == 0 then 0 else number / 2 ^ (width - prefix) * 2 ^ (width - prefix)

unfoldable pub require_canonical_v4 : Text → Bytes → ℕ → Option ScopeError
require_canonical_v4 source address prefix =
    if canonical_number 32 prefix (address_number address) == address_number address
    then none
    else some (host_bits v4_sources source)

unfoldable pub require_canonical_v6 : Text → Bytes → ℕ → Option ScopeError
require_canonical_v6 source address prefix =
    if canonical_number 128 prefix (address_number address) == address_number address
    then none
    else some (host_bits v6_sources source)

-- The address and the prefix of a source, by the family that is wanted.
unfoldable pub validate_cidr : SourceFamily → Text → IpAddr → ℕ → Option ScopeError
validate_cidr v4_sources source (v4 address) prefix =
    if leb prefix 32
    then require_canonical_v4 source address prefix
    else some (prefix_range v4_sources source)
validate_cidr v6_sources source (v6 address) prefix =
    if leb prefix 128
    then require_canonical_v6 source address prefix
    else some (prefix_range v6_sources source)
validate_cidr v4_sources source (v6 address) prefix = some (wrong_family v4_sources source)
validate_cidr v6_sources source (v4 address) prefix = some (wrong_family v6_sources source)

unfoldable pub validate_source : SourceFamily → Text → Option ScopeError
validate_source family source = elim (split_once b'/' source) [
  | none ↦ some (no_cidr family source)
  | some (address, prefix) ↦ elim (parse_ip address) [
    | none ↦ some (bad_address family source)
    | some ip ↦ elim (parse_unsigned 256 prefix) [
      | none ↦ some (bad_prefix family source)
      | some bits ↦ validate_cidr family source ip bits
    ]
  ]
]

-- The loop of `validate_sources`.
unfoldable pub validate_each : SourceFamily → List Text → OrdMap Text (Unit {0}) → Option ScopeError
validate_each family [] unique = none
validate_each family (source ∷ sources) unique =
    or_else (validate_source family source) (elim (get source unique) [
      | none ↦ validate_each family sources (insert source tt unique)
      | some _ ↦ some (duplicate_source family source)
    ])

unfoldable pub validate_sources : SourceFamily → List Text → Option ScopeError
validate_sources family sources =
    if ltb max_source_selectors (length sources)
    then some (too_many_sources family)
    else validate_each family sources []

-- `TrafficScope::validate`
unfoldable pub validate_scope : Bool → TrafficScope → Option ScopeError
validate_scope ipv6_enabled scope = or_else (validate_interface scope.interface) (
    or_else (validate_sources v4_sources scope.ipv4_sources) (
      or_else (validate_sources v6_sources scope.ipv6_sources) (
        if length scope.ipv4_sources == 0
        then some no_ipv4_source
        else if ipv6_enabled && length scope.ipv6_sources == 0
        then some no_ipv6_source
        else none)))
