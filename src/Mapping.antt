-- ===== src/Mapping.antt =====
-- crates/dynet-capture/src/linux/dns_mapping.rs: the optional mapping of a router's DNS port, which
-- dynet applies and removes by commands. The system is what a command is answered after all the
-- commands before it, and the state is the list of these. Messages are data.
pub mod Scope
pub mod Status
pub mod Apply
pub mod Answers
pub mod Applied
pub mod Removed
pub mod Scoped
pub mod Bounded
pub mod Tests
use dynet.Base.{
  ℕ, Bool, true, false, not, ◌&&◌, ◌||◌, List, [], ◌∷◌, ◌++◌, map, Option, none, some, length, any,
  all, take, ◌==◌, if◌then◌else◌,
}
use dynet.Base.Net.{SocketAddr, IpAddr, v4, v6}
use dynet.Base.Opt.{or_else, map_option}
use dynet.Base.Order.{nat_ord, list_ord, eqb}
use dynet.Base.Outcome.{Outcome, ok, err, panic, ◌>>=◌}
use dynet.Base.Parse.{split_once, show_unsigned}
use dynet.Base.Text.{Text, text}
use dynet.Base.Trim.{split_on}
use dynet.Mapping.Scope.{TrafficScope, ScopeError, validate_scope}

pub record DnsMappingOptions : Type 0 where
  pub scope : TrafficScope
  pub source_port : ℕ
  pub target : SocketAddr
  pub ipv6_enabled : Bool

pub data CheckState : Type 0 where
  ready missing_auto_creatable missing_hard_fail invalid_hard_fail : CheckState

pub record CommandOutput : Type 0 where
  pub success : Bool
  pub stdout : Text
  pub stderr : Text

pub record Command : Type 0 where
  pub command : Text
  pub args : List Text

abbrev pub Log : Type 0
Log = List Command

-- What a command gives: its output, or why it could not be run.
pub data Answer : Type 0 where
  output : CommandOutput → Answer
  not_started : Text → Answer

-- `SystemRunner`: what the system answers a command, after the commands that were run before.
abbrev pub SystemRunner : Type 0
SystemRunner = Log → Command → Answer

-- Why a command that has to succeed did not.
pub data CommandError : Type 0 where
  not_run : Text → CommandError
  failed : Command → Text → CommandError

pub data MappingError : Type 0 where
  scope_error : ScopeError → MappingError
  zero_port same_port not_unspecified wants_ipv6 wants_ipv4 : MappingError
  no_skeleton no_interface : CheckState → MappingError
  foreign_chain status_failed no_owner_marker : MappingError
  command_error rolled_back : CommandError → MappingError
  rollback_failed : CommandError → CommandError → MappingError

pub data Action : Type 0 where
  created_chain deleted_chain : Action
  mapped_port : ℕ → Text → ℕ → Action

-- A call that runs commands: its result, and all the commands that were run.
abbrev pub Ran : Type 0 → Type 0 → Type 0
Ran E A = Outcome E A × Log

abbrev pub is_unspecified : IpAddr → Bool
is_unspecified (v4 octets) = all (λ octet. octet == 0) octets
is_unspecified (v6 octets) = all (λ octet. octet == 0) octets

abbrev pub is_ipv6 : IpAddr → Bool
is_ipv6 (v4 octets) = false
is_ipv6 (v6 octets) = true

-- `DnsMappingOptions::validate`: the error, if there is one.
unfoldable pub validate_options : DnsMappingOptions → Option MappingError
validate_options options =
    or_else (map_option scope_error (validate_scope options.ipv6_enabled options.scope)) (
      if options.source_port == 0 || options.target.port == 0
      then some zero_port
      else if options.source_port == options.target.port
      then some same_port
      else if not (is_unspecified options.target.ip)
      then some not_unspecified
      else if options.ipv6_enabled && not (is_ipv6 options.target.ip)
      then some wants_ipv6
      else if not options.ipv6_enabled && is_ipv6 options.target.ip
      then some wants_ipv4
      else none)

abbrev pub starts_with : Text → Text → Bool
starts_with [] t = true
starts_with (p ∷ ps) [] = false
starts_with (p ∷ ps) (c ∷ t) = p == c && starts_with ps t

-- `str::contains`
unfoldable pub contains : Text → Text → Bool
contains [] part = starts_with part []
contains (c ∷ t) part = starts_with part (c ∷ t) || contains t part

abbrev without_return : Text → Text
without_return [] = []
without_return (c ∷ []) = if c == 13 then [] else c ∷ []
without_return (c ∷ d ∷ t) = c ∷ without_return (d ∷ t)

-- What is behind the last line feed is a line if it is not empty, and keeps a carriage return.
abbrev complete : List Text → List Text
complete [] = []
complete ([] ∷ []) = []
complete ((c ∷ t) ∷ []) = (c ∷ t) ∷ []
complete (part ∷ next ∷ parts) = without_return part ∷ complete (next ∷ parts)

-- `str::lines`
unfoldable pub lines : Text → List Text
lines t = complete (split_on 10 t)

abbrev pub nft : List Text → Command
nft args = record { command = text "nft"; args = args }

abbrev pub list_table : Command
list_table = nft (text "list" ∷ text "table" ∷ text "inet" ∷ text "dynet" ∷ [])

abbrev pub list_chain : Command
list_chain =
    nft (text "list" ∷ text "chain" ∷ text "inet" ∷ text "dynet" ∷ text "dynet_dns_mapping" ∷ [])

abbrev pub delete_chain : Command
delete_chain =
    nft (text "delete" ∷ text "chain" ∷ text "inet" ∷ text "dynet" ∷ text "dynet_dns_mapping" ∷ [])

abbrev pub link_show : DnsMappingOptions → Command
link_show options = record {
  command = text "ip";
  args = text "link" ∷ text "show" ∷ text "dev" ∷ options.scope.interface ∷ [];
}

abbrev pub quoted : Text → Text
quoted t = 34 ∷ t ++ 34 ∷ []

abbrev pub add_chain : Command
add_chain = nft (
    text "add"
    ∷ text "chain"
    ∷ text "inet"
    ∷ text "dynet"
    ∷ text "dynet_dns_mapping"
    ∷ text "{"
    ∷ text "type"
    ∷ text "nat"
    ∷ text "hook"
    ∷ text "prerouting"
    ∷ text "priority"
    ∷ text "-100;"
    ∷ text "policy"
    ∷ text "accept;"
    ∷ text "comment"
    ∷ (quoted (text "dynet-owned: dns-mapping:v1") ++ text ";")
    ∷ text "}"
    ∷ [])
