-- ===== src/Mapping/Status.antt =====
-- dns_mapping.rs, linux.rs and linux/nft.rs: what is found of the table, of the interface and of the
-- mapping.
use dynet.Base.{
  Bool, false, not, ◌&&◌, ◌||◌, List, [], ◌∷◌, ◌++◌, Option, none, some, any, all, if◌then◌else◌,
}
use dynet.Base.Order.{nat_ord, list_ord, eqb}
use dynet.Base.Parse.{split_once, show_unsigned}
use dynet.Base.Text.{Text, text}
use dynet.Mapping.{
  Answer, CheckState, Command, CommandError, DnsMappingOptions, Log, SystemRunner, contains, failed,
  invalid_hard_fail, lines, link_show, list_chain, list_table, missing_auto_creatable,
  missing_hard_fail, not_run, not_started, output, quoted, ready,
}

-- `run_required` of linux/nft.rs: the error, if there is one.
unfoldable pub run_required : SystemRunner → Command → Log → Option CommandError × Log
run_required runner c log = (
  elim (runner log c) [
    | output o ↦ if o.success then none else some (failed c o.stderr)
    | not_started e ↦ some (not_run e)
  ],
  log ++ c ∷ [],
)

-- The state that `owned_nft_check` of linux.rs finds.
unfoldable pub owned_nft_check : Text → Answer → CheckState
owned_nft_check owner_marker (output o) =
    if o.success
    then (if contains o.stdout owner_marker then ready else invalid_hard_fail)
    else missing_auto_creatable
owned_nft_check owner_marker (not_started e) = missing_hard_fail

-- `nft_status` of linux.rs.
unfoldable pub nft_status : SystemRunner → Log → CheckState × Log
nft_status runner log = (
  owned_nft_check (text "dynet-owned: runtime-skeleton:v1") (runner log list_table),
  log ++ list_table ∷ [],
)

-- The protocol families of a mapping: what nft calls them, and the sources.
abbrev pub families : DnsMappingOptions → List (Text × Text × List Text)
families options =
    (text "ipv4", text "ip", options.scope.ipv4_sources)
    ∷ (if options.ipv6_enabled
        then (text "ipv6", text "ip6", options.scope.ipv6_sources) ∷ []
        else [])

abbrev pub protocols : List Text
protocols = text "udp" ∷ text "tcp" ∷ []

unfoldable pub source_matches : Text → Text → Text → Bool
source_matches line family source =
    contains line (family ++ text " saddr " ++ source) || elim (split_once b'/' source) [
      | none ↦ false
      | some (address, prefix) ↦
          ((eqb family (text "ip") && eqb prefix (text "32"))
            || (eqb family (text "ip6") && eqb prefix (text "128")))
          && contains line (family ++ text " saddr " ++ address)
    ]

-- A line of the listing that is the rule of a source and a protocol.
unfoldable pub is_rule_line : DnsMappingOptions → Text → Text → Text → Text → Text → Bool
is_rule_line options nfproto family source protocol line =
    contains line (text "iifname " ++ quoted options.scope.interface)
    && source_matches line family source
    && (contains line (text "meta nfproto " ++ nfproto) || contains line (family ++ text " saddr"))
    && contains line (protocol ++ text " dport " ++ show_unsigned options.source_port)
    && contains line (text "meta mark set meta mark & 0xbfffffff")
    && contains line (text "redirect to :" ++ show_unsigned options.target.port)

unfoldable pub mapping_is_expected : Text → Option DnsMappingOptions → Bool
mapping_is_expected stdout none = contains stdout (text "dynet-owned: dns-mapping:v1")
mapping_is_expected stdout (some options) =
    contains stdout (text "dynet-owned: dns-mapping:v1")
    && (contains stdout (text "type nat hook prerouting priority dstnat;")
        || contains stdout (text "type nat hook prerouting priority -100;"))
    && all
        (λ (nfproto, family, sources).
          all
            (λ source.
              all
                (λ protocol.
                  any (is_rule_line options nfproto family source protocol) (lines stdout))
                protocols)
            sources)
        (families options)
    && not (
        not options.ipv6_enabled
        && any
            (λ line. contains line (text "meta nfproto ipv6") || contains line (text "ip6 saddr"))
            (lines stdout))

-- The state that `mapping_status` finds.
unfoldable pub mapping_state : Option DnsMappingOptions → Answer → CheckState
mapping_state options (output o) =
    if not o.success
    then missing_auto_creatable
    else if mapping_is_expected o.stdout options
    then ready
    else invalid_hard_fail
mapping_state options (not_started e) = missing_hard_fail

unfoldable pub mapping_status : SystemRunner → Option DnsMappingOptions → Log → CheckState × Log
mapping_status runner options log =
    (mapping_state options (runner log list_chain), log ++ list_chain ∷ [])

unfoldable pub mapping_interface_status : SystemRunner → DnsMappingOptions → Log → CheckState × Log
mapping_interface_status runner options log = (
  elim (runner log (link_show options)) [
    | output o ↦ if o.success then ready else missing_hard_fail
    | not_started e ↦ missing_hard_fail
  ],
  log ++ link_show options ∷ [],
)
