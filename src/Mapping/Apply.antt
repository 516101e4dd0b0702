-- ===== src/Mapping/Apply.antt =====
-- dns_mapping.rs: the rules of a mapping, applying them and removing them.
use dynet.Base.{List, [], ◌∷◌, ◌++◌, map, none, some}
use dynet.Base.Order.{nat_ord, list_ord}
use dynet.Base.Outcome.{ok, err}
use dynet.Base.Parse.{show_unsigned}
use dynet.Base.Text.{Text, text}
use dynet.Mapping.{
  Action, CheckState, Command, CommandError, DnsMappingOptions, Log, MappingError, Ran,
  SystemRunner, add_chain, command_error, created_chain, delete_chain, deleted_chain, foreign_chain,
  invalid_hard_fail, mapped_port, missing_auto_creatable, missing_hard_fail, nft, no_interface,
  no_owner_marker, no_skeleton, quoted, ready, rollback_failed, rolled_back, status_failed,
  validate_options,
}
use dynet.Mapping.Status.{
  families, mapping_interface_status, mapping_status, nft_status, protocols, run_required,
}

abbrev pub nft_rule : List Text → Command
nft_rule rule =
    nft (text "add" ∷ text "rule" ∷ text "inet" ∷ text "dynet" ∷ text "dynet_dns_mapping" ∷ rule)

-- The rule of a source and a protocol.
abbrev pub mapping_rule : DnsMappingOptions → Text → Text → Text → Text → Command
mapping_rule options nfproto family source protocol = nft_rule (
    text "iifname"
    ∷ quoted options.scope.interface
    ∷ text "meta"
    ∷ text "nfproto"
    ∷ nfproto
    ∷ family
    ∷ text "saddr"
    ∷ source
    ∷ protocol
    ∷ text "dport"
    ∷ show_unsigned options.source_port
    ∷ text "meta"
    ∷ text "mark"
    ∷ text "set"
    ∷ text "meta"
    ∷ text "mark"
    ∷ text "&"
    ∷ text "0xbfffffff"
    ∷ text "redirect"
    ∷ text "to"
    ∷ (b':' ∷ show_unsigned options.target.port)
    ∷ [])

-- The loop over the sources of a family.
abbrev pub source_rules : DnsMappingOptions → Text → Text → List Text → Log
source_rules options nfproto family [] = []
source_rules options nfproto family (source ∷ sources) =
    map (mapping_rule options nfproto family source) protocols
    ++ source_rules options nfproto family sources

abbrev pub family_rules : DnsMappingOptions → List (Text × Text × List Text) → Log
family_rules options [] = []
family_rules options ((nfproto, family, sources) ∷ more) =
    source_rules options nfproto family sources ++ family_rules options more

unfoldable pub mapping_rules : DnsMappingOptions → Log
mapping_rules options = family_rules options (families options)

-- The deletion of the chain after a rule that was not added.
unfoldable pub roll_back : SystemRunner → CommandError → Log → Ran MappingError (List Action)
roll_back runner error log =
    let (result, done) = run_required runner delete_chain log in
    elim result [
      | none ↦ (err (rolled_back error), done)
      | some rollback ↦ (err (rollback_failed error rollback), done)
    ]

-- The loop over the rules, and what is returned after it.
unfoldable pub add_rules :
    SystemRunner → DnsMappingOptions → List Command → Log → Ran MappingError (List Action)
add_rules runner options [] log = (
  ok (
      created_chain
      ∷ mapped_port options.source_port options.scope.interface options.target.port
      ∷ []),
  log,
)
add_rules runner options (rule ∷ rules) log =
    let (result, done) = run_required runner rule log in
    elim result [
      | none ↦ add_rules runner options rules done
      | some error ↦ roll_back runner error done
    ]

-- From the creation of the chain on.
unfoldable pub create_chain :
    SystemRunner → DnsMappingOptions → Log → Ran MappingError (List Action)
create_chain runner options log =
    let (result, done) = run_required runner add_chain log in
    elim result [
      | none ↦ add_rules runner options (mapping_rules options) done
      | some error ↦ (err (command_error error), done)
    ]

-- What follows from the state of the chain, of the interface and of the table.
unfoldable pub by_status :
    SystemRunner → DnsMappingOptions → CheckState → Log → Ran MappingError (List Action)
by_status runner options ready log = (ok [], log)
by_status runner options invalid_hard_fail log = (err foreign_chain, log)
by_status runner options missing_auto_creatable log = create_chain runner options log
by_status runner options missing_hard_fail log = (err status_failed, log)

unfoldable pub by_interface :
    SystemRunner → DnsMappingOptions → CheckState → Log → Ran MappingError (List Action)
by_interface runner options ready log =
    let (status, log) = mapping_status runner (some options) log in
    by_status runner options status log
by_interface runner options missing_auto_creatable log =
    (err (no_interface missing_auto_creatable), log)
by_interface runner options missing_hard_fail log = (err (no_interface missing_hard_fail), log)
by_interface runner options invalid_hard_fail log = (err (no_interface invalid_hard_fail), log)

unfoldable pub by_table :
    SystemRunner → DnsMappingOptions → CheckState → Log → Ran MappingError (List Action)
by_table runner options ready log =
    let (interface, log) = mapping_interface_status runner options log in
    by_interface runner options interface log
by_table runner options missing_auto_creatable log = (err (no_skeleton missing_auto_creatable), log)
by_table runner options missing_hard_fail log = (err (no_skeleton missing_hard_fail), log)
by_table runner options invalid_hard_fail log = (err (no_skeleton invalid_hard_fail), log)

unfoldable pub mapping_apply_with_runner :
    SystemRunner → DnsMappingOptions → Log → Ran MappingError (List Action)
mapping_apply_with_runner runner options log = elim (validate_options options) [
  | some error ↦ (err error, log)
  | none ↦ let (table, log) = nft_status runner log in by_table runner options table log
]

unfoldable pub mapping_cleanup_with_runner : SystemRunner → Log → Ran MappingError (List Action)
mapping_cleanup_with_runner runner log =
    let (status, log1) = mapping_status runner none log in
    elim status [
      | missing_auto_creatable ↦ (ok [], log1)
      | ready ↦
          let (result, done) = run_required runner delete_chain log1 in
          elim result [
            | none ↦ (ok (deleted_chain ∷ []), done)
            | some error ↦ (err (command_error error), done)
          ]
      | invalid_hard_fail ↦ (err no_owner_marker, log1)
      | missing_hard_fail ↦ (err status_failed, log1)
    ]
