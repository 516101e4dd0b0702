-- ===== src/Mapping/Tests.antt =====
-- A mapping of the DNS port of a bridge, on a system that has the table and one that fails at a rule.
use dynet.Base.{
  ℕ, ◌≡◌, refl, ◌⊎◌, Bool, true, false, [], ◌∷◌, none, some, length, get_elem?, ◌==◌, if◌then◌else◌,
}
use dynet.Base.Net.{v4}
use dynet.Base.OrdMap.{get, insert}
use dynet.Base.Outcome.{ok, err}
use dynet.Base.Parse.{parse_ip, parse_unsigned, split_once}
use dynet.Base.Text.{Text, text}
use dynet.Mapping.Scope.{
  validate_scope, validate_interface, validate_sources, validate_each, validate_source,
  validate_cidr, require_canonical_v4,
}
use dynet.Mapping.{
  DnsMappingOptions, SystemRunner, output, CommandOutput, created_chain, mapped_port, MappingError,
  validate_options, contains, delete_chain,
}
use dynet.Mapping.Status.{
  nft_status, mapping_status, mapping_state, mapping_interface_status, owned_nft_check,
  run_required,
}
use dynet.Mapping.Apply.{
  mapping_rules, mapping_apply_with_runner, mapping_cleanup_with_runner, by_table, by_interface,
  by_status, create_chain, add_rules, roll_back,
}
use dynet.Mapping.Applied.{Applies, mapping_apply_with_runner-Applies}
use dynet.Mapping.Removed.{Cleans, mapping_cleanup_with_runner-Cleans}
use dynet.Mapping.Bounded.{IsMapping, validate_options-IsMapping}

abbrev options : Text → DnsMappingOptions
options source = record {
  scope = record { interface = text "br-lan"; ipv4_sources = source ∷ []; ipv6_sources = [] };
  source_port = 53;
  target = record { ip = v4 (0 ∷ 0 ∷ 0 ∷ 0 ∷ []); port = 1053 };
  ipv6_enabled = false;
}

abbrev lan : DnsMappingOptions
lan = options (text "192.168.1.0/24")

lan_valid : validate_options lan ≡ none
unfolding validate_options validate_scope validate_interface validate_sources validate_each
    validate_source split_once parse_ip parse_unsigned validate_cidr require_canonical_v4 get insert
lan_valid = refl

abbrev says : Bool → Text → CommandOutput
says success stdout = record { success = success; stdout = stdout; stderr = text "no" }

-- A system with dynet's table and without the chain, where the command of the given number fails.
abbrev system : ℕ → SystemRunner
system failing log c =
    if length log == failing
    then output (says false [])
    else if length log == 2
    then output (says false [])
    else output (says true (text "dynet-owned: runtime-skeleton:v1"))

apply_maps :
    (mapping_apply_with_runner (system 10) lan []).0
    ≡ ok (created_chain ∷ mapped_port 53 (text "br-lan") 1053 ∷ [])
unfolding mapping_apply_with_runner validate_options validate_scope validate_interface
    validate_sources validate_each validate_source split_once parse_ip parse_unsigned validate_cidr
    require_canonical_v4 get insert nft_status owned_nft_check contains by_table
    mapping_interface_status by_interface mapping_status mapping_state by_status create_chain
    run_required mapping_rules add_rules roll_back
apply_maps = refl

-- The second rule fails, and the chain is deleted.
apply_rolls_back : get_elem? (mapping_apply_with_runner (system 5) lan []).1 6 ≡ some delete_chain
unfolding mapping_apply_with_runner validate_options validate_scope validate_interface
    validate_sources validate_each validate_source split_once parse_ip parse_unsigned validate_cidr
    require_canonical_v4 get insert nft_status owned_nft_check contains by_table
    mapping_interface_status by_interface mapping_status mapping_state by_status create_chain
    run_required mapping_rules add_rules roll_back
apply_rolls_back = refl

validate_options-IsMapping_example : IsMapping lan
validate_options-IsMapping_example = validate_options-IsMapping lan lan_valid

mapping_apply_with_runner-Applies_example :
    ((e : MappingError) × (validate_options lan ≡ some e)
      × (mapping_apply_with_runner (system 5) lan [] ≡ (err e, [])))
    ⊎ ((validate_options lan ≡ none)
        × Applies
            (system 5)
            lan
            []
            (mapping_apply_with_runner (system 5) lan []).0
            (mapping_apply_with_runner (system 5) lan []).1)
mapping_apply_with_runner-Applies_example = mapping_apply_with_runner-Applies (system 5) lan []

mapping_cleanup_with_runner-Cleans_example :
    Cleans
      (system 5)
      []
      (mapping_cleanup_with_runner (system 5) []).0
      (mapping_cleanup_with_runner (system 5) []).1
mapping_cleanup_with_runner-Cleans_example = mapping_cleanup_with_runner-Cleans (system 5) []
