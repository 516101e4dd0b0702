-- ===== src/Mapping/Applied.antt =====
-- dns_mapping.rs: what applying and removing the mapping runs on the system.
use dynet.Base.Order.{nat_ord, list_ord}
use dynet.Base.Text.{text}
use dynet.Base.{
  ◌≡◌, ◌≢◌, refl, ◌⊎◌, inl, inr, List, [], ◌∷◌, ◌++◌, none, some, Option-cases, sym, subst,
}
use dynet.Base.Outcome.{Outcome, ok, err}
use dynet.Mapping.{
  DnsMappingOptions, CheckState, ready, missing_auto_creatable, missing_hard_fail,
  invalid_hard_fail, Command, Log, SystemRunner, CommandError, MappingError, command_error,
  rolled_back, rollback_failed, Action, created_chain, mapped_port, Ran, add_chain, delete_chain,
  list_table, list_chain, link_show, validate_options, contains, no_skeleton, no_interface,
  foreign_chain, status_failed,
}
use dynet.Mapping.Status.{
  run_required, nft_status, mapping_status, mapping_interface_status, mapping_is_expected,
}
use dynet.Mapping.Answers.{
  Lists, Shows, owned_nft_check-Lists, mapping_state-Lists, mapping_interface_status-Shows,
  not-Shows-invalid, not-Shows-creatable,
}
use dynet.Mapping.Apply.{
  mapping_rules, roll_back, add_rules, create_chain, by_status, by_interface, by_table,
  mapping_apply_with_runner,
}

module _ (runner : SystemRunner) where
  -- A command that was run after others, and succeeded or did not.
  abbrev pub Succeeds : Log → Command → Type 0
  Succeeds log c = (run_required runner c log).0 ≡ none

  abbrev pub Fails : Log → Command → CommandError → Type 0
  Fails log c error = (run_required runner c log).0 ≡ some error

  -- What adding the rules may do: all of them, in order, or some of them and then the chain is gone
  -- or could not be deleted.
  pub data Adds (options : DnsMappingOptions)
      : Log → Log → Outcome MappingError (List Action) → Log → Type 0 where
    all_added :
        {log : Log}
        → Adds options [] log
            (ok (
              created_chain
              ∷ mapped_port options.source_port options.scope.interface options.target.port
              ∷ []))
            log
    added :
        {rule : Command} {rules log end : Log} {r : Outcome MappingError (List Action)}
        → Succeeds log rule
        → Adds options rules (log ++ rule ∷ []) r end
        → Adds options (rule ∷ rules) log r end
    undone :
        {rule : Command} {rules log : Log} {error : CommandError}
        → Fails log rule error
        → Succeeds (log ++ rule ∷ []) delete_chain
        → Adds options
            (rule ∷ rules)
            log
            (err (rolled_back error))
            ((log ++ rule ∷ []) ++ delete_chain ∷ [])
    stuck :
        {rule : Command} {rules log : Log} {error rollback : CommandError}
        → Fails log rule error
        → Fails (log ++ rule ∷ []) delete_chain rollback
        → Adds options
            (rule ∷ rules)
            log
            (err (rollback_failed error rollback))
            ((log ++ rule ∷ []) ++ delete_chain ∷ [])

  -- A call's result and log as one value.
  abbrev Both :
      (Outcome MappingError (List Action) → Log → Type 0) → Ran MappingError (List Action) → Type 0
  Both P ran = P ran.0 ran.1

  add_rules-Adds :
      (options : DnsMappingOptions) (rules log : Log)
      → Both (Adds options rules log) (add_rules runner options rules log)
  unfolding add_rules roll_back run_required
  add_rules-Adds options [] log = all_added
  add_rules-Adds options (rule ∷ rules) log = elim (Option-cases (run_required runner rule log).0) [
    | inl s ↦
        let eq : add_rules runner options (rule ∷ rules) log
            ≡ add_rules runner options rules (log ++ rule ∷ []) =
          rw (add_rules, s) refl in
        subst (Both (Adds options (rule ∷ rules) log)) (sym eq)
          (added s (add_rules-Adds options rules (log ++ rule ∷ [])))
    | inr (error, f) ↦ elim (Option-cases (run_required runner delete_chain (log ++ rule ∷ [])).0) [
      | inl s ↦
          let eq : add_rules runner options (rule ∷ rules) log
              ≡ (err (rolled_back error), (log ++ rule ∷ []) ++ delete_chain ∷ []) =
            rw (add_rules, f, roll_back, s) refl in
          subst (Both (Adds options (rule ∷ rules) log)) (sym eq) (undone f s)
      | inr (rollback, g) ↦
          let eq : add_rules runner options (rule ∷ rules) log
              ≡ (err (rollback_failed error rollback), (log ++ rule ∷ []) ++ delete_chain ∷ []) =
            rw (add_rules, f, roll_back, g) refl in
          subst (Both (Adds options (rule ∷ rules) log)) (sym eq) (stuck f g)
    ]
  ]

  module _ (options : DnsMappingOptions) (log : Log) where
    -- The commands after the check of the table, of the interface and of the chain.
    abbrev pub table_log : Log
    table_log = log ++ list_table ∷ []

    abbrev pub link_log : Log
    link_log = table_log ++ link_show options ∷ []

    abbrev pub chain_log : Log
    chain_log = link_log ++ list_chain ∷ []

    -- The listing of the table succeeds and has the mark of dynet.
    abbrev pub Owned : Type 0
    Owned =
        Lists (λ t. contains t (text "dynet-owned: runtime-skeleton:v1")) (runner log list_table)
          ready

    abbrev pub There : Type 0
    There = Shows (runner table_log (link_show options)) ready

    -- What the listing of the chain says.
    abbrev pub Chain : CheckState → Type 0
    Chain = Lists (λ t. mapping_is_expected t (some options)) (runner link_log list_chain)

    -- What applying runs and answers. It looks at the table, at the interface and at the chain, in
    -- this order, and stops at the first that is not as it has to be.
    pub data Applies : Outcome MappingError (List Action) → Log → Type 0 where
      not_owned :
          {state : CheckState}
          → Lists
              (λ t. contains t (text "dynet-owned: runtime-skeleton:v1"))
              (runner log list_table)
              state
          → state ≢ ready
          → Applies (err (no_skeleton state)) table_log
      not_there :
          Owned
          → Shows (runner table_log (link_show options)) missing_hard_fail
          → Applies (err (no_interface missing_hard_fail)) link_log
      in_place : Owned → There → Chain ready → Applies (ok []) chain_log
      foreign : Owned → There → Chain invalid_hard_fail → Applies (err foreign_chain) chain_log
      unknown : Owned → There → Chain missing_hard_fail → Applies (err status_failed) chain_log
      not_created :
          {error : CommandError}
          → Owned
          → There
          → Chain missing_auto_creatable
          → Fails chain_log add_chain error
          → Applies (err (command_error error)) (chain_log ++ add_chain ∷ [])
      created :
          {r : Outcome MappingError (List Action)} {end : Log}
          → Owned
          → There
          → Chain missing_auto_creatable
          → Succeeds chain_log add_chain
          → Adds options (mapping_rules options) (chain_log ++ add_chain ∷ []) r end
          → Applies r end

    create_chain-Applies :
        Owned
        → There
        → Chain missing_auto_creatable
        → Both Applies (create_chain runner options chain_log)
    unfolding create_chain run_required
    create_chain-Applies t i s = elim (Option-cases (run_required runner add_chain chain_log).0) [
      | inl a ↦
          let eq : create_chain runner options chain_log
              ≡ add_rules runner options (mapping_rules options) (chain_log ++ add_chain ∷ []) =
            rw (create_chain, a) refl in
          subst (Both Applies) (sym eq) (
            created t i s a
              (add_rules-Adds options (mapping_rules options) (chain_log ++ add_chain ∷ [])))
      | inr (error, f) ↦
          let eq : create_chain runner options chain_log
              ≡ (err (command_error error), chain_log ++ add_chain ∷ []) =
            rw (create_chain, f) refl in
          subst (Both Applies) (sym eq) (not_created t i s f)
    ]

    by_status-Applies :
        (state : CheckState)
        → Owned
        → There
        → Chain state
        → Both Applies (by_status runner options state chain_log)
    unfolding by_status
    by_status-Applies ready t i s = in_place t i s
    by_status-Applies invalid_hard_fail t i s = foreign t i s
    by_status-Applies missing_auto_creatable t i s = create_chain-Applies t i s
    by_status-Applies missing_hard_fail t i s = unknown t i s

    by_interface-Applies :
        (state : CheckState)
        → Owned
        → Shows (runner table_log (link_show options)) state
        → Both Applies (by_interface runner options state link_log)
    unfolding by_interface mapping_status
    by_interface-Applies ready t i =
        by_status-Applies (mapping_status runner (some options) link_log).0 t i
          (mapping_state-Lists options (runner link_log list_chain))
    by_interface-Applies missing_hard_fail t i = not_there t i
    by_interface-Applies invalid_hard_fail t i =
        absurd (not-Shows-invalid (runner table_log (link_show options)) i)
    by_interface-Applies missing_auto_creatable t i =
        absurd (not-Shows-creatable (runner table_log (link_show options)) i)

    by_table-Applies :
        (state : CheckState)
        → Lists
            (λ t. contains t (text "dynet-owned: runtime-skeleton:v1"))
            (runner log list_table)
            state
        → Both Applies (by_table runner options state table_log)
    unfolding by_table mapping_interface_status
    by_table-Applies ready t =
        by_interface-Applies (mapping_interface_status runner options table_log).0 t
          (mapping_interface_status-Shows runner options table_log)
    by_table-Applies invalid_hard_fail t = not_owned t (λ e. cc)
    by_table-Applies missing_auto_creatable t = not_owned t (λ e. cc)
    by_table-Applies missing_hard_fail t = not_owned t (λ e. cc)

    -- Applying the mapping with options that are not valid is refused, and runs nothing. Otherwise it
    -- lists the table, and answers no_skeleton unless that has the mark of dynet; looks for the
    -- interface, and answers no_interface unless that is there; lists the chain, and is done if
    -- mapping_is_expected finds it in place, or answers that it is foreign or cannot be listed. Only
    -- where there is no chain it creates it, and adds every rule in order; at the first rule that
    -- fails, it deletes the chain, as its last command, and answers whether that worked.
    pub mapping_apply_with_runner-Applies :
        ((e : MappingError) × (validate_options options ≡ some e)
          × (mapping_apply_with_runner runner options log ≡ (err e, log)))
        ⊎ ((validate_options options ≡ none)
            × Both Applies (mapping_apply_with_runner runner options log))
    unfolding mapping_apply_with_runner nft_status
    mapping_apply_with_runner-Applies = elim (Option-cases (validate_options options)) [
      | inr (e, h) ↦ inl (e, h, rw (mapping_apply_with_runner, h) refl)
      | inl h ↦
          let eq : mapping_apply_with_runner runner options log
              ≡ by_table runner options (nft_status runner log).0 table_log =
            rw (mapping_apply_with_runner, h) refl in
          inr (
            h,
            subst (Both Applies) (sym eq) (
                by_table-Applies (nft_status runner log).0 (
                  owned_nft_check-Lists (text "dynet-owned: runtime-skeleton:v1")
                    (runner log list_table))),
          )
    ]
