-- ===== src/Mapping/Removed.antt =====
-- dns_mapping.rs: what removing the mapping runs on the system.
use dynet.Base.{
  ◌≡◌, ◌≢◌, refl, inl, inr, true, List, [], ◌∷◌, ◌++◌, none, Option-cases, arith, sym, subst,
}
use dynet.Base.Outcome.{Outcome, ok, err}
use dynet.Base.Text.{text}
use dynet.Mapping.{
  CheckState, ready, missing_auto_creatable, missing_hard_fail, invalid_hard_fail, CommandOutput,
  Answer, output, not_started, Log, SystemRunner, CommandError, MappingError, command_error, Action,
  deleted_chain, delete_chain, list_chain, contains, no_owner_marker, status_failed,
}
use dynet.Mapping.Status.{run_required, mapping_status, mapping_state, mapping_is_expected}
use dynet.Mapping.Apply.{mapping_cleanup_with_runner}
use dynet.Mapping.Applied.{Succeeds, Fails}

module _ (runner : SystemRunner) where
  -- The listing of the chain succeeded, and has the mark of dynet.
  abbrev pub Marked : Answer → CommandOutput → Type 0
  Marked answer o =
      (answer ≡ output o)
      × (o.success ≡ true)
      × (contains o.stdout (text "dynet-owned: dns-mapping:v1") ≡ true)

  -- What removing the mapping may do: it deletes the chain only if that is marked as dynet's.
  pub data Cleans (log : Log) : Outcome MappingError (List Action) → Log → Type 0 where
    left_alone :
        {e : MappingError}
        → (mapping_status runner none log).0 ≢ ready
        → (mapping_status runner none log).0 ≢ missing_auto_creatable
        → Cleans log (err e) (log ++ list_chain ∷ [])
    not_there :
        (mapping_status runner none log).0 ≡ missing_auto_creatable
        → Cleans log (ok []) (log ++ list_chain ∷ [])
    deleted :
        {o : CommandOutput}
        → Marked (runner log list_chain) o
        → Succeeds runner (log ++ list_chain ∷ []) delete_chain
        → Cleans log (ok (deleted_chain ∷ [])) ((log ++ list_chain ∷ []) ++ delete_chain ∷ [])
    not_deleted :
        {o : CommandOutput} {error : CommandError}
        → Marked (runner log list_chain) o
        → Fails runner (log ++ list_chain ∷ []) delete_chain error
        → Cleans log (err (command_error error)) ((log ++ list_chain ∷ []) ++ delete_chain ∷ [])

  ready-Marked : (a : Answer) → mapping_state none a ≡ ready → (o : CommandOutput) × Marked a o
  unfolding mapping_state mapping_is_expected
  ready-Marked (not_started e) h = cc
  ready-Marked (output o) h =
      let (success, mark) : (o.success ≡ true)
          × (contains o.stdout (text "dynet-owned: dns-mapping:v1") ≡ true) =
        ground (arith, h) in
      (o, (refl, success, mark))

  cleanup-deletes :
      (log : Log)
      → (mapping_status runner none log).0 ≡ ready
      → Cleans log
          (mapping_cleanup_with_runner runner log).0
          (mapping_cleanup_with_runner runner log).1
  unfolding mapping_cleanup_with_runner mapping_status run_required
  cleanup-deletes log s =
      let (o, marked) = ready-Marked (runner log list_chain) s in
      elim (Option-cases (run_required runner delete_chain (log ++ list_chain ∷ [])).0) [
        | inl d ↦
            let eq : mapping_cleanup_with_runner runner log
                ≡ (ok (deleted_chain ∷ []), (log ++ list_chain ∷ []) ++ delete_chain ∷ []) =
              rw (mapping_cleanup_with_runner, s, d) refl in
            subst (λ r. Cleans log r.0 r.1) (sym eq) (deleted marked d)
        | inr (error, f) ↦
            let eq : mapping_cleanup_with_runner runner log
                ≡ (err (command_error error), (log ++ list_chain ∷ []) ++ delete_chain ∷ []) =
              rw (mapping_cleanup_with_runner, s, f) refl in
            subst (λ r. Cleans log r.0 r.1) (sym eq) (not_deleted marked f)
      ]

  by_state :
      (log : Log) (state : CheckState)
      → (mapping_status runner none log).0 ≡ state
      → Cleans log
          (mapping_cleanup_with_runner runner log).0
          (mapping_cleanup_with_runner runner log).1
  unfolding mapping_cleanup_with_runner mapping_status
  by_state log ready s = cleanup-deletes log s
  by_state log missing_auto_creatable s =
      let eq : mapping_cleanup_with_runner runner log ≡ (ok [], log ++ list_chain ∷ []) =
        rw (mapping_cleanup_with_runner, s) refl in
      subst (λ r. Cleans log r.0 r.1) (sym eq) (not_there s)
  by_state log invalid_hard_fail s =
      let eq : mapping_cleanup_with_runner runner log
          ≡ (err no_owner_marker, log ++ list_chain ∷ []) =
        rw (mapping_cleanup_with_runner, s) refl in
      subst (λ r. Cleans log r.0 r.1) (sym eq) (left_alone (λ h. cc (s, h)) (λ h. cc (s, h)))
  by_state log missing_hard_fail s =
      let eq : mapping_cleanup_with_runner runner log
          ≡ (err status_failed, log ++ list_chain ∷ []) =
        rw (mapping_cleanup_with_runner, s) refl in
      subst (λ r. Cleans log r.0 r.1) (sym eq) (left_alone (λ h. cc (s, h)) (λ h. cc (s, h)))

  -- Removing the mapping looks at the chain first. It deletes it exactly if the listing succeeds and
  -- has the mark of dynet, does nothing if there is no such chain, and otherwise leaves the chain
  -- alone with an error.
  pub mapping_cleanup_with_runner-Cleans :
      (log : Log)
      → Cleans log
          (mapping_cleanup_with_runner runner log).0
          (mapping_cleanup_with_runner runner log).1
  mapping_cleanup_with_runner-Cleans log = by_state log (mapping_status runner none log).0 refl
