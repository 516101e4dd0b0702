-- ===== src/Reload/Atomic.antt =====
-- runtime_reload.rs: a reload changes everything or nothing, and what it keeps agrees.
use dynet.Base.{
  ℕ, ◌<◌, ◌≡◌, ◌≢◌, refl, ◌⊎◌, inl, inr, true, false, List, sym, subst, Bool-cases, if◌then◌else◌,
}
use dynet.Base.Outcome.{Outcome, ok, err, panic}
use dynet.Base.Text.{Text}
use dynet.Base.Words.{add_u64, u64_mod}
use dynet.Runtime.{prepare_reconfigure, routing_from_seed}
use dynet.Runtime.Audit.{
  ConfigReloadTrigger, record_applied, record_noop, record_restart_required, record_invalid,
  record_failed,
}
use dynet.Runtime.Reload.{Run, prepared-commit}
use dynet.Egress.{ReloadableEgress, install, uninstall}
use dynet.Reload.{ReloadDisposition, noop, apply, restart_required, plan_reload}
use dynet.Reload.Settings.{Config}
use dynet.Reload.Transaction.{
  RuntimeReload, Surroundings, ReloadResult, applied_result, noop_result, restart_required_result,
  invalid_result, failed_result, failed, commit_candidate, apply_candidate, reload,
}

module _ (env : Surroundings) (trigger : ConfigReloadTrigger) (s : RuntimeReload) (n : ℕ) where
  abbrev next_generation : ℕ
  next_generation = add_u64 s.runtime.routing.generation 1

  -- What a reload comes to, where others commit `n` times meanwhile.
  pub data Reloaded : RuntimeReload × ReloadResult → Type 0 where
    unreadable :
        ((c : Config) → env.candidate ≢ ok c)
        → Reloaded (
          record s { audit = record_invalid s.audit env.now trigger },
          invalid_result s.runtime.routing.generation,
        )
    unchanged :
        (c : Config)
        → env.candidate ≡ ok c
        → (plan_reload s.current c).disposition ≡ noop
        → Reloaded (
          record s { audit = record_noop s.audit env.now trigger (env.fingerprint c) },
          noop_result s.runtime.routing.generation,
        )
    refused :
        (c : Config) (changed fields : List Text)
        → env.candidate ≡ ok c
        → (plan_reload s.current c).disposition ≡ restart_required
        → Reloaded (
          record s {
            audit =
                record_restart_required s.audit env.now trigger (env.fingerprint c) changed fields;
          },
          restart_required_result s.runtime.routing.generation fields,
        )
    not_installed :
        (c : Config)
        → env.candidate ≡ ok c
        → ((e : ReloadableEgress)
            → install env.protocols s.egress next_generation c.forwarding.execution_nodes ≢ ok e)
        → Reloaded (
          record s { audit = record_failed s.audit env.now trigger },
          failed_result s.runtime.routing.generation,
        )
    not_stored :
        (c : Config) (egress : ReloadableEgress)
        → env.candidate ≡ ok c
        → install env.protocols s.egress next_generation c.forwarding.execution_nodes ≡ ok egress
        → env.stores ≡ false
        → Reloaded (
          record s {
            runtime = env.meanwhile s.runtime;
            egress = uninstall egress next_generation;
            audit = record_failed s.audit env.now trigger;
          },
          failed_result (env.meanwhile s.runtime).routing.generation,
        )
    installed :
        (c : Config) (egress : ReloadableEgress) (changed : List Text)
        → env.candidate ≡ ok c
        → (plan_reload s.current c).disposition ≡ apply
        → install env.protocols s.egress next_generation c.forwarding.execution_nodes ≡ ok egress
        → env.stores ≡ true
        → n ≡ 0
        → Reloaded (
          record {
            current = c;
            runtime = record (env.meanwhile s.runtime) {
              routing = routing_from_seed next_generation c.forwarding.seed;
            };
            store = c.forwarding.seed;
            egress = egress;
            tun = c.capture.tun;
            audit =
                record_applied s.audit env.now trigger next_generation (env.fingerprint c) changed;
          },
          applied_result next_generation changed,
        )
    overtaken :
        (c : Config) (egress : ReloadableEgress)
        → env.candidate ≡ ok c
        → install env.protocols s.egress next_generation c.forwarding.execution_nodes ≡ ok egress
        → env.stores ≡ true
        → 0 < n
        → Reloaded (
          record s {
            runtime = env.meanwhile s.runtime;
            store = if env.restores then s.current.forwarding.seed else c.forwarding.seed;
            egress = uninstall egress next_generation;
            audit = record_failed s.audit env.now trigger;
          },
          failed_result (env.meanwhile s.runtime).routing.generation,
        )

Outcome-cases :
    {E A : Type 0} (o : Outcome E A)
    → ((a : A) × (o ≡ ok a)) ⊎ (((e : E) × (o ≡ err e)) ⊎ (o ≡ panic))
Outcome-cases (ok a) = inl (a, refl)
Outcome-cases (err e) = inr (inl (e, refl))
Outcome-cases panic = inr (inr refl)

Disposition-cases : (d : ReloadDisposition) → (d ≡ noop) ⊎ ((d ≡ apply) ⊎ (d ≡ restart_required))
Disposition-cases noop = inl refl
Disposition-cases apply = inr (inl refl)
Disposition-cases restart_required = inr (inr refl)

module _ (env : Surroundings) (trigger : ConfigReloadTrigger) (s : RuntimeReload) {n : ℕ}
    (bound : s.runtime.routing.generation < u64_mod) (few : n < u64_mod)
    (run : Run n s.runtime (env.meanwhile s.runtime)) where
  move :
      {r t : RuntimeReload × ReloadResult}
      → Reloaded env trigger s n r
      → t ≡ r
      → Reloaded env trigger s n t
  move result e = subst (Reloaded env trigger s n) (sym e) result

  apply-Reloaded :
      (c : Config) (changed : List Text)
      → env.candidate ≡ ok c
      → (plan_reload s.current c).disposition ≡ apply
      → Reloaded env trigger s n (apply_candidate env trigger s c changed)
  unfolding apply_candidate commit_candidate failed prepare_reconfigure routing_from_seed
  apply-Reloaded c changed read planned =
      elim (Outcome-cases (
        install env.protocols s.egress (next_generation env trigger s n)
          c.forwarding.execution_nodes)) [
            | inl (egress, e) ↦ elim (Bool-cases env.stores) [
              | inl t ↦
                  elim (prepared-commit s.runtime (env.meanwhile s.runtime) c.forwarding.seed bound
                    few run) [
                      | inl (alone, o) ↦
                          move (installed c egress changed read planned e t alone)
                            (rw (apply_candidate, e, t, commit_candidate, o) refl)
                      | inr (others, x) ↦
                          move (overtaken c egress read e t others)
                            (rw (apply_candidate, e, t, commit_candidate, x) refl)
                    ]
              | inr f ↦ move (not_stored c egress read e f) (rw (apply_candidate, e, f) refl)
            ]
            | inr (inl (x, e)) ↦
                move (not_installed c read (λ y h. cc (e, h))) (rw (apply_candidate, e) refl)
            | inr (inr e) ↦
                move (not_installed c read (λ y h. cc (e, h))) (rw (apply_candidate, e) refl)
          ]

  pub reload-Reloaded : Reloaded env trigger s n (reload env trigger s)
  unfolding reload apply_candidate failed commit_candidate
  reload-Reloaded = elim (Outcome-cases env.candidate) [
    | inl (c, e) ↦ elim (Disposition-cases (plan_reload s.current c).disposition) [
      | inl d ↦ move (unchanged c e d) (rw (reload, e, d) refl)
      | inr (inl d) ↦
          move (apply-Reloaded c (plan_reload s.current c).changed_fields e d)
            (rw (reload, e, d) refl)
      | inr (inr d) ↦
          move
            (refused c (plan_reload s.current c).changed_fields
              (plan_reload s.current c).restart_required_fields e d)
            (rw (reload, e, d) refl)
    ]
    | inr (inl (x, e)) ↦ move (unreadable (λ y h. cc (e, h))) (rw (reload, e) refl)
    | inr (inr e) ↦ move (unreadable (λ y h. cc (e, h))) (rw (reload, e) refl)
  ]
