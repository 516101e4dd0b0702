-- ===== src/Runtime/Audit.antt =====
-- crates/dynet-runtime/src/model/runtime_config.rs: the status of the configuration and the audit of
-- its reloads. `now` is `unix_ms()`.
pub mod Chain
use dynet.Base.{ℕ, ◌≡◌, refl, List, [], ◌∷◌, Option, none, some, ◌==◌, if◌then◌else◌}
use dynet.Base.Text.{Text, text}
use dynet.Base.Words.{add_u64}
use dynet.Observe.Event.{push_bounded}

abbrev pub reload_audit_limit : ℕ
reload_audit_limit = 128

pub data ConfigReloadTrigger : Type 0 where
  sighup manual : ConfigReloadTrigger

pub data ConfigReloadOutcome : Type 0 where
  applied noop restart_required invalid failed : ConfigReloadOutcome

pub record RuntimeConfigStatus : Type 0 where
  pub generation : ℕ
  pub fingerprint : Text
  pub source : Text
  pub started_at_unix_ms : ℕ
  pub applied_at_unix_ms : ℕ
  pub last_reload_at_unix_ms : Option ℕ
  pub last_reload_outcome : Option ConfigReloadOutcome

pub record ConfigReloadAudit : Type 0 where
  pub id : ℕ
  pub observed_at_unix_ms : ℕ
  pub trigger : ConfigReloadTrigger
  pub outcome : ConfigReloadOutcome
  pub generation_before : ℕ
  pub generation_after : ℕ
  pub candidate_fingerprint : Option Text
  pub changed_fields : List Text
  pub restart_required_fields : List Text
  pub message : Option Text

pub record RuntimeConfigAudit : Type 0 where
  pub next_id : ℕ
  pub status : RuntimeConfigStatus
  pub audits : List ConfigReloadAudit

unfoldable pub new_audit : ℕ → ℕ → Text → Text → RuntimeConfigAudit
new_audit now generation fingerprint source = record {
  next_id = 0;
  status = record {
    generation = generation;
    fingerprint = fingerprint;
    source = source;
    started_at_unix_ms = now;
    applied_at_unix_ms = now;
    last_reload_at_unix_ms = none;
    last_reload_outcome = none;
  };
  audits = [];
}

pub untracked : ℕ → ℕ → RuntimeConfigAudit
untracked now generation = new_audit now generation (text "untracked") (text "untracked")

unfoldable pub push : RuntimeConfigAudit → ConfigReloadAudit → RuntimeConfigAudit
push log audit =
    let id = add_u64 log.next_id 1 in
    record log {
      next_id = id;
      audits = push_bounded reload_audit_limit log.audits (record audit { id = id });
    }

unfoldable pub record_applied :
    RuntimeConfigAudit → ℕ → ConfigReloadTrigger → ℕ → Text → List Text → RuntimeConfigAudit
record_applied log now trigger generation fingerprint changed_fields =
    let after : RuntimeConfigAudit = record log {
      status = record (log.status) {
        generation = generation;
        fingerprint = fingerprint;
        applied_at_unix_ms = now;
        last_reload_at_unix_ms = some now;
        last_reload_outcome = some applied;
      };
    } in
    push after (record {
      id = 0;
      observed_at_unix_ms = now;
      trigger = trigger;
      outcome = applied;
      generation_before = log.status.generation;
      generation_after = generation;
      candidate_fingerprint = some fingerprint;
      changed_fields = changed_fields;
      restart_required_fields = [];
      message = none;
    })

unfoldable pub record_unchanged :
    RuntimeConfigAudit
    → ℕ
    → ConfigReloadTrigger
    → ConfigReloadOutcome
    → Option Text
    → List Text
    → List Text
    → Option Text
    → RuntimeConfigAudit
record_unchanged log now trigger outcome candidate_fingerprint changed_fields
      restart_required_fields message =
    let after : RuntimeConfigAudit = record log {
      status = record (log.status) {
        last_reload_at_unix_ms = some now;
        last_reload_outcome = some outcome;
      };
    } in
    push after (record {
      id = 0;
      observed_at_unix_ms = now;
      trigger = trigger;
      outcome = outcome;
      generation_before = log.status.generation;
      generation_after = log.status.generation;
      candidate_fingerprint = candidate_fingerprint;
      changed_fields = changed_fields;
      restart_required_fields = restart_required_fields;
      message = message;
    })

unfoldable pub record_noop :
    RuntimeConfigAudit → ℕ → ConfigReloadTrigger → Text → RuntimeConfigAudit
record_noop log now trigger candidate =
    record_unchanged log now trigger noop (some candidate) [] [] none

unfoldable pub record_restart_required :
    RuntimeConfigAudit → ℕ → ConfigReloadTrigger → Text → List Text → List Text → RuntimeConfigAudit
record_restart_required log now trigger candidate changed restart =
    record_unchanged log now trigger restart_required (some candidate) changed restart
      (some (text "configuration changes require a process restart"))

unfoldable pub record_invalid : RuntimeConfigAudit → ℕ → ConfigReloadTrigger → RuntimeConfigAudit
record_invalid log now trigger =
    record_unchanged log now trigger invalid none [] []
      (some (text "configuration parsing or validation failed"))

unfoldable pub record_failed : RuntimeConfigAudit → ℕ → ConfigReloadTrigger → RuntimeConfigAudit
record_failed log now trigger =
    record_unchanged log now trigger failed none [] []
      (some (text "runtime configuration commit failed"))

-- One call of the audit.
pub data AuditCall : Type 0 where
  applied_call : ℕ → ConfigReloadTrigger → ℕ → Text → List Text → AuditCall
  noop_call : ℕ → ConfigReloadTrigger → Text → AuditCall
  restart_call : ℕ → ConfigReloadTrigger → Text → List Text → List Text → AuditCall
  invalid_call : ℕ → ConfigReloadTrigger → AuditCall
  failed_call : ℕ → ConfigReloadTrigger → AuditCall

unfoldable pub call : RuntimeConfigAudit → AuditCall → RuntimeConfigAudit
call log (applied_call now trigger generation fingerprint changed) =
    record_applied log now trigger generation fingerprint changed
call log (noop_call now trigger candidate) = record_noop log now trigger candidate
call log (restart_call now trigger candidate changed restart) =
    record_restart_required log now trigger candidate changed restart
call log (invalid_call now trigger) = record_invalid log now trigger
call log (failed_call now trigger) = record_failed log now trigger
