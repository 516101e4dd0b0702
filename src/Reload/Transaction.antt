-- ===== src/Reload/Transaction.antt =====
-- crates/dynet-cli/src/runtime_reload.rs: a reload of the configuration while the process runs. It
-- holds the lock on `current` from its start to its end, so reloads do not overlap; flows are
-- selected and events are recorded meanwhile.
use dynet.Base.{ℕ, Bool, true, false, List, Option, some, none, ◌++◌, [], ◌∷◌, if◌then◌else◌}
use dynet.Base.Outcome.{Outcome, ok, err, panic}
use dynet.Base.Text.{Text, text}
use dynet.Runtime.{
  RuntimeState, RuntimeSeed, RuntimeReconfigure, prepare_reconfigure, commit_reconfigure,
}
use dynet.Runtime.Audit.{
  RuntimeConfigAudit, ConfigReloadTrigger, new_audit, record_applied, record_noop,
  record_restart_required, record_invalid, record_failed,
}
use dynet.Egress.{Protocols, ReloadableEgress, graph_from, install, uninstall}
use dynet.Reload.{noop, apply, restart_required, plan_reload}
use dynet.Reload.Settings.{Config, TunCaptureConfig}

-- `RuntimeReloadInner`. The store is the seed that it holds.
pub record RuntimeReload : Type 0 where
  pub current : Config
  pub runtime : RuntimeState
  pub store : RuntimeSeed
  pub egress : ReloadableEgress
  pub tun : TunCaptureConfig
  pub audit : RuntimeConfigAudit

-- What one reload meets: the time, what `Config::from_config_path` reads, the digest of a
-- configuration, the protocols' answers, whether the database takes a seed the first and the second
-- time (a transaction that it refuses leaves it as it was), and what the other tasks make of the
-- runtime until the commit.
pub record Surroundings : Type 0 where
  pub now : ℕ
  pub candidate : Outcome Text Config
  pub fingerprint : Config → Text
  pub protocols : Protocols
  pub stores : Bool
  pub restores : Bool
  pub meanwhile : RuntimeState → RuntimeState

pub data ReloadResult : Type 0 where
  applied_result : ℕ → List Text → ReloadResult
  noop_result : ℕ → ReloadResult
  restart_required_result : ℕ → List Text → ReloadResult
  invalid_result : ℕ → ReloadResult
  failed_result : ℕ → ReloadResult

unfoldable pub config_source : Option Text → Text
config_source none = text "dynet.toml (default) + inherited environment"
config_source (some path) = path ++ text " + inherited environment"

-- `RuntimeReload::new`
unfoldable pub new_reload :
    Surroundings → Config → Option Text → RuntimeState → RuntimeSeed → Outcome Text RuntimeReload
unfolding config_source
new_reload env config config_path runtime store =
    elim (graph_from env.protocols config.forwarding.execution_nodes) [
      | err e ↦ err e
      | panic ↦ panic
      | ok graph ↦ ok (record {
        current = config;
        runtime = runtime;
        store = store;
        egress = (runtime.routing.generation, graph) ∷ [];
        tun = config.capture.tun;
        audit =
            new_audit env.now runtime.routing.generation (env.fingerprint config)
              (config_source config_path);
      })
    ]

unfoldable pub failed :
    Surroundings → ConfigReloadTrigger → RuntimeReload → RuntimeReload × ReloadResult
failed env trigger s = (
  record s { audit = record_failed s.audit env.now trigger },
  failed_result s.runtime.routing.generation,
)

-- `apply_candidate` from `commit_reconfigure` on, on the runtime and the store as they are by then.
unfoldable pub commit_candidate :
    Surroundings
    → ConfigReloadTrigger
    → RuntimeReload
    → RuntimeReconfigure
    → Config
    → RuntimeSeed
    → List Text
    → RuntimeReload × ReloadResult
commit_candidate env trigger s prepared candidate previous_seed changed =
    let generation = prepared.routing.generation in
    elim (commit_reconfigure s.runtime prepared) [
      | ok (runtime, _) ↦ (
        record {
          current = candidate;
          runtime = runtime;
          store = s.store;
          egress = s.egress;
          tun = candidate.capture.tun;
          audit =
              record_applied s.audit env.now trigger generation (env.fingerprint candidate) changed;
        },
        applied_result generation changed,
      )
      | _ ↦ failed env trigger (record s {
        egress = uninstall s.egress generation;
        store = if env.restores then previous_seed else s.store;
      })
    ]

unfoldable pub apply_candidate :
    Surroundings
    → ConfigReloadTrigger
    → RuntimeReload
    → Config
    → List Text
    → RuntimeReload × ReloadResult
apply_candidate env trigger s candidate changed =
    let prepared = prepare_reconfigure s.runtime candidate.forwarding.seed in
    let generation = prepared.routing.generation in
    elim (install env.protocols s.egress generation candidate.forwarding.execution_nodes) [
      | ok egress ↦
          let after : RuntimeReload = record s {
            egress = egress;
            runtime = env.meanwhile s.runtime;
          } in
          elim env.stores [
            | true ↦
                commit_candidate env trigger (record after { store = candidate.forwarding.seed })
                  prepared candidate s.current.forwarding.seed changed
            | false ↦ failed env trigger (record after { egress = uninstall egress generation })
          ]
      | _ ↦ failed env trigger s
    ]

unfoldable pub reload :
    Surroundings → ConfigReloadTrigger → RuntimeReload → RuntimeReload × ReloadResult
reload env trigger s = elim env.candidate [
  | ok candidate ↦
      let fingerprint = env.fingerprint candidate in
      let plan = plan_reload s.current candidate in
      elim plan.disposition [
        | noop ↦ (
          record s { audit = record_noop s.audit env.now trigger fingerprint },
          noop_result s.runtime.routing.generation,
        )
        | restart_required ↦ (
          record s {
            audit =
                record_restart_required s.audit env.now trigger fingerprint plan.changed_fields
                  plan.restart_required_fields;
          },
          restart_required_result s.runtime.routing.generation plan.restart_required_fields,
        )
        | apply ↦ apply_candidate env trigger s candidate plan.changed_fields
      ]
  | _ ↦ (
    record s { audit = record_invalid s.audit env.now trigger },
    invalid_result s.runtime.routing.generation,
  )
]
