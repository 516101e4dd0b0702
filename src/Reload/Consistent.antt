-- ===== src/Reload/Consistent.antt =====
-- runtime_reload.rs: the parts that a reload keeps agree with each other.
use dynet.Base.{◌+◌, ◌<◌, ◌≡◌, refl, arith, sym, ap, ◌∙◌, subst}
use dynet.Base.Outcome.{ok}
use dynet.Base.Text.{Text}
use dynet.Base.Words.{add_u64, u64_mod}
use dynet.Runtime.{RuntimeState, routing_from_seed}
use dynet.Runtime.Audit.{
  RuntimeConfigAudit, ConfigReloadTrigger, record_applied, record_noop, record_restart_required,
  record_invalid, record_failed, record_unchanged, push,
}
use dynet.Runtime.Reload.{Run, Run-routing}
use dynet.Egress.{Protocols, GraphEgress, ReloadableEgress, graph_from}
use dynet.Egress.Newest.{IsNewest, install-IsNewest, uninstall-IsNewest}
use dynet.Reload.Settings.{Config}
use dynet.Reload.Transaction.{RuntimeReload, ReloadResult, Surroundings}
use dynet.Reload.Atomic.{
  Reloaded, unreadable, unchanged, refused, not_installed, not_stored, installed, overtaken,
}

-- The configuration in force, the routing tables, the database, the TUN settings, the egress graph
-- and the audit's status say the same.
pub record IsConsistent (protocols : Protocols) (fingerprint : Config → Text) (s : RuntimeReload)
    : Type 0 where
  pub routing :
      s.runtime.routing ≡ routing_from_seed s.runtime.routing.generation s.current.forwarding.seed
  pub store : s.store ≡ s.current.forwarding.seed
  pub tun : s.tun ≡ s.current.capture.tun
  pub generation : s.audit.status.generation ≡ s.runtime.routing.generation
  pub digest : s.audit.status.fingerprint ≡ fingerprint s.current
  pub graph : GraphEgress
  pub made : graph_from protocols s.current.forwarding.execution_nodes ≡ ok graph
  pub newest : IsNewest s.egress s.runtime.routing.generation graph

-- The status is that of the log, with another time and outcome.
abbrev pub SameStatus : RuntimeConfigAudit → RuntimeConfigAudit → Type 0
SameStatus log s =
    (log.status.generation ≡ s.status.generation) × (log.status.fingerprint ≡ s.status.fingerprint)

module _ {protocols : Protocols} {fingerprint : Config → Text} (s : RuntimeReload)
    (c : IsConsistent protocols fingerprint s) where
  -- Another audit with the same status, and another state of the runtime with the same tables.
  pub kept :
      (log : RuntimeConfigAudit) (runtime : RuntimeState)
      → SameStatus log s.audit
      → runtime.routing ≡ s.runtime.routing
      → IsConsistent protocols fingerprint (record s { audit = log; runtime = runtime })
  kept log runtime (g, f) e =
      let same : runtime.routing.generation ≡ s.runtime.routing.generation =
        ap (λ r. r.generation) e in
      record {
        routing =
            e ∙ c.routing ∙ ap (λ g. routing_from_seed g s.current.forwarding.seed) (sym same);
        store = c.store;
        tun = c.tun;
        generation = g ∙ c.generation ∙ sym same;
        digest = f ∙ c.digest;
        graph = c.graph;
        made = c.made;
        newest = subst (λ g. IsNewest s.egress g c.graph) (sym same) c.newest;
      }

  -- The same with the egress of a generation that was withdrawn.
  kept_egress :
      (egress : ReloadableEgress)
      → IsNewest egress s.runtime.routing.generation c.graph
      → IsConsistent protocols fingerprint (record s { egress = egress })
  kept_egress egress newest = record {
    routing = c.routing;
    store = c.store;
    tun = c.tun;
    generation = c.generation;
    digest = c.digest;
    graph = c.graph;
    made = c.made;
    newest = newest;
  }

module _ (env : Surroundings) (trigger : ConfigReloadTrigger) (s : RuntimeReload)
    (room : s.runtime.routing.generation + 1 < u64_mod)
    (run : Run 0 s.runtime (env.meanwhile s.runtime))
    (c : IsConsistent env.protocols env.fingerprint s) where
  above : s.runtime.routing.generation < add_u64 s.runtime.routing.generation 1
  unfolding add_u64
  above = omega (arith, room)

  pub Reloaded-IsConsistent :
      {r : RuntimeReload × ReloadResult}
      → Reloaded env trigger s 0 r
      → IsConsistent env.protocols env.fingerprint r.0
  unfolding record_invalid record_noop record_restart_required record_failed record_applied
      record_unchanged push routing_from_seed
  Reloaded-IsConsistent (unreadable n) = kept s c _ _ (refl, refl) refl
  Reloaded-IsConsistent (unchanged d e p) = kept s c _ _ (refl, refl) refl
  Reloaded-IsConsistent (refused d changed fields e p) = kept s c _ _ (refl, refl) refl
  Reloaded-IsConsistent (not_installed d e n) = kept s c _ _ (refl, refl) refl
  Reloaded-IsConsistent (not_stored d egress e i f) =
      let back = kept_egress s c _ (
        uninstall-IsNewest env.protocols s.egress _ _ c.graph above c.newest
          d.forwarding.execution_nodes i) in
      kept _ back _ _ (refl, refl) (Run-routing refl run)
  Reloaded-IsConsistent (overtaken d egress e i t others) = absurd (omega (arith, others))
  Reloaded-IsConsistent (installed d egress changed e p i t alone) =
      let (graph, made, newest) =
        install-IsNewest env.protocols s.egress _ _ c.graph above c.newest
          d.forwarding.execution_nodes i in
      record {
        routing = refl;
        store = refl;
        tun = refl;
        generation = refl;
        digest = refl;
        graph = graph;
        made = made;
        newest = newest;
      }
