-- ===== src/Reload/Lifetime.antt =====
-- runtime_reload.rs over the life of a process: one reload after the other, with flows in between.
use dynet.Base.{ℕ, sym, ◌+◌, ◌<◌, ◌≡◌, refl, [], ◌∷◌, Option, some, ap, ◌∙◌, arith, subst}
use dynet.Base.Outcome.{Outcome, ok, err, panic}
use dynet.Base.Text.{Text}
use dynet.Base.Words.{u64_mod}
use dynet.Runtime.{select, RuntimeState, routing_from_seed}
use dynet.Runtime.Audit.{ConfigReloadTrigger, new_audit}
use dynet.Routing.Types.{SelectionContext, SelectionDecision}
use dynet.Runtime.Reload.{Run, select-generation, Run-routing}
use dynet.Base.Order.{nat_ord}
use dynet.Base.OrdMap.{get}
use dynet.Egress.{Protocols, GraphEgress, graph_from, graph_for}
use dynet.Egress.Generations.{get_newest}
use dynet.Reload.Settings.{Config}
use dynet.Reload.Transaction.{RuntimeReload, Surroundings, new_reload, config_source, reload}
use dynet.Reload.Atomic.{reload-Reloaded}
use dynet.Reload.Consistent.{IsConsistent, kept, Reloaded-IsConsistent}

module _ (protocols : Protocols) (fingerprint : Config → Text) where
  -- The protocols and the digest stay what they are while a process runs.
  abbrev pub in_process : Surroundings → Surroundings
  in_process env = record env { protocols = protocols; fingerprint = fingerprint }

  -- The states that a process goes through: started on a configuration that its database and its
  -- tables were made from, it selects flows and records events, and reloads.
  pub data Lifetime : RuntimeReload → Type 0 where
    started :
        {s : RuntimeReload} (env : Surroundings) (config : Config) (path : Option Text)
        (runtime : RuntimeState)
        → runtime.routing ≡ routing_from_seed runtime.routing.generation config.forwarding.seed
        → new_reload (in_process env) config path runtime config.forwarding.seed ≡ ok s
        → Lifetime s
    worked :
        {s : RuntimeReload} {t : RuntimeState}
        → Lifetime s
        → Run 0 s.runtime t
        → Lifetime (record s { runtime = t })
    reloaded :
        {s : RuntimeReload} (env : Surroundings) (trigger : ConfigReloadTrigger)
        → Lifetime s
        → s.runtime.routing.generation + 1 < u64_mod
        → Run 0 s.runtime (env.meanwhile s.runtime)
        → Lifetime (reload (in_process env) trigger s).0

  module _ (env : Surroundings) (config : Config) (path : Option Text)
      (runtime : RuntimeState) where
    abbrev built : GraphEgress → RuntimeReload
    built graph = record {
      current = config;
      runtime = runtime;
      store = config.forwarding.seed;
      egress = (runtime.routing.generation, graph) ∷ [];
      tun = config.capture.tun;
      audit =
          new_audit env.now runtime.routing.generation (fingerprint config) (config_source path);
    }

    built-IsConsistent :
        (graph : GraphEgress)
        → runtime.routing ≡ routing_from_seed runtime.routing.generation config.forwarding.seed
        → graph_from protocols config.forwarding.execution_nodes ≡ ok graph
        → IsConsistent protocols fingerprint (built graph)
    unfolding new_audit
    built-IsConsistent graph same e = record {
      routing = same;
      store = refl;
      tun = refl;
      generation = refl;
      digest = refl;
      graph = graph;
      made = e;
      newest = record { older = []; split = refl; below = tt; few = omega arith };
    }

    new_reload-IsConsistent :
        {s : RuntimeReload}
        → runtime.routing ≡ routing_from_seed runtime.routing.generation config.forwarding.seed
        → new_reload (in_process env) config path runtime config.forwarding.seed ≡ ok s
        → IsConsistent protocols fingerprint s
    unfolding new_reload
    new_reload-IsConsistent {s} same h =
        go (graph_from protocols config.forwarding.execution_nodes) refl
      where
        go :
            (o : Outcome Text GraphEgress)
            → graph_from protocols config.forwarding.execution_nodes ≡ o
            → IsConsistent protocols fingerprint s
        go (ok graph) e =
            let made : new_reload (in_process env) config path runtime config.forwarding.seed
                ≡ ok (built graph) =
              rw (new_reload, e) refl in
            let is_s : built graph ≡ s = cc (h, made) in
            subst (IsConsistent protocols fingerprint) is_s (built-IsConsistent graph same e)
        go (err x) e = ground (arith, e, h)
        go panic e = ground (arith, e, h)

  Lifetime-keeps : {s : RuntimeReload} → Lifetime s → IsConsistent protocols fingerprint s
  Lifetime-keeps (started env config path runtime same h) =
      new_reload-IsConsistent env config path runtime same h
  Lifetime-keeps (worked {s} {t} life run) =
      kept s (Lifetime-keeps life) s.audit t (refl, refl) (Run-routing refl run)
  Lifetime-keeps (reloaded {s} env trigger life room run) =
      let bound : s.runtime.routing.generation < u64_mod = omega (arith, room) in
      Reloaded-IsConsistent (in_process env) trigger s room run (Lifetime-keeps life)
        (reload-Reloaded (in_process env) trigger s bound (omega arith) run)

  -- In every state of a process the configuration in force, the routing tables, the database, the TUN
  -- settings and the audit's status agree, and the newest of at most eight egress graphs is the one
  -- that was made from the nodes of that configuration, under the generation of the tables: so a
  -- decision of the current generation finds the current graph.
  pub Lifetime-IsConsistent :
      {s : RuntimeReload}
      → Lifetime s
      → (c : IsConsistent protocols fingerprint s) × (graph_for s.egress
            s.runtime.routing.generation
          ≡ ok c.graph)
  unfolding graph_for
  Lifetime-IsConsistent {s} life =
      let c = Lifetime-keeps life in
      let n = c.newest in
      let found : get s.runtime.routing.generation s.egress ≡ some c.graph =
        ap (get s.runtime.routing.generation) n.split
        ∙ get_newest s.runtime.routing.generation c.graph n.older n.below in
      (c, rw found refl)

  -- A decision that the runtime takes is carried out on the egress graph that was made from the nodes
  -- of the configuration in force.
  pub Lifetime-select :
      {s : RuntimeReload} (now : ℕ) (context : SelectionContext) {after : RuntimeState}
      {d : SelectionDecision}
      → Lifetime s
      → select s.runtime now context ≡ ok (after, d)
      → (graph : GraphEgress) × (graph_from protocols s.current.forwarding.execution_nodes
          ≡ ok graph)
        × (graph_for s.egress d.config_generation ≡ ok graph)
  Lifetime-select {s} now context {after} {d} life h =
      let (c, found) = Lifetime-IsConsistent life in
      (
        c.graph,
        c.made,
        subst (λ g. graph_for s.egress g ≡ ok c.graph)
            (sym (select-generation s.runtime now context h)) found,
      )
