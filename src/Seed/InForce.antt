-- ===== src/Seed/InForce.antt =====
-- lib.rs, runtime_reload.rs and validation.rs: what flows meet on the tables in force after any
-- reloads, where the database took a valid seed.
use dynet.Base.{ℕ, ◌≡◌, ◌⊎◌, inl, inr, All, ap, sym, ◌∙◌, subst}
use dynet.Base.Outcome.{ok, err}
use dynet.Base.Text.{Text}
use dynet.Routing.Types.{SelectionContext, SelectionDecision}
use dynet.Runtime.{RuntimeState, SelectionError, select}
use dynet.Runtime.Choice.{IsDecision, select-IsDecision}
use dynet.Egress.{Protocols}
use dynet.Reload.Settings.{Config}
use dynet.Reload.Transaction.{RuntimeReload}
use dynet.Reload.Lifetime.{Lifetime, Lifetime-IsConsistent}
use dynet.Seed.{validate_seed}
use dynet.Seed.Routes.{IsNamed}
use dynet.Seed.Refusals.{Refusal}
use dynet.Seed.Flows.{seed-Refusal}

-- In every state of a process whose database holds a seed that validate_seed accepts, with links made
-- by `NextRef::named`, every flow is answered by a decision or by one of these errors: it is IPv6 and
-- the configuration in force has IPv6 off, or the rule that it matches denies that; the seed has the
-- group that the error names switched off; or it has that group enabled, and gives it no member, or
-- none that is enabled and whose node serves the flow's family. It never finds a group missing, a
-- cycle, or no default group.
pub Lifetime-Refusal :
    (protocols : Protocols) (fingerprint : Config → Text) {s : RuntimeReload} (now : ℕ)
    (context : SelectionContext)
    → Lifetime protocols fingerprint s
    → validate_seed s.store ≡ ok tt
    → All IsNamed s.store.groups
    → ((after : RuntimeState) × (d : SelectionDecision) × (select s.runtime now context
          ≡ ok (after, d))
        × IsDecision s.runtime context after d)
      ⊎ ((e : SelectionError) × (select s.runtime now context ≡ err e)
          × Refusal s.current.forwarding.seed context e)
Lifetime-Refusal protocols fingerprint {s} now context life valid links =
    let (c, found) = Lifetime-IsConsistent protocols fingerprint life in
    let seed = s.current.forwarding.seed in
    elim (select-IsDecision s.runtime context now) [
      | inl decision ↦ inl decision
      | inr (e, answer) ↦ inr (
        e,
        answer,
        subst
            (λ routing.
              select (record s.runtime { routing = routing }) now context ≡ err e
              → Refusal seed context e)
            (sym c.routing)
            (seed-Refusal seed (ap validate_seed (sym c.store) ∙ valid)
              (subst (λ seed. All IsNamed seed.groups) c.store links) s.runtime
              s.runtime.routing.generation now context)
            answer,
      )
    ]
