-- ===== src/Reload/Whole.antt =====
-- runtime_reload.rs: what a reload changes: everything or nothing.
use dynet.Base.{
  ℕ, ◌<◌, ◌≡◌, ◌≢◌, ◌⊎◌, inl, inr, refl, true, false, Bool-cases, if◌then◌else◌, subst,
}
use dynet.Egress.{ReloadableEgress, install, uninstall}
use dynet.Base.Outcome.{ok}
use dynet.Base.Words.{add_u64, u64_mod}
use dynet.Runtime.{RuntimeSeed, routing_from_seed}
use dynet.Runtime.Audit.{ConfigReloadTrigger}
use dynet.Runtime.Reload.{Run, Run-routing}
use dynet.Base.Order.{nat_ord}
use dynet.Reload.{plan_reload}
use dynet.Reload.Settings.{Config}
use dynet.Reload.Plan.{hot_update, plan_reload-Tells, Tells}
use dynet.Reload.Transaction.{
  RuntimeReload, Surroundings, ReloadResult, applied_result, noop_result, restart_required_result,
  invalid_result, failed_result, reload,
}
use dynet.Reload.Atomic.{
  Reloaded, unreadable, unchanged, refused, not_installed, not_stored, installed, overtaken,
  reload-Reloaded,
}

-- The generation that a result names.
abbrev pub result_generation : ReloadResult → ℕ
result_generation (applied_result g changed) = g
result_generation (noop_result g) = g
result_generation (restart_required_result g fields) = g
result_generation (invalid_result g) = g
result_generation (failed_result g) = g

-- All that the process runs on is still what it was.
abbrev pub Untouched : RuntimeReload → RuntimeReload → Type 0
Untouched s r =
    (r.current ≡ s.current)
    × (r.store ≡ s.store)
    × (r.tun ≡ s.tun)
    × (r.runtime ≡ s.runtime)
    × (r.egress ≡ s.egress)

-- What the database holds after others committed first: what it held before, if it takes that again,
-- and else what the candidate says.
abbrev pub Restored : Surroundings → RuntimeReload → RuntimeSeed → Type 0
Restored env s store =
    ((env.restores ≡ true) × (store ≡ s.current.forwarding.seed))
    ⊎ ((env.restores ≡ false)
        × ((c : Config) × (env.candidate ≡ ok c) × (store ≡ c.forwarding.seed)))

-- Nothing of the candidate is in force: the runtime is as the others have left it, and an egress
-- graph that was installed is withdrawn.
pub record IsUndone (env : Surroundings) (n : ℕ) (s r : RuntimeReload) : Type 0 where
  pub current : r.current ≡ s.current
  pub tun : r.tun ≡ s.tun
  pub runtime : (r.runtime ≡ s.runtime) ⊎ (r.runtime ≡ env.meanwhile s.runtime)
  pub tables : n ≡ 0 → r.runtime.routing ≡ s.runtime.routing
  pub store : (r.store ≡ s.store) ⊎ ((0 < n) × Restored env s r.store)
  pub egress :
      (r.egress ≡ s.egress)
      ⊎ ((c : Config) × (installed_egress : ReloadableEgress) × (env.candidate ≡ ok c)
          × (install env.protocols s.egress
                (add_u64 s.runtime.routing.generation 1)
                c.forwarding.execution_nodes
              ≡ ok installed_egress)
          × (r.egress ≡ uninstall installed_egress (add_u64 s.runtime.routing.generation 1)))

-- All that the process runs on is the given configuration's, under the next generation.
pub record IsTaken (env : Surroundings) (s r : RuntimeReload) (generation : ℕ) : Type 0 where
  pub next : Config
  pub read : env.candidate ≡ ok next
  pub other : s.current ≢ next
  pub hot : hot_update s.current next ≡ next
  pub current : r.current ≡ next
  pub store : r.store ≡ next.forwarding.seed
  pub tun : r.tun ≡ next.capture.tun
  pub following : generation ≡ add_u64 s.runtime.routing.generation 1
  pub routing : r.runtime.routing ≡ routing_from_seed generation next.forwarding.seed
  pub egress :
      install env.protocols s.egress generation next.forwarding.execution_nodes ≡ ok r.egress

abbrev pub Atomic : Surroundings → ℕ → RuntimeReload → RuntimeReload × ReloadResult → Type 0
Atomic env n s (r, applied_result g changed) = (n ≡ 0) × IsTaken env s r g
Atomic env n s (r, noop_result g) = Untouched s r × (env.candidate ≡ ok s.current)
Atomic env n s (r, restart_required_result g fields) = Untouched s r
Atomic env n s (r, invalid_result g) = Untouched s r
Atomic env n s (r, failed_result g) = IsUndone env n s r

restored :
    (env : Surroundings) (s : RuntimeReload) (c : Config)
    → env.candidate ≡ ok c
    → Restored env s (if env.restores then s.current.forwarding.seed else c.forwarding.seed)
restored env s c e = elim (Bool-cases env.restores) [
  | inl t ↦ inl (t, rw t refl)
  | inr f ↦ inr (f, (c, e, rw f refl))
]

module _ (env : Surroundings) (trigger : ConfigReloadTrigger) (s : RuntimeReload) (n : ℕ) where
  abbrev Told : Config → Type 0
  Told c = Tells s.current c (plan_reload s.current c).disposition

  Reloaded-Atomic :
      {r : RuntimeReload × ReloadResult}
      → Run n s.runtime (env.meanwhile s.runtime)
      → Reloaded env trigger s n r
      → Atomic env n s r × (result_generation r.1 ≡ r.0.runtime.routing.generation)
  unfolding routing_from_seed
  Reloaded-Atomic run (unreadable x) = ((refl, refl, refl, refl, refl), refl)
  Reloaded-Atomic run (unchanged c e p) =
      let same : s.current ≡ c = subst (Tells s.current c) p (plan_reload-Tells s.current c) in
      (((refl, refl, refl, refl, refl), cc (e, same)), refl)
  Reloaded-Atomic run (refused c changed fields e p) = ((refl, refl, refl, refl, refl), refl)
  Reloaded-Atomic run (not_installed c e x) = (
    record {
      current = refl;
      tun = refl;
      runtime = inl refl;
      tables = λ alone. refl;
      store = inl refl;
      egress = inl refl;
    },
    refl,
  )
  Reloaded-Atomic run (not_stored c egress e i f) = (
    record {
      current = refl;
      tun = refl;
      runtime = inr refl;
      tables = λ alone. Run-routing alone run;
      store = inl refl;
      egress = inr (c, egress, e, i, refl);
    },
    refl,
  )
  Reloaded-Atomic run (overtaken c egress e i t others) = (
    record {
      current = refl;
      tun = refl;
      runtime = inr refl;
      tables = λ alone. Run-routing alone run;
      store = inr (others, restored env s c e);
      egress = inr (c, egress, e, i, refl);
    },
    refl,
  )
  Reloaded-Atomic run (installed c egress changed e p i t alone) =
      let (other, hot) = subst (Tells s.current c) p (plan_reload-Tells s.current c) in
      (
        (
          alone,
          record {
            next = c;
            read = e;
            other = other;
            hot = hot;
            current = refl;
            store = refl;
            tun = refl;
            following = refl;
            routing = refl;
            egress = i;
          },
        ),
        refl,
      )

  -- While flows are selected, events are recorded and others commit any number of times below 2 ^ 64,
  -- a reload takes over all of the candidate (configuration, database, TUN settings, egress and
  -- routing tables of the next generation) or nothing. It takes it over only if nobody else committed
  -- and the candidate differs from what is in force in fields that a running process may change; it
  -- says noop only if the candidate is what is in force. A failed reload leaves configuration, TUN
  -- settings and tables alone and withdraws its egress graph. The database is then as it was, unless
  -- others committed first: then the seed in force is put back, and where the database refuses that,
  -- it is left with the candidate's. The generation that is named is the one then in force.
  pub reload-Atomic :
      s.runtime.routing.generation < u64_mod
      → n < u64_mod
      → Run n s.runtime (env.meanwhile s.runtime)
      → Atomic env n s (reload env trigger s)
        × (result_generation (reload env trigger s).1
            ≡ (reload env trigger s).0.runtime.routing.generation)
  reload-Atomic bound few run = Reloaded-Atomic run (reload-Reloaded env trigger s bound few run)
