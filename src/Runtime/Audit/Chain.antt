-- ===== src/Runtime/Audit/Chain.antt =====
-- The entries of runtime_config.rs's audit follow on each other, and the last one is the status.
use mathlib.Core.List.{foldl}
use dynet.Base.{
  ℕ, ◌≤◌, ◌<◌, ◌≡◌, ◌≢◌, refl, inl, inr, false, List, [], ◌∷◌, ◌++◌, length, drop, Option, none,
  some, ◌==◌, if◌then◌else◌, Bool-cases, arith, sym, ap, ◌∙◌, subst, length-append, length-drop,
}
use dynet.Base.Text.{Text}
use dynet.Base.Words.{add_u64}
use dynet.Observe.Event.{push_bounded}
use dynet.Runtime.Audit.{
  reload_audit_limit, ConfigReloadTrigger, ConfigReloadOutcome, applied, noop, restart_required,
  invalid, failed, RuntimeConfigStatus, ConfigReloadAudit, RuntimeConfigAudit, new_audit, push,
  record_applied, record_unchanged, record_noop, record_restart_required, record_invalid,
  record_failed, AuditCall, applied_call, noop_call, restart_call, invalid_call, failed_call, call,
}

-- Only an applied reload changes the generation.
abbrev pub Keeps : ConfigReloadAudit → Type 0
Keeps audit = audit.outcome ≢ applied → audit.generation_after ≡ audit.generation_before

-- The list of entries from an id on: ids that go up by one, each generation is where the last entry
-- left it, and the last one leaves that of the status.
abbrev pub IsChain : ℕ → ℕ → List ConfigReloadAudit → ℕ → ℕ → Type 0
IsChain id before [] last after = (id ≡ last) × (before ≡ after)
IsChain id before (a ∷ audits) last after =
    (a.id ≡ add_u64 id 1)
    × (a.generation_before ≡ before)
    × Keeps a
    × IsChain a.id a.generation_after audits last after

IsChain-append :
    (id before last after : ℕ) (audits : List ConfigReloadAudit) (a : ConfigReloadAudit)
    → IsChain id before audits last after
    → a.id ≡ add_u64 last 1
    → a.generation_before ≡ after
    → Keeps a
    → IsChain id before (audits ++ (a ∷ [])) a.id a.generation_after
IsChain-append id before last after [] a (e, f) i g k =
    (i ∙ ap (λ t. add_u64 t 1) (sym e), g ∙ sym f, k, (refl, refl))
IsChain-append id before last after (b ∷ audits) a (e, f, l, linked) i g k =
    (e, f, l, IsChain-append b.id b.generation_after last after audits a linked i g k)

abbrev Linked : List ConfigReloadAudit → ℕ → ℕ → Type 0
Linked audits last after = (id : ℕ) × (before : ℕ) × IsChain id before audits last after

Linked-drop :
    (audits : List ConfigReloadAudit) (last after : ℕ)
    → Linked audits last after
    → Linked (drop 1 audits) last after
Linked-drop [] last after h = h
Linked-drop (a ∷ audits) last after (id, before, (e, f, k, linked)) =
    (a.id, a.generation_after, linked)

Linked-push :
    (audits : List ConfigReloadAudit) (a : ConfigReloadAudit) (last after : ℕ)
    → Linked audits last after
    → a.id ≡ add_u64 last 1
    → a.generation_before ≡ after
    → Keeps a
    → Linked (push_bounded reload_audit_limit audits a) a.id a.generation_after
unfolding push_bounded
Linked-push audits a last after h i g k = elim (Bool-cases (length audits == reload_audit_limit)) [
  | inl e ↦
      let (id, before, c) = Linked-drop audits last after h in
      rw e (id, before, IsChain-append id before last after (drop 1 audits) a c i g k)
  | inr e ↦
      let (id, before, c) = h in
      rw e (id, before, IsChain-append id before last after audits a c i g k)
]

push_bounded-length :
    {A : Type 0} (limit : ℕ) (audits : List A) (a : A)
    → 0 < limit
    → length audits ≤ limit
    → length (push_bounded limit audits a) ≤ limit
unfolding push_bounded
push_bounded-length limit audits a p h = elim (Bool-cases (length audits == limit)) [
  | inl e ↦ rw e (omega (arith, length-append (drop 1 audits) (a ∷ []), length-drop 1 audits))
  | inr e ↦ rw e (omega (arith, h, length-append audits (a ∷ []), differs e))
]
  where
    differs : (length audits == limit) ≡ false → length audits ≢ limit
    differs e = ground (arith, e)

-- The newest entry tells what the status does.
abbrev pub IsLatest : RuntimeConfigStatus → List ConfigReloadAudit → Type 0
IsLatest status [] = (status.last_reload_outcome ≡ none) × (status.last_reload_at_unix_ms ≡ none)
IsLatest status (a ∷ []) =
    (status.last_reload_outcome ≡ some a.outcome)
    × (status.last_reload_at_unix_ms ≡ some a.observed_at_unix_ms)
IsLatest status (a ∷ b ∷ audits) = IsLatest status (b ∷ audits)

IsLatest-append :
    (status : RuntimeConfigStatus) (audits : List ConfigReloadAudit) (a : ConfigReloadAudit)
    → status.last_reload_outcome ≡ some a.outcome
    → status.last_reload_at_unix_ms ≡ some a.observed_at_unix_ms
    → IsLatest status (audits ++ (a ∷ []))
IsLatest-append status [] a o t = (o, t)
IsLatest-append status (b ∷ []) a o t = (o, t)
IsLatest-append status (b ∷ c ∷ audits) a o t = IsLatest-append status (c ∷ audits) a o t

IsLatest-push :
    (status : RuntimeConfigStatus) (audits : List ConfigReloadAudit) (a : ConfigReloadAudit)
    → status.last_reload_outcome ≡ some a.outcome
    → status.last_reload_at_unix_ms ≡ some a.observed_at_unix_ms
    → IsLatest status (push_bounded reload_audit_limit audits a)
unfolding push_bounded
IsLatest-push status audits a o t =
    IsLatest-append status (if length audits == reload_audit_limit then drop 1 audits else audits) a
      o t

pub record IsAudit (log : RuntimeConfigAudit) : Type 0 where
  pub bounded : length log.audits ≤ reload_audit_limit
  pub chained :
      (id : ℕ) × (before : ℕ) × IsChain id before log.audits log.next_id log.status.generation
  pub latest : IsLatest log.status log.audits

new_audit-IsAudit :
    (now generation : ℕ) (fingerprint source : Text)
    → IsAudit (new_audit now generation fingerprint source)
unfolding new_audit
new_audit-IsAudit now generation fingerprint source = record {
  bounded = omega arith;
  chained = (0, generation, (refl, refl));
  latest = (refl, refl);
}

-- An entry pushed with the status that it stands for.
push-IsAudit :
    (log : RuntimeConfigAudit) (status : RuntimeConfigStatus) (a : ConfigReloadAudit)
    → IsAudit log
    → a.generation_before ≡ log.status.generation
    → a.generation_after ≡ status.generation
    → Keeps a
    → status.last_reload_outcome ≡ some a.outcome
    → status.last_reload_at_unix_ms ≡ some a.observed_at_unix_ms
    → IsAudit (push (record log { status = status }) a)
unfolding push
push-IsAudit log status a h b g k o t =
    let id = add_u64 log.next_id 1 in
    let entry : ConfigReloadAudit = record a { id = id } in
    record {
      bounded = push_bounded-length reload_audit_limit log.audits entry (omega arith) h.bounded;
      chained =
          subst
            (λ x.
              (i : ℕ) × (before : ℕ) × IsChain i before
                (push_bounded reload_audit_limit log.audits entry) id x)
            g (Linked-push log.audits entry log.next_id log.status.generation h.chained refl b k);
      latest = IsLatest-push status log.audits entry o t;
    }

record_unchanged-IsAudit :
    (log : RuntimeConfigAudit) (now : ℕ) (trigger : ConfigReloadTrigger)
    (outcome : ConfigReloadOutcome) (candidate : Option Text) (changed restart : List Text)
    (message : Option Text)
    → IsAudit log
    → IsAudit (record_unchanged log now trigger outcome candidate changed restart message)
unfolding record_unchanged
record_unchanged-IsAudit log now trigger outcome candidate changed restart message h =
    push-IsAudit log
      (record (log.status) {
        last_reload_at_unix_ms = some now;
        last_reload_outcome = some outcome;
      })
      _ h refl refl (λ _. refl) refl refl

call-IsAudit : (log : RuntimeConfigAudit) (c : AuditCall) → IsAudit log → IsAudit (call log c)
unfolding call record_applied record_noop record_restart_required record_invalid record_failed
call-IsAudit log (applied_call now trigger generation fingerprint changed) h =
    push-IsAudit log
      (record (log.status) {
        generation = generation;
        fingerprint = fingerprint;
        applied_at_unix_ms = now;
        last_reload_at_unix_ms = some now;
        last_reload_outcome = some applied;
      })
      _ h refl refl (λ ne. absurd (ne refl)) refl refl
call-IsAudit log (noop_call now trigger candidate) h =
    record_unchanged-IsAudit log now trigger noop (some candidate) [] [] none h
call-IsAudit log (restart_call now trigger candidate changed restart) h =
    record_unchanged-IsAudit log now trigger restart_required (some candidate) changed restart _ h
call-IsAudit log (invalid_call now trigger) h =
    record_unchanged-IsAudit log now trigger invalid none [] [] _ h
call-IsAudit log (failed_call now trigger) h =
    record_unchanged-IsAudit log now trigger failed none [] [] _ h

foldl-IsAudit :
    (log : RuntimeConfigAudit) (calls : List AuditCall)
    → IsAudit log
    → IsAudit (foldl call log calls)
foldl-IsAudit log [] h = h
foldl-IsAudit log (c ∷ calls) h = foldl-IsAudit (call log c) calls (call-IsAudit log c h)

-- After any calls of a new audit it holds at most 128 entries, their ids go up by one (modulo
-- 2 ^ 64) to the last id given, each starts with the generation that the one before ended with, the
-- last ends with that of the status, only an applied reload changes it, and the status tells the
-- outcome and the time of the last entry.
pub calls-IsAudit :
    (now generation : ℕ) (fingerprint source : Text) (calls : List AuditCall)
    → IsAudit (foldl call (new_audit now generation fingerprint source) calls)
calls-IsAudit now generation fingerprint source calls =
    foldl-IsAudit (new_audit now generation fingerprint source) calls
      (new_audit-IsAudit now generation fingerprint source)
