-- ===== src/Runtime/Tests.antt =====
-- The runtime of lib.rs on a small configuration, and the theorems at it.
use dynet.Base.{ℕ, ◌≡◌, ◌<◌, refl, ◌⊎◌, true, false, [], ◌∷◌, none, arith, replicate}
use dynet.Base.Net.{IpAddr, v4, v6}
use dynet.Base.Outcome.{ok, err}
use dynet.Base.Text.{text}
use dynet.Base.Words.{add_u64}
use dynet.Routing.Types.{
  single_first_enabled, default_thresholds, direct_audit_outlet, external_context, SelectionContext,
  SelectionDecision, tcp, from_address,
}
use dynet.Routing.Dns.{parallel}
use dynet.Observe.Event.{tcp_accept}
use dynet.Runtime.{
  RuntimeState, RuntimeSeed, SelectionError, ipv6_disabled, generation_changed, from_seed, select,
  record_ingress_event, prepare_reconfigure, commit_reconfigure, routing_from_seed, plan,
  ipv6_policy,
}
use dynet.Runtime.Choice.{IsDecision, select-IsDecision}
use mathlib.Core.List.{foldl}
use dynet.Base.{map, List, [], ◌∷◌}
use dynet.Observe.Event.{push_bounded}
use dynet.Runtime.Audit.{
  sighup, manual, AuditCall, applied_call, noop_call, invalid_call, call, new_audit, push,
  record_applied, record_unchanged, record_noop, record_invalid,
}
use dynet.Runtime.Audit.Chain.{IsAudit, calls-IsAudit}
use dynet.Runtime.Reload.{done, recorded, prepared-commit}

abbrev seed : RuntimeSeed
seed = record {
  ipv6_enabled = false;
  nodes =
      record {
        id = text "a";
        tag = text "a";
        enabled = true;
        fingerprint = text "f";
        supports_ipv6 = false;
      }
      ∷ [];
  default_group_id = text "default";
  groups =
      record {
        id = text "default";
        enabled = true;
        scheduler = single_first_enabled;
        thresholds = default_thresholds;
        next = direct_audit_outlet;
      }
      ∷ [];
  group_members =
      record { group_id = text "default"; node_id = text "a"; enabled = true; priority = 0 } ∷ [];
  route_rules = [];
  dns_upstreams = [];
  dns_policy = record { timeout = 1500; strategy = parallel };
}

abbrev context : IpAddr → SelectionContext
context ip = record {
  session_id = 1;
  inbound = tcp;
  target = record {
    address = record { ip = ip; port = 443 };
    domain = none;
    source = external_context;
  };
}

ipv6_refused : select (from_seed seed) 5 (context (v6 (replicate 16 1))) ≡ err ipv6_disabled
unfolding select plan ipv6_policy from_seed routing_from_seed from_address
ipv6_refused = refl

select-IsDecision_example :
    ((after : RuntimeState) × (d : SelectionDecision) × (select
          (from_seed seed)
          5
          (context (v4 (1 ∷ 1 ∷ 1 ∷ 1 ∷ [])))
        ≡ ok (after, d))
      × IsDecision (from_seed seed) (context (v4 (1 ∷ 1 ∷ 1 ∷ 1 ∷ []))) after d)
    ⊎ ((e : SelectionError) × (select (from_seed seed) 5 (context (v4 (1 ∷ 1 ∷ 1 ∷ 1 ∷ [])))
          ≡ err e))
select-IsDecision_example = select-IsDecision (from_seed seed) (context (v4 (1 ∷ 1 ∷ 1 ∷ 1 ∷ []))) 5

abbrev later : RuntimeState
later = record_ingress_event (from_seed seed) 9 tcp_accept []

first_generation : (from_seed seed).routing.generation ≡ 1
unfolding from_seed routing_from_seed
first_generation = refl

prepared-commit_example :
    ((◌≡◌ {A = ℕ} 0 0)
      × (commit_reconfigure later (prepare_reconfigure (from_seed seed) seed)
          ≡ ok (
            record later {
              routing = routing_from_seed (add_u64 (from_seed seed).routing.generation 1) seed;
            },
            add_u64 (from_seed seed).routing.generation 1,
          )))
    ⊎ ((0 < 0)
        × (commit_reconfigure later (prepare_reconfigure (from_seed seed) seed)
            ≡ err
                (generation_changed (from_seed seed).routing.generation later.routing.generation)))
prepared-commit_example =
    prepared-commit (from_seed seed) later seed (omega (arith, first_generation)) (omega arith)
      (recorded 9 tcp_accept [] done)

abbrev reloads : List AuditCall
reloads =
    noop_call 10 sighup (text "f")
    ∷ applied_call 20 manual 2 (text "g") (text "groups" ∷ [])
    ∷ invalid_call 30 sighup
    ∷ []

calls-IsAudit_example : IsAudit (foldl call (new_audit 5 1 (text "f") (text "file")) reloads)
calls-IsAudit_example = calls-IsAudit 5 1 (text "f") (text "file") reloads

audited :
    map {B = ℕ × (ℕ × ℕ)}
      (λ a. (a.id, (a.generation_before, a.generation_after)))
      (foldl call (new_audit 5 1 (text "f") (text "file")) reloads).audits
    ≡ (1, (1, 1)) ∷ (2, (1, 2)) ∷ (3, (2, 2)) ∷ []
unfolding call new_audit push record_applied record_unchanged record_noop record_invalid
    push_bounded add_u64
audited = refl
