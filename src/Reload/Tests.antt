-- ===== src/Reload/Tests.antt =====
-- A reload of a small configuration, and the theorems at it.
use dynet.Base.{◌⊎◌, ℕ, ◌≡◌, refl, true, false, [], ◌∷◌, none, arith}
use dynet.Base.Net.{SocketAddr, v4}
use dynet.Base.OrdMap.{insert, get, collect}
use dynet.Base.Order.{nat_ord, list_ord}
use dynet.Base.Outcome.{err, ok, index}
use dynet.Base.Text.{text}
use dynet.Base.Words.{add_u64}
use dynet.Routing.Types.{
  next_named, next_label, direct_audit_outlet, default_thresholds, single_first_enabled,
  SelectionContext, SelectionDecision, tcp, external_context, from_address,
}
use dynet.Routing.Dns.{parallel, udp}
use dynet.Seed.{
  add_name, add_forwarding_names, add_ids, validate_unique_rule_ids, validate_unique_dns_ids,
  validate_unique_ids, validate_group_next_reference, follow, validate_group_next_cycle,
  validate_group_next_refs, validate_member, validate_rule, validate_references,
  validate_dns_upstream, validate_default, validate_seed,
}
use dynet.Seed.Refusals.{Refusal}
use dynet.Seed.InForce.{Lifetime-Refusal}
use dynet.Runtime.Choice.{IsDecision}
use dynet.Routing.Matching.{match_group, from_rules}
use dynet.Routing.Groups.{from_parts, select_graph_with, select_group_hop}
use dynet.Routing.Nodes.{is_eligible, from_nodes}
use dynet.Observe.Active.{select_active_candidate}
use dynet.Observe.Event.{tcp_accept}
use dynet.Runtime.{
  SelectionError, prepare_reconfigure, commit_reconfigure, RuntimeState, select, plan, ipv6_policy,
  walked, RuntimeSeed, from_seed, routing_from_seed, record_ingress_event,
}
use dynet.Runtime.Audit.{sighup, new_audit}
use dynet.Runtime.Reload.{done, recorded, committed}
use dynet.Egress.{direct, direct_egress, GraphEgress, graph_from, add_nodes, medium_from, graph_for}
use dynet.Reload.{
  plan_reload, apply, new_plan, hot_field, restart_field, restart_fields, hot_fields, differs,
}
unfoldable use native.Mathlib.Decide.{ℕ_discrete}
use dynet.Reload.Settings.{
  Config, auto, addr_eq, ip_eq, bool_eq, text_eq, router_eq, mapping_eq, policy_eq, service_eq,
  forwarding_eq,
}
use dynet.Reload.Plan.{Tells, plan_reload-Tells}
use dynet.Reload.Transaction.{RuntimeReload, Surroundings, new_reload, reload, config_source}
use dynet.Reload.Whole.{Atomic, reload-Atomic, result_generation}
use dynet.Reload.Consistent.{IsConsistent}
use dynet.Reload.Lifetime.{Lifetime, started, reloaded, Lifetime-IsConsistent, Lifetime-select}

abbrev seed : RuntimeSeed
seed = record {
  ipv6_enabled = false;
  nodes =
      record {
        id = text "a";
        tag = text "a";
        enabled = true;
        fingerprint = text "f";
        supports_ipv6 = false;
      }
      ∷ [];
  default_group_id = text "default";
  groups =
      record {
        id = text "default";
        enabled = true;
        scheduler = single_first_enabled;
        thresholds = default_thresholds;
        next = direct_audit_outlet;
      }
      ∷ [];
  group_members =
      record { group_id = text "default"; node_id = text "a"; enabled = true; priority = 0 } ∷ [];
  route_rules = [];
  dns_upstreams =
      record {
        id = text "u";
        address = record { ip = v4 (1 ∷ 1 ∷ 1 ∷ 1 ∷ []); port = 53 };
        transport = udp;
        enabled = true;
        priority = 0;
      }
      ∷ [];
  dns_policy = record { timeout = 1500; strategy = parallel };
}

abbrev local : ℕ → SocketAddr
local port = record { ip = v4 (127 ∷ 0 ∷ 0 ∷ 1 ∷ []); port = port }

-- A configuration whose TCP flows idle for so long.
abbrev config : ℕ → Config
config idle = record {
  control = record { bind = local 9977 };
  ingress = record {
    dns = record { bind = local 1053; max_sessions = 256 };
    tcp = record { bind = local 1080; upstream = local 1081; max_sessions = 1024 };
    udp = record {
      bind = local 1082;
      upstream = local 1083;
      idle_timeout = 30000;
      max_sessions = 1024;
    };
    socks5 = record {
      bind = local 1084;
      udp_advertise_ip = none;
      idle_timeout = 30000;
      max_sessions = 1024;
    };
  };
  capture = record {
    tun = record {
      enabled = false;
      interface = text "dynet0";
      tcp_idle_timeout = idle;
      udp_idle_timeout = 2000;
      udp_response_timeout = 1500;
    };
    router_ingress = record { interface = none; ipv4_sources = []; ipv6_sources = [] };
  };
  ipv6 = record { enabled = false };
  dns_mapping = record { interface = none; source_port = 53 };
  persistence = record { retention = 86400000; max_bytes = 67108864 };
  forwarding = record { seed = seed; execution_nodes = (text "a", direct) ∷ [] };
  service = record {
    manager = auto;
    user = text "dynet";
    runtime_database = text "runtime.db";
    environment_file = none;
  };
}

abbrev env : Surroundings
env = record {
  now = 100;
  candidate = ok (config 5000);
  fingerprint = λ c. text "sha256";
  protocols = record {
    shadowsocks_refuses = λ c. none;
    vless_refuses = λ c. none;
    vmess_refuses = λ c. none;
  };
  stores = true;
  restores = true;
  meanwhile = λ r. record_ingress_event r 9 tcp_accept [];
}

abbrev start : RuntimeReload
start = record {
  current = config 2000;
  runtime = from_seed seed;
  store = seed;
  egress = (1, (text "a", direct_egress) ∷ []) ∷ [];
  tun = (config 2000).capture.tun;
  audit = new_audit 100 1 (text "sha256") (config_source none);
}

plan_reload-Tells_example :
    Tells (config 2000) (config 5000) (plan_reload (config 2000) (config 5000)).disposition
plan_reload-Tells_example = plan_reload-Tells (config 2000) (config 5000)

first_generation : (from_seed seed).routing.generation ≡ 1
unfolding from_seed routing_from_seed
first_generation = refl

-- Another reload that commits first, on the state that this one prepares from.
abbrev overtaking : Surroundings
overtaking = record env { meanwhile = λ r. record r { routing = routing_from_seed 2 seed } }

other_commit :
    commit_reconfigure (from_seed seed) (prepare_reconfigure (from_seed seed) seed)
    ≡ ok (record (from_seed seed) { routing = routing_from_seed 2 seed }, 2)
unfolding from_seed routing_from_seed prepare_reconfigure commit_reconfigure add_u64
other_commit = refl

reload-Atomic_example :
    Atomic overtaking 1 start (reload overtaking sighup start)
    × (result_generation (reload overtaking sighup start).1
        ≡ (reload overtaking sighup start).0.runtime.routing.generation)
reload-Atomic_example =
    reload-Atomic overtaking sighup start 1 (omega (arith, first_generation)) (omega arith)
      (committed (from_seed seed) seed done other_commit)

life : Lifetime env.protocols env.fingerprint start
unfolding from_seed routing_from_seed new_reload graph_from add_nodes medium_from insert
life = started env (config 2000) none (from_seed seed) refl refl

reloaded_once : Lifetime env.protocols env.fingerprint (reload env sighup start).0
reloaded_once =
    reloaded env sighup life (omega (arith, first_generation)) (recorded 9 tcp_accept [] done)

Lifetime-IsConsistent_example :
    (c : IsConsistent env.protocols env.fingerprint (reload env sighup start).0) × (graph_for
        (reload env sighup start).0.egress
        (reload env sighup start).0.runtime.routing.generation
      ≡ ok c.graph)
Lifetime-IsConsistent_example = Lifetime-IsConsistent env.protocols env.fingerprint reloaded_once

applied_plan : (plan_reload (config 2000) (config 5000)).disposition ≡ apply
unfolding plan_reload new_plan hot_field restart_field restart_fields hot_fields differs addr_eq
    ip_eq bool_eq text_eq router_eq mapping_eq policy_eq service_eq forwarding_eq ℕ_discrete
applied_plan = refl

abbrev context : SelectionContext
context = record {
  session_id = 1;
  inbound = tcp;
  target = record {
    address = record { ip = v4 (1 ∷ 1 ∷ 1 ∷ 1 ∷ []); port = 443 };
    domain = none;
    source = external_context;
  };
}

decided :
    (after : RuntimeState) × (d : SelectionDecision) × (select start.runtime 5 context
      ≡ ok (after, d))
unfolding select plan ipv6_policy from_seed routing_from_seed from_address match_group from_rules
    from_parts get collect walked select_graph_with select_group_hop is_eligible from_nodes
    select_active_candidate index
decided = (_, _, refl)

Lifetime-select_example :
    (graph : GraphEgress) × (graph_from env.protocols start.current.forwarding.execution_nodes
      ≡ ok graph)
    × (graph_for start.egress decided.1.config_generation ≡ ok graph)
Lifetime-select_example = Lifetime-select env.protocols env.fingerprint 5 context life decided.2

seed_valid : validate_seed seed ≡ ok tt
unfolding validate_seed validate_unique_ids add_forwarding_names add_name get insert
    validate_unique_rule_ids validate_unique_dns_ids add_ids validate_default validate_references
    validate_member validate_rule validate_group_next_refs validate_group_next_reference
    validate_group_next_cycle follow validate_dns_upstream next_label
seed_valid = refl

named_links : (direct_audit_outlet ≡ next_named (next_label direct_audit_outlet)) × Unit {0}
unfolding next_named next_label
named_links = (refl, tt)

Lifetime-Refusal_example :
    ((after : RuntimeState) × (d : SelectionDecision) × (select start.runtime 5 context
        ≡ ok (after, d))
      × IsDecision start.runtime context after d)
    ⊎ ((e : SelectionError) × (select start.runtime 5 context ≡ err e) × Refusal seed context e)
Lifetime-Refusal_example =
    Lifetime-Refusal env.protocols env.fingerprint 5 context life seed_valid named_links
