-- ===== src/Lib.antt =====
-- The core of dynet, a proxy router: what it reads from captured packets, how its runtime chooses a
-- route for a flow, what it remembers of the traffic, and how its tables are exchanged.
--
-- A captured IP packet becomes a flow (Packet). The runtime (Runtime) matches the flow's target with
-- its route rules, checks the IPv6 policy, and walks from the group of the best rule, or the default
-- one, along the groups' `next` links to an outlet (Routing). At each group a scheduler proposes a
-- node from the statistics of earlier sessions; a second scoring is kept beside the decision. The
-- ingress reports events, from which sessions are built up, and from those the statistics (Observe).
-- A reload compares a new configuration with the one in force (Reload), prepares new tables and
-- egress graphs (Egress), which take the place of the old ones if nothing else did since, and is
-- written to an audit. A decision names the generation of its tables, and is carried out on the
-- egress graph of that generation. A SOCKS client says what it wants in messages (Socks) that end
-- in a flow, too. Before a configuration reaches the tables, the database checks its seed (Seed).
-- Apart from all that, a router's DNS port is mapped to dynet's on request (Mapping).
--
-- Files, and the code that they are about:
--   Base      the standard library as far as the code uses it: orders and sorting, min_by and max_by
--             (Base.Extremes), BTreeMap (Base.OrdMap), Option, text as UTF-8 bytes (Base.Text,
--             Base.Trim), the parsing and printing of addresses and numbers (Base.Parse, Base.Show),
--             results with a panic (Base.Outcome), u64 and u128 sums (Base.Words); orders in terms of
--             their own for the statements (Base.Ranks)
--   Packet    crates/dynet-capture/src/packet.rs and flow.rs: parse_ip_packet, parse_ipv4_packet,
--             parse_ipv6_packet, parse_ports, classify_tcp, classify_udp, into_captured_flow
--   Routing   crates/dynet-runtime/src/model.rs (Routing.Types), model/cidr.rs (Routing.Cidr), and
--             stores.rs: RouteRuleStore (Routing.Matching), NodeStore (Routing.Nodes), GroupStore
--             with select_graph_with (Routing.Groups), DnsUpstreamStore and ObservedDnsMap
--             (Routing.Dns)
--   Observe   crates/dynet-runtime/src/event.rs (Observe.Event), traffic_session.rs
--             (Observe.Records, Observe.Session, Observe.Store), model/matrix_stats.rs (Observe.Rows,
--             Observe.Stats), model/matrix_active.rs (Observe.Active), model/matrix_shadow.rs
--             (Observe.Shadow)
--   Runtime   crates/dynet-runtime/src/lib.rs and model/matrix_service.rs: select,
--             prepare_reconfigure, commit_reconfigure; model/runtime_config.rs (Runtime.Audit)
--   Dns       crates/dynet-runtime/src/dns.rs: read_name, dns_question_end, apply_ipv6_dns_filter,
--             sniff_dns_query, sniff_dns_response
--   Reload    crates/dynet-state/src/lib.rs (Reload.Settings) and reload.rs: plan_reload;
--             crates/dynet-cli/src/runtime_reload.rs: RuntimeReload::new, reload, apply_candidate
--             (Reload.Transaction)
--   Socks     crates/dynet-ingress/src/socks/protocol.rs: parse_udp_packet (Socks),
--             negotiate_no_auth, read_request, write_reply (Socks.Stream); socks.rs: handle_client
--             up to its handlers; egress/udp_downstream.rs: socks5_udp_packet
--   Seed      crates/dynet-runtime/src/persistence/validation.rs: validate_seed and all it calls
--             (Seed); the tables of a seed (Seed.Tables, Seed.Routes), the flows on them
--             (Seed.Refusals, Seed.Flows), and those in force (Seed.InForce)
--   Mapping   crates/dynet-capture/src/linux/dns_mapping.rs: DnsMappingOptions (Mapping),
--             mapping_status (Mapping.Status), mapping_apply_with_runner and
--             mapping_cleanup_with_runner (Mapping.Apply); linux/scope.rs: validate (Mapping.Scope);
--             linux/nft.rs: run_required, linux.rs: nft_status (Mapping.Status)
--   Egress    crates/dynet-ingress/src/egress/reloadable.rs: install, remove, graph_for;
--             egress/graph.rs and egress.rs: handle_tcp and handle_udp up to the hand-over to a
--             medium (Egress.Graph)
--
-- How the code is modelled. State behind a lock is a value that a call takes and gives back; a lock
-- is held for one call, so calls are the steps. Time is an argument. The fields of an event are a
-- map of texts. u64 and u128 sums wrap around, as in a release build without overflow checks; an i64
-- is its residue modulo 2 ^ 64. Indexing, slicing and `expect` can panic, and a panic is a value.
-- A connection is the bytes that it yields until it ends or fails, and those written to it.
-- Messages of errors are data. `Instant`s and `SystemTime`s are milliseconds. The paths of a
-- configuration are compared as texts.
--
-- Bounds. The walk of select_graph_with runs on fuel, two more than there are groups, since
-- it enters no group twice. The loop of read_name runs on fuel as well, nine times the packet and
-- its end: it jumps eight times at most, and passes the packet once between two jumps. The decimal
-- digits of a number are written with room for forty of them, more than u128 needs. The code's own
-- bounds are kept: 1024 events, sessions and shadow decisions, 128 audit entries, eight egress
-- graphs. The loop that drops egress graphs runs on as much fuel as there are graphs, since each round
-- drops one. The loop of validate_group_next_cycle runs on two more rounds than there are groups.
--
-- A system that runs commands is a function that answers each, given those that were run before.
-- Parameters of a reload: what the configuration file reads as, the digest of a configuration,
-- whether the protocols accept a node's keys, whether the database takes a seed, and what other
-- tasks make of the runtime meanwhile.
--
-- Not modelled: what talks to the network, the kernel or the disk (ingress loops, relays, capture,
-- SQLite, the control API, the service files), and the prototypes of proxy protocols. The runtime
-- is the one without an observation sink. The DNS query and race, the rows of error signals and the
-- validation of configurations are still open.
pub mod Base
pub mod Dns
pub mod Egress
pub mod Mapping
pub mod Observe
pub mod Packet
pub mod Reload
pub mod Routing
pub mod Runtime
pub mod Seed
pub mod Socks
