-- ===== src/Routing/Dns.antt =====
-- The DNS part of the runtime's tables: the upstreams and the race policy of model.rs and stores.rs,
-- and the map of observed answers.
use dynet.Base.{ℕ, Bool, List, [], ◌∷◌, map, any, Option, find}
use dynet.Base.Net.{IpAddr, SocketAddr}
use dynet.Base.Opt.{map_option}
use dynet.Base.Order.{nat_ord, list_ord}
use dynet.Base.OrdMap.{OrdMap, insert, collect, values}
use dynet.Base.Text.{Text, to_ascii_lowercase}
use dynet.Routing.Matching.{same_ip}

abbrev pub DnsUpstreamId : Type 0
DnsUpstreamId = Text

pub record DnsHttpsEndpoint : Type 0 where
  pub host : Text
  pub path : Text

pub data DnsUpstreamTransport : Type 0 where
  udp : DnsUpstreamTransport
  https : DnsHttpsEndpoint → DnsUpstreamTransport

pub record DnsUpstream : Type 0 where
  pub id : DnsUpstreamId
  pub address : SocketAddr
  pub transport : DnsUpstreamTransport
  pub enabled : Bool
  pub priority : ℕ

pub data DnsRaceStrategy : Type 0 where
  parallel : DnsRaceStrategy

-- The timeout is in milliseconds.
pub record DnsRacePolicy : Type 0 where
  pub timeout : ℕ
  pub strategy : DnsRaceStrategy

abbrev pub DnsUpstreamStore : Type 0
DnsUpstreamStore = OrdMap DnsUpstreamId DnsUpstream

pub from_upstreams : List DnsUpstream → DnsUpstreamStore
from_upstreams upstreams = collect (map (λ upstream. (upstream.id, upstream)) upstreams)

pub upstream_snapshot : DnsUpstreamStore → List DnsUpstream
upstream_snapshot store = values store

abbrev pub ObservedDnsMap : Type 0
ObservedDnsMap = OrdMap Text (List IpAddr)

-- `ObservedDnsMap::record`: an empty answer leaves the map alone.
unfoldable pub record_answers : ObservedDnsMap → Text → List IpAddr → ObservedDnsMap
record_answers observed domain [] = observed
record_answers observed domain (a ∷ answers) =
    insert (to_ascii_lowercase domain) (a ∷ answers) observed

unfoldable pub domain_for_ip : ObservedDnsMap → IpAddr → Option Text
domain_for_ip observed address =
    map_option (λ e. e.0) (find (λ e. any (λ answer. same_ip answer address) e.1) observed)
