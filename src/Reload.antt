-- ===== src/Reload.antt =====
-- crates/dynet-state/src/reload.rs: which fields of a configuration a reload may change.
pub mod Settings
pub mod Fields
pub mod Plan
pub mod Transaction
pub mod Atomic
pub mod Consistent
pub mod Whole
pub mod Lifetime
pub mod Tests
use dynet.Base.{ℕ, Bool, true, false, List, [], ◌∷◌, ◌++◌, if◌then◌else◌}
use mathlib.Core.List.{foldl}
use native.Mathlib.Decide.{ℕ_discrete}
use dynet.Base.Text.{Text, text}
use dynet.Reload.Settings.{
  Config, addr_eq, ip_eq, bool_eq, text_eq, router_eq, mapping_eq, policy_eq, service_eq,
  forwarding_eq,
}

pub data ReloadDisposition : Type 0 where
  noop apply restart_required : ReloadDisposition

pub record ReloadPlan : Type 0 where
  pub disposition : ReloadDisposition
  pub changed_fields : List Text
  pub restart_required_fields : List Text

abbrev is_empty : List Text → Bool
is_empty [] = true
is_empty (x ∷ xs) = false

-- `ReloadPlan::new`
unfoldable pub new_plan : List Text → List Text → ReloadPlan
new_plan changed_fields restart_required_fields = record {
  disposition =
      if is_empty changed_fields
      then noop
      else if is_empty restart_required_fields
      then apply
      else restart_required;
  changed_fields = changed_fields;
  restart_required_fields = restart_required_fields;
}

-- `current != next`
unfoldable pub differs : {A : Type 0} → Discrete A → A → A → Bool
differs eq a b = elim (eq a b) [ yes _ ↦ false | no _ ↦ true ]

unfoldable pub hot_field : List Text → Text × Bool → List Text
hot_field changed (name, differs) = if differs then changed ++ name ∷ [] else changed

unfoldable pub restart_field : List Text × List Text → Text × Bool → List Text × List Text
restart_field (changed, restart) (name, differs) =
    if differs then (changed ++ name ∷ [], restart ++ name ∷ []) else (changed, restart)

-- The calls of `restart_field`, in the order of the code.
unfoldable pub restart_fields : Config → Config → List (Text × Bool)
restart_fields a b =
    (text "control.bind", differs addr_eq a.control.bind b.control.bind)
    ∷ (text "ingress.dns.bind", differs addr_eq a.ingress.dns.bind b.ingress.dns.bind)
    ∷ (
      text "ingress.dns.max_sessions",
      differs ℕ_discrete a.ingress.dns.max_sessions b.ingress.dns.max_sessions,
    )
    ∷ (text "ingress.tcp.bind", differs addr_eq a.ingress.tcp.bind b.ingress.tcp.bind)
    ∷ (text "ingress.tcp.upstream", differs addr_eq a.ingress.tcp.upstream b.ingress.tcp.upstream)
    ∷ (
      text "ingress.tcp.max_sessions",
      differs ℕ_discrete a.ingress.tcp.max_sessions b.ingress.tcp.max_sessions,
    )
    ∷ (text "ingress.udp.bind", differs addr_eq a.ingress.udp.bind b.ingress.udp.bind)
    ∷ (text "ingress.udp.upstream", differs addr_eq a.ingress.udp.upstream b.ingress.udp.upstream)
    ∷ (
      text "ingress.udp.idle_timeout",
      differs ℕ_discrete a.ingress.udp.idle_timeout b.ingress.udp.idle_timeout,
    )
    ∷ (
      text "ingress.udp.max_sessions",
      differs ℕ_discrete a.ingress.udp.max_sessions b.ingress.udp.max_sessions,
    )
    ∷ (text "ingress.socks5.bind", differs addr_eq a.ingress.socks5.bind b.ingress.socks5.bind)
    ∷ (
      text "ingress.socks5.udp_advertise_ip",
      differs ip_eq a.ingress.socks5.udp_advertise_ip b.ingress.socks5.udp_advertise_ip,
    )
    ∷ (
      text "ingress.socks5.idle_timeout",
      differs ℕ_discrete a.ingress.socks5.idle_timeout b.ingress.socks5.idle_timeout,
    )
    ∷ (
      text "ingress.socks5.max_sessions",
      differs ℕ_discrete a.ingress.socks5.max_sessions b.ingress.socks5.max_sessions,
    )
    ∷ (text "capture.tun.enabled", differs bool_eq a.capture.tun.enabled b.capture.tun.enabled)
    ∷ (
      text "capture.tun.interface",
      differs text_eq a.capture.tun.interface b.capture.tun.interface,
    )
    ∷ (
      text "capture.router_ingress",
      differs router_eq a.capture.router_ingress b.capture.router_ingress,
    )
    ∷ (text "ipv6.enabled", differs bool_eq a.ipv6.enabled b.ipv6.enabled)
    ∷ (text "dns_mapping", differs mapping_eq a.dns_mapping b.dns_mapping)
    ∷ (text "persistence", differs policy_eq a.persistence b.persistence)
    ∷ (text "service", differs service_eq a.service b.service)
    ∷ []

-- The calls of `hot_field`.
unfoldable pub hot_fields : Config → Config → List (Text × Bool)
hot_fields a b =
    (
      text "capture.tun.tcp_idle_timeout",
      differs ℕ_discrete a.capture.tun.tcp_idle_timeout b.capture.tun.tcp_idle_timeout,
    )
    ∷ (
      text "capture.tun.udp_idle_timeout",
      differs ℕ_discrete a.capture.tun.udp_idle_timeout b.capture.tun.udp_idle_timeout,
    )
    ∷ (
      text "capture.tun.udp_response_timeout",
      differs ℕ_discrete a.capture.tun.udp_response_timeout b.capture.tun.udp_response_timeout,
    )
    ∷ (text "forwarding", differs forwarding_eq a.forwarding b.forwarding)
    ∷ []

unfoldable pub plan_reload : Config → Config → ReloadPlan
unfolding hot_field restart_field restart_fields hot_fields new_plan
plan_reload current next =
    let (changed, restart) = foldl restart_field ([], []) (restart_fields current next) in
    new_plan (foldl hot_field changed (hot_fields current next)) restart
