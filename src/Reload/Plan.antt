-- ===== src/Reload/Plan.antt =====
-- reload.rs: which configurations a reload tells apart.
use dynet.Base.{◌≡◌, ◌≢◌, refl, List, [], ◌∷◌, ◌++◌, ap, ◌∙◌}
use dynet.Base.Text.{Text}
use dynet.Reload.Settings.{Config}
use dynet.Reload.Fields.{
  differs-false, differs-eq, named, Quiet, named-Quiet, Quiet-named, foldl-hot_field,
  foldl-restart_field,
}
use dynet.Reload.{
  ReloadDisposition, noop, apply, restart_required, new_plan, restart_fields, hot_fields,
  plan_reload,
}

-- A configuration with what another one says of the fields that a running process takes over.
abbrev pub hot_update : Config → Config → Config
hot_update a b = record a {
  capture = record (a.capture) {
    tun = record (a.capture.tun) {
      tcp_idle_timeout = b.capture.tun.tcp_idle_timeout;
      udp_idle_timeout = b.capture.tun.udp_idle_timeout;
      udp_response_timeout = b.capture.tun.udp_response_timeout;
    };
  };
  forwarding = b.forwarding;
}

module _ (a b : Config) where
  hot_update-Quiet : hot_update a b ≡ b → Quiet (restart_fields a b)
  unfolding restart_fields
  hot_update-Quiet e = (
    differs-eq _ _ _ (ap (λ c. c.control.bind) e),
    (
      differs-eq _ _ _ (ap (λ c. c.ingress.dns.bind) e),
      (
        differs-eq _ _ _ (ap (λ c. c.ingress.dns.max_sessions) e),
        (
          differs-eq _ _ _ (ap (λ c. c.ingress.tcp.bind) e),
          (
            differs-eq _ _ _ (ap (λ c. c.ingress.tcp.upstream) e),
            (
              differs-eq _ _ _ (ap (λ c. c.ingress.tcp.max_sessions) e),
              (
                differs-eq _ _ _ (ap (λ c. c.ingress.udp.bind) e),
                (
                  differs-eq _ _ _ (ap (λ c. c.ingress.udp.upstream) e),
                  (
                    differs-eq _ _ _ (ap (λ c. c.ingress.udp.idle_timeout) e),
                    (
                      differs-eq _ _ _ (ap (λ c. c.ingress.udp.max_sessions) e),
                      (
                        differs-eq _ _ _ (ap (λ c. c.ingress.socks5.bind) e),
                        (
                          differs-eq _ _ _ (ap (λ c. c.ingress.socks5.udp_advertise_ip) e),
                          (
                            differs-eq _ _ _ (ap (λ c. c.ingress.socks5.idle_timeout) e),
                            (
                              differs-eq _ _ _ (ap (λ c. c.ingress.socks5.max_sessions) e),
                              (
                                differs-eq _ _ _ (ap (λ c. c.capture.tun.enabled) e),
                                (
                                  differs-eq _ _ _ (ap (λ c. c.capture.tun.interface) e),
                                  (
                                    differs-eq _ _ _ (ap (λ c. c.capture.router_ingress) e),
                                    (
                                      differs-eq _ _ _ (ap (λ c. c.ipv6.enabled) e),
                                      (
                                        differs-eq _ _ _ (ap (λ c. c.dns_mapping) e),
                                        (
                                          differs-eq _ _ _ (ap (λ c. c.persistence) e),
                                          (differs-eq _ _ _ (ap (λ c. c.service) e), tt),
                                        ),
                                      ),
                                    ),
                                  ),
                                ),
                              ),
                            ),
                          ),
                        ),
                      ),
                    ),
                  ),
                ),
              ),
            ),
          ),
        ),
      ),
    ),
  )

  eq-Quiet : a ≡ b → Quiet (hot_fields a b)
  unfolding hot_fields
  eq-Quiet e = (
    differs-eq _ _ _ (ap (λ c. c.capture.tun.tcp_idle_timeout) e),
    (
      differs-eq _ _ _ (ap (λ c. c.capture.tun.udp_idle_timeout) e),
      (
        differs-eq _ _ _ (ap (λ c. c.capture.tun.udp_response_timeout) e),
        (differs-eq _ _ _ (ap (λ c. c.forwarding) e), tt),
      ),
    ),
  )

  Quiet-eq : Quiet (hot_fields a b) → a ≡ hot_update a b
  unfolding hot_fields
  Quiet-eq q = λ i. record a {
    capture = record (a.capture) {
      tun = record (a.capture.tun) {
        tcp_idle_timeout = differs-false _ _ _ q.0 i;
        udp_idle_timeout = differs-false _ _ _ q.1.0 i;
        udp_response_timeout = differs-false _ _ _ q.1.1.0 i;
      };
    };
    forwarding = differs-false _ _ _ q.1.1.1.0 i;
  }

  Quiet-hot_update : Quiet (restart_fields a b) → hot_update a b ≡ b
  unfolding restart_fields
  Quiet-hot_update q = λ i. record {
    control = record { bind = differs-false _ _ _ q.0 i };
    ingress = record {
      dns = record {
        bind = differs-false _ _ _ q.1.0 i;
        max_sessions = differs-false _ _ _ q.1.1.0 i;
      };
      tcp = record {
        bind = differs-false _ _ _ q.1.1.1.0 i;
        upstream = differs-false _ _ _ q.1.1.1.1.0 i;
        max_sessions = differs-false _ _ _ q.1.1.1.1.1.0 i;
      };
      udp = record {
        bind = differs-false _ _ _ q.1.1.1.1.1.1.0 i;
        upstream = differs-false _ _ _ q.1.1.1.1.1.1.1.0 i;
        idle_timeout = differs-false _ _ _ q.1.1.1.1.1.1.1.1.0 i;
        max_sessions = differs-false _ _ _ q.1.1.1.1.1.1.1.1.1.0 i;
      };
      socks5 = record {
        bind = differs-false _ _ _ q.1.1.1.1.1.1.1.1.1.1.0 i;
        udp_advertise_ip = differs-false _ _ _ q.1.1.1.1.1.1.1.1.1.1.1.0 i;
        idle_timeout = differs-false _ _ _ q.1.1.1.1.1.1.1.1.1.1.1.1.0 i;
        max_sessions = differs-false _ _ _ q.1.1.1.1.1.1.1.1.1.1.1.1.1.0 i;
      };
    };
    capture = record {
      tun = record {
        enabled = differs-false _ _ _ q.1.1.1.1.1.1.1.1.1.1.1.1.1.1.0 i;
        interface = differs-false _ _ _ q.1.1.1.1.1.1.1.1.1.1.1.1.1.1.1.0 i;
        tcp_idle_timeout = b.capture.tun.tcp_idle_timeout;
        udp_idle_timeout = b.capture.tun.udp_idle_timeout;
        udp_response_timeout = b.capture.tun.udp_response_timeout;
      };
      router_ingress = differs-false _ _ _ q.1.1.1.1.1.1.1.1.1.1.1.1.1.1.1.1.0 i;
    };
    ipv6 = record { enabled = differs-false _ _ _ q.1.1.1.1.1.1.1.1.1.1.1.1.1.1.1.1.1.0 i };
    dns_mapping = differs-false _ _ _ q.1.1.1.1.1.1.1.1.1.1.1.1.1.1.1.1.1.1.0 i;
    persistence = differs-false _ _ _ q.1.1.1.1.1.1.1.1.1.1.1.1.1.1.1.1.1.1.1.0 i;
    forwarding = b.forwarding;
    service = differs-false _ _ _ q.1.1.1.1.1.1.1.1.1.1.1.1.1.1.1.1.1.1.1.1.0 i;
  }

-- What a plan tells of the running configuration and the next one: they are the same; or they
-- differ, in nothing but what a running process takes over; or in something else.
abbrev pub Tells : Config → Config → ReloadDisposition → Type 0
Tells a b noop = a ≡ b
Tells a b apply = (a ≢ b) × (hot_update a b ≡ b)
Tells a b restart_required = hot_update a b ≢ b

module _ (a b : Config) where
  plan_reload-named :
      plan_reload a b
      ≡ new_plan (named (restart_fields a b) ++ named (hot_fields a b)) (named (restart_fields a b))
  unfolding plan_reload
  plan_reload-named =
      rw
        (
          foldl-restart_field (restart_fields a b) [] [],
          foldl-hot_field (hot_fields a b) (named (restart_fields a b)),
        )
        refl

  new_plan-Tells :
      (restart hot : List Text)
      → named (restart_fields a b) ≡ restart
      → named (hot_fields a b) ≡ hot
      → Tells a b (new_plan (restart ++ hot) restart).disposition
  unfolding new_plan
  new_plan-Tells [] [] r h =
      Quiet-eq a b (named-Quiet (hot_fields a b) h)
      ∙ Quiet-hot_update a b (named-Quiet (restart_fields a b) r)
  new_plan-Tells [] (x ∷ hot) r h = (
    λ e. cc (h, Quiet-named (hot_fields a b) (eq-Quiet a b e)),
    Quiet-hot_update a b (named-Quiet (restart_fields a b) r),
  )
  new_plan-Tells (x ∷ restart) hot r h =
      λ e. cc (r, Quiet-named (restart_fields a b) (hot_update-Quiet a b e))

  -- A plan says noop exactly if the two configurations are equal, apply exactly if they differ in
  -- nothing but the three idle and response timeouts of the TUN device and the forwarding tables,
  -- and restart_required otherwise: no field of a configuration is left out of the comparison.
  pub plan_reload-Tells : Tells a b (plan_reload a b).disposition
  plan_reload-Tells =
      rw plan_reload-named
        (new_plan-Tells (named (restart_fields a b)) (named (hot_fields a b)) refl refl)
