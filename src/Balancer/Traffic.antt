-- ===== src/Balancer/Traffic.antt =====
-- simulator/balancer/balancer.go: the packets that pass the balancer, its timers, and its end. What a
-- call hands to a Sender at its end is its result.
use balancer_go.Base.{
  ℕ, Bool, true, false, ◌&&◌, ◌==◌, if◌then◌else◌, Option, none, some, List, [], ◌∷◌, ◌++◌, ◌+u64◌,
  map,
}
use balancer_go.Base.Int.{ℤ, pos, negsuc}
use balancer_go.Model.{ClientKey, Packet}
use balancer_go.Connections.{TimeoutConfig}
use balancer_go.Engine.{Engine, Result, ok, panic, schedule_after, cancel}
use balancer_go.Host as Host
use balancer_go.Host.{Host}
use balancer_go.Network.Link.{Rate, never, happens}
use balancer_go.Balancer.Tables.{lookup, change}
use balancer_go.Balancer.{
  LoadBalancer, HealthCheck, Connection, ChaosConfig, Callback, sweep_mappings, check_health,
  probe_timeout, probe_reply, deliver, cleanup_interval, health_interval, clear_connection_table,
}

abbrev pub default_timeouts : TimeoutConfig
default_timeouts = record {
  half_open = pos 5000000000;
  established = pos 50000000000;
  closing = pos 120000000000;
  reset = pos 10000000000;
}

abbrev pub pointer_of : Option Connection → Option ℕ
pointer_of none = none
pointer_of (some c) = some c.pointer

abbrev pub same_pointer : Option ℕ → Option ℕ → Bool
same_pointer none none = true
same_pointer (some p) (some q) = p == q
same_pointer _ _ = false

-- SetChaosConfig; a rate that is no probability is `none`, and so is the panic.
unfoldable pub set_chaos_config {ℓ} :
    {A : Type ℓ} → (ChaosConfig → A) → Option (ℤ × Option Rate) → Option A
set_chaos_config with_config none =
    some (with_config (record { latency = 0; packet_drop_rate = never }))
set_chaos_config with_config (some (negsuc n, rate)) = none
set_chaos_config with_config (some (pos n, none)) = none
set_chaos_config with_config (some (pos n, some rate)) =
    some (with_config (record { latency = n; packet_drop_rate = rate }))

module _ {S D K : Type 0} (callback : Callback D → K) where
  -- A packet for a Sender, at once or after the latency; `draw` decides an uncertain loss.
  unfoldable pub forward :
      Option D
      → ℕ
      → Option ℕ
      → Packet
      → Bool
      → LoadBalancer S D
      → Engine K
      → Result (LoadBalancer S D × Engine K × Option (D × Packet))
  forward none cl connection pkt draw lb e = ok (lb, e, none)
  forward (some send) cl connection pkt draw lb e =
      if happens lb.chaos.packet_drop_rate draw
      then ok (lb, e, none)
      else if lb.chaos.latency == 0
      then ok (lb, e, some (send, pkt))
      else elim (schedule_after (pos lb.chaos.latency) (callback (deliver send cl connection pkt))
          e) [ panic ↦ panic | ok (f, id) ↦ ok (lb, f, none) ]

  unfoldable pub schedule_cleanup :
      LoadBalancer S D → Engine K → Result (LoadBalancer S D × Engine K)
  schedule_cleanup lb e = elim (schedule_after (pos cleanup_interval) (callback sweep_mappings) e) [
    | panic ↦ panic
    | ok (f, id) ↦ ok (record lb { cleanup = id }, f)
  ]

  unfoldable pub schedule_health_check :
      ℕ → LoadBalancer S D → Engine K → Result (LoadBalancer S D × Engine K)
  schedule_health_check srv lb e =
      elim (schedule_after (pos health_interval) (callback (check_health srv)) e) [
        | panic ↦ panic
        | ok (f, id) ↦
            ok (record lb { health = change srv (λ c. record c { tick = id }) lb.health }, f)
      ]

  -- The callback of a health check. A server gets one check at most, and keeps it until the end, so the
  -- check of the callback is the server's. A server that is active answers in an event of its own.
  unfoldable pub run_health_check :
      ℕ → Bool → LoadBalancer S D → Engine K → Result (LoadBalancer S D × Engine K)
  run_health_check srv active lb e = elim (lookup srv lb.health) [
    | none ↦ ok (lb, e)
    | some check ↦
        let serial = check.serial +u64 1 in
        let probe = λ (f : Engine K).
          if active
          then schedule_after (pos 0) (callback (probe_reply srv serial)) f
          else ok (f, 0) in
        if lb.closed
        then ok (lb, e)
        else elim (schedule_after (pos 500000000) (callback (probe_timeout srv serial)) e) [
          | panic ↦ panic
          | ok (f, id) ↦ elim (probe f) [
            | panic ↦ panic
            | ok (g, reply) ↦
                schedule_health_check srv
                  (record lb {
                    health = change srv (λ c. record c { serial = serial; timeout = id }) lb.health;
                  })
                  g
          ]
        ]
  ]

module _ {K : Type 0} where
  abbrev cancel_checks : List (ℕ × HealthCheck) → Engine K → Engine K
  cancel_checks [] e = e
  cancel_checks ((srv, check) ∷ rest) e =
      cancel_checks rest (cancel check.timeout (cancel check.tick e).0).0

module _ (key_of : ℕ → ClientKey) where
  -- What VisitRoutes visits of such servers, in order.
  abbrev routes_of : (ℕ → List ℕ) → List ℕ → List (ℕ × ClientKey)
  routes_of table [] = []
  routes_of table (srv ∷ servers) =
      map (λ (cl : ℕ). (srv, key_of cl)) (table srv) ++ routes_of table servers

module _ {S D : Type 0} where
  unfoldable pub run_probe_timeout : ℕ → ℕ → LoadBalancer S D → LoadBalancer S D
  run_probe_timeout srv serial lb = elim (lookup srv lb.health) [
    | none ↦ lb
    | some check ↦
        if check.serial == serial
        then record lb { health = change srv (λ c. record c { healthy = false }) lb.health }
        else lb
  ]

module _ {S D K : Type 0} where
  -- The answer of a server that is still active.
  unfoldable pub run_probe_reply :
      ℕ → ℕ → Bool → LoadBalancer S D → Engine K → LoadBalancer S D × Engine K
  run_probe_reply srv serial active lb e = elim (lookup srv lb.health) [
    | none ↦ (lb, e)
    | some check ↦
        if active && check.serial == serial
        then (
          record lb { health = change srv (λ c. record c { healthy = true }) lb.health },
          (cancel check.timeout e).0,
        )
        else (lb, e)
  ]

-- `host_done` is what the host gives to the engine.
module _ {S D K : Type 0} (host_done : ℕ → K) where
  -- Shutdown. The order in which the checks' events are cancelled does not matter to what is left.
  unfoldable pub shutdown : LoadBalancer S D → Engine K → LoadBalancer S D × Engine K
  shutdown lb e =
      let (processor, stopped) = Host.stop host_done lb.processor e in
      let cleared = clear_connection_table lb in
      if lb.closed then (lb, e) else (
        record cleared {
          closed = true;
          processor = processor;
          clients = λ k. none;
          client_tx = λ k. none;
          to_server = λ s. none;
          health = [];
          client_order = [];
          servers = [];
        },
        cancel_checks lb.health (cancel lb.cleanup stopped).0,
      )
