-- ===== src/Balancer/Handling.antt =====
-- simulator/balancer/balancer.go: the packets that the host has processed, and the calls from outside.
use balancer_go.Base.{
  ℕ, Bool, true, false, ◌&&◌, ◌||◌, not, ◌==◌, if◌then◌else◌, Option, none, some, List, [],
}
use balancer_go.Model.{ClientKey, Packet}
use balancer_go.Model.Keys.{same_key}
use balancer_go.Algorithms.{Candidate, Picked}
use balancer_go.Connections.{observe, supported_mapping_packet, has_base_flags}
use balancer_go.Engine.{Engine, Result, ok, panic}
use balancer_go.Host as Host
use balancer_go.Host.{Host}
use balancer_go.Network.Link.{never}
use balancer_go.Balancer.Tables.{put, is_some, is_at}
use balancer_go.Balancer.{
  LoadBalancer, Job, from_client, from_server, Callback, Routed, routed, not_picked,
  unknown_backend, has_client, route, sweep,
}
use balancer_go.Balancer.Traffic.{
  default_timeouts, pointer_of, same_pointer, forward, schedule_cleanup,
}

-- What a call leaves, with what it hands to a Sender.
abbrev pub Handled : Type 0 → Type 0 → Type 0 → Type 0
Handled S D K = LoadBalancer S D × Engine K × Option (D × Packet)

module _ {S D : Type 0} where
  -- `observe` at the key's connection; at a nil pointer it reads nothing of an unsupported packet, and
  -- panics at any other.
  unfoldable pub observe_at : Packet → Bool → ℕ → LoadBalancer S D → Option (LoadBalancer S D)
  observe_at pkt server_side now lb = elim (lb.connections pkt.key) [
    | none ↦ if supported_mapping_packet pkt server_side then none else some lb
    | some c ↦ some (record lb {
      connections =
          put same_key pkt.key (some (record c { state = observe pkt server_side now c.state }))
            lb.connections;
    })
  ]

module _ {S D K : Type 0} (key_of : ℕ → ClientKey) (pick : S → List Candidate → Picked × S)
    (callback : Callback D → K) (host_done : ℕ → K) where
  -- The rest of `processClientPacket`, for a packet of the client to its server.
  unfoldable pub pass_on :
      Bool → Option D → ℕ → Packet → Bool → LoadBalancer S D → Engine K → Result (Handled S D K)
  pass_on server_side send cl pkt draw lb e = elim (observe_at pkt server_side e.now lb) [
    | none ↦ panic
    | some seen ↦ forward callback send cl (pointer_of (lb.connections pkt.key)) pkt draw seen e
  ]

  -- `none` where `Route` is an error.
  abbrev pub server_of : LoadBalancer S D × Routed → LoadBalancer S D × Option ℕ
  server_of (lb, routed srv) = (lb, some srv)
  server_of (lb, not_picked error) = (lb, none)
  server_of (lb, unknown_backend) = (lb, none)

  -- A first SYN is routed; `none` where no server takes the packet.
  unfoldable pub server_for :
      ℕ → Packet → LoadBalancer S D → Engine K → Result (LoadBalancer S D × Option ℕ)
  server_for cl pkt lb e = elim (lb.by_key pkt.key) [
    | some srv ↦ ok (lb, some srv)
    | none ↦
        if has_base_flags pkt.flag true false false false false
          && supported_mapping_packet pkt false
        then elim (route key_of pick cl e.now lb) [ panic ↦ panic | ok r ↦ ok (server_of r) ]
        else ok (lb, none)
  ]

  abbrev pub pass_to :
      ℕ → Packet → Bool → Engine K → LoadBalancer S D × Option ℕ → Result (Handled S D K)
  pass_to cl pkt draw e (lb, none) = ok (lb, e, none)
  pass_to cl pkt draw e (lb, some srv) = pass_on false (lb.to_server srv) cl pkt draw lb e

  unfoldable pub process_client_packet :
      Packet → Bool → LoadBalancer S D → Engine K → Result (Handled S D K)
  process_client_packet pkt draw lb e = elim (lb.clients pkt.key) [
    | none ↦ ok (lb, e, none)
    | some cl ↦
        if not (has_client key_of (some cl) lb)
        then ok (lb, e, none)
        else elim (server_for cl pkt lb e) [ panic ↦ panic | ok r ↦ pass_to cl pkt draw e r ]
  ]

  unfoldable pub process_server_packet :
      ℕ → Packet → Bool → LoadBalancer S D → Engine K → Result (Handled S D K)
  process_server_packet srv pkt draw lb e = elim (lb.clients pkt.key) [
    | none ↦ ok (lb, e, none)
    | some cl ↦
        if not (has_client key_of (some cl) lb) || not (is_at srv (lb.by_key pkt.key))
        then ok (lb, e, none)
        else pass_on true (lb.client_tx pkt.key) cl pkt draw lb e
  ]

  -- The callback of the host: old work does not reach a replaced client or connection.
  unfoldable pub run_job : Job → Bool → LoadBalancer S D → Engine K → Result (Handled S D K)
  run_job (from_client cl connection pkt) draw lb e =
      if not (has_client key_of cl lb)
        || (is_some connection
            && not (same_pointer (pointer_of (lb.connections pkt.key)) connection))
      then ok (lb, e, none)
      else process_client_packet pkt draw lb e
  run_job (from_server cl connection srv pkt) draw lb e =
      if not (has_client key_of cl lb)
        || not (same_pointer (pointer_of (lb.connections pkt.key)) connection)
      then ok (lb, e, none)
      else process_server_packet srv pkt draw lb e

  -- The host's Submit, with the callback that it runs at once.
  unfoldable pub submit : Job → Bool → LoadBalancer S D → Engine K → Result (Handled S D K)
  submit job draw lb e = elim (Host.submit host_done job lb.processor e) [
    | panic ↦ panic
    | ok (h, f, accepted, none) ↦ ok (record lb { processor = h }, f, none)
    | ok (h, f, accepted, some now) ↦ run_job now draw (record lb { processor = h }) f
  ]

  unfoldable pub handle_client_packet :
      Packet → Bool → LoadBalancer S D → Engine K → Result (Handled S D K)
  handle_client_packet pkt draw lb e =
      if lb.closed
      then ok (lb, e, none)
      else submit (from_client (lb.clients pkt.key) (pointer_of (lb.connections pkt.key)) pkt) draw
          lb e

  unfoldable pub handle_server_packet :
      ℕ → Packet → Bool → LoadBalancer S D → Engine K → Result (Handled S D K)
  handle_server_packet srv pkt draw lb e =
      if lb.closed
      then ok (lb, e, none)
      else submit (from_server (lb.clients pkt.key) (pointer_of (lb.connections pkt.key)) srv pkt)
          draw lb e

  -- The host's event at the end of a packet's work, which runs the packet's callback.
  unfoldable pub processed : ℕ → Bool → LoadBalancer S D → Engine K → Result (Handled S D K)
  processed pointer draw lb e = elim (Host.complete host_done pointer lb.processor e) [
    | panic ↦ panic
    | ok (h, f, none) ↦ ok (record lb { processor = h }, f, none)
    | ok (h, f, some job) ↦ run_job job draw (record lb { processor = h }) f
  ]

  -- The event of a packet that the latency held back.
  unfoldable pub run_delivery : D → ℕ → Option ℕ → Packet → LoadBalancer S D → Option (D × Packet)
  run_delivery send cl connection pkt lb =
      if has_client key_of (some cl) lb
        && same_pointer (pointer_of (lb.connections pkt.key)) connection
      then some (send, pkt)
      else none

  unfoldable pub run_cleanup : LoadBalancer S D → Engine K → Result (LoadBalancer S D × Engine K)
  run_cleanup lb e =
      if lb.closed
      then ok (lb, e)
      else schedule_cleanup callback (sweep key_of e.now lb.client_order lb) e

  -- SetHostConfig
  unfoldable pub set_host_config :
      Host.Config → LoadBalancer S D → Engine K → Result (LoadBalancer S D × Engine K)
  set_host_config config lb e =
      if lb.closed || not (lb.processor.stats.offered_packets == 0)
      then panic
      else elim (Host.new host_done config e) [
        | none ↦ panic
        | some processor ↦
            ok (record lb { processor = processor }, (Host.stop host_done lb.processor e).1)
      ]

  -- NewLoadBalancer
  unfoldable pub new_load_balancer : S → Engine K → Result (LoadBalancer S D × Engine K)
  new_load_balancer algo e = elim (Host.new host_done Host.default_config e) [
    | none ↦ panic
    | some processor ↦
        schedule_cleanup callback
          (record {
            processor = processor;
            algo = algo;
            servers = [];
            clients = λ k. none;
            client_order = [];
            conn_table = λ s. [];
            by_key = λ k. none;
            connections = λ k. none;
            client_tx = λ k. none;
            to_server = λ s. none;
            health = [];
            chaos = record { latency = 0; packet_drop_rate = never };
            cleanup = 0;
            closed = false;
            timeouts = default_timeouts;
            next_pointer = 0;
          })
          e
  ]
