-- ===== src/Tests/RoutingTests.antt =====
-- A new balancer with the round-robin algorithm, a client that it has added, and a server.
use balancer_go.Base.{
  ℕ, ◌==◌, ◌≡◌, refl, ap, Option, true, false, none, some, [], ◌∷◌, arith, inr, if◌then◌else◌,
}
use balancer_go.Base.Int.{pos}
use balancer_go.Model.{ClientKey, Packet, tcp, not_ect}
use balancer_go.Model.Keys.{same_key}
use balancer_go.Engine.Returns.{Returns, IsNext}
use balancer_go.Host as Host
use balancer_go.Network.Link.{never}
use balancer_go.Balancer.{
  LoadBalancer, HealthCheck, Callback, Job, Routed, has_client, route, sweep, is_expired, assign,
  add_client,
}
use balancer_go.Balancer.Tables.{put, put-same}
use balancer_go.Balancer.Traffic.{default_timeouts}
use balancer_go.Balancer.Handling.{Handled, process_client_packet, process_server_packet}
use balancer_go.Balancer.Invariant.{IsBalancer}
use balancer_go.Balancer.Assignment.{assign-IsBalancer}
use balancer_go.Balancer.Routing.{HasOutcome, route-IsBalancer}
use balancer_go.Balancer.Clients.{add_client-IsBalancer}
use balancer_go.Balancer.Servers.{served_lem}
use balancer_go.Balancer.Start.{empty-IsBalancer}
use balancer_go.Balancer.RoundRobin.{round_robin_algorithm}
use balancer_go.Balancer.Safety.{
  IsForwarded, IsReturned, process_client_packet-Returns, process_server_packet-Returns,
}
use balancer_go.Balancer.Sweep.{sweep_lem}
use balancer_go.Tests.HostTests.{idle_engine, idle_engine-IsEngine}

abbrev key_of : ℕ → ClientKey
key_of cl = record { src_ip = "c"; src_port = cl; dst_ip = "b"; dst_port = 80; protocol = tcp }

abbrev idle_host : Host.Host Job
idle_host = record {
  config = record { cores = 1; packet_processing_time = 0; queue_capacity = 4 };
  stats = record {
    max_queued_packets = 0;
    offered_packets = 0;
    accepted_packets = 0;
    started_packets = 0;
    processed_packets = 0;
    queue_dropped_packets = 0;
    discarded_packets = 0;
    busy_time = 0;
    queue_wait_total = 0;
    max_queue_wait = 0;
  };
  queue = [];
  queue_head = 0;
  active = [];
  stopped = false;
  created_at = 0;
  accounted_at = 0;
  stopped_at = 0;
  next_pointer = 0;
}

abbrev new_balancer : LoadBalancer ℕ ℕ
new_balancer = record {
  processor = idle_host;
  algo = 0;
  servers = [];
  clients = λ k. none;
  client_order = [];
  conn_table = λ s. [];
  by_key = λ k. none;
  connections = λ k. none;
  client_tx = λ k. none;
  to_server = λ s. none;
  health = [];
  chaos = record { latency = 0; packet_drop_rate = never };
  cleanup = 1;
  closed = false;
  timeouts = default_timeouts;
  next_pointer = 0;
}

abbrev one_check : HealthCheck
one_check = record { tick = 2; timeout = 0; serial = 0; healthy = true; max_connections = 3 }

abbrev with_server : LoadBalancer ℕ ℕ
with_server = record new_balancer {
  servers = 2 ∷ [];
  to_server = λ s. if s == 2 then some 20 else none;
  health = (2, one_check) ∷ [];
}

-- Client 1 is registered.
abbrev with_client : LoadBalancer ℕ ℕ
with_client = record with_server {
  clients = put same_key (key_of 1) (some 1) with_server.clients;
  client_tx = put same_key (key_of 1) (some 10) with_server.client_tx;
  client_order = 1 ∷ [];
}

-- Its key is mapped to server 2.
abbrev with_mapping : LoadBalancer ℕ ℕ
with_mapping = assign key_of 1 2 0 with_client

with_server-IsBalancer : IsBalancer key_of with_server
with_server-IsBalancer =
    served_lem key_of 2 one_check (λ s. if s == 2 then some 20 else none) new_balancer refl
      (omega arith) (empty-IsBalancer key_of new_balancer refl refl refl refl refl refl)

with_client-IsBalancer : IsBalancer key_of with_client
unfolding add_client
with_client-IsBalancer =
    (add_client-IsBalancer key_of 1 false 10 with_server with_server-IsBalancer).1

with_client-has_client : has_client key_of (some 1) with_client ≡ true
unfolding add_client
with_client-has_client =
    (add_client-IsBalancer key_of 1 false 10 with_server with_server-IsBalancer).2

registered : with_client.clients (key_of 1) ≡ some 1
registered = put-same same_key (key_of 1) (key_of 1) (some 1) with_server.clients refl

abbrev limit : Option HealthCheck → ℕ
limit none = 0
limit (some check) = check.max_connections

with_mapping-IsBalancer : IsBalancer key_of with_mapping
with_mapping-IsBalancer =
    assign-IsBalancer key_of 1 2 0 with_client with_client-IsBalancer refl registered (omega arith)
      (λ c e. inr (omega (arith, ap limit e)))

route-IsBalancer_example :
    Returns {A = LoadBalancer ℕ ℕ × Routed}
      (λ r. IsBalancer key_of r.0 × HasOutcome key_of 1 with_client r.0 r.1)
      (route key_of round_robin_algorithm.pick 1 5 with_client)
route-IsBalancer_example =
    route-IsBalancer key_of round_robin_algorithm 1 5 with_client with_client-has_client
      with_client-IsBalancer

abbrev syn : Packet
syn = record {
  key = key_of 1;
  flag = record {
    syn = true;
    fin = false;
    rst = false;
    ack = false;
    psh = false;
    urg = false;
    ece = false;
    cwr = false;
  };
  size = pos 0;
  seq = 0;
  ack = 0;
  ecn = not_ect;
  receive_window_bytes = 1000;
  sack_permitted = false;
  sack_blocks = [];
}

abbrev syn_ack : Packet
syn_ack = record syn { flag = record syn.flag { ack = true }; ack = 1 }

abbrev callback : Callback ℕ → ℕ
callback c = 4

abbrev host_done : ℕ → ℕ
host_done pointer = 5

process_client_packet-Returns_example :
    Returns {A = Handled ℕ ℕ ℕ}
      (λ r.
        IsBalancer key_of r.0
        × IsNext 0 0 idle_engine idle_engine-IsEngine r.1
        × IsForwarded key_of round_robin_algorithm callback host_done 0 0 idle_engine
            idle_engine-IsEngine syn r.0 r.2)
      (process_client_packet key_of round_robin_algorithm.pick callback host_done syn true
        with_client idle_engine)
process_client_packet-Returns_example =
    process_client_packet-Returns key_of round_robin_algorithm callback host_done 0 0 idle_engine
      idle_engine-IsEngine syn true with_client (omega arith) with_client-IsBalancer

sweep_lem_example :
    let swept = sweep key_of 6000000000 with_mapping.client_order with_mapping in
    IsBalancer key_of swept
    × ((k : ClientKey)
        → (swept.by_key k ≡ (
            if is_expired 6000000000 with_mapping.timeouts (with_mapping.connections k)
            then none
            else with_mapping.by_key k))
          × (swept.connections k ≡ (
              if is_expired 6000000000 with_mapping.timeouts (with_mapping.connections k)
              then none
              else with_mapping.connections k)))
sweep_lem_example = sweep_lem key_of 6000000000 with_mapping with_mapping-IsBalancer

process_server_packet-Returns_example :
    Returns {A = Handled ℕ ℕ ℕ}
      (λ r.
        IsBalancer key_of r.0
        × IsNext 0 0 idle_engine idle_engine-IsEngine r.1
        × IsReturned key_of round_robin_algorithm callback host_done 0 0 idle_engine
            idle_engine-IsEngine 2 syn_ack with_mapping r.2)
      (process_server_packet key_of round_robin_algorithm.pick callback host_done 2 syn_ack true
        with_mapping idle_engine)
process_server_packet-Returns_example =
    process_server_packet-Returns key_of round_robin_algorithm callback host_done 0 0 idle_engine
      idle_engine-IsEngine 2 syn_ack true with_mapping (omega arith) with_mapping-IsBalancer
