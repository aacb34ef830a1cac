-- ===== src/Balancer.antt =====
-- simulator/balancer/balancer.go: which server a client's packets go to. An endpoint is its address,
-- `D` is what a Sender refers to, and `S` is the state of the algorithm. A draw of the random numbers,
-- and what the endpoints are asked, are arguments. Times are counts of nanoseconds.
pub mod Tables
pub mod Invariant
pub mod Forget
pub mod Sweep
pub mod Assignment
pub mod Routing
pub mod Traffic
pub mod Handling
pub mod Registration
pub mod Clients
pub mod Servers
pub mod Start
pub mod RoundRobin
pub mod Passing
pub mod Safety
use balancer_go.Base.{
  ℕ, ◌+◌, ◌-◌, ◌%◌, Bool, true, false, ◌&&◌, ◌||◌, not, ltb, leb, ◌==◌, if◌then◌else◌, Option, none,
  some, List, [], ◌∷◌, ◌++◌, length, get_elem?, map,
}
use balancer_go.Base.Int.{pos}
use balancer_go.Model.{ClientKey, Packet}
use balancer_go.Model.Keys.{same_key}
use balancer_go.Algorithms.{Candidate, Picked, PickError, picked, failed}
use balancer_go.Connections.{
  ConnectionState, TimeoutConfig, state_half_open, observe, expired, supported_mapping_packet,
  has_base_flags,
}
use balancer_go.Engine.{Engine, Result, ok, panic, schedule_after, cancel}
use balancer_go.Host as Host
use balancer_go.Host.{Host}
use balancer_go.Network.Link.{Rate, never, happens}
use balancer_go.Balancer.Tables.{put, is_some, is_at, without_first, order_with, lookup, change}

pub record HealthCheck : Type 0 where
  pub tick : ℕ
  pub timeout : ℕ
  pub serial : ℕ
  pub healthy : Bool
  pub max_connections : ℕ

-- A connection's state, with the number of its allocation, which is the pointer to it.
pub record Connection : Type 0 where
  pub pointer : ℕ
  pub state : ConnectionState

pub record ChaosConfig : Type 0 where
  pub latency : ℕ
  pub packet_drop_rate : Rate

-- The callbacks that the balancer gives to its host: the packet, with the pointers that they refer to.
pub data Job : Type 0 where
  from_client : Option ℕ → Option ℕ → Packet → Job
  from_server : Option ℕ → Option ℕ → ℕ → Packet → Job

-- The callbacks that it gives to the engine.
pub data Callback (D : Type 0) : Type 0 where
  sweep_mappings : Callback D
  check_health : ℕ → Callback D
  probe_timeout : ℕ → ℕ → Callback D
  probe_reply : ℕ → ℕ → Callback D
  deliver : D → ℕ → Option ℕ → Packet → Callback D

-- A missing entry of the connection table is an empty list.
pub record LoadBalancer (S D : Type 0) : Type 0 where
  pub processor : Host Job
  pub algo : S
  pub servers : List ℕ
  pub clients : ClientKey → Option ℕ
  pub client_order : List ℕ
  pub conn_table : ℕ → List ℕ
  pub by_key : ClientKey → Option ℕ
  pub connections : ClientKey → Option Connection
  pub client_tx : ClientKey → Option D
  pub to_server : ℕ → Option D
  pub health : List (ℕ × HealthCheck)
  pub chaos : ChaosConfig
  pub cleanup : ℕ
  pub closed : Bool
  pub timeouts : TimeoutConfig
  pub next_pointer : ℕ

pub data Routed : Type 0 where
  routed : ℕ → Routed
  not_picked : PickError → Routed
  unknown_backend : Routed

abbrev pub cleanup_interval : ℕ
cleanup_interval = 5000000000

abbrev pub health_interval : ℕ
health_interval = 1000000000

abbrev pub candidate_of : HealthCheck → List ℕ → Candidate
candidate_of check clients = record {
  max_connections = check.max_connections;
  mapped_connections = length clients % 4294967296;
}

-- One turn of the loop in `route`; a server without a check is a nil dereference.
abbrev pub add_backend :
    ℕ → List ℕ → Option HealthCheck → Option (List (ℕ × Candidate)) → Option (List (ℕ × Candidate))
add_backend srv clients none backends = none
add_backend srv clients (some check) none = none
add_backend srv clients (some check) (some backends) =
    some (if check.healthy then (srv, candidate_of check clients) ∷ backends else backends)

-- The healthy backends with their candidates.
unfoldable pub healthy_backends :
    List ℕ → (ℕ → List ℕ) → List (ℕ × HealthCheck) → Option (List (ℕ × Candidate))
healthy_backends [] table health = some []
healthy_backends (srv ∷ servers) table health =
    add_backend srv (table srv) (lookup srv health) (healthy_backends servers table health)

-- A connection that is there and has expired.
abbrev pub is_expired : ℕ → TimeoutConfig → Option Connection → Bool
is_expired now timeouts none = false
is_expired now timeouts (some c) = expired timeouts now c.state

-- The client's key does not change.
module _ {S D : Type 0} (key_of : ℕ → ClientKey) where
  unfoldable pub has_client : Option ℕ → LoadBalancer S D → Bool
  has_client none lb = false
  has_client (some cl) lb = not lb.closed && is_at cl (lb.clients (key_of cl))

  -- AddClient, given whether the client has terminated; `none` is an error.
  unfoldable pub add_client :
      Option ℕ → Bool → Option D → LoadBalancer S D → Option (LoadBalancer S D)
  add_client none terminated send lb = none
  add_client (some cl) terminated none lb = none
  add_client (some cl) terminated (some send) lb =
      let key = key_of cl in
      if lb.closed || terminated || is_some (lb.by_key key)
      then none
      else some (record lb {
        clients = put same_key key (some cl) lb.clients;
        client_tx = put same_key key (some send) lb.client_tx;
        client_order = order_with (lb.clients key) cl lb.client_order;
      })

  -- The mapping of a new route.
  unfoldable pub assign : ℕ → ℕ → ℕ → LoadBalancer S D → LoadBalancer S D
  assign cl srv now lb =
      let key = key_of cl in
      record lb {
        conn_table = λ s. if s == srv then lb.conn_table s ++ cl ∷ [] else lb.conn_table s;
        by_key = put same_key key (some srv) lb.by_key;
        connections =
            put same_key key
              (some (record {
                pointer = lb.next_pointer;
                state = record { last_activity = now; phase = state_half_open };
              }))
              lb.connections;
        next_pointer = lb.next_pointer + 1;
      }

  unfoldable pub forget_route : ClientKey → LoadBalancer S D → LoadBalancer S D
  forget_route key lb = record lb {
    conn_table = elim (lb.by_key key) [
      | none ↦ lb.conn_table
      | some srv ↦ λ s.
          if s == srv then without_first (lb.clients key) (lb.conn_table s) else lb.conn_table s
    ];
    by_key = put same_key key none lb.by_key;
    connections = put same_key key none lb.connections;
  }

  -- The loop of the cleanup over the clients in order.
  unfoldable pub sweep : ℕ → List ℕ → LoadBalancer S D → LoadBalancer S D
  sweep now [] lb = lb
  sweep now (cl ∷ rest) lb =
      let key = key_of cl in
      sweep now rest
        (if is_expired now lb.timeouts (lb.connections key) then forget_route key lb else lb)

-- `pick` is the algorithm's Pick.
module _ {S D : Type 0} (key_of : ℕ → ClientKey) (pick : S → List Candidate → Picked × S) where
  -- The end of `Route`, after the choice.
  abbrev pub finish_route :
      ℕ → ℕ → LoadBalancer S D → Option (ℕ × Candidate) → LoadBalancer S D × Routed
  finish_route cl now lb none = (lb, unknown_backend)
  finish_route cl now lb (some (srv, candidate)) = (assign key_of cl srv now lb, routed srv)

  abbrev pub route_to :
      ℕ → ℕ → List (ℕ × Candidate) → LoadBalancer S D → Picked → LoadBalancer S D × Routed
  route_to cl now backends lb (failed error) = (lb, not_picked error)
  route_to cl now backends lb (picked i) = finish_route cl now lb (get_elem? backends i)

  abbrev pub route_among :
      ℕ → ℕ → LoadBalancer S D → Option (List (ℕ × Candidate)) → Result (LoadBalancer S D × Routed)
  route_among cl now lb none = panic
  route_among cl now lb (some backends) =
      let (choice, algo) = pick lb.algo (map (λ (b : ℕ × Candidate). b.1) backends) in
      ok (route_to cl now backends (record lb { algo = algo }) choice)

  unfoldable pub route : ℕ → ℕ → LoadBalancer S D → Result (LoadBalancer S D × Routed)
  route cl now lb = elim (lb.by_key (key_of cl)) [
    | some mapped ↦ ok (lb, routed mapped)
    | none ↦ route_among cl now lb (healthy_backends lb.servers lb.conn_table lb.health)
  ]

module _ {S D : Type 0} where
  -- SetAlgorithm; a nil algorithm is the panic, `none`.
  unfoldable pub set_algorithm : Option S → LoadBalancer S D → Option (LoadBalancer S D)
  set_algorithm none lb = none
  set_algorithm (some algo) lb = some (record lb { algo = algo })

  unfoldable pub clear_connection_table : LoadBalancer S D → LoadBalancer S D
  clear_connection_table lb = record lb {
    conn_table = λ s. [];
    by_key = λ k. none;
    connections = λ k. none;
  }
