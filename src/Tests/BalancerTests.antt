-- ===== src/Tests/BalancerTests.antt =====
-- The balancer's choices and its view of a connection, at concrete inputs.
use Prim.{tt}
use balancer_go.Base.{
  ℕ, Bool, ◌+◌, ◌≡◌, ◌≤◌, ◌<◌, refl, true, false, List, [], ◌∷◌, arith, some, max, length, ◌⊎◌,
}
use balancer_go.Base.Int.{pos}
use balancer_go.Model.{Packet, tcp, not_ect}
use balancer_go.Algorithms.{
  Candidate, is_open, picked, failed, no_backends, no_available_backends, round_robin, random_pick,
}
use balancer_go.Algorithms.Rotation.{place, round_robin_lem}
use balancer_go.Algorithms.Draw.{random_pick_lem}
use balancer_go.Connections.{
  ConnectionState, TimeoutConfig, state_half_open, supported_mapping_packet, timeout_of, expired,
}
use balancer_go.Connections.Phases.{Observation, observe_all, rank, furthest, phase-observe_all}
use balancer_go.Connections.Idle.{AllIdle, expired-AllIdle}

-- A full backend and one with room.
abbrev backends : List Candidate
backends =
    record { max_connections = 2; mapped_connections = 2 }
    ∷ record { max_connections = 2; mapped_connections = 1 }
    ∷ []

round_robin_lem_example :
    (((((round_robin 0 backends).0 ≡ failed no_backends) × (length backends ≡ 0))
        ⊎ (((round_robin 0 backends).0 ≡ failed no_available_backends) × (0 < length backends)))
      × ((i : ℕ) → i < 2 → is_open backends i ≡ false))
    ⊎ ((k : ℕ) × (k < 2)
        × (round_robin 0 backends ≡ (picked (place 0 k backends), place 0 (k + 1) backends))
        × (is_open backends (place 0 k backends) ≡ true)
        × ((j : ℕ) → j < k → is_open backends (place 0 j backends) ≡ false))
round_robin_lem_example = round_robin_lem 0 backends

random_pick_lem_example :
    ((random_pick (λ n. 0) backends ≡ some (failed no_available_backends))
      × ((i : ℕ) → is_open backends i ≡ false))
    ⊎ ((i : ℕ) × (random_pick (λ n. 0) backends ≡ some (picked i)) × (is_open backends i ≡ true))
random_pick_lem_example = random_pick_lem (λ n. 0) backends (λ n h. h)

-- A client's ACK, and then a FIN of the server's.
abbrev segment : Bool → Packet
segment fin = record {
  key = record { src_ip = "a"; src_port = 1; dst_ip = "b"; dst_port = 2; protocol = tcp };
  flag = record {
    syn = false;
    fin = fin;
    rst = false;
    ack = true;
    psh = false;
    urg = false;
    ece = false;
    cwr = false;
  };
  size = pos 0;
  seq = 1;
  ack = 1;
  ecn = not_ect;
  receive_window_bytes = 0;
  sack_permitted = false;
  sack_blocks = [];
}

abbrev traffic : List Observation
traffic =
    record { packet = segment false; from_server = false; time = 10 }
    ∷ record { packet = segment true; from_server = true; time = 20 }
    ∷ []

abbrev fresh : ConnectionState
fresh = record { last_activity = 5; phase = state_half_open }

phase-observe_all_example : rank (observe_all traffic fresh).phase ≡ max 0 (furthest traffic)
phase-observe_all_example = phase-observe_all traffic fresh

abbrev limits : TimeoutConfig
limits = record { half_open = pos 5; established = pos 60; closing = pos 30; reset = pos 1 }

expired-traffic : expired limits 50 (observe_all traffic fresh) ≡ true
unfolding expired balancer_go.Connections.observe supported_mapping_packet
expired-traffic = refl

expired-AllIdle_example :
    (t : ℕ) × (timeout_of limits (observe_all traffic fresh).phase ≡ pos t)
    × (1 ≤ t)
    × AllIdle 50 t traffic
expired-AllIdle_example =
    expired-AllIdle limits 50 traffic fresh (omega arith, (omega arith, tt)) expired-traffic
