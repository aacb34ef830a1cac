-- ===== src/Tests/NetworkTests.antt =====
-- A link in the middle of a transmission, and an ingress of two inputs.
use Prim.{tt}
use balancer_go.Base.{
  ℕ, ◌≡◌, refl, true, false, Bool, none, some, List, [], ◌∷◌, arith, get_elem?, length, max_i64,
  if◌then◌else◌, ltb,
}
use balancer_go.Base.Int.{pos}
use balancer_go.Engine.{Engine}
use balancer_go.Engine.Queue.{IsEngine}
use balancer_go.Engine.Operations.{IsKept}
use balancer_go.Engine.Returns.{Returns, IsNext}
use balancer_go.Fifo.{empty, queued, first}
use balancer_go.Fifo.Refinement.{IsFifo, waiting, Op, arrive, leave, run, replay, run_refines}
use balancer_go.Network.Serialization.{serialization_duration, ceiling, serialization_duration_lem}
use balancer_go.Network.Link.{
  Link, Transmission, Config, Stats, sometimes, threshold, capable, transmit_ecn, complete, happens,
}
use balancer_go.Network.Link.Invariant.{IsLink, transmit_ecn-IsLink}
use balancer_go.Network.Link.Completion.{IsCompleted, complete-IsLink}
use balancer_go.Network.Ingress as Ingress
use balancer_go.Network.Ingress.{oldest_from, Ingress, Input, IngressPacket, Delivery}
use balancer_go.Network.Ingress.Invariant.{IsIngress}
use balancer_go.Network.Ingress.Order.{IsOldest, oldest_lem}
use balancer_go.Network.Ingress.Admission.{transmit_ecn-IsIngress}
use balancer_go.Tests.HostTests.{idle_engine, idle_engine-IsEngine}

abbrev operations : List (Op ℕ)
operations = arrive 5 ∷ arrive 6 ∷ leave ∷ arrive 7 ∷ []

run_refines_example :
    let f = run 0 operations empty in
    let xs = replay 0 operations [] in
    IsFifo f × (waiting f ≡ xs) × (queued f ≡ length xs) × (first f ≡ get_elem? xs 0)
run_refines_example = run_refines 0 operations (omega arith, tt)

serialization_duration_lem_example :
    serialization_duration 1500 7
    ≡ (if ltb max_i64 (ceiling 1500 7) then none else some (ceiling 1500 7))
serialization_duration_lem_example = serialization_duration_lem 1500 7 (omega arith)

abbrev small_config : Config
small_config = record {
  bandwidth_bits_per_second = 8000000;
  packet_travel_time = 4;
  queue_capacity = 2;
  loss_rate = sometimes;
  queue_policy = threshold;
  congestion_threshold = 1;
  congestion_signal_probability = sometimes;
}

abbrev some_stats : Stats
some_stats = record {
  offered_packets = 5;
  offered_bytes = 500;
  accepted_packets = 4;
  accepted_bytes = 400;
  queue_dropped_packets = 1;
  queue_dropped_bytes = 100;
  ecn_marked_packets = 0;
  ecn_marked_bytes = 0;
  congestion_dropped_packets = 0;
  congestion_dropped_bytes = 0;
  transmitted_bytes = 200;
  lost_packets = 1;
  lost_bytes = 100;
  delivered_packets = 1;
  delivered_bytes = 100;
}

abbrev waiting_packet : Transmission ℕ
waiting_packet = record { size_bytes = 100; duration = 100000; on_arrival = 9; marked = false }

-- One packet is in transmission and one waits.
abbrev busy_link : Link ℕ
busy_link = record {
  config = small_config;
  fifo = record { slots = waiting_packet ∷ []; head = 0 };
  transmitting = true;
  travelling = 0;
  stats = some_stats;
  managed = false;
  congestion_rng = true;
}

busy_link-IsLink : IsLink busy_link
unfolding queued
busy_link-IsLink = record {
  fifo = omega arith;
  capacity = omega arith;
  working = λ h. ground (arith, h);
  external = λ h. ground (arith, h);
  conserved = refl;
  offered = refl;
  fits = omega arith;
}

abbrev completes : Transmission ℕ → ℕ
completes p = 1

abbrev arrives : Transmission ℕ → ℕ
arrives p = 2

transmit_ecn-IsLink_example :
    Returns {A = Link ℕ × Engine ℕ × Bool}
      (λ r. IsLink r.0 × IsNext 0 0 idle_engine idle_engine-IsEngine r.1)
      (transmit_ecn completes arrives waiting_packet (pos 100) capable 3 true busy_link idle_engine)
transmit_ecn-IsLink_example =
    transmit_ecn-IsLink completes arrives waiting_packet 0 0 idle_engine idle_engine-IsEngine 100
      capable 3 true busy_link (λ t p. refl) (omega arith) (omega arith) refl (omega arith)
      (omega arith) busy_link-IsLink

complete-IsLink_example :
    Returns {A = Link ℕ × Engine ℕ}
      (λ r.
        (IsLink r.0 × IsEngine 0 0 r.1 × IsKept idle_engine r.1)
        × IsCompleted completes arrives waiting_packet waiting_packet
            (happens busy_link.config.loss_rate false)
            busy_link
            idle_engine
            r)
      (complete completes arrives waiting_packet waiting_packet false busy_link idle_engine)
complete-IsLink_example =
    complete-IsLink completes arrives waiting_packet 0 0 idle_engine idle_engine-IsEngine
      waiting_packet false busy_link (omega arith) refl busy_link-IsLink

abbrev zero_packet : IngressPacket ℕ
zero_packet = record { size_bytes = 0; on_arrival = 0; marked = false; sequence = 0 }

abbrev zero_transmission : Transmission (Delivery ℕ)
zero_transmission = record {
  size_bytes = 0;
  duration = 0;
  on_arrival = record { input = 0; packet = zero_packet };
  marked = false;
}

abbrev queued_packet : IngressPacket ℕ
queued_packet = record { size_bytes = 100; on_arrival = 5; marked = false; sequence = 2 }

abbrev first_input : Input ℕ
first_input = record { fifo = empty; stats = some_stats; transmitting = true; travelling = 0 }

abbrev second_input : Input ℕ
second_input = record {
  fifo = record { slots = queued_packet ∷ []; head = 0 };
  stats = some_stats;
  transmitting = false;
  travelling = 0;
}

abbrev shared_link : Link (Delivery ℕ)
shared_link = record {
  config = small_config;
  fifo = empty;
  transmitting = true;
  travelling = 0;
  stats = record some_stats { accepted_packets = 3; queue_dropped_packets = 2 };
  managed = true;
  congestion_rng = true;
}

-- The first input's packet is in transmission, and one of the second waits.
abbrev busy_ingress : Ingress ℕ
busy_ingress = record {
  link = shared_link;
  inputs = first_input ∷ second_input ∷ [];
  next_sequence = 2;
  stats = some_stats;
  queued_packets = 1;
  transmitting_input = some 0;
  transmitting_bytes = 100;
  losses_before = 1;
}

busy_ingress-IsIngress : IsIngress busy_ingress
unfolding queued
busy_ingress-IsIngress = record {
  link = record {
    fifo = omega arith;
    capacity = omega arith;
    working = λ h. ground (arith, h);
    external = λ h. refl;
    conserved = refl;
    offered = refl;
    fits = omega arith;
  };
  managed = refl;
  bandwidth = omega arith;
  inputs = (
    record { fifo = omega arith; room = omega arith; sequence = tt },
    (
      record {
        fifo = omega arith;
        room = omega arith;
        sequence = (omega arith, omega arith, omega arith, tt);
      },
      tt,
    ),
  );
  counted = refl;
  working = λ h. ground (arith, h);
  owner = λ h. (0, refl);
}

abbrev sends : Transmission (Delivery ℕ) → ℕ
sends p = 1

oldest_lem_example : IsOldest 0 none busy_ingress.inputs (oldest_from 0 none busy_ingress.inputs)
oldest_lem_example =
    oldest_lem busy_ingress.link.config.bandwidth_bits_per_second
      busy_ingress.link.config.queue_capacity 2 0 none busy_ingress.inputs
      busy_ingress-IsIngress.inputs

transmit_ecn-IsIngress_example :
    Returns {A = Ingress ℕ × Engine ℕ × Bool}
      (λ r. IsIngress r.0 × IsNext 0 0 idle_engine idle_engine-IsEngine r.1)
      (Ingress.transmit_ecn sends sends zero_transmission zero_packet 1
        (pos 100)
        capable
        3
        true
        busy_ingress
        idle_engine)
transmit_ecn-IsIngress_example =
    transmit_ecn-IsIngress sends sends zero_transmission zero_packet 0 0 idle_engine
      idle_engine-IsEngine 1 100 capable 3 true busy_ingress second_input (λ t p. refl) refl
      (omega arith) (omega arith) (omega arith) (omega arith) busy_ingress-IsIngress
