-- ===== src/Tests/HostTests.antt =====
-- A host with one busy core and one waiting packet.
use Prim.{tt}
use balancer_go.Base.{ℕ, refl, false, some, [], ◌∷◌, arith}
use balancer_go.Engine.{Engine}
use balancer_go.Engine.Queue.{IsEngine}
use balancer_go.Host.{Host, submit, discard_pending}
use balancer_go.Host.Invariant.{IsHost, Submitted, submit-IsHost}
use balancer_go.Host.Discard.{IsDiscarded, IsCancelled, discard-IsDiscarded}
use balancer_go.Base.{◌⊎◌, ◌≡◌, true}

abbrev pub idle_engine : Engine ℕ
idle_engine = record {
  max_events = 10;
  now = 7;
  end_time = 100;
  next_id = 3;
  queue = [];
  by_id = [];
  executed = 0;
  running = false;
}

pub idle_engine-IsEngine : IsEngine 0 0 idle_engine
idle_engine-IsEngine = record {
  past = omega arith;
  known = omega arith;
  clock = omega arith;
  ids_fit = omega arith;
  within_limit = omega arith;
  ordered = tt;
  bounded = tt;
  distinct = tt;
  indexed = λ j. refl;
}

abbrev busy_host : Host ℕ
busy_host = record {
  config = record { cores = 1; packet_processing_time = 10; queue_capacity = 2 };
  stats = record {
    max_queued_packets = 1;
    offered_packets = 2;
    accepted_packets = 2;
    started_packets = 1;
    processed_packets = 0;
    queue_dropped_packets = 0;
    discarded_packets = 0;
    busy_time = 0;
    queue_wait_total = 0;
    max_queue_wait = 0;
  };
  queue = record { queued_at = 5; on_processed = some 2 } ∷ [];
  queue_head = 0;
  active =
      record { pointer = 0; work = record { queued_at = 5; on_processed = some 1 }; completion = 3 }
      ∷ [];
  stopped = false;
  created_at = 0;
  accounted_at = 5;
  stopped_at = 0;
  next_pointer = 1;
}

busy_host-IsHost : IsHost busy_host
busy_host-IsHost = record {
  head_fits = omega arith;
  cores_fit = omega arith;
  queue_fits = omega arith;
  no_idle_core = λ h. refl;
  conserved = refl;
  offered = refl;
  fits = omega arith;
}

abbrev completes : ℕ → ℕ
completes pointer = pointer

submit-IsHost_example :
    Submitted completes 0 0 idle_engine idle_engine-IsEngine
      (submit completes 9 busy_host idle_engine)
submit-IsHost_example =
    submit-IsHost completes 0 0 idle_engine idle_engine-IsEngine 9 busy_host busy_host-IsHost
      (omega arith)

discard-IsDiscarded_example :
    ((busy_host.stopped ≡ true)
      × (discard_pending completes busy_host idle_engine ≡ (busy_host, idle_engine)))
    ⊎ ((busy_host.stopped ≡ false)
        × IsDiscarded busy_host (discard_pending completes busy_host idle_engine).0
        × IsCancelled 0 0 busy_host.active idle_engine
            (discard_pending completes busy_host idle_engine).1)
discard-IsDiscarded_example =
    discard-IsDiscarded completes 0 0 idle_engine idle_engine-IsEngine busy_host busy_host-IsHost
