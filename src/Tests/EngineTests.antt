-- ===== src/Tests/EngineTests.antt =====
-- The engine at a concrete queue, and callbacks that schedule more events.
use Prim.{tt}
use balancer_go.Base.{ℕ, ◌+◌, ◌≡◌, refl, false, not, ◌&&◌, [], ◌∷◌, ◌==◌, if◌then◌else◌, arith}
use balancer_go.Base.Int.{pos}
use balancer_go.Engine.{Engine, schedule_at, cancel}
use balancer_go.Engine.Queue.{is_queued, IsEngine}
use balancer_go.Engine.Operations.{IsKept, Scheduled, schedule_at_lem, cancel_lem}
use balancer_go.Engine.Run.{Script, finish, call_after, run_until}
use balancer_go.Engine.Loop.{RunEnds, run_until-RunEnds}

-- Two events at the time 5, and the clock at 2.
abbrev two_events : Engine ℕ
two_events = record {
  max_events = 10;
  now = 2;
  end_time = 100;
  next_id = 2;
  queue = record { id = 1; at = 5; callback = 7 } ∷ record { id = 2; at = 5; callback = 0 } ∷ [];
  by_id = 2 ∷ 1 ∷ [];
  executed = 0;
  running = false;
}

two_events-IsEngine : IsEngine 0 0 two_events
two_events-IsEngine = record {
  past = omega arith;
  known = omega arith;
  clock = omega arith;
  ids_fit = omega arith;
  within_limit = omega arith;
  ordered = (refl, (refl, tt));
  bounded = (
    omega arith,
    omega arith,
    omega arith,
    omega arith,
    (omega arith, omega arith, omega arith, omega arith, tt),
  );
  distinct = (refl, (refl, tt));
  indexed = λ j. ground arith;
}

schedule_at_lem_example : Scheduled 0 0 two_events 9 3 (schedule_at (pos 9) 3 two_events)
schedule_at_lem_example = schedule_at_lem 0 0 two_events two_events-IsEngine 9 3 (omega arith)

cancel_lem_example :
    ((cancel 1 two_events).1 ≡ is_queued 1 two_events.queue)
    × ((j : ℕ)
        → is_queued j (cancel 1 two_events).0.queue
          ≡ (not (1 == j) && is_queued j two_events.queue))
    × IsEngine 0 0 (cancel 1 two_events).0
    × IsKept two_events (cancel 1 two_events).0
cancel_lem_example = cancel_lem 0 0 two_events two_events-IsEngine 1

-- The first callback schedules another event for now; the others count.
abbrev counting : ℕ → ℕ → Script ℕ ℕ
counting id total =
    if id == 7 then call_after (pos 0) 0 (λ event. finish total) else finish (total + 1)

run_until-RunEnds_example :
    RunEnds counting 50 0 0 two_events 0 (run_until counting 11 (pos 50) two_events 0)
run_until-RunEnds_example =
    run_until-RunEnds counting 50 11 0 0 two_events 0 two_events-IsEngine refl (omega arith)
      (omega arith) (omega arith)
