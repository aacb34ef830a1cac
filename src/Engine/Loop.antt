-- ===== src/Engine/Loop.antt =====
-- simulator/engine/engine.go: `RunUntil` as a whole.
use balancer_go.Base.{
  ℕ, ◌+◌, ◌-◌, ◌≤◌, ◌<◌, ◌≡◌, refl, true, false, List, [], ◌∷◌, ltb, arith, length,
}
use balancer_go.Base.Int.{pos}
use balancer_go.Engine.{Event, Engine}
use balancer_go.Engine.Queue.{IsBounded, IsEngine, IsAfter}
use balancer_go.Engine.Run.{
  Script, event_limit, Outcome, finished, failed, panicked, out_of_rounds, run_loop, close,
  run_until,
}
use balancer_go.Engine.Order.{Runs, IsIncreasing, IsFinished, IsPanic, IsDue, Ends}
use balancer_go.Engine.Rounds.{run_loop-Ends}

module _ {K W : Type 0} (code : K → W → Script K W) (until : ℕ) where
  IsAfter-IsBounded :
      (n z k : ℕ) (xs : List (Event K))
      → IsAfter until xs
      → IsBounded n z k xs
      → IsBounded until z k xs
  IsAfter-IsBounded n z k [] h b = tt
  IsAfter-IsBounded n z k (x ∷ xs) h b =
      (omega (arith, h.0), b.1, b.2, b.3, IsAfter-IsBounded n z k xs h.1 b.4)

  -- How a run of a valid engine up to the time `until` may end.
  pub record IsRun (closing : Engine K → Engine K) (a i : ℕ) (e : Engine K) (w : W) (g : Engine K)
      (v : W) : Type 0 where
    pub log : List (ℕ × ℕ)
    pub before_close : Engine K
    pub runs : Runs code until (record e { running = true }) w log before_close v
    pub increasing : IsIncreasing code until a i log
    pub counted : g.executed ≡ e.executed + length log
    pub last_at : ℕ
    pub last_id : ℕ
    pub valid : IsEngine last_at last_id g
    pub closed : g ≡ closing before_close

  abbrev pub RunEnds : ℕ → ℕ → Engine K → W → Outcome K W → Type 0
  RunEnds a i e w (finished g v) =
      IsRun (λ b. record b { now = until; running = false }) a i e w g v × IsAfter until g.queue
  RunEnds a i e w (failed error g v) =
      IsRun (λ b. record b { running = false }) a i e w g v
      × (error ≡ event_limit)
      × (g.executed ≡ g.max_events)
      × IsDue code until g.queue
  RunEnds a i e w panicked = IsPanic code until a i (record e { running = true }) w
  RunEnds a i e w out_of_rounds = ⊥

  close-IsRun :
      (closing : Engine K → Engine K) (a i : ℕ) (e g : Engine K) (w v : W) (now : ℕ)
      → record g { now = now; running = false } ≡ closing g
      → g.now ≤ now
      → now ≤ g.end_time
      → IsBounded now g.end_time g.next_id g.queue
      → IsFinished code until a i (record e { running = true }) w g v
      → IsRun closing a i e w (record g { now = now; running = false }) v
  close-IsRun closing a i e g w v now c h k b fin = record {
    log = fin.log;
    before_close = g;
    runs = fin.runs;
    increasing = fin.increasing;
    counted = fin.counted;
    last_at = fin.last_at;
    last_id = fin.last_id;
    valid = record {
      past = omega (arith, fin.valid.past);
      known = fin.valid.known;
      clock = k;
      ids_fit = fin.valid.ids_fit;
      within_limit = fin.valid.within_limit;
      ordered = fin.valid.ordered;
      bounded = b;
      distinct = fin.valid.distinct;
      indexed = fin.valid.indexed;
    };
    closed = c;
  }

  close-RunEnds :
      (a i : ℕ) (e : Engine K) (w : W) (r : Outcome K W)
      → until ≤ e.end_time
      → Ends code until a i (record e { running = true }) w r
      → RunEnds a i e w (close code until r)
  unfolding close
  close-RunEnds a i e w (finished g v) h (fin, rest) = (
    close-IsRun (λ b. record b { now = until; running = false }) a i e g w v until refl fin.in_time
        (omega (arith, fin.end_kept))
        (IsAfter-IsBounded g.now g.end_time g.next_id g.queue rest fin.valid.bounded) fin,
    rest,
  )
  close-RunEnds a i e w (failed error g v) h (limit, full, due, fin) = (
    close-IsRun (λ b. record b { running = false }) a i e g w v g.now refl (omega arith)
        fin.valid.clock fin.valid.bounded fin,
    limit,
    full,
    due,
  )
  close-RunEnds a i e w panicked h r = r
  close-RunEnds a i e w out_of_rounds h r = r

  -- With one round more than the events that its limit still admits, `RunUntil` of a valid, idle
  -- engine to a time between now and the end always ends. The events executed come one after
  -- another in the order of `Less`, also those that callbacks schedule, each callback on the engine
  -- that the one before it left. Without an error every event still pending is later than that
  -- time, and the engine is what the last callback left, with its clock moved to that time; with an
  -- error the event limit is met while the next event is due, and the engine is what the last
  -- callback left; in both cases it is valid and no longer running, and its counter has grown by
  -- one for each event. Otherwise the callback of the next event, which is due and within the
  -- limit, panicked.
  pub run_until-RunEnds :
      (rounds a i : ℕ) (e : Engine K) (w : W)
      → IsEngine a i e
      → e.running ≡ false
      → e.now ≤ until
      → until ≤ e.end_time
      → e.max_events - e.executed < rounds
      → RunEnds a i e w (run_until code rounds (pos until) e w)
  unfolding run_until
  run_until-RunEnds rounds a i e w v idle h k more =
      let start : Engine K = record e { running = true } in
      let valid : IsEngine a i start = record {
        past = v.past;
        known = v.known;
        clock = v.clock;
        ids_fit = v.ids_fit;
        within_limit = v.within_limit;
        ordered = v.ordered;
        bounded = v.bounded;
        distinct = v.distinct;
        indexed = v.indexed;
      } in
      let past : ltb until e.now ≡ false = ground arith in
      let late : ltb e.end_time until ≡ false = ground arith in
      let ended =
        close-RunEnds a i e w (run_loop code rounds until start w) k
          (run_loop-Ends code until rounds a i start w valid h more) in
      simp (idle, past, late) ended
