-- ===== src/Engine/Run.antt =====
-- `RunUntil`. What a callback does is a `Script`: calls of the engine, each with what follows it,
-- and at the end the state of the program around the engine.
use balancer_go.Base.{ℕ, zero, suc, Bool, true, false, List, [], ◌∷◌, ltb, leb, if◌then◌else◌}
use balancer_go.Base.Int.{ℤ, pos, negsuc}
use balancer_go.Engine.{
  Event, Engine, Result, ok, panic, clear, schedule_at, schedule_after, cancel, take_next,
}

pub data RunError : Type 0 where
  reentrant_run before_now past_end event_limit : RunError

pub data Script (K W : Type 0) : Type 0 where
  finish : W → Script K W
  read_now : (ℕ → Script K W) → Script K W
  call_at : ℤ → K → (ℕ → Script K W) → Script K W
  call_after : ℤ → K → (ℕ → Script K W) → Script K W
  call_cancel : ℕ → (Bool → Script K W) → Script K W
  call_clear : Script K W → Script K W
  call_run : ℤ → (RunError → Script K W) → Script K W

-- How a run ends: it returns no error or one of its own, a callback panicked, or the rounds that the
-- model was given are used up.
pub data Outcome (K W : Type 0) : Type 0 where
  finished : Engine K → W → Outcome K W
  failed : RunError → Engine K → W → Outcome K W
  panicked : Outcome K W
  out_of_rounds : Outcome K W

module _ {K W : Type 0} where
  -- A callback runs while the engine is running, so a nested `RunUntil` is refused.
  unfoldable pub exec : Script K W → Engine K → Result (Engine K × W)
  exec (finish w) e = ok (e, w)
  exec (read_now k) e = exec (k e.now) e
  exec (call_at at c k) e = elim (schedule_at at c e) [ panic ↦ panic | ok (f, id) ↦ exec (k id) f ]
  exec (call_after delay c k) e = elim (schedule_after delay c e) [
    | panic ↦ panic
    | ok (f, id) ↦ exec (k id) f
  ]
  exec (call_cancel id k) e = let r = cancel id e in exec (k r.1) r.0
  exec (call_clear k) e = exec k (clear e)
  exec (call_run until k) e = exec (k reentrant_run) e

module _ {K W : Type 0} (code : K → W → Script K W) where
  -- A round of the loop at the queue, with what the next rounds do.
  unfoldable pub round :
      (Engine K → W → Outcome K W) → ℕ → Engine K → W → List (Event K) → Outcome K W
  round go until e w [] = finished e w
  round go until e w (item ∷ rest) =
      if leb item.at until
      then if leb e.max_events e.executed
        then failed event_limit e w
        else elim (exec (code item.callback w) (take_next item rest e)) [
          | panic ↦ panicked
          | ok (f, w') ↦ go f w'
        ]
      else finished e w

  unfoldable pub run_loop : ℕ → ℕ → Engine K → W → Outcome K W
  run_loop zero until e w = out_of_rounds
  run_loop (suc rounds) until e w = round (run_loop rounds until) until e w e.queue

  -- After the loop the clock moves to the bound, and the deferred call ends the run.
  unfoldable pub close : ℕ → Outcome K W → Outcome K W
  close until (finished e w) = finished (record e { now = until; running = false }) w
  close until (failed error e w) = failed error (record e { running = false }) w
  close until panicked = panicked
  close until out_of_rounds = out_of_rounds

  unfoldable pub run_until : ℕ → ℤ → Engine K → W → Outcome K W
  unfolding run_loop close
  run_until rounds until e w = if e.running then failed reentrant_run e w else elim until [
    | negsuc n ↦ failed before_now e w
    | pos bound ↦
        if ltb bound e.now
        then failed before_now e w
        else if ltb e.end_time bound
        then failed past_end e w
        else close bound (run_loop rounds bound (record e { running = true }) w)
  ]
