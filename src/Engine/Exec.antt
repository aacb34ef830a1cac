-- ===== src/Engine/Exec.antt =====
-- simulator/engine/engine.go: the engine around a callback.
use balancer_go.Base.{ℕ, ◌+◌, ◌≡◌, refl, ltb, arith, Bool-cases, inl, inr, ◌⊎◌, ◌∙◌}
use balancer_go.Base.Int.{ℤ, pos, negsuc}
use balancer_go.Engine.{Engine, Result, ok, panic, clear, schedule_at, schedule_after, cancel}
use balancer_go.Engine.Queue.{IsEngine}
use balancer_go.Engine.Operations.{
  IsKept, IsKept-refl, Scheduled, schedule_at_lem, schedule_after_lem, cancel_lem, clear-IsEngine,
}
use balancer_go.Engine.Run.{Script, RunError, exec}

-- What holds of the result of a call that does not panic.
abbrev pub Holds {ℓ κ} : {A : Type ℓ} → (A → Type κ) → Result A → Type κ
Holds P (ok x) = P x
Holds P panic = Unit

pub IsKept-trans : {K : Type 0} {e f g : Engine K} → IsKept e f → IsKept f g → IsKept e g
IsKept-trans p q = record {
  now = q.now ∙ p.now;
  end_time = q.end_time ∙ p.end_time;
  max_events = q.max_events ∙ p.max_events;
  executed = q.executed ∙ p.executed;
  running = q.running ∙ p.running;
}

module _ {K : Type 0} where
  clear-IsKept : (e : Engine K) → IsKept e (clear e)
  unfolding clear
  clear-IsKept e = record {
    now = refl;
    end_time = refl;
    max_events = refl;
    executed = refl;
    running = refl;
  }

  -- A call with a negative or past time panics; any other is `Scheduled`.
  abbrev Called : ℕ → ℕ → Engine K → K → Result (Engine K × ℕ) → Type 0
  Called a i e c r = (r ≡ panic) ⊎ ((at : ℕ) × Scheduled a i e at c r)

  schedule_at_cases :
      (a i : ℕ) (e : Engine K)
      → IsEngine a i e
      → (at : ℤ) (c : K) → Called a i e c (schedule_at at c e)
  unfolding schedule_at
  schedule_at_cases a i e v (negsuc n) c = inl refl
  schedule_at_cases a i e v (pos at) c = elim (Bool-cases (ltb at e.now)) [
    | inl h ↦ rw h (inl refl)
    | inr h ↦ inr (at, schedule_at_lem a i e v at c (ground arith))
  ]

  schedule_after_cases :
      (a i : ℕ) (e : Engine K)
      → IsEngine a i e
      → (delay : ℤ) (c : K) → Called a i e c (schedule_after delay c e)
  unfolding schedule_after
  schedule_after_cases a i e v (negsuc n) c = inl refl
  schedule_after_cases a i e v (pos delay) c =
      inr (e.now + delay, schedule_after_lem a i e v delay c)

module _ {K W : Type 0} where
  abbrev pub Good : ℕ → ℕ → Engine K → Engine K × W → Type 0
  Good a i e (f, w) = IsEngine a i f × IsKept e f

  Good-after :
      (a i : ℕ) (e f : Engine K) (r : Result (Engine K × W))
      → IsKept e f
      → Holds (Good a i f) r
      → Holds (Good a i e) r
  Good-after a i e f (ok (g, w)) k h = (h.0, IsKept-trans k h.1)
  Good-after a i e f panic k h = tt

  scheduled-Good :
      (a i : ℕ) (e : Engine K) (c : K) (k : ℕ → Script K W) (r : Result (Engine K × ℕ))
      → IsEngine a i e
      → ((id : ℕ) (f : Engine K) → IsEngine a i f → Holds (Good a i f) (exec (k id) f))
      → Called a i e c r
      → Holds (Good a i e) (elim r [ panic ↦ panic | ok (f, id) ↦ exec (k id) f ])
  scheduled-Good a i e c k r v ih (inl eq) = rw eq tt
  scheduled-Good a i e c k r v ih (inr (at, Scheduled.too_late late eq)) = rw eq (ih 0 e v)
  scheduled-Good a i e c k r v ih (inr (at, Scheduled.overflows full eq t)) = rw eq tt
  scheduled-Good a i e c k r v ih (inr (at, Scheduled.is_queued_now f id eq valid kept n o t q)) =
      rw eq (Good-after a i e f (exec (k id) f) kept (ih id f valid))

  -- A callback that does not panic leaves a valid engine, whose pending events still come after the
  -- one that called it, and the clock and the counters as they were.
  pub exec-IsEngine :
      (a i : ℕ) (s : Script K W) (e : Engine K) → IsEngine a i e → Holds (Good a i e) (exec s e)
  unfolding exec
  exec-IsEngine a i (Script.finish w) e v = (v, IsKept-refl e)
  exec-IsEngine a i (Script.read_now k) e v = exec-IsEngine a i (k e.now) e v
  exec-IsEngine a i (Script.call_at at c k) e v =
      scheduled-Good a i e c k (schedule_at at c e) v (λ id f w. exec-IsEngine a i (k id) f w)
        (schedule_at_cases a i e v at c)
  exec-IsEngine a i (Script.call_after delay c k) e v =
      scheduled-Good a i e c k (schedule_after delay c e) v (λ id f w. exec-IsEngine a i (k id) f w)
        (schedule_after_cases a i e v delay c)
  exec-IsEngine a i (Script.call_cancel id k) e v =
      let c = cancel_lem a i e v id in
      let r = cancel id e in
      Good-after a i e r.0 (exec (k r.1) r.0) c.3 (exec-IsEngine a i (k r.1) r.0 c.2)
  exec-IsEngine a i (Script.call_clear k) e v =
      Good-after a i e (clear e) (exec k (clear e)) (clear-IsKept e)
        (exec-IsEngine a i k (clear e) (clear-IsEngine a i e v))
  exec-IsEngine a i (Script.call_run until k) e v = exec-IsEngine a i (k RunError.reentrant_run) e v
