-- ===== src/Engine/Rounds.antt =====
-- simulator/engine/engine.go: the rounds of `RunUntil`, one after another.
use balancer_go.Base.{
  ℕ, zero, suc, ◌+◌, ◌-◌, ◌≤◌, ◌<◌, ◌≡◌, refl, List, [], ◌∷◌, leb, arith, Bool-cases, inl, inr, ◌⊎◌,
  ◌∙◌,
}
use balancer_go.Engine.{Event, Engine, Result, ok, panic, take_next}
use balancer_go.Engine.Queue.{IsOrdered, IsEngine, IsAfter-IsOrdered}
use balancer_go.Engine.Operations.{IsKept}
use balancer_go.Engine.Run.{
  Script, Outcome, finished, failed, panicked, out_of_rounds, exec, run_loop, round,
}
use balancer_go.Engine.Exec.{Good, exec-IsEngine}
use balancer_go.Engine.Order.{Runs, IsFinished, IsPanic, Ends, take_next-IsEngine, stopped}

List-cases {ℓ} :
    {A : Type ℓ} (xs : List A) → (xs ≡ []) ⊎ ((x : A) × (rest : List A) × (xs ≡ x ∷ rest))
List-cases [] = inl refl
List-cases (x ∷ rest) = inr (x, rest, refl)

Result-cases {ℓ} : {A : Type ℓ} (r : Result A) → (r ≡ panic) ⊎ ((x : A) × (r ≡ ok x))
Result-cases panic = inl refl
Result-cases (ok x) = inr (x, refl)

module _ {K W : Type 0} (code : K → W → Script K W) (until : ℕ) where
  -- One round in front of a run.
  extended :
      (a i : ℕ) (e f g : Engine K) (w w' v : W) (item : Event K) (rest : List (Event K))
      → IsOrdered a i (item ∷ rest)
      → e.queue ≡ item ∷ rest
      → item.at ≤ until
      → exec (code item.callback w) (take_next item rest e) ≡ ok (f, w')
      → IsKept (take_next item rest e) f
      → IsFinished code until item.at item.id f w' g v
      → IsFinished code until a i e w g v
  unfolding take_next
  extended a i e f g w w' v item rest o eq due ran kept fin = record {
    log = (item.at, item.id) ∷ fin.log;
    runs = Runs.fire item rest eq due ran fin.runs;
    increasing = (o.0, fin.increasing);
    last_at = fin.last_at;
    last_id = fin.last_id;
    valid = fin.valid;
    counted = omega (arith, fin.counted, kept.executed);
    limit_kept = fin.limit_kept ∙ kept.max_events;
    end_kept = fin.end_kept ∙ kept.end_time;
    in_time = fin.in_time;
  }

  IsPanic-extended :
      (a i : ℕ) (e f : Engine K) (w w' : W) (item : Event K) (rest : List (Event K))
      → IsOrdered a i (item ∷ rest)
      → e.queue ≡ item ∷ rest
      → item.at ≤ until
      → exec (code item.callback w) (take_next item rest e) ≡ ok (f, w')
      → IsPanic code until item.at item.id f w'
      → IsPanic code until a i e w
  IsPanic-extended a i e f w w' item rest o eq due ran p = record {
    log = (item.at, item.id) ∷ p.log;
    before_panic = p.before_panic;
    state = p.state;
    item = p.item;
    rest = p.rest;
    runs = Runs.fire item rest eq due ran p.runs;
    increasing = (o.0, p.increasing);
    next = p.next;
    due = p.due;
    within = p.within;
    panics = p.panics;
  }

  Ends-extended :
      (a i b j : ℕ) (e f : Engine K) (w w' : W) (r : Outcome K W)
      → ((g : Engine K) (v : W)
          → IsFinished code until b j f w' g v
          → IsFinished code until a i e w g v)
      → (IsPanic code until b j f w' → IsPanic code until a i e w)
      → Ends code until b j f w' r
      → Ends code until a i e w r
  Ends-extended a i b j e f w w' (finished g v) more p h = (more g v h.0, h.1)
  Ends-extended a i b j e f w w' (failed error g v) more p h = (h.0, h.1, h.2, more g v h.3)
  Ends-extended a i b j e f w w' panicked more p h = p h
  Ends-extended a i b j e f w w' out_of_rounds more p h = h

  -- After an event the clock has not passed its time, and one round less is needed.
  room :
      (item : Event K) (rest : List (Event K)) (e f : Engine K)
      → IsKept (take_next item rest e) f
      → (f.now ≡ item.at) × (f.max_events - f.executed ≡ e.max_events - (e.executed + 1))
  unfolding take_next
  room item rest e f k = (k.now, omega (arith, k.executed, k.max_events))

  round-Ends :
      (rounds a i : ℕ) (e : Engine K) (w : W) (q : List (Event K))
      → e.queue ≡ q
      → IsEngine a i e
      → e.now ≤ until
      → e.max_events - e.executed < suc rounds
      → ((b j : ℕ) (f : Engine K) (v : W)
          → IsEngine b j f
          → f.now ≤ until
          → f.max_events - f.executed < rounds
          → Ends code until b j f v (run_loop code rounds until f v))
      → Ends code until a i e w (round code (run_loop code rounds until) until e w q)
  unfolding round
  round-Ends rounds a i e w [] eq v t h ih = (stopped code until a i e w v t, rw eq tt)
  round-Ends rounds a i e w (item ∷ rest) eq v t h ih =
      let o : IsOrdered a i (item ∷ rest) = rw eq at v.ordered in
      elim (Bool-cases (leb item.at until)) [
        | inr later ↦ rw later (
          stopped code until a i e w v t,
          rw eq (ground arith, IsAfter-IsOrdered until item.at item.id rest (ground arith) o.1),
        )
        | inl due ↦ elim (Bool-cases (leb e.max_events e.executed)) [
          | inl full ↦
              rw (due, full)
                (
                  refl,
                  ground (arith, v.within_limit),
                  rw eq (ground arith),
                  stopped code until a i e w v t,
                )
          | inr free ↦
              let before = take_next item rest e in
              let valid = take_next-IsEngine code until a i e item rest v eq (ground arith) in
              let good = exec-IsEngine item.at item.id (code item.callback w) before valid in
              elim (Result-cases (exec (code item.callback w) before)) [
                | inl p ↦
                    rw (due, free, p)
                      (record {
                        log = [];
                        before_panic = e;
                        state = w;
                        item = item;
                        rest = rest;
                        runs = Runs.stop;
                        increasing = tt;
                        next = eq;
                        due = ground arith;
                        within = ground arith;
                        panics = p;
                      })
                | inr ((f, w'), p) ↦
                    let ran : Good item.at item.id before (f, w') = rw p at good in
                    rw (due, free, p)
                      (Ends-extended a i item.at item.id e f w w' (run_loop code rounds until f w')
                        (λ g u fin.
                          extended a i e f g w w' u item rest o eq (ground arith) p ran.1 fin)
                        (IsPanic-extended a i e f w w' item rest o eq (ground arith) p)
                        (ih item.at item.id f w' ran.0 (ground (arith, room item rest e f ran.1))
                          (ground (arith, room item rest e f ran.1))))
              ]
        ]
      ]

  pub run_loop-Ends :
      (rounds a i : ℕ) (e : Engine K) (w : W)
      → IsEngine a i e
      → e.now ≤ until
      → e.max_events - e.executed < rounds
      → Ends code until a i e w (run_loop code rounds until e w)
  unfolding run_loop
  run_loop-Ends zero a i e w v t h = absurd (omega arith)
  run_loop-Ends (suc rounds) a i e w v t h =
      round-Ends rounds a i e w e.queue refl v t h (λ b j f u. run_loop-Ends rounds b j f u)
