-- ===== src/Engine/Operations.antt =====
-- simulator/engine/engine.go: scheduling, cancelling and clearing.
use balancer_go.Base.{
  some, if◌then◌else◌, ℕ, ◌+◌, ◌-◌, ◌≤◌, ◌<◌, ◌≡◌, refl, true, false, ◌&&◌, ltb, ◌==◌, max_u64,
  arith, Bool-cases, inl, inr, not,
}
use balancer_go.Base.Int.{pos}
use balancer_go.Engine.{
  Event, Engine, Result, ok, panic, is_before, has_id, new, clear, schedule_at, schedule_after,
  cancel,
}
use balancer_go.Engine.Queue.{
  is_queued, event_of, event_of-push, IsEngine, push-IsOrdered, push-IsBounded, is_queued-push,
  is_queued_above, push-IsDistinct, remove-IsOrdered, remove-IsBounded, is_queued-remove,
  remove-IsDistinct, has_id-without_id,
}

-- What a call of the engine leaves alone.
pub record IsKept {K : Type 0} (e f : Engine K) : Type 0 where
  pub now : f.now ≡ e.now
  pub end_time : f.end_time ≡ e.end_time
  pub max_events : f.max_events ≡ e.max_events
  pub executed : f.executed ≡ e.executed
  pub running : f.running ≡ e.running

pub IsKept-refl : {K : Type 0} (e : Engine K) → IsKept e e
IsKept-refl e = record {
  now = refl;
  end_time = refl;
  max_events = refl;
  executed = refl;
  running = refl;
}

-- How a call of `ScheduleAt` or `ScheduleAfter` for the time `at` ends.
pub data Scheduled {K : Type 0} (a i : ℕ) (e : Engine K) (at : ℕ) (callback : K)
    : Result (Engine K × ℕ) → Type 0 where
  too_late :
      {r : Result (Engine K × ℕ)} → e.end_time < at → r ≡ ok (e, 0) → Scheduled a i e at callback r
  overflows :
      {r : Result (Engine K × ℕ)}
      → e.next_id ≡ max_u64
      → r ≡ panic
      → at ≤ e.end_time
      → Scheduled a i e at callback r
  is_queued_now :
      {r : Result (Engine K × ℕ)} (f : Engine K) (id : ℕ)
      → r ≡ ok (f, id)
      → IsEngine a i f
      → IsKept e f
      → 0 < id
      → is_queued id e.queue ≡ false
      → at ≤ e.end_time
      → ((j : ℕ)
          → event_of j f.queue ≡ (
              if j == id
              then some (record { id = id; at = at; callback = callback })
              else event_of j e.queue))
      → Scheduled a i e at callback r

module _ {K : Type 0} (a i : ℕ) (e : Engine K) (v : IsEngine a i e) where
  -- For a time from now on, `ScheduleAt` on a valid engine returns zero and changes nothing if the time
  -- is past the end; otherwise it panics if the ids are used up, or queues an event with exactly
  -- this time and callback under a fresh id that it returns, leaves every other event as it was, and
  -- keeps the engine valid.
  pub schedule_at_lem :
      (at : ℕ) (callback : K)
      → e.now ≤ at
      → Scheduled a i e at callback (schedule_at (pos at) callback e)
  unfolding schedule_at
  schedule_at_lem at callback h =
      let past : ltb at e.now ≡ false = ground arith in
      let id = e.next_id + 1 in
      let x : Event K = record { id = id; at = at; callback = callback } in
      elim (Bool-cases (ltb e.end_time at)) [
        | inl f ↦ rw (past, f) (too_late (ground arith) refl)
        | inr f ↦ elim (Bool-cases (e.next_id == max_u64)) [
          | inl g ↦ rw (past, f, g) (overflows (ground arith) refl (ground arith))
          | inr g ↦
              let after : is_before a i at id ≡ true = ground (arith, v.past, v.known) in
              let fresh : is_queued id e.queue ≡ false =
                is_queued_above id e.now e.end_time e.next_id e.queue v.bounded (omega arith) in
              rw (past, f, g)
                (is_queued_now _ id refl
                  (record {
                    past = v.past;
                    known = omega (arith, v.known);
                    clock = v.clock;
                    ids_fit = ground (arith, v.ids_fit);
                    within_limit = v.within_limit;
                    ordered =
                        push-IsOrdered a i e.now e.end_time e.next_id x e.queue after v.bounded
                          (omega arith) v.ordered;
                    bounded =
                        push-IsBounded e.now e.end_time e.next_id x e.queue h (ground arith)
                          (omega arith) v.bounded;
                    distinct =
                        push-IsDistinct e.now e.end_time e.next_id x e.queue v.bounded (omega arith)
                          v.distinct;
                    indexed = λ j. ground (arith, v.indexed j, is_queued-push j x e.queue);
                  })
                  (record {
                    now = refl;
                    end_time = refl;
                    max_events = refl;
                    executed = refl;
                    running = refl;
                  })
                  (omega arith) fresh (ground arith) (λ j. event_of-push j x e.queue fresh))
        ]
      ]

  -- For any delay that is not negative, `ScheduleAfter` does the same for the time that much later.
  pub schedule_after_lem :
      (delay : ℕ) (callback : K)
      → Scheduled a i e (e.now + delay) callback (schedule_after (pos delay) callback e)
  unfolding schedule_after
  schedule_after_lem delay callback = elim (Bool-cases (ltb (e.end_time - e.now) delay)) [
    | inl f ↦ rw f (too_late (ground (arith, v.clock)) refl)
    | inr f ↦ rw f (schedule_at_lem (e.now + delay) callback (omega arith))
  ]

  -- `Cancel` returns true exactly for a pending event, takes that one and no other off the queue,
  -- and leaves a valid engine.
  pub cancel_lem :
      (id : ℕ)
      → ((cancel id e).1 ≡ is_queued id e.queue)
        × ((j : ℕ) → is_queued j (cancel id e).0.queue ≡ (not (id == j) && is_queued j e.queue))
        × IsEngine a i (cancel id e).0
        × IsKept e (cancel id e).0
  unfolding cancel
  cancel_lem id = elim (Bool-cases (has_id id e.by_id)) [
    | inl f ↦ rw f (
      ground (arith, v.indexed id),
      λ j. is_queued-remove j id e.queue v.distinct,
      record {
        past = v.past;
        known = v.known;
        clock = v.clock;
        ids_fit = v.ids_fit;
        within_limit = v.within_limit;
        ordered = remove-IsOrdered a i id e.queue v.ordered;
        bounded = remove-IsBounded e.now e.end_time e.next_id id e.queue v.bounded;
        distinct = remove-IsDistinct id e.queue v.distinct;
        indexed = λ j. ground (
          arith,
          v.indexed j,
          has_id-without_id j id e.by_id,
          is_queued-remove j id e.queue v.distinct,
        );
      },
      record { now = refl; end_time = refl; max_events = refl; executed = refl; running = refl },
    )
    | inr f ↦ rw f (
      ground (arith, v.indexed id),
      λ j. elim (Bool-cases (id == j)) [
        | inl g ↦
            let same : id ≡ j = ground arith in
            let absent : is_queued id e.queue ≡ false = ground (arith, v.indexed id) in
            let none_here : is_queued j e.queue ≡ false = rw same at absent in ground arith
        | inr g ↦ ground arith
      ],
      v,
      IsKept-refl e,
    )
  ]

  pub clear-IsEngine : IsEngine a i (clear e)
  unfolding clear
  clear-IsEngine = record {
    past = v.past;
    known = v.known;
    clock = v.clock;
    ids_fit = v.ids_fit;
    within_limit = v.within_limit;
    ordered = tt;
    bounded = tt;
    distinct = tt;
    indexed = λ j. refl;
  }

-- A new engine is valid, with no event before its first.
pub new-IsEngine :
    {K : Type 0} (end_time : ℕ) → (e : Engine K) × (new (pos end_time) ≡ ok e) × IsEngine 0 0 e
unfolding new
new-IsEngine end_time = (
  _,
  refl,
  record {
    past = omega arith;
    known = omega arith;
    clock = omega arith;
    ids_fit = omega arith;
    within_limit = omega arith;
    ordered = tt;
    bounded = tt;
    distinct = tt;
    indexed = λ j. refl;
  },
)
