-- ===== src/Engine.antt =====
-- simulator/engine/engine.go: the future-event queue and the virtual clock. A callback is a name of
-- type K; `Script` says what running it does. Times are whole nanoseconds; a negative one reaches the
-- operations as an int. The heap of Go's container/heap is kept as the list that it pops in order.
pub mod Queue
pub mod Operations
pub mod Returns
pub mod Run
pub mod Exec
pub mod Order
pub mod Rounds
pub mod Loop
use balancer_go.Base.{
  ℕ, zero, suc, ◌+◌, ◌-◌, ◌≤◌, ◌<◌, ◌≡◌, Bool, true, false, ◌&&◌, ◌||◌, List, [], ◌∷◌, ltb, leb,
  ◌==◌, if◌then◌else◌, Option, none, some, length, max_u64,
}
use balancer_go.Base.Int.{ℤ, pos, negsuc}

abbrev pub default_max_events : ℕ
default_max_events = 5_000_000_000

pub record Event (K : Type 0) : Type 0 where
  pub id : ℕ
  pub at : ℕ
  pub callback : K

pub record Engine (K : Type 0) : Type 0 where
  pub max_events : ℕ
  pub now : ℕ
  pub end_time : ℕ
  pub next_id : ℕ
  pub queue : List (Event K)
  pub by_id : List ℕ
  pub executed : ℕ
  pub running : Bool

-- A call returns, or panics.
pub data Result {ℓ} (A : Type ℓ) : Type ℓ where
  ok : A → Result A
  panic : Result A

-- `Less`: earlier times first, and equal times in the order of the ids.
abbrev pub is_before : ℕ → ℕ → ℕ → ℕ → Bool
is_before at id at' id' = if at == at' then ltb id id' else ltb at at'

abbrev pub has_id : ℕ → List ℕ → Bool
has_id id [] = false
has_id id (j ∷ ids) = (id == j) || has_id id ids

abbrev pub without_id : ℕ → List ℕ → List ℕ
without_id id [] = []
without_id id (j ∷ ids) = let rest = without_id id ids in if id == j then rest else j ∷ rest

module _ {K : Type 0} where
  pub new : ℤ → Result (Engine K)
  new (negsuc n) = panic
  new (pos end_time) = ok (record {
    max_events = default_max_events;
    now = 0;
    end_time = end_time;
    next_id = 0;
    queue = [];
    by_id = [];
    executed = 0;
    running = false;
  })

  pub pending : Engine K → ℕ
  pending e = length e.queue

  pub next_event_time : Engine K → ℕ × Bool
  next_event_time e = elim e.queue [ [] ↦ (0, false) | item ∷ rest ↦ (item.at, true) ]

  pub clear : Engine K → Engine K
  clear e = record e { queue = []; by_id = [] }

  -- heap.Push
  pub push : Event K → List (Event K) → List (Event K)
  push x [] = x ∷ []
  push x (y ∷ ys) =
      let rest = push x ys in if is_before x.at x.id y.at y.id then x ∷ y ∷ ys else y ∷ rest

  -- heap.Remove at the event's index
  pub remove : ℕ → List (Event K) → List (Event K)
  remove id [] = []
  remove id (y ∷ ys) = let rest = remove id ys in if id == y.id then ys else y ∷ rest

  pub schedule_at : ℤ → K → Engine K → Result (Engine K × ℕ)
  schedule_at (negsuc n) callback e = panic
  schedule_at (pos at) callback e =
      if ltb at e.now
      then panic
      else if ltb e.end_time at
      then ok (e, 0)
      else if e.next_id == max_u64
      then panic
      else let id = e.next_id + 1 in
        ok (
          record e {
            next_id = id;
            queue = push (record { id = id; at = at; callback = callback }) e.queue;
            by_id = id ∷ e.by_id;
          },
          id,
        )

  pub schedule_after : ℤ → K → Engine K → Result (Engine K × ℕ)
  unfolding schedule_at
  schedule_after (negsuc n) callback e = panic
  schedule_after (pos delay) callback e =
      if ltb (e.end_time - e.now) delay
      then ok (e, 0)
      else schedule_at (pos (e.now + delay)) callback e

  pub cancel : ℕ → Engine K → Engine K × Bool
  cancel id e =
      if has_id id e.by_id
      then (record e { queue = remove id e.queue; by_id = without_id id e.by_id }, true)
      else (e, false)

  -- The start of a round of `RunUntil`: the popped event is taken off, and the clock moves to it.
  pub take_next : Event K → List (Event K) → Engine K → Engine K
  take_next item rest e = record e {
    queue = rest;
    by_id = without_id item.id e.by_id;
    now = item.at;
    executed = e.executed + 1;
  }
