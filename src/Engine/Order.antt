-- ===== src/Engine/Order.antt =====
-- simulator/engine/engine.go: the events that `RunUntil` executes, and the ends of its loop.
use balancer_go.Base.{
  ℕ, ◌+◌, ◌≤◌, ◌<◌, ◌≡◌, refl, true, false, List, [], ◌∷◌, ◌==◌, arith, Bool-cases, inl, inr,
  length,
}
use balancer_go.Engine.{Event, Engine, ok, panic, is_before, take_next, has_id}
use balancer_go.Engine.Queue.{
  IsOrdered, IsBounded, is_queued, IsDistinct, IsEngine, has_id-without_id, IsAfter, IsBounded-from,
}
use balancer_go.Engine.Run.{
  Script, event_limit, Outcome, finished, failed, panicked, out_of_rounds, exec,
}

module _ {K W : Type 0} (code : K → W → Script K W) (until : ℕ) where
  -- The events that a run executes, by time and id, one round after another.
  pub data Runs : Engine K → W → List (ℕ × ℕ) → Engine K → W → Type 0 where
    stop : {e : Engine K} {w : W} → Runs e w [] e w
    fire :
        {e f g : Engine K} {w w' v : W} {log : List (ℕ × ℕ)} (item : Event K)
        (rest : List (Event K))
        → e.queue ≡ item ∷ rest
        → item.at ≤ until
        → exec (code item.callback w) (take_next item rest e) ≡ ok (f, w')
        → Runs f w' log g v
        → Runs e w ((item.at, item.id) ∷ log) g v

  -- Each executed event comes after the one before it in the order of `Less`.
  abbrev pub IsIncreasing : ℕ → ℕ → List (ℕ × ℕ) → Type 0
  IsIncreasing a i [] = Unit {0}
  IsIncreasing a i ((at, id) ∷ log) = (is_before a i at id ≡ true) × IsIncreasing at id log

  pub take_next-IsEngine :
      (a i : ℕ) (e : Engine K) (item : Event K) (rest : List (Event K))
      → IsEngine a i e
      → e.queue ≡ item ∷ rest
      → e.executed < e.max_events
      → IsEngine item.at item.id (take_next item rest e)
  unfolding take_next
  take_next-IsEngine a i e item rest v eq h =
      let o : IsOrdered a i (item ∷ rest) = rw eq at v.ordered in
      let b : IsBounded e.now e.end_time e.next_id (item ∷ rest) = rw eq at v.bounded in
      let d : IsDistinct (item ∷ rest) = rw eq at v.distinct in
      let x : (j : ℕ) → has_id j e.by_id ≡ is_queued j (item ∷ rest) = rw eq at v.indexed in
      record {
        past = omega arith;
        known = b.3;
        clock = b.1;
        ids_fit = v.ids_fit;
        within_limit = omega arith;
        ordered = o.1;
        bounded = IsBounded-from e.now e.end_time e.next_id item.at item.id rest o.1 b.4;
        distinct = d.1;
        indexed = λ j. elim (Bool-cases (item.id == j)) [
          | inl same ↦
              let this : j ≡ item.id = ground arith in
              let gone : is_queued j rest ≡ false = rw this d.0 in
              ground (arith, has_id-without_id j item.id e.by_id)
          | inr other ↦ ground (arith, has_id-without_id j item.id e.by_id, x j)
        ];
      }

  -- How the loop may end from a valid engine.
  pub record IsFinished (a i : ℕ) (e : Engine K) (w : W) (g : Engine K) (v : W) : Type 0 where
    pub log : List (ℕ × ℕ)
    pub runs : Runs e w log g v
    pub increasing : IsIncreasing a i log
    pub last_at : ℕ
    pub last_id : ℕ
    pub valid : IsEngine last_at last_id g
    pub counted : g.executed ≡ e.executed + length log
    pub limit_kept : g.max_events ≡ e.max_events
    pub end_kept : g.end_time ≡ e.end_time
    pub in_time : g.now ≤ until

  -- After the events of the log the next one is due within the limit, and its callback panics.
  pub record IsPanic (a i : ℕ) (e : Engine K) (w : W) : Type 0 where
    pub log : List (ℕ × ℕ)
    pub before_panic : Engine K
    pub state : W
    pub item : Event K
    pub rest : List (Event K)
    pub runs : Runs e w log before_panic state
    pub increasing : IsIncreasing a i log
    pub next : before_panic.queue ≡ item ∷ rest
    pub due : item.at ≤ until
    pub within : before_panic.executed < before_panic.max_events
    pub panics : exec (code item.callback state) (take_next item rest before_panic) ≡ panic

  -- The next pending event is due.
  abbrev pub IsDue : List (Event K) → Type 0
  IsDue [] = ⊥
  IsDue (x ∷ xs) = x.at ≤ until

  abbrev pub Ends : ℕ → ℕ → Engine K → W → Outcome K W → Type 0
  Ends a i e w (finished g v) = IsFinished a i e w g v × IsAfter until g.queue
  Ends a i e w (failed error g v) =
      (error ≡ event_limit) × (g.executed ≡ g.max_events) × IsDue g.queue × IsFinished a i e w g v
  Ends a i e w panicked = IsPanic a i e w
  Ends a i e w out_of_rounds = ⊥

  pub stopped :
      (a i : ℕ) (e : Engine K) (w : W) → IsEngine a i e → e.now ≤ until → IsFinished a i e w e w
  stopped a i e w v t = record {
    log = [];
    runs = stop;
    increasing = tt;
    last_at = a;
    last_id = i;
    valid = v;
    counted = omega arith;
    limit_kept = refl;
    end_kept = refl;
    in_time = t;
  }
