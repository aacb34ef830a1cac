-- ===== src/Host.antt =====
-- simulator/host/host.go and types.go: a pool of cores with a FIFO in front. A pointer to a packet's work
-- is the number of its allocation; `C` is what a processed callback is. A time is a count of nanoseconds.
-- The callbacks that a call makes at its end are its result, for the caller to run.
pub mod Counts
pub mod Invariant
pub mod Discard
use balancer_go.Base.{
  ℕ, suc, ◌+◌, ◌-◌, ◌*◌, ◌/◌, Bool, true, false, ◌&&◌, ◌||◌, not, ltb, leb, ◌==◌, if◌then◌else◌,
  max, max_i64, Option, none, some, List, [], ◌∷◌, ◌++◌, length, get_elem?, take, drop, ◌+u64◌,
}
use balancer_go.Base.Int.{ℤ, pos, negsuc}
use balancer_go.Engine.{Engine, Result, ok, panic, schedule_after, cancel}

pub record Config : Type 0 where
  pub cores : ℕ
  pub packet_processing_time : ℕ
  pub queue_capacity : ℕ

-- DefaultConfig
unfoldable pub default_config : Config
default_config = record { cores = 1; packet_processing_time = 0; queue_capacity = 1024 }

-- Config.Validate of values that are not negative; false is an error.
unfoldable pub validate : Config → ℕ → Bool
validate config duration =
    if ltb config.cores 1
    then false
    else if config.packet_processing_time == 0 || (duration == 0)
    then true
    else not (ltb (max_i64 / duration) (max config.cores config.queue_capacity))

-- The counters. The durations among them stay below the cores' or the FIFO's share of the run, which
-- `Validate` bounds.
pub record Stats : Type 0 where
  pub max_queued_packets : ℕ
  pub offered_packets : ℕ
  pub accepted_packets : ℕ
  pub started_packets : ℕ
  pub processed_packets : ℕ
  pub queue_dropped_packets : ℕ
  pub discarded_packets : ℕ
  pub busy_time : ℕ
  pub queue_wait_total : ℕ
  pub max_queue_wait : ℕ

pub record Work (C : Type 0) : Type 0 where
  pub queued_at : ℕ
  pub on_processed : Option C

-- Work in service: its pointer, and the event that completes it.
pub record Active (C : Type 0) : Type 0 where
  pub pointer : ℕ
  pub work : Work C
  pub completion : ℕ

pub record Host (C : Type 0) : Type 0 where
  pub config : Config
  pub stats : Stats
  pub queue : List (Work C)
  pub queue_head : ℕ
  pub active : List (Active C)
  pub stopped : Bool
  pub created_at : ℕ
  pub accounted_at : ℕ
  pub stopped_at : ℕ
  pub next_pointer : ℕ

module _ {C : Type 0} where
  abbrev pub is_active : ℕ → List (Active C) → Bool
  is_active p [] = false
  is_active p (a ∷ rest) = (p == a.pointer) || is_active p rest

  abbrev pub without : ℕ → List (Active C) → List (Active C)
  without p [] = []
  without p (a ∷ rest) = let others = without p rest in if p == a.pointer then rest else a ∷ others

  abbrev pub callback_of : ℕ → List (Active C) → Option C
  callback_of p [] = none
  callback_of p (a ∷ rest) =
      let other = callback_of p rest in if p == a.pointer then a.work.on_processed else other

  unfoldable pub queued : Host C → ℕ
  queued h = length h.queue - h.queue_head

  unfoldable pub account_busy_time : ℕ → Host C → Host C
  account_busy_time now h = record h {
    stats = record h.stats {
      busy_time = h.stats.busy_time + (now - h.accounted_at) * length h.active;
    };
    accounted_at = now;
  }

  abbrev pub zero_work : Work C
  zero_work = record { queued_at = 0; on_processed = none }

  -- The slot at the head is emptied, and a large consumed prefix is reclaimed.
  unfoldable pub pop : Work C → Host C → Host C
  pop work h =
      let head = suc h.queue_head in
      let emptied = take h.queue_head h.queue ++ zero_work ∷ drop head h.queue in
      let remaining = length h.queue - head in
      if remaining == 0
      then record h { queue = []; queue_head = 0 }
      else if leb 1024 head && leb remaining head
      then record h { queue = take remaining (drop head emptied); queue_head = 0 }
      else record h { queue = emptied; queue_head = head }

  -- `start` up to its call of the engine, whose answer is `id`.
  unfoldable pub begin : ℕ → Work C → ℕ → Host C → Host C
  begin now work id h =
      let wait = now - work.queued_at in
      let a = account_busy_time now h in
      record a {
        stats = record a.stats {
          started_packets = a.stats.started_packets +u64 1;
          queue_wait_total = a.stats.queue_wait_total + wait;
          max_queue_wait = max a.stats.max_queue_wait wait;
        };
        active = record { pointer = a.next_pointer; work = work; completion = id } ∷ a.active;
        next_pointer = suc a.next_pointer;
      }

  -- `Stats` reads these two of its values; the others are the fields.
  unfoldable pub busy_time_at : ℕ → Host C → ℕ
  busy_time_at now h =
      let at = if h.stopped then h.stopped_at else now in
      h.stats.busy_time + (at - h.accounted_at) * length h.active

  unfoldable pub max_queue_wait_at : ℕ → Host C → ℕ
  max_queue_wait_at now h =
      let at = if h.stopped then h.stopped_at else now in
      elim (get_elem? h.queue h.queue_head) [
        | some work ↦ max h.stats.max_queue_wait (at - work.queued_at)
        | none ↦ h.stats.max_queue_wait
      ]

module _ {C K : Type 0} (completes : ℕ → K) where
  unfoldable pub start : Work C → Host C → Engine K → Result (Host C × Engine K)
  start work h e =
      elim (schedule_after (pos h.config.packet_processing_time) (completes h.next_pointer) e) [
        | panic ↦ panic
        | ok (f, id) ↦ ok (begin e.now work id h, f)
      ]

  abbrev pub offer : Host C → Host C
  offer h = record h { stats = record h.stats { offered_packets = h.stats.offered_packets +u64 1 } }

  abbrev pub admit : Host C → Host C
  admit h = record h {
    stats = record h.stats { accepted_packets = h.stats.accepted_packets +u64 1 };
  }

  -- Submit, with the callback that it runs at once.
  unfoldable pub submit : C → Host C → Engine K → Result (Host C × Engine K × Bool × Option C)
  submit c h e =
      let o = offer h in
      let work : Work C = record { queued_at = e.now; on_processed = some c } in
      if h.stopped
      then ok (h, e, false, none)
      else if h.config.packet_processing_time == 0
      then ok (
        record o {
          stats = record o.stats {
            accepted_packets = o.stats.accepted_packets +u64 1;
            started_packets = o.stats.started_packets +u64 1;
            processed_packets = o.stats.processed_packets +u64 1;
          };
        },
        e,
        true,
        some c,
      )
      else if ltb (length h.active) h.config.cores
      then elim (start work (admit o) e) [ panic ↦ panic | ok (g, f) ↦ ok (g, f, true, none) ]
      else if leb h.config.queue_capacity (queued h)
      then ok (
        record o {
          stats = record o.stats { queue_dropped_packets = o.stats.queue_dropped_packets +u64 1 };
        },
        e,
        false,
        none,
      )
      else let longer : Host C = record (admit o) { queue = o.queue ++ work ∷ [] } in
        ok (
          record longer {
            stats = record longer.stats {
              max_queued_packets = max longer.stats.max_queued_packets (queued longer);
            };
          },
          e,
          true,
          none,
        )

  -- `complete` up to the choice of a waiter: the core is released.
  unfoldable pub release : ℕ → ℕ → Host C → Host C
  release now pointer h =
      let a = account_busy_time now h in
      record a {
        active = without pointer a.active;
        stats = record a.stats { processed_packets = a.stats.processed_packets +u64 1 };
      }

  -- complete, with the callback that it runs at its end.
  unfoldable pub complete : ℕ → Host C → Engine K → Result (Host C × Engine K × Option C)
  complete pointer h e =
      let r = release e.now pointer h in
      let callback = callback_of pointer h.active in
      if not (is_active pointer h.active)
      then ok (h, e, none)
      else elim (get_elem? h.queue h.queue_head) [
        | none ↦ ok (r, e, callback)
        | some work ↦ elim (start work (pop work r) e) [
          | panic ↦ panic
          | ok (g, f) ↦ ok (g, f, callback)
        ]
      ]

  abbrev pub cancel_all : List (Active C) → Engine K → Engine K
  cancel_all [] e = e
  cancel_all (a ∷ rest) e = cancel_all rest (cancel a.completion e).0

  unfoldable pub discard_pending : Host C → Engine K → Host C × Engine K
  discard_pending h e =
      let a = account_busy_time e.now h in
      if h.stopped then (h, e) else (
        record a {
          stats = record a.stats {
            max_queue_wait = max_queue_wait_at e.now a;
            discarded_packets = a.stats.discarded_packets +u64 (length a.active + queued a);
          };
          active = [];
          queue = [];
          queue_head = 0;
        },
        cancel_all h.active e,
      )

  unfoldable pub stop : Host C → Engine K → Host C × Engine K
  unfolding discard_pending
  stop h e =
      let d = discard_pending h e in
      if h.stopped then (h, e) else (record d.0 { stopped = true; stopped_at = e.now }, d.1)

  -- `none` is the panic on settings that `Validate` refuses.
  unfoldable pub new : Config → Engine K → Option (Host C)
  new config e =
      if validate config (e.end_time - e.now)
      then some (record {
        config = config;
        stats = record {
          max_queued_packets = 0;
          offered_packets = 0;
          accepted_packets = 0;
          started_packets = 0;
          processed_packets = 0;
          queue_dropped_packets = 0;
          discarded_packets = 0;
          busy_time = 0;
          queue_wait_total = 0;
          max_queue_wait = 0;
        };
        queue = [];
        queue_head = 0;
        active = [];
        stopped = false;
        created_at = e.now;
        accounted_at = e.now;
        stopped_at = 0;
        next_pointer = 0;
      })
      else none
