-- ===== src/Network/Link.antt =====
-- simulator/network/link.go and queue_policy.go: a one-way link. What is in floating point is a
-- parameter: a rate is never, always, or in between, where the random source's draw decides; and the
-- threshold in packets is the ceiling that the source computes. `C` is what an arrival callback is.
pub mod Invariant
pub mod Progress
pub mod Completion
pub mod Release
use balancer_go.Base.{
  ℕ, suc, ◌+◌, ◌-◌, Bool, true, false, ◌&&◌, ◌||◌, not, ltb, leb, ◌==◌, if◌then◌else◌, Option, none,
  some, ◌+u64◌,
}
use balancer_go.Base.Int.{ℤ, pos, negsuc}
use balancer_go.Fifo.{Fifo, empty, queued, enqueue, first, remove_head}
use balancer_go.Engine.{Engine, Result, ok, panic, schedule_after}
use balancer_go.Network.Serialization.{serialization_duration}

-- A probability of the configuration.
pub data Rate : Type 0 where
  never always sometimes : Rate

abbrev pub happens : Rate → Bool → Bool
happens never draw = false
happens always draw = true
happens sometimes draw = draw

pub data QueuePolicy : Type 0 where
  tail_drop threshold : QueuePolicy

pub data EcnState : Type 0 where
  not_capable capable already_marked : EcnState

abbrev pub is_threshold : QueuePolicy → Bool
is_threshold threshold = true
is_threshold tail_drop = false

abbrev pub is_not_capable : EcnState → Bool
is_not_capable not_capable = true
is_not_capable _ = false

abbrev pub is_capable : EcnState → Bool
is_capable capable = true
is_capable _ = false

abbrev pub is_already_marked : EcnState → Bool
is_already_marked already_marked = true
is_already_marked _ = false

pub record Config : Type 0 where
  pub bandwidth_bits_per_second : ℕ
  pub packet_travel_time : ℕ
  pub queue_capacity : ℕ
  pub loss_rate : Rate
  pub queue_policy : QueuePolicy
  pub congestion_threshold : ℕ
  pub congestion_signal_probability : Rate

pub record Stats : Type 0 where
  pub offered_packets : ℕ
  pub offered_bytes : ℕ
  pub accepted_packets : ℕ
  pub accepted_bytes : ℕ
  pub queue_dropped_packets : ℕ
  pub queue_dropped_bytes : ℕ
  pub ecn_marked_packets : ℕ
  pub ecn_marked_bytes : ℕ
  pub congestion_dropped_packets : ℕ
  pub congestion_dropped_bytes : ℕ
  pub transmitted_bytes : ℕ
  pub lost_packets : ℕ
  pub lost_bytes : ℕ
  pub delivered_packets : ℕ
  pub delivered_bytes : ℕ

abbrev pub zero_stats : Stats
zero_stats = record {
  offered_packets = 0;
  offered_bytes = 0;
  accepted_packets = 0;
  accepted_bytes = 0;
  queue_dropped_packets = 0;
  queue_dropped_bytes = 0;
  ecn_marked_packets = 0;
  ecn_marked_bytes = 0;
  congestion_dropped_packets = 0;
  congestion_dropped_bytes = 0;
  transmitted_bytes = 0;
  lost_packets = 0;
  lost_bytes = 0;
  delivered_packets = 0;
  delivered_bytes = 0;
}

-- The counters of a packet that is offered, dropped at a queue, marked or accepted.
abbrev pub count_offered : ℕ → Stats → Stats
count_offered size s = record s {
  offered_packets = s.offered_packets +u64 1;
  offered_bytes = s.offered_bytes +u64 size;
}

abbrev pub count_dropped : ℕ → Bool → Stats → Stats
count_dropped size early s = record s {
  queue_dropped_packets = s.queue_dropped_packets +u64 1;
  queue_dropped_bytes = s.queue_dropped_bytes +u64 size;
  congestion_dropped_packets =
      if early then s.congestion_dropped_packets +u64 1 else s.congestion_dropped_packets;
  congestion_dropped_bytes =
      if early then s.congestion_dropped_bytes +u64 size else s.congestion_dropped_bytes;
}

abbrev pub count_accepted : ℕ → Bool → Stats → Stats
count_accepted size newly_marked s = record s {
  ecn_marked_packets = if newly_marked then s.ecn_marked_packets +u64 1 else s.ecn_marked_packets;
  ecn_marked_bytes = if newly_marked then s.ecn_marked_bytes +u64 size else s.ecn_marked_bytes;
  accepted_packets = s.accepted_packets +u64 1;
  accepted_bytes = s.accepted_bytes +u64 size;
}

pub record Transmission (C : Type 0) : Type 0 where
  pub size_bytes : ℕ
  pub duration : ℕ
  pub on_arrival : C
  pub marked : Bool

-- `managed` says that an external queue's callback is set, and `congestion_rng` that a random source is.
pub record Link (C : Type 0) : Type 0 where
  pub config : Config
  pub fifo : Fifo (Transmission C)
  pub transmitting : Bool
  pub travelling : ℕ
  pub stats : Stats
  pub managed : Bool
  pub congestion_rng : Bool

-- A draw at a rate; without a random source that it needs this is a panic.
abbrev pub try_draw : Rate → Bool → Bool → Option Bool
try_draw never rng draw = some false
try_draw always rng draw = some true
try_draw sometimes rng draw = if rng then some draw else none

-- Given whether the link has a random source; `none` is the panic without one.
unfoldable pub should_signal_congestion : Bool → Config → ℕ → Bool → Option Bool
should_signal_congestion rng config waiting draw =
    if not (is_threshold config.queue_policy) || config.queue_capacity == 0
    then some false
    else if ltb waiting config.congestion_threshold
    then some false
    else try_draw config.congestion_signal_probability rng draw

abbrev pub is_sometimes : Rate → Bool
is_sometimes sometimes = true
is_sometimes _ = false

module _ {C : Type 0} where
  -- NewLink, of rates that are probabilities and of times and limits that are not negative, given
  -- whether there is a random source for losses; `none` is a panic.
  unfoldable pub new_link : Config → Bool → Option (Link C)
  new_link config rng =
      if config.bandwidth_bits_per_second == 0
      then none
      else if is_sometimes config.loss_rate && not rng
      then none
      else some (record {
        config = config;
        fifo = empty;
        transmitting = false;
        travelling = 0;
        stats = zero_stats;
        managed = false;
        congestion_rng = false;
      })

  abbrev has_traffic : Link C → Bool
  has_traffic l =
      not (l.stats.offered_packets == 0)
      || l.transmitting
      || not (queued l.fifo == 0)
      || not (l.travelling == 0)

  -- SetCongestionRNG, given whether the source is not nil; `none` is a panic.
  unfoldable pub set_congestion_rng : Bool → Link C → Option (Link C)
  set_congestion_rng rng l =
      if has_traffic l
      then none
      else if is_threshold l.config.queue_policy
          && is_sometimes l.config.congestion_signal_probability
          && not rng
      then none
      else some (record l { congestion_rng = rng })

  unfoldable pub ready : Link C → Bool
  ready l = not l.transmitting

  -- `none` is a panic.
  unfoldable pub use_external_queue : Link C → Option (Link C)
  use_external_queue l =
      if l.managed then none else if has_traffic l then none else some (record l { managed = true })

  unfoldable pub discard_pending : Link C → Link C
  discard_pending l = record l { fifo = empty; transmitting = false; travelling = 0 }

  -- `TransmitECN` from the question of congestion on, which is asked of a packet that has to wait.
  unfoldable pub selection : Bool → Link C → Option Bool
  selection draw l =
      if not (l.transmitting && leb l.config.queue_capacity (queued l.fifo)) && l.transmitting
      then should_signal_congestion l.congestion_rng l.config (queued l.fifo + 1) draw
      else some false

  -- A packet arrives: the link, and the callback that runs then.
  unfoldable pub arrive : Transmission C → Link C → Link C × C × Bool
  arrive p l = (
    record l {
      travelling = l.travelling - 1;
      stats = record l.stats {
        delivered_packets = l.stats.delivered_packets +u64 1;
        delivered_bytes = l.stats.delivered_bytes +u64 p.size_bytes;
      };
    },
    p.on_arrival,
    p.marked,
  )

-- `completes` and `arrives` make the engine's callbacks for a packet; `zero` is the zero transmission.
module _ {C K : Type 0} (completes arrives : Transmission C → K) (zero : Transmission C) where
  unfoldable pub pop : Link C → Link C
  pop l = record l { fifo = remove_head zero l.fifo }

  unfoldable pub start : Transmission C → Link C → Engine K → Result (Link C × Engine K)
  start p l e = elim (schedule_after (pos p.duration) (completes p) e) [
    | panic ↦ panic
    | ok (f, id) ↦ ok (record l { transmitting = true }, f)
  ]

  -- `TransmitECN` after the question of congestion.
  unfoldable pub admit :
      ℕ → EcnState → C → ℕ → Option Bool → Link C → Engine K → Result (Link C × Engine K × Bool)
  admit size state on_arrival duration none l e = panic
  admit size state on_arrival duration (some selected) l e =
      let queue_full = l.transmitting && leb l.config.queue_capacity (queued l.fifo) in
      let marked = is_already_marked state || (selected && is_capable state) in
      let packet : Transmission C = record {
        size_bytes = size;
        duration = duration;
        on_arrival = on_arrival;
        marked = marked;
      } in
      let offered = count_offered size l.stats in
      let accepted = record l {
        stats = count_accepted size (selected && is_capable state) offered;
      } in
      if queue_full || (selected && is_not_capable state)
      then ok (record l { stats = count_dropped size (not queue_full) offered }, e, false)
      else if l.transmitting
      then ok (record accepted { fifo = enqueue packet l.fifo }, e, true)
      else elim (start packet accepted e) [ panic ↦ panic | ok (m, f) ↦ ok (m, f, true) ]

  unfoldable pub transmit_ecn :
      ℤ → EcnState → C → Bool → Link C → Engine K → Result (Link C × Engine K × Bool)
  transmit_ecn (negsuc n) state on_arrival draw l e = panic
  transmit_ecn (pos size) state on_arrival draw l e =
      let duration = serialization_duration size l.config.bandwidth_bits_per_second in
      if l.managed then panic else elim duration [
        | none ↦ panic
        | some d ↦ admit size state on_arrival d (selection draw l) l e
      ]

  unfoldable pub try_start : ℤ → C → Link C → Engine K → Result (Link C × Engine K × Bool)
  try_start (negsuc n) on_arrival l e = panic
  try_start (pos size) on_arrival l e =
      let duration = serialization_duration size l.config.bandwidth_bits_per_second in
      let accepted = record l { stats = count_accepted size false (count_offered size l.stats) } in
      if not (ready l) then ok (l, e, false) else elim duration [
        | none ↦ panic
        | some d ↦
            elim (start
              (record { size_bytes = size; duration = d; on_arrival = on_arrival; marked = false })
              accepted e) [ panic ↦ panic | ok (m, f) ↦ ok (m, f, true) ]
      ]

  -- The callback of `start` up to its choice of what follows.
  unfoldable pub finish : Transmission C → Bool → Link C → Engine K → Result (Link C × Engine K)
  finish p lost l e =
      let free = record l {
        transmitting = false;
        stats = record l.stats { transmitted_bytes = l.stats.transmitted_bytes +u64 p.size_bytes };
      } in
      if lost
      then ok (
        record free {
          stats = record free.stats {
            lost_packets = free.stats.lost_packets +u64 1;
            lost_bytes = free.stats.lost_bytes +u64 p.size_bytes;
          };
        },
        e,
      )
      else elim (schedule_after (pos l.config.packet_travel_time) (arrives p) e) [
        | panic ↦ panic
        | ok (f, id) ↦ ok (record free { travelling = free.travelling + 1 }, f)
      ]

  -- After a transmission an autonomous link starts its next waiting packet.
  unfoldable pub start_next : Link C → Engine K → Result (Link C × Engine K)
  start_next l e =
      if l.managed
      then ok (l, e)
      else elim (first l.fifo) [ none ↦ ok (l, e) | some next ↦ start next (pop l) e ]

  -- The callback of `start`. A managed link then calls its manager.
  unfoldable pub complete : Transmission C → Bool → Link C → Engine K → Result (Link C × Engine K)
  complete p draw l e = elim (finish p (happens l.config.loss_rate draw) l e) [
    | panic ↦ panic
    | ok (m, f) ↦ start_next m f
  ]
