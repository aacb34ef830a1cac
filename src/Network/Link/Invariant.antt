-- ===== src/Network/Link/Invariant.antt =====
-- simulator/network/link.go: a link's counters and queue, and `TransmitECN`.
use balancer_go.Base.{
  ℕ, ◌+◌, ◌==◌, ◌≤◌, ◌<◌, ◌≡◌, refl, ap, Bool, true, false, ◌&&◌, ltb, leb, if◌then◌else◌, none,
  some, [], ◌∷◌, length, arith, Bool-cases, inl, inr, length-append, max_u64, max_i64, +u64_lem,
  ◌∙◌,
}
use balancer_go.Base.Int.{pos}
use balancer_go.Engine.{Engine, ok, panic, schedule_after}
use balancer_go.Engine.Queue.{IsEngine}
use balancer_go.Engine.Operations.{IsKept-refl}
use balancer_go.Engine.Returns.{Returns, Returns-elim, IsNext, schedule_after-Returns}
use balancer_go.Fifo.{Fifo, queued, enqueue}
use balancer_go.Fifo.Refinement.{IsFifo, waiting, queued_lem, enqueue_lem}
use balancer_go.Network.Serialization.{serialization_duration, ceiling, serialization_duration_lem}
use balancer_go.Network.Link.{
  Link, Transmission, EcnState, count_offered, count_accepted, start, admit, transmit_ecn,
  is_not_capable, is_threshold, sometimes, try_draw, Rate, never, always, Config,
  should_signal_congestion, selection,
}

abbrev pub in_service : Bool → ℕ
in_service true = 1
in_service false = 0

-- A link that draws for congestion has a random source.
abbrev pub HasSource : {C : Type 0} → Link C → Type 0
HasSource l =
    is_threshold l.config.queue_policy ≡ true
    → l.config.congestion_signal_probability ≡ sometimes
    → l.congestion_rng ≡ true

try_draw-Returns :
    (rate : Rate) (rng draw : Bool)
    → (rate ≡ sometimes → rng ≡ true)
    → (b : Bool) × (try_draw rate rng draw ≡ some b)
try_draw-Returns never rng draw h = (false, refl)
try_draw-Returns always rng draw h = (true, refl)
try_draw-Returns sometimes rng draw h = (draw, rw (h refl) refl)

pub signal_lem :
    (rng : Bool) (config : Config) (n : ℕ) (draw : Bool)
    → (is_threshold config.queue_policy ≡ true
        → config.congestion_signal_probability ≡ sometimes
        → rng ≡ true)
    → (b : Bool) × (should_signal_congestion rng config n draw ≡ some b)
unfolding should_signal_congestion
signal_lem rng config n draw h = elim (Bool-cases (is_threshold config.queue_policy)) [
  | inr t ↦ (false, simp t refl)
  | inl t ↦ elim (Bool-cases (config.queue_capacity == 0)) [
    | inl z ↦ (false, simp (t, z) refl)
    | inr z ↦ elim (Bool-cases (ltb n config.congestion_threshold)) [
      | inl f ↦ (false, simp (t, z, f) refl)
      | inr f ↦
          let (b, eq) = try_draw-Returns config.congestion_signal_probability rng draw (h t) in
          (b, simp (t, z, f) eq)
    ]
  ]
]

module _ {C : Type 0} where
  pub record IsLink (l : Link C) : Type 0 where
    pub fifo : IsFifo l.fifo
    pub capacity : queued l.fifo ≤ l.config.queue_capacity
    pub working : l.transmitting ≡ false → queued l.fifo ≡ 0
    pub external : l.managed ≡ true → queued l.fifo ≡ 0
    pub conserved :
        l.stats.accepted_packets
        ≡ l.stats.delivered_packets
          + l.stats.lost_packets
          + l.travelling
          + queued l.fifo
          + in_service l.transmitting
    pub offered : l.stats.offered_packets ≡ l.stats.accepted_packets + l.stats.queue_dropped_packets
    pub fits : l.stats.offered_packets ≤ max_u64

  pub enqueue-queued :
      (p : Transmission C) (f : Fifo (Transmission C))
      → IsFifo f
      → queued (enqueue p f) ≡ queued f + 1
  enqueue-queued p f v =
      let step = enqueue_lem p f v in
      omega (
        arith,
        queued_lem f,
        queued_lem (enqueue p f),
        ap length step.1,
        length-append (waiting f) (p ∷ []),
      )

  -- A packet that waits.
  wait-IsLink :
      (p : Transmission C) (size : ℕ) (newly_marked : Bool) (l : Link C)
      → l.transmitting ≡ true
      → l.managed ≡ false
      → l.stats.offered_packets < max_u64
      → queued l.fifo < l.config.queue_capacity
      → IsLink l
      → IsLink (record l {
        transmitting = true;
        fifo = enqueue p l.fifo;
        stats = count_accepted size newly_marked (count_offered size l.stats);
      })
  wait-IsLink p size newly_marked l g alone k room w =
      let more = +u64_lem l.stats.offered_packets 1 (omega arith) in
      let accepted = +u64_lem l.stats.accepted_packets 1 (omega (arith, w.offered)) in
      let longer = enqueue-queued p l.fifo w.fifo in
      record {
        fifo = (enqueue_lem p l.fifo w.fifo).0;
        capacity = omega (arith, longer);
        working = λ c. ground arith;
        external = λ c. ground arith;
        conserved = ground (arith, w.conserved, longer, accepted);
        offered = omega (arith, w.offered, more, accepted);
        fits = omega (arith, more);
      }

  -- A packet that is sent at once over a free link.
  pub sent-IsLink :
      (size : ℕ) (newly_marked : Bool) (l : Link C)
      → l.transmitting ≡ false
      → l.stats.offered_packets < max_u64
      → IsLink l
      → IsLink (record l {
        transmitting = true;
        stats = count_accepted size newly_marked (count_offered size l.stats);
      })
  sent-IsLink size newly_marked l g k w =
      let more = +u64_lem l.stats.offered_packets 1 (omega arith) in
      let accepted = +u64_lem l.stats.accepted_packets 1 (omega (arith, w.offered)) in
      record {
        fifo = w.fifo;
        capacity = w.capacity;
        working = λ c. ground arith;
        external = w.external;
        conserved = ground (arith, w.conserved, accepted);
        offered = omega (arith, w.offered, more, accepted);
        fits = omega (arith, more);
      }

module _ {C : Type 0} where
  selection_lem :
      (draw : Bool) (l : Link C)
      → HasSource l
      → (b : Bool) × (selection draw l ≡ some b)
        × (b ≡ true → (l.transmitting ≡ true) × (queued l.fifo < l.config.queue_capacity))
  unfolding selection
  selection_lem draw l h = elim (Bool-cases l.transmitting) [
    | inr t ↦ (false, simp t refl, λ b. ground (arith, b))
    | inl t ↦ elim (Bool-cases (leb l.config.queue_capacity (queued l.fifo))) [
      | inl f ↦ (false, simp (t, f) refl, λ b. ground (arith, b))
      | inr f ↦
          let (b, eq) = signal_lem l.congestion_rng l.config (queued l.fifo + 1) draw h in
          (b, simp (t, f) eq, λ s. (t, ground (arith, f)))
    ]
  ]

module _ {C K : Type 0} (completes arrives : Transmission C → K) (zero : Transmission C) (a i : ℕ)
    (e : Engine K) (v : IsEngine a i e) where
  unchanged : IsNext a i e v e
  unchanged = record { valid = v; kept = IsKept-refl e; ids = omega arith }

  -- `start` only takes the transmitter.
  pub start-Returns :
      (p : Transmission C) (l : Link C)
      → e.next_id < max_u64
      → Returns {A = Link C × Engine K}
          (λ r. (r.0 ≡ record l { transmitting = true }) × IsNext a i e v r.1)
          (start completes arrives zero p l e)
  unfolding start
  start-Returns p l h =
      Returns-elim
        (λ r.
          Returns {A = Link C × Engine K}
            (λ r. (r.0 ≡ record l { transmitting = true }) × IsNext a i e v r.1)
            (elim r [ panic ↦ panic | ok (f, id) ↦ ok (record l { transmitting = true }, f) ]))
        (schedule_after (pos p.duration) (completes p) e)
        (schedule_after-Returns a i e v p.duration (completes p) h) (λ r n. (refl, n))

  -- `start` on a free link, to which the packet has been counted.
  pub start-IsLink :
      (p : Transmission C) (l : Link C)
      → e.next_id < max_u64
      → IsLink (record l { transmitting = true })
      → Returns {A = Link C × Engine K}
          (λ r. IsLink r.0 × IsNext a i e v r.1)
          (start completes arrives zero p l e)
  start-IsLink p l h w =
      Returns-elim (Returns {A = Link C × Engine K} (λ r. IsLink r.0 × IsNext a i e v r.1))
        (start completes arrives zero p l e) (start-Returns p l h) (λ r n. (rw n.0 w, n.1))

  pub admit-Returns :
      (size : ℕ) (state : EcnState) (on_arrival : C) (duration : ℕ) (selected : Bool) (l : Link C)
      → (selected ≡ true → (l.transmitting ≡ true) × (queued l.fifo < l.config.queue_capacity))
      → e.next_id < max_u64
      → l.stats.offered_packets < max_u64
      → l.managed ≡ false
      → IsLink l
      → Returns
          (λ r. IsLink r.0 × IsNext a i e v r.1)
          (admit completes arrives zero size state on_arrival duration (some selected) l e)
  unfolding admit
  admit-Returns size state on_arrival duration selected l only h k alone w =
      let more = +u64_lem l.stats.offered_packets 1 (omega arith) in
      let accepted = +u64_lem l.stats.accepted_packets 1 (omega (arith, w.offered)) in
      let dropped = +u64_lem l.stats.queue_dropped_packets 1 (omega (arith, w.offered)) in
      let full = leb l.config.queue_capacity (queued l.fifo) in
      elim (Bool-cases l.transmitting) [
        | inl g ↦ elim (Bool-cases full) [
          | inl f ↦
              simp (g, f)
                (
                  ground (
                    arith, more, dropped, w.conserved, w.offered, w.capacity, w.external, w.fifo,
                  ),
                  unchanged,
                )
          | inr f ↦ elim (Bool-cases (selected && is_not_capable state)) [
            | inl c ↦
                simp (g, f, c)
                  (
                    ground (
                      arith, more, dropped, w.conserved, w.offered, w.capacity, w.external, w.fifo,
                    ),
                    unchanged,
                  )
            | inr c ↦ simp (g, f, c) (wait-IsLink _ size _ l g alone k (ground arith) w, unchanged)
          ]
        ]
        | inr g ↦
            let passed : selected ≡ false = elim (Bool-cases selected) [
              | inl s ↦ ground (arith, g, (only s).0)
              | inr s ↦ s
            ] in
            simp (g, passed)
              (Returns-elim
                (λ r.
                  Returns {A = Link C × Engine K × Bool} (λ r. IsLink r.0 × IsNext a i e v r.1)
                    (elim r [ panic ↦ panic | ok (m, f) ↦ ok (m, f, true) ]))
                (start completes arrives zero _ _ e)
                (start-IsLink _ _ h (sent-IsLink size false l g k w)) (λ r n. n))
      ]

  -- The duration is there when it fits an int64.
  pub duration_lem :
      (size bandwidth : ℕ)
      → 0 < bandwidth
      → ceiling size bandwidth ≤ max_i64
      → serialization_duration size bandwidth ≡ some (ceiling size bandwidth)
  duration_lem size bandwidth h k =
      let fits : ltb max_i64 (ceiling size bandwidth) ≡ false = ground arith in
      serialization_duration_lem size bandwidth h
      ∙ ap (λ b. if b then none else some (ceiling size bandwidth)) fits

  -- `TransmitECN` on a valid autonomous link, of a packet whose duration fits an int64, returns while
  -- the engine has an id left and the link can count an offer, if a link that draws for congestion has a
  -- random source. The link is valid afterwards: every offered packet is accepted or dropped, every
  -- accepted one is delivered, lost, travelling, in transmission or waiting, at most the capacity waits,
  -- and none waits at a free link.
  pub transmit_ecn-IsLink :
      (size : ℕ) (state : EcnState) (on_arrival : C) (draw : Bool) (l : Link C)
      → HasSource l
      → e.next_id < max_u64
      → l.stats.offered_packets < max_u64
      → l.managed ≡ false
      → 0 < l.config.bandwidth_bits_per_second
      → ceiling size l.config.bandwidth_bits_per_second ≤ max_i64
      → IsLink l
      → Returns {A = Link C × Engine K × Bool}
          (λ r. IsLink r.0 × IsNext a i e v r.1)
          (transmit_ecn completes arrives zero (pos size) state on_arrival draw l e)
  unfolding transmit_ecn
  transmit_ecn-IsLink size state on_arrival draw l source h k alone positive fits w =
      let d = duration_lem size l.config.bandwidth_bits_per_second positive fits in
      let (b, eq, only) = selection_lem draw l source in
      let r =
        admit-Returns size state on_arrival (ceiling size l.config.bandwidth_bits_per_second) b l
          only h k alone w in
      simp (alone, d, eq) r
