-- ===== src/Network/Ingress/Admission.antt =====
-- simulator/network/ingress.go: `TransmitECN` as a whole.
use mathlib.Core.Path.{subst}
use balancer_go.Base.{
  ℕ, ◌+◌, ◌≤◌, ◌<◌, ◌≡◌, ◌⊎◌, refl, ap, sym, Bool, true, false, ◌&&◌, ltb, ◌==◌, none, some,
  get_elem?, arith, Bool-cases, inl, inr, max_i64, max_u64,
}
use balancer_go.Base.Int.{pos}
use balancer_go.Engine.{Engine, ok, panic}
use balancer_go.Engine.Queue.{IsEngine}
use balancer_go.Engine.Operations.{IsKept-refl}
use balancer_go.Engine.Returns.{Returns, Returns-elim, IsNext}
use balancer_go.Fifo.{queued}
use balancer_go.Network.Serialization.{ceiling}
use balancer_go.Network.Link as Link
use balancer_go.Network.Link.{
  Transmission, EcnState, is_capable, is_not_capable, is_already_marked, count_offered,
  count_accepted, count_dropped, ready, should_signal_congestion,
}
use balancer_go.Network.Link.Invariant.{HasSource, signal_lem, duration_lem}
use balancer_go.Network.Ingress.{
  Ingress, Input, IngressPacket, Delivery, accept_packet, admit_at, selection_at, transmit_ecn,
  dispatch,
}
use balancer_go.Network.Ingress.Order.{waiting_packets}
use balancer_go.Network.Ingress.Invariant.{IsIngress, dispatch-Returns}
use balancer_go.Network.Ingress.Accepting.{
  AllInputs-room, IsHolding-IsIngress, queued-le, drop_packet-IsIngress, accept_packet-IsPending,
}

module _ {C K : Type 0} (completes arrives : Transmission (Delivery C) → K)
    (zero_transmission : Transmission (Delivery C)) (zero_packet : IngressPacket C) (a n : ℕ)
    (e : Engine K) (v : IsEngine a n e) where
  unchanged : IsNext a n e v e
  unchanged = record { valid = v; kept = IsKept-refl e; ids = omega arith }

  -- The accepted packet is sent or waits.
  accepted-Returns :
      (room i size : ℕ) (marked newly_marked : Bool) (on_arrival : C) (g : Ingress C) (x : Input C)
      → get_elem? g.inputs i ≡ some x
      → queued x.fifo < room
      → ceiling size g.link.config.bandwidth_bits_per_second ≤ max_i64
      → g.link.config.queue_capacity ≤ room
      → (room ≡ g.link.config.queue_capacity) ⊎ (g.link.transmitting ≡ false)
      → e.next_id < max_u64
      → g.link.stats.offered_packets < max_u64
      → IsIngress g
      → Returns {A = Ingress C × Engine K × Bool}
          (λ r. IsIngress r.0 × IsNext a n e v r.1)
          (elim (dispatch completes arrives zero_transmission zero_packet
            (accept_packet i size marked newly_marked on_arrival g)
            e) [ panic ↦ panic | ok (h, f) ↦ ok (h, f, true) ])
  unfolding accept_packet
  accepted-Returns room i size marked newly_marked on_arrival g x here q k wide fits h l w =
      let (pending, more) =
        accept_packet-IsPending room i size marked newly_marked on_arrival g x here q k
          (AllInputs-room g.link.config.bandwidth_bits_per_second g.link.config.queue_capacity room
            g.next_sequence g.inputs (inr wide) w.inputs)
          w in
      let after = accept_packet i size marked newly_marked on_arrival g in
      Returns-elim
        (λ r.
          Returns {A = Ingress C × Engine K × Bool} (λ r. IsIngress r.0 × IsNext a n e v r.1)
            (elim r [ panic ↦ panic | ok (h, f) ↦ ok (h, f, true) ]))
        (dispatch completes arrives zero_transmission zero_packet after e)
        (dispatch-Returns completes arrives zero_transmission zero_packet a n e v room after h l
          pending)
        (λ r d.
          let capacity = ap (λ (c : Link.Config). c.queue_capacity) d.0.config in
          let bound : (room ≡ r.0.link.config.queue_capacity) ⊎ (waiting_packets r.0.inputs ≡ 0) =
            elim fits [
              | inl f ↦ inl (omega (arith, capacity))
              | inr f ↦ inr (omega (arith, d.0.fewer f, more, w.working f))
            ] in
          (IsHolding-IsIngress room r.0 bound d.0.holding, d.1))

  admit_at-IsIngress :
      (i size : ℕ) (state : EcnState) (on_arrival : C) (selected : Bool) (g : Ingress C)
      (x : Input C)
      → (selected ≡ true → g.link.transmitting ≡ true)
      → get_elem? g.inputs i ≡ some x
      → ceiling size g.link.config.bandwidth_bits_per_second ≤ max_i64
      → e.next_id < max_u64
      → g.link.stats.offered_packets < max_u64
      → g.next_sequence < max_u64
      → IsIngress g
      → Returns {A = Ingress C × Engine K × Bool}
          (λ r. IsIngress r.0 × IsNext a n e v r.1)
          (admit_at completes arrives zero_transmission zero_packet i
            (queued x.fifo)
            size
            state
            on_arrival
            (some selected)
            g
            e)
  unfolding admit_at ready
  admit_at-IsIngress i size state on_arrival selected g x only here k h l m w =
      let left : (g.next_sequence == max_u64) ≡ false = ground arith in
      let waiting = queued x.fifo in
      elim (Bool-cases g.link.transmitting) [
        | inl t ↦ elim (Bool-cases (ltb waiting g.link.config.queue_capacity)) [
          | inl room ↦ elim (Bool-cases (selected && is_not_capable state)) [
            | inl f ↦ simp (t, room, f, left) (drop_packet-IsIngress i size true g w, unchanged)
            | inr f ↦
                simp (t, room, f, left)
                  (accepted-Returns g.link.config.queue_capacity i size _ _ on_arrival g x here
                    (ground arith) k (omega arith) (inl refl) h l w)
          ]
          | inr full ↦
              simp (t, full, left)
                (drop_packet-IsIngress i size (selected && is_not_capable state) g w, unchanged)
        ]
        | inr t ↦
            let passed : selected ≡ false = elim (Bool-cases selected) [
              | inl s ↦ ground (arith, t, only s)
              | inr s ↦ s
            ] in
            simp (t, left, passed)
              (accepted-Returns (g.link.config.queue_capacity + 1) i size _ _ on_arrival g x here
                (omega (arith, queued-le i x g.inputs here, w.working t)) k (omega arith) (inr t) h
                l w)
      ]

  selection_at_lem :
      (waiting : ℕ) (draw : Bool) (g : Ingress C)
      → HasSource g.link
      → (b : Bool) × (selection_at waiting draw g ≡ some b)
        × (b ≡ true → g.link.transmitting ≡ true)
  unfolding selection_at ready
  selection_at_lem waiting draw g h = elim (Bool-cases g.link.transmitting) [
    | inr t ↦ (false, simp t refl, λ b. ground (arith, b))
    | inl t ↦ elim (Bool-cases (ltb waiting g.link.config.queue_capacity)) [
      | inr f ↦ (false, simp (t, f) refl, λ b. t)
      | inl f ↦
          let (b, eq) = signal_lem g.link.congestion_rng g.link.config (waiting + 1) draw h in
          (b, simp (t, f) eq, λ s. t)
    ]
  ]

  -- `TransmitECN` at an input of a valid ingress, of a packet whose duration fits an int64, returns while
  -- the engine has an id left, the ingress a sequence number, and the link can count an offer, if a link
  -- that draws for congestion has a random source. The ingress is valid afterwards: each input holds at
  -- most the capacity, in the order of admission, no packet waits at a free link, and a transmission has
  -- an input.
  pub transmit_ecn-IsIngress :
      (i size : ℕ) (state : EcnState) (on_arrival : C) (draw : Bool) (g : Ingress C) (x : Input C)
      → HasSource g.link
      → get_elem? g.inputs i ≡ some x
      → ceiling size g.link.config.bandwidth_bits_per_second ≤ max_i64
      → e.next_id < max_u64
      → g.link.stats.offered_packets < max_u64
      → g.next_sequence < max_u64
      → IsIngress g
      → Returns {A = Ingress C × Engine K × Bool}
          (λ r. IsIngress r.0 × IsNext a n e v r.1)
          (transmit_ecn completes arrives zero_transmission zero_packet i
            (pos size)
            state
            on_arrival
            draw
            g
            e)
  unfolding transmit_ecn
  transmit_ecn-IsIngress i size state on_arrival draw g x source here k h l m w =
      let duration =
        duration_lem completes arrives zero_transmission a n e v size
          g.link.config.bandwidth_bits_per_second w.bandwidth k in
      let (b, eq, only) = selection_at_lem (queued x.fifo) draw g source in
      subst
        (λ o.
          Returns {A = Ingress C × Engine K × Bool} (λ r. IsIngress r.0 × IsNext a n e v r.1)
            (elim o [
              | none ↦ panic
              | some d ↦ elim (get_elem? g.inputs i) [
                | none ↦ panic
                | some y ↦
                    admit_at completes arrives zero_transmission zero_packet i (queued y.fifo) size
                      state on_arrival (selection_at (queued y.fifo) draw g) g e
              ]
            ]))
        (sym duration)
        (simp (here, eq) (admit_at-IsIngress i size state on_arrival b g x only here k h l m w))
