-- ===== src/Network/Ingress.antt =====
-- simulator/network/ingress.go: several FIFOs that share one incoming link. A pointer to an input is its
-- index among the ingress's inputs.
pub mod Order
pub mod Removal
pub mod Invariant
pub mod Transmit
pub mod Accepting
pub mod Admission
pub mod Completion
use balancer_go.Base.{
  ℕ, zero, suc, ◌+◌, ◌-◌, Bool, true, false, ◌&&◌, ◌||◌, not, ltb, leb, ◌==◌, if◌then◌else◌, Option,
  none, some, List, [], ◌∷◌, ◌++◌, get_elem?, map, max_u64, ◌+u64◌,
}
use balancer_go.Base.Int.{ℤ, pos, negsuc}
use balancer_go.Fifo.{Fifo, empty, queued, enqueue, first, remove_head}
use balancer_go.Engine.{Engine, Result, ok, panic}
use balancer_go.Network.Serialization.{serialization_duration}
use balancer_go.Network.Link as Link
use balancer_go.Network.Link.{
  Link, Transmission, Stats, zero_stats, count_offered, count_dropped, count_accepted, EcnState,
  is_capable, is_not_capable, is_already_marked, should_signal_congestion, ready,
  use_external_queue, try_start, arrive, complete,
}

pub record IngressPacket (C : Type 0) : Type 0 where
  pub size_bytes : ℕ
  pub on_arrival : C
  pub marked : Bool
  pub sequence : ℕ

pub record Input (C : Type 0) : Type 0 where
  pub fifo : Fifo (IngressPacket C)
  pub stats : Stats
  pub transmitting : Bool
  pub travelling : ℕ

-- What the link's arrival callback refers to: the input, and the packet.
pub record Delivery (C : Type 0) : Type 0 where
  pub input : ℕ
  pub packet : IngressPacket C

pub record Ingress (C : Type 0) : Type 0 where
  pub link : Link (Delivery C)
  pub inputs : List (Input C)
  pub next_sequence : ℕ
  pub stats : Stats
  pub queued_packets : ℕ
  pub transmitting_input : Option ℕ
  pub transmitting_bytes : ℕ
  pub losses_before : ℕ

abbrev pub modify {ℓ} : {A : Type ℓ} → ℕ → (A → A) → List A → List A
modify i f [] = []
modify zero f (x ∷ xs) = f x ∷ xs
modify (suc i) f (x ∷ xs) = x ∷ modify i f xs

module _ {C : Type 0} where
  -- NewIngress; `none` is a panic of the link's.
  unfoldable pub new_ingress : Link (Delivery C) → Option (Ingress C)
  new_ingress link = elim (use_external_queue link) [
    | none ↦ none
    | some l ↦ some (record {
      link = l;
      inputs = [];
      next_sequence = 0;
      stats = zero_stats;
      queued_packets = 0;
      transmitting_input = none;
      transmitting_bytes = 0;
      losses_before = 0;
    })
  ]

  unfoldable pub add_input : Ingress C → Ingress C
  add_input g = record g {
    inputs =
        g.inputs
        ++ record { fifo = empty; stats = zero_stats; transmitting = false; travelling = 0 } ∷ [];
  }

  -- One turn of the loop of `dispatch`, at the input of the given index.
  abbrev pub older :
      ℕ → Option (IngressPacket C) → Option (ℕ × IngressPacket C) → Option (ℕ × IngressPacket C)
  older i none best = best
  older i (some p) none = some (i, p)
  older i (some p) (some (j, q)) = if ltb p.sequence q.sequence then some (i, p) else some (j, q)

  -- The loop of `dispatch`: the input whose first waiting packet was admitted first.
  unfoldable pub oldest_from :
      ℕ → Option (ℕ × IngressPacket C) → List (Input C) → Option (ℕ × IngressPacket C)
  oldest_from i best [] = best
  oldest_from i best (input ∷ rest) = oldest_from (suc i) (older i (first input.fifo) best) rest

  unfoldable pub discard_pending : Ingress C → Ingress C
  discard_pending g = record g {
    link = Link.discard_pending g.link;
    transmitting_input = none;
    queued_packets = 0;
    inputs =
        map (λ (x : Input C). record x { fifo = empty; transmitting = false; travelling = 0 })
          g.inputs;
  }

  -- The callback that `dispatch` gives to the link, with what it runs at its end.
  unfoldable pub arrived : Transmission (Delivery C) → Ingress C → Ingress C × C × Bool
  arrived p g =
      let (link, delivery, mark) = arrive p g.link in
      let packet = delivery.packet in
      (
        record g {
          link = link;
          inputs =
              modify delivery.input
                (λ x. record x {
                  travelling = x.travelling - 1;
                  stats = record x.stats {
                    delivered_packets = x.stats.delivered_packets +u64 1;
                    delivered_bytes = x.stats.delivered_bytes +u64 packet.size_bytes;
                  };
                })
                g.inputs;
        },
        packet.on_arrival,
        packet.marked,
      )

  -- An accepted packet behind the others of its input.
  unfoldable pub accept_packet : ℕ → ℕ → Bool → Bool → C → Ingress C → Ingress C
  accept_packet i size marked newly_marked on_arrival g =
      let sequence = g.next_sequence + 1 in
      record g {
        next_sequence = sequence;
        queued_packets = g.queued_packets + 1;
        stats = count_accepted size newly_marked (count_offered size g.stats);
        inputs =
            modify i
              (λ x. record x {
                stats = count_accepted size newly_marked (count_offered size x.stats);
                fifo =
                    enqueue
                      (record {
                        size_bytes = size;
                        on_arrival = on_arrival;
                        marked = marked;
                        sequence = sequence;
                      })
                      x.fifo;
              })
              g.inputs;
      }

  unfoldable pub drop_packet : ℕ → ℕ → Bool → Ingress C → Ingress C
  drop_packet i size early g = record g {
    stats = count_dropped size early (count_offered size g.stats);
    inputs =
        modify i (λ x. record x { stats = count_dropped size early (count_offered size x.stats) })
          g.inputs;
  }

module _ {C : Type 0} where
  -- The question of congestion, which `TransmitECN` asks of a packet that is accepted and has to wait.
  unfoldable pub selection_at : ℕ → Bool → Ingress C → Option Bool
  selection_at waiting draw g =
      let can_start_now = ready g.link in
      let accepted = can_start_now || ltb waiting g.link.config.queue_capacity in
      if accepted && not can_start_now
      then should_signal_congestion g.link.congestion_rng g.link.config (waiting + 1) draw
      else some false

module _ {C K : Type 0} (completes arrives : Transmission (Delivery C) → K)
    (zero_transmission : Transmission (Delivery C)) (zero_packet : IngressPacket C) where
  -- The oldest packet leaves its input, whose transmission this is now.
  unfoldable pub take_oldest : ℕ → IngressPacket C → Link (Delivery C) → Ingress C → Ingress C
  take_oldest i p link g = record g {
    link = link;
    transmitting_input = some i;
    transmitting_bytes = p.size_bytes;
    losses_before = g.link.stats.lost_packets;
    queued_packets = g.queued_packets - 1;
    inputs =
        modify i (λ x. record x { transmitting = true; fifo = remove_head zero_packet x.fifo })
          g.inputs;
  }

  unfoldable pub dispatch : Ingress C → Engine K → Result (Ingress C × Engine K)
  dispatch g e = if not (ready g.link) then ok (g, e) else elim (oldest_from 0 none g.inputs) [
    | none ↦ ok (g, e)
    | some (i, p) ↦
        elim (try_start completes arrives zero_transmission (pos p.size_bytes)
          (record { input = i; packet = p }) g.link e) [
            | panic ↦ panic
            | ok (link, f, started) ↦ if started then ok (take_oldest i p link g, f) else panic
          ]
  ]

  -- TransmitECN at an input that has so many packets waiting, after its checks, with the answer to the
  -- question of congestion.
  unfoldable pub admit_at :
      ℕ
      → ℕ
      → ℕ
      → EcnState
      → C
      → Option Bool
      → Ingress C
      → Engine K
      → Result (Ingress C × Engine K × Bool)
  admit_at i waiting size state on_arrival none g e = panic
  admit_at i waiting size state on_arrival (some selected) g e =
      let accepted = ready g.link || ltb waiting g.link.config.queue_capacity in
      let early_drop = selected && is_not_capable state in
      let newly_marked = selected && is_capable state in
      let marked = is_already_marked state || newly_marked in
      if accepted && g.next_sequence == max_u64
      then panic
      else if not accepted || early_drop
      then ok (drop_packet i size early_drop g, e, false)
      else elim (dispatch (accept_packet i size marked newly_marked on_arrival g) e) [
        | panic ↦ panic
        | ok (h, f) ↦ ok (h, f, true)
      ]

  unfoldable pub transmit_ecn :
      ℕ → ℤ → EcnState → C → Bool → Ingress C → Engine K → Result (Ingress C × Engine K × Bool)
  transmit_ecn i (negsuc n) state on_arrival draw g e = panic
  transmit_ecn i (pos size) state on_arrival draw g e =
      elim (serialization_duration size g.link.config.bandwidth_bits_per_second) [
        | none ↦ panic
        | some duration ↦ elim (get_elem? g.inputs i) [
          | none ↦ panic
          | some input ↦
              admit_at i (queued input.fifo) size state on_arrival
                (selection_at (queued input.fifo) draw g) g e
        ]
      ]

  -- The input's share in `finishTransmission`.
  unfoldable pub settle : Bool → ℕ → Input C → Input C
  settle lost size x = record x {
    transmitting = false;
    travelling = if lost then x.travelling else x.travelling + 1;
    stats = record x.stats {
      transmitted_bytes = x.stats.transmitted_bytes +u64 size;
      lost_packets = if lost then x.stats.lost_packets +u64 1 else x.stats.lost_packets;
      lost_bytes = if lost then x.stats.lost_bytes +u64 size else x.stats.lost_bytes;
    };
  }

  -- Without a transmitting input this is a nil dereference.
  unfoldable pub finish_transmission : Ingress C → Engine K → Result (Ingress C × Engine K)
  finish_transmission g e = elim g.transmitting_input [
    | none ↦ panic
    | some i ↦
        dispatch
          (record g {
            inputs =
                modify i
                  (settle (not (g.link.stats.lost_packets == g.losses_before)) g.transmitting_bytes)
                  g.inputs;
            transmitting_input = none;
            transmitting_bytes = 0;
          })
          e
  ]

  -- The engine's event at the end of a transmission: the link's callback, and then its manager's.
  unfoldable pub completed :
      Transmission (Delivery C) → Bool → Ingress C → Engine K → Result (Ingress C × Engine K)
  completed p draw g e = elim (complete completes arrives zero_transmission p draw g.link e) [
    | panic ↦ panic
    | ok (link, f) ↦ finish_transmission (record g { link = link }) f
  ]
