-- ===== src/Network/Ingress/Accepting.antt =====
-- simulator/network/ingress.go: a packet is accepted or dropped at an input.
use Prim.{tt}
use balancer_go.Base.{
  ℕ, zero, suc, ◌+◌, ◌≤◌, ◌<◌, ◌≡◌, ◌⊎◌, ap, Bool, Option, none, some, List, [], ◌∷◌, get_elem?,
  arith, inl, inr, max_i64,
}
use balancer_go.Fifo.{queued}
use balancer_go.Network.Serialization.{ceiling}
use balancer_go.Network.Link.{count_offered, count_accepted, count_dropped}
use balancer_go.Network.Ingress.{Ingress, Input, accept_packet, drop_packet}
use balancer_go.Network.Ingress.Order.{AllInputs, waiting_packets}
use balancer_go.Network.Ingress.Invariant.{IsIngress, IsHolding, IsPending}
use balancer_go.Network.Ingress.Transmit.{appended, counted_only}

module _ {C : Type 0} where
  pub AllInputs-room :
      (b c d hi : ℕ) (xs : List (Input C))
      → (waiting_packets xs ≤ d) ⊎ (c ≤ d)
      → AllInputs b c hi xs
      → AllInputs b d hi xs
  AllInputs-room b c d hi [] h v = tt
  AllInputs-room b c d hi (x ∷ xs) (inl h) v = (
    record { fifo = v.0.fifo; room = omega arith; sequence = v.0.sequence },
    AllInputs-room b c d hi xs (inl (omega arith)) v.1,
  )
  AllInputs-room b c d hi (x ∷ xs) (inr h) v = (
    record { fifo = v.0.fifo; room = omega (arith, v.0.room); sequence = v.0.sequence },
    AllInputs-room b c d hi xs (inr h) v.1,
  )

  pub queued-le :
      (i : ℕ) (x : Input C) (xs : List (Input C))
      → get_elem? xs i ≡ some x
      → queued x.fifo ≤ waiting_packets xs
  queued-le i x [] e = ground arith
  queued-le zero x (y ∷ ys) e =
      let same : queued y.fifo ≡ queued x.fifo = ap queued_of e in omega arith
    where
      queued_of : Option (Input C) → ℕ
      queued_of none = 0
      queued_of (some z) = queued z.fifo
  queued-le (suc i) x (y ∷ ys) e = omega (arith, queued-le i x ys e)

  -- A bound that the capacity implies, or that holds as nothing waits.
  pub IsHolding-IsIngress :
      (room : ℕ) (g : Ingress C)
      → (room ≡ g.link.config.queue_capacity) ⊎ (waiting_packets g.inputs ≡ 0)
      → IsHolding room g
      → IsIngress g
  IsHolding-IsIngress room g h w =
      let bound : (waiting_packets g.inputs ≤ g.link.config.queue_capacity)
          ⊎ (room ≤ g.link.config.queue_capacity) =
        elim h [ inl f ↦ inr (omega arith) | inr f ↦ inl (omega arith) ] in
      record {
        link = w.link;
        managed = w.managed;
        bandwidth = w.bandwidth;
        inputs =
            AllInputs-room g.link.config.bandwidth_bits_per_second room g.link.config.queue_capacity
              g.next_sequence g.inputs bound w.inputs;
        counted = w.counted;
        working = w.working;
        owner = w.owner;
      }

  pub drop_packet-IsIngress :
      (i size : ℕ) (early : Bool) (g : Ingress C)
      → IsIngress g
      → IsIngress (drop_packet i size early g)
  unfolding drop_packet
  drop_packet-IsIngress i size early g w =
      let r =
        counted_only g.link.config.bandwidth_bits_per_second g.link.config.queue_capacity
          g.next_sequence i (λ s. count_dropped size early (count_offered size s)) g.inputs
          w.inputs in
      record {
        link = w.link;
        managed = w.managed;
        bandwidth = w.bandwidth;
        inputs = r.0;
        counted = omega (arith, r.1, w.counted);
        working = λ f. omega (arith, r.1, w.working f);
        owner = w.owner;
      }

  pub accept_packet-IsPending :
      (room i size : ℕ) (marked newly_marked : Bool) (on_arrival : C) (g : Ingress C) (x : Input C)
      → get_elem? g.inputs i ≡ some x
      → queued x.fifo < room
      → ceiling size g.link.config.bandwidth_bits_per_second ≤ max_i64
      → AllInputs g.link.config.bandwidth_bits_per_second room g.next_sequence g.inputs
      → IsIngress g
      → let h = accept_packet i size marked newly_marked on_arrival g in
        IsPending room h × (waiting_packets h.inputs ≡ waiting_packets g.inputs + 1)
  unfolding accept_packet
  accept_packet-IsPending room i size marked newly_marked on_arrival g x e q k v w =
      let r =
        appended g.link.config.bandwidth_bits_per_second room g.next_sequence i
          (record {
            size_bytes = size;
            on_arrival = on_arrival;
            marked = marked;
            sequence = g.next_sequence + 1;
          })
          (λ s. count_accepted size newly_marked (count_offered size s)) x g.inputs e q
          (omega arith) k v in
      (
        record {
          link = w.link;
          managed = w.managed;
          bandwidth = w.bandwidth;
          inputs = r.0;
          counted = omega (arith, r.1, w.counted);
          owner = w.owner;
        },
        r.1,
      )
