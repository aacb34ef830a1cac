-- ===== src/Network/Link/Progress.antt =====
-- simulator/network/link.go: the end of a transmission and the start of the next one.
use balancer_go.Base.{
  ℕ, ◌+◌, ◌≤◌, ◌<◌, ◌≡◌, refl, ap, Bool, true, false, none, some, length, arith, Bool-cases,
  Option-cases, inl, inr, length-drop, get_elem?-lt, get_elem?-none, max_u64, ◌+u64◌, +u64_lem,
}
use balancer_go.Base.Int.{pos}
use balancer_go.Engine.{Engine, ok, panic, schedule_after}
use balancer_go.Engine.Queue.{IsEngine}
use balancer_go.Engine.Operations.{IsKept-refl}
use balancer_go.Engine.Returns.{Returns, Returns-elim, IsNext, schedule_after-Returns}
use balancer_go.Fifo.{Fifo, queued, first, remove_head}
use balancer_go.Fifo.Refinement.{IsFifo, waiting, queued_lem, remove_head_lem}
use balancer_go.Network.Link.{Link, Transmission, pop, finish, start_next, arrive}
use balancer_go.Network.Link.Invariant.{IsLink, start-IsLink}

module _ {C : Type 0} where
  abbrev IsPopped : Transmission C → Fifo (Transmission C) → Type 0
  IsPopped z f = IsFifo (remove_head z f) × (queued (remove_head z f) + 1 ≡ queued f)

  popped :
      (z next : Transmission C) (f : Fifo (Transmission C)) → first f ≡ some next → IsPopped z f
  unfolding first queued
  popped z next f h =
      let inside = get_elem?-lt f.slots f.head next h in
      let step = remove_head_lem z f inside in
      (
        step.0,
        omega (
          arith,
          inside,
          length-drop f.head f.slots,
          ap length step.1,
          length-drop 1 (waiting f),
          queued_lem (remove_head z f),
        ),
      )

  ended : (f : Fifo (Transmission C)) → first f ≡ none → queued f ≡ 0
  unfolding first queued
  ended f h = omega (arith, get_elem?-none f.slots f.head h)

  -- A packet that arrives had been counted as travelling.
  arrive-IsLink :
      (p : Transmission C) (l : Link C) → 0 < l.travelling → IsLink l → IsLink (arrive p l).0
  unfolding arrive
  arrive-IsLink p l h w =
      let delivered =
        +u64_lem l.stats.delivered_packets 1 (omega (arith, w.conserved, w.offered, w.fits)) in
      record {
        fifo = w.fifo;
        capacity = w.capacity;
        working = w.working;
        external = w.external;
        conserved = omega (arith, w.conserved, delivered);
        offered = w.offered;
        fits = w.fits;
      }

  -- A link whose transmission has just ended.
  pub record IsFree (l : Link C) : Type 0 where
    pub fifo : IsFifo l.fifo
    pub capacity : queued l.fifo ≤ l.config.queue_capacity
    pub external : l.managed ≡ true → queued l.fifo ≡ 0
    pub conserved :
        l.stats.accepted_packets
        ≡ l.stats.delivered_packets + l.stats.lost_packets + l.travelling + queued l.fifo
    pub offered : l.stats.offered_packets ≡ l.stats.accepted_packets + l.stats.queue_dropped_packets
    pub fits : l.stats.offered_packets ≤ max_u64
    pub free : l.transmitting ≡ false

module _ {C K : Type 0} (completes arrives : Transmission C → K) (zero : Transmission C) (a i : ℕ)
    (e : Engine K) (v : IsEngine a i e) where
  pub finish-Returns :
      (p : Transmission C) (lost : Bool) (l : Link C)
      → e.next_id < max_u64
      → l.transmitting ≡ true
      → IsLink l
      → Returns {A = Link C × Engine K}
          (λ r. IsFree r.0 × IsNext a i e v r.1)
          (finish completes arrives zero p lost l e)
  unfolding finish
  finish-Returns p true l h t w =
      let lost =
        +u64_lem l.stats.lost_packets 1 (ground (arith, w.conserved, w.offered, w.fits, t)) in
      (
        record {
          fifo = w.fifo;
          capacity = w.capacity;
          external = w.external;
          conserved = ground (arith, w.conserved, lost, t);
          offered = w.offered;
          fits = w.fits;
          free = refl;
        },
        record { valid = v; kept = IsKept-refl e; ids = omega arith },
      )
  finish-Returns p false l h t w =
      let freed : Link C = record l {
        transmitting = false;
        travelling = l.travelling + 1;
        stats = record l.stats { transmitted_bytes = l.stats.transmitted_bytes +u64 p.size_bytes };
      } in
      let free : IsFree freed = record {
        fifo = w.fifo;
        capacity = w.capacity;
        external = w.external;
        conserved = ground (arith, w.conserved, t);
        offered = w.offered;
        fits = w.fits;
        free = refl;
      } in
      Returns-elim
        (λ r.
          Returns {A = Link C × Engine K} (λ r. IsFree r.0 × IsNext a i e v r.1)
            (elim r [ panic ↦ panic | ok (f, id) ↦ ok (freed, f) ]))
        (schedule_after (pos l.config.packet_travel_time) (arrives p) e)
        (schedule_after-Returns a i e v l.config.packet_travel_time (arrives p) h)
        (λ r n. (free, n))

  pub idle : (l : Link C) → queued l.fifo ≡ 0 → IsFree l → IsLink l
  idle l q w = record {
    fifo = w.fifo;
    capacity = w.capacity;
    working = λ c. q;
    external = w.external;
    conserved = ground (arith, w.conserved, w.free);
    offered = w.offered;
    fits = w.fits;
  }

  resumed :
      (next : Transmission C) (l : Link C)
      → first l.fifo ≡ some next
      → IsFree l
      → l.managed ≡ false
      → IsLink (record l { fifo = remove_head zero l.fifo; transmitting = true; managed = false })
  resumed next l f w m =
      let p = popped zero next l.fifo f in
      record {
        fifo = p.0;
        capacity = omega (arith, p.1, w.capacity);
        working = λ c. ground arith;
        external = λ c. ground arith;
        conserved = omega (arith, p.1, w.conserved);
        offered = w.offered;
        fits = w.fits;
      }

  pub start_next-Returns :
      (l : Link C)
      → e.next_id < max_u64
      → IsFree l
      → Returns {A = Link C × Engine K}
          (λ r. IsLink r.0 × IsNext a i e v r.1)
          (start_next completes arrives zero l e)
  unfolding start_next pop
  start_next-Returns l h w =
      let unchanged : IsNext a i e v e = record {
        valid = v;
        kept = IsKept-refl e;
        ids = omega arith;
      } in
      elim (Bool-cases l.managed) [
        | inl m ↦ simp m (idle l (w.external m) w, unchanged)
        | inr m ↦ elim (Option-cases (first l.fifo)) [
          | inl f ↦ simp (m, f) (idle l (ended l.fifo f) w, unchanged)
          | inr (next, f) ↦
              simp (m, f)
                (start-IsLink completes arrives zero a i e v next _ h (resumed next l f w m))
        ]
      ]
