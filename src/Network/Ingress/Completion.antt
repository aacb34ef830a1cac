-- ===== src/Network/Ingress/Completion.antt =====
-- simulator/network/ingress.go: `finishTransmission`.
use Prim.{tt}
use mathlib.Core.Path.{subst}
use balancer_go.Base.{
  ℕ, zero, suc, ◌+◌, ◌<◌, ◌≡◌, refl, ap, sym, ◌∙◌, Bool, true, not, ◌==◌, none, some, List, [], ◌∷◌,
  arith, inl, max_u64,
}
use balancer_go.Engine.{Engine, ok, panic}
use balancer_go.Engine.Queue.{IsEngine}
use balancer_go.Engine.Operations.{IsKept}
use balancer_go.Engine.Exec.{IsKept-trans}
use balancer_go.Engine.Returns.{Returns, Returns-elim}
use balancer_go.Fifo.{queued}
use balancer_go.Network.Link as Link
use balancer_go.Network.Link.{Link, Transmission}
use balancer_go.Network.Link.Release.{IsReleased, complete-IsReleased}
use balancer_go.Network.Ingress.{
  Ingress, Input, IngressPacket, Delivery, modify, settle, dispatch, finish_transmission, completed,
}
use balancer_go.Network.Ingress.Order.{AllInputs, waiting_packets}
use balancer_go.Network.Ingress.Invariant.{IsIngress, IsPending, dispatch-Returns}
use balancer_go.Network.Ingress.Accepting.{IsHolding-IsIngress}

module _ {C : Type 0} where
  -- What does not change the waiting packets.
  same_fifo :
      (b c hi i : ℕ) (f : Input C → Input C) (xs : List (Input C))
      → ((x : Input C) → (f x).fifo ≡ x.fifo)
      → AllInputs b c hi xs
      → AllInputs b c hi (modify i f xs) × (waiting_packets (modify i f xs) ≡ waiting_packets xs)
  same_fifo b c hi i f [] h v = (tt, refl)
  same_fifo b c hi zero f (x ∷ xs) h v =
      let same = h x in
      (
        (
          record {
            fifo = rw same v.0.fifo;
            room = rw same v.0.room;
            sequence = rw same v.0.sequence;
          },
          v.1,
        ),
        omega (arith, ap queued same),
      )
  same_fifo b c hi (suc i) f (x ∷ xs) h v =
      let rest = same_fifo b c hi i f xs h v.1 in ((v.0, rest.0), omega (arith, rest.1))

module _ {C K : Type 0} (completes arrives : Transmission (Delivery C) → K)
    (zero_transmission : Transmission (Delivery C)) (zero_packet : IngressPacket C) where
  -- The ingress whose transmission has ended, with the outcome at its input.
  abbrev ended : ℕ → Ingress C → Link (Delivery C) → Ingress C
  ended i g link =
      let lost = not (link.stats.lost_packets == g.losses_before) in
      record g {
        link = link;
        inputs =
            modify i
              (settle completes arrives zero_transmission zero_packet lost g.transmitting_bytes)
              g.inputs;
        transmitting_input = none;
        transmitting_bytes = 0;
      }

  released_lem :
      (i : ℕ) (g : Ingress C) (link : Link (Delivery C))
      → IsReleased g.link link
      → IsIngress g
      → IsPending g.link.config.queue_capacity (ended i g link)
  unfolding settle
  released_lem i g link r w =
      let lost = not (link.stats.lost_packets == g.losses_before) in
      let s =
        same_fifo g.link.config.bandwidth_bits_per_second g.link.config.queue_capacity
          g.next_sequence i
          (settle completes arrives zero_transmission zero_packet lost g.transmitting_bytes)
          g.inputs (λ x. refl) w.inputs in
      record {
        link = r.link;
        managed = r.managed;
        bandwidth = rw r.config w.bandwidth;
        inputs = rw r.config s.0;
        counted = omega (arith, s.1, w.counted);
        owner = λ t. ground (arith, t, r.free);
      }

module _ {C K : Type 0} (completes arrives : Transmission (Delivery C) → K)
    (zero_transmission : Transmission (Delivery C)) (zero_packet : IngressPacket C) (a n : ℕ)
    (e : Engine K) (v : IsEngine a n e) where
  -- The end of the link's transmission at a valid ingress returns while the engine has two ids left and
  -- the link can count an offer; the ingress and the engine are valid afterwards, and the engine's clock
  -- and bounds are unchanged.
  completed-IsIngress :
      (p : Transmission (Delivery C)) (draw : Bool) (g : Ingress C)
      → e.next_id + 1 < max_u64
      → g.link.stats.offered_packets < max_u64
      → g.link.transmitting ≡ true
      → IsIngress g
      → Returns {A = Ingress C × Engine K}
          (λ r. IsIngress r.0 × IsEngine a n r.1 × IsKept e r.1)
          (completed completes arrives zero_transmission zero_packet p draw g e)
  unfolding completed finish_transmission
  completed-IsIngress p draw g h k t w =
      let (i, mine) = w.owner t in
      Returns-elim
        (λ r.
          Returns {A = Ingress C × Engine K} (λ r. IsIngress r.0 × IsEngine a n r.1 × IsKept e r.1)
            (elim r [
              | panic ↦ panic
              | ok (link, f) ↦
                  finish_transmission completes arrives zero_transmission zero_packet
                    (record g { link = link }) f
            ]))
        (Link.complete completes arrives zero_transmission p draw g.link e)
        (complete-IsReleased completes arrives zero_transmission a n e v p draw g.link (omega arith)
          t w.managed w.link)
        (λ r m.
          subst
            (λ o.
              Returns {A = Ingress C × Engine K}
                (λ r. IsIngress r.0 × IsEngine a n r.1 × IsKept e r.1)
                (elim o [
                  | none ↦ panic
                  | some j ↦
                      dispatch completes arrives zero_transmission zero_packet
                        (ended completes arrives zero_transmission zero_packet j g r.0) r.1
                ]))
            (sym mine)
            (Returns-elim
              (λ r.
                Returns {A = Ingress C × Engine K}
                  (λ r. IsIngress r.0 × IsEngine a n r.1 × IsKept e r.1) r)
              (dispatch completes arrives zero_transmission zero_packet
                (ended completes arrives zero_transmission zero_packet i g r.0) r.1)
              (dispatch-Returns completes arrives zero_transmission zero_packet a n r.1 m.1.valid
                g.link.config.queue_capacity
                (ended completes arrives zero_transmission zero_packet i g r.0)
                (omega (arith, m.1.ids)) (omega (arith, m.0.offered))
                (released_lem completes arrives zero_transmission zero_packet i g r.0 m.0 w))
              (λ x d. (
                IsHolding-IsIngress g.link.config.queue_capacity x.0
                    (inl
                      (sym (ap (λ (c : Link.Config). c.queue_capacity) (d.0.config ∙ m.0.config))))
                    d.0.holding,
                d.1.valid,
                IsKept-trans m.1.kept d.1.kept,
              ))))
