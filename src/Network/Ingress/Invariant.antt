-- ===== src/Network/Ingress/Invariant.antt =====
-- simulator/network/ingress.go: the ingress beside its link, and `dispatch`.
use balancer_go.Base.{
  ℕ, ◌-◌, ◌≤◌, ◌<◌, ◌≡◌, ◌⊎◌, refl, ◌∙◌, Bool, true, false, if◌then◌else◌, none, some, List,
  get_elem?, arith, Bool-cases, Option-cases, inl, inr, max_i64, max_u64,
}
use balancer_go.Base.Int.{pos}
use balancer_go.Engine.{Engine, ok, panic}
use balancer_go.Engine.Queue.{IsEngine}
use balancer_go.Engine.Operations.{IsKept-refl}
use balancer_go.Engine.Returns.{Returns, Returns-elim, IsNext}
use balancer_go.Fifo.{first}
use balancer_go.Network.Serialization.{ceiling}
use balancer_go.Network.Link as Link
use balancer_go.Network.Link.{
  Link, Transmission, Config, try_start, ready, count_accepted, count_offered,
}
use balancer_go.Network.Link.Invariant.{IsLink, start-Returns, duration_lem, sent-IsLink}
use balancer_go.Network.Ingress.{
  Ingress, Input, IngressPacket, Delivery, oldest_from, dispatch, take_oldest,
}
use balancer_go.Network.Ingress.Order.{AllInputs, waiting_packets, IsFrom, oldest_lem}
use balancer_go.Network.Ingress.Removal.{removed-AllInputs}

module _ {C : Type 0} where
  -- A valid ingress, whose inputs have at most `room` packets waiting.
  pub record IsHolding (room : ℕ) (g : Ingress C) : Type 0 where
    pub link : IsLink g.link
    pub managed : g.link.managed ≡ true
    pub bandwidth : 0 < g.link.config.bandwidth_bits_per_second
    pub inputs : AllInputs g.link.config.bandwidth_bits_per_second room g.next_sequence g.inputs
    pub counted : g.queued_packets ≡ waiting_packets g.inputs
    pub working : g.link.transmitting ≡ false → waiting_packets g.inputs ≡ 0
    pub owner : g.link.transmitting ≡ true → (i : ℕ) × (g.transmitting_input ≡ some i)

  abbrev pub IsIngress : Ingress C → Type 0
  IsIngress g = IsHolding g.link.config.queue_capacity g

  -- An ingress whose link may be free while packets wait.
  pub record IsPending (room : ℕ) (g : Ingress C) : Type 0 where
    pub link : IsLink g.link
    pub managed : g.link.managed ≡ true
    pub bandwidth : 0 < g.link.config.bandwidth_bits_per_second
    pub inputs : AllInputs g.link.config.bandwidth_bits_per_second room g.next_sequence g.inputs
    pub counted : g.queued_packets ≡ waiting_packets g.inputs
    pub owner : g.link.transmitting ≡ true → (i : ℕ) × (g.transmitting_input ≡ some i)

  -- What `dispatch` does to an ingress.
  pub record IsDispatched (room : ℕ) (g h : Ingress C) : Type 0 where
    pub holding : IsHolding room h
    pub config : h.link.config ≡ g.link.config
    pub fewer :
        g.link.transmitting ≡ false → waiting_packets h.inputs ≡ waiting_packets g.inputs - 1

  chosen :
      (inputs : List (Input C)) (j : ℕ) (p : IngressPacket C)
      → IsFrom 0 none inputs (j, p)
      → (x : Input C) × (get_elem? inputs j ≡ some x) × (first x.fifo ≡ some p)
  chosen inputs j p (inl f) = ground arith
  chosen inputs j p (inr (x, h, at, f)) =
      let same : j - 0 ≡ j = omega arith in (x, rw same at at, f)

  settled :
      (room : ℕ) (g : Ingress C)
      → (g.link.transmitting ≡ true) ⊎ (waiting_packets g.inputs ≡ 0)
      → IsPending room g
      → IsDispatched room g g
  settled room g h w = record {
    holding = record {
      link = w.link;
      managed = w.managed;
      bandwidth = w.bandwidth;
      inputs = w.inputs;
      counted = w.counted;
      working = λ f. ground arith;
      owner = w.owner;
    };
    config = refl;
    fewer = λ f. ground arith;
  }

  -- A managed link starts a packet when it is free.
  record IsStarted (before after : Link (Delivery C)) : Type 0 where
    link : IsLink after
    config : after.config ≡ before.config
    managed : after.managed ≡ before.managed
    busy : after.transmitting ≡ true

module _ {C K : Type 0} (completes arrives : Transmission (Delivery C) → K)
    (zero_transmission : Transmission (Delivery C)) (zero_packet : IngressPacket C) (a i : ℕ)
    (e : Engine K) (v : IsEngine a i e) where
  unchanged : IsNext a i e v e
  unchanged = record { valid = v; kept = IsKept-refl e; ids = omega arith }

  try_start-Returns :
      (size : ℕ) (d : Delivery C) (l : Link (Delivery C))
      → e.next_id < max_u64
      → l.stats.offered_packets < max_u64
      → l.transmitting ≡ false
      → 0 < l.config.bandwidth_bits_per_second
      → ceiling size l.config.bandwidth_bits_per_second ≤ max_i64
      → IsLink l
      → Returns {A = Link (Delivery C) × Engine K × Bool}
          (λ r. IsStarted l r.0 × IsNext a i e v r.1 × (r.2 ≡ true))
          (try_start completes arrives zero_transmission (pos size) d l e)
  unfolding try_start ready
  try_start-Returns size d l h k free positive fits w =
      let duration =
        duration_lem completes arrives zero_transmission a i e v size
          l.config.bandwidth_bits_per_second positive fits in
      simp (free, duration)
        (Returns-elim
          (λ r.
            Returns {A = Link (Delivery C) × Engine K × Bool}
              (λ r. IsStarted l r.0 × IsNext a i e v r.1 × (r.2 ≡ true))
              (elim r [ panic ↦ panic | ok (m, f) ↦ ok (m, f, true) ]))
          (Link.start completes arrives zero_transmission _ _ e)
          (start-Returns completes arrives zero_transmission a i e v _ _ h)
          (λ r n. (
            rw n.0 (record {
              link = sent-IsLink size false l free k w;
              config = refl;
              managed = refl;
              busy = refl;
            }),
            n.1,
            refl,
          )))

  -- The oldest packet has started.
  taken_lem :
      (room : ℕ) (g : Ingress C) (link : Link (Delivery C)) (j : ℕ) (x : Input C)
      (p : IngressPacket C)
      → get_elem? g.inputs j ≡ some x
      → first x.fifo ≡ some p
      → IsPending room g
      → IsStarted g.link link
      → IsDispatched room g (take_oldest completes arrives zero_transmission zero_packet j p link g)
  unfolding take_oldest
  taken_lem room g link j x p here head w n =
      let r =
        removed-AllInputs zero_packet p g.link.config.bandwidth_bits_per_second room g.next_sequence
          j x g.inputs here head w.inputs in
      record {
        holding = record {
          link = n.link;
          managed = n.managed ∙ w.managed;
          bandwidth = rw n.config w.bandwidth;
          inputs = rw n.config r.0;
          counted = omega (arith, r.1, w.counted);
          working = λ f. ground (arith, n.busy);
          owner = λ f. (j, refl);
        };
        config = n.config;
        fewer = λ f. omega (arith, r.1);
      }

  -- `dispatch` with a link that may be free while packets wait.
  pub dispatch-Returns :
      (room : ℕ) (g : Ingress C)
      → e.next_id < max_u64
      → g.link.stats.offered_packets < max_u64
      → IsPending room g
      → Returns {A = Ingress C × Engine K}
          (λ r. IsDispatched room g r.0 × IsNext a i e v r.1)
          (dispatch completes arrives zero_transmission zero_packet g e)
  unfolding dispatch ready
  dispatch-Returns room g h k w =
      let o =
        oldest_lem g.link.config.bandwidth_bits_per_second room g.next_sequence 0 none g.inputs
          w.inputs in
      elim (Bool-cases g.link.transmitting) [
        | inl t ↦ simp t (settled room g (inl t) w, unchanged)
        | inr t ↦ elim (Option-cases (oldest_from 0 none g.inputs)) [
          | inl f ↦
              let none_there = rw f at o in
              simp (t, f) (settled room g (inr none_there.1) w, unchanged)
          | inr ((j, p), f) ↦
              let (since, later, from) = rw f at o in
              let (x, here, head) = chosen g.inputs j p from in
              let r =
                removed-AllInputs zero_packet p g.link.config.bandwidth_bits_per_second room
                  g.next_sequence j x g.inputs here head w.inputs in
              simp (t, f)
                (Returns-elim
                  (λ r.
                    Returns {A = Ingress C × Engine K}
                      (λ r. IsDispatched room g r.0 × IsNext a i e v r.1)
                      (elim r [
                        | panic ↦ panic
                        | ok (link, f, started) ↦
                            if started
                            then ok (
                              take_oldest completes arrives zero_transmission zero_packet j p link
                                  g,
                              f,
                            )
                            else panic
                      ]))
                  (try_start completes arrives zero_transmission (pos p.size_bytes)
                    (record { input = j; packet = p }) g.link e)
                  (try_start-Returns p.size_bytes (record { input = j; packet = p }) g.link h k t
                    w.bandwidth r.2 w.link)
                  (λ y n. simp n.2 (taken_lem room g y.0 j x p here head w n.0, n.1)))
        ]
      ]
