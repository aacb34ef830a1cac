-- ===== src/Network/Link/Completion.antt =====
-- simulator/network/link.go: the callback of `start` as a whole.
use mathlib.Core.Path.{subst}
use balancer_go.Base.{
  ℕ, ◌+◌, ◌<◌, ◌≡◌, refl, ap, ◌∙◌, sym, Bool, true, false, none, some, arith, Bool-cases,
  Option-cases, inl, inr, ◌⊎◌, max_u64, ◌+u64◌, drop, length, get_elem?-lt,
}
use balancer_go.Base.Int.{pos}
use balancer_go.Engine.{Engine, Result, ok, panic, schedule_after}
use balancer_go.Engine.Queue.{IsEngine}
use balancer_go.Engine.Operations.{IsKept}
use balancer_go.Engine.Exec.{IsKept-trans}
use balancer_go.Engine.Returns.{Returns, Returns-elim, Returns-with, ok-injective, IsNext}
use balancer_go.Fifo.{Fifo, first, remove_head}
use balancer_go.Fifo.Refinement.{waiting, remove_head_lem}
use balancer_go.Network.Link.{Link, Transmission, pop, start, finish, start_next, complete, happens}
use balancer_go.Network.Link.Invariant.{IsLink}
use balancer_go.Network.Link.Progress.{IsFree, finish-Returns, start_next-Returns}

inside : {A : Type 0} (q : Fifo A) (next : A) → first q ≡ some next → q.head < length q.slots
unfolding first
inside q next f = get_elem?-lt q.slots q.head next f

module _ {C K : Type 0} (completes arrives : Transmission C → K) (zero : Transmission C) where
  -- The packet of a transmission that ended is lost, or its arrival is scheduled.
  pub record IsEnded (p : Transmission C) (lost : Bool) (l : Link C) (e : Engine K)
      (r : Link C × Engine K) : Type 0 where
    pub same_fifo : r.0.fifo ≡ l.fifo
    pub same_manager : r.0.managed ≡ l.managed
    pub free : r.0.transmitting ≡ false
    pub outcome :
        ((lost ≡ true)
          × (r.1 ≡ e)
          × (r.0.travelling ≡ l.travelling)
          × (r.0.stats.lost_packets ≡ (l.stats.lost_packets +u64 1)))
        ⊎ ((lost ≡ false)
            × ((id : ℕ) × (schedule_after (pos l.config.packet_travel_time) (arrives p) e
                  ≡ ok (r.1, id)))
            × (r.0.travelling ≡ l.travelling + 1)
            × (r.0.stats.lost_packets ≡ l.stats.lost_packets))

  pub finish_lem :
      (p : Transmission C) (lost : Bool) (l : Link C) (e : Engine K) (r : Link C × Engine K)
      → finish completes arrives zero p lost l e ≡ ok r
      → IsEnded p lost l e r
  unfolding finish
  finish_lem p true l e r eq =
      subst (λ (s : Link C × Engine K). IsEnded p true l e s) (ok-injective _ r eq)
        (record {
          same_fifo = refl;
          same_manager = refl;
          free = refl;
          outcome = inl (refl, refl, refl, refl);
        })
  finish_lem p false l e r eq =
      cases (schedule_after (pos l.config.packet_travel_time) (arrives p) e) refl eq
    where
      freed : Link C
      freed = record l {
        transmitting = false;
        travelling = l.travelling + 1;
        stats = record l.stats { transmitted_bytes = l.stats.transmitted_bytes +u64 p.size_bytes };
      }

      cases :
          (s : Result (Engine K × ℕ))
          → schedule_after (pos l.config.packet_travel_time) (arrives p) e ≡ s
          → (elim s [ panic ↦ panic | ok (f, id) ↦ ok (freed, f) ]) ≡ ok r
          → IsEnded p false l e r
      cases panic at q = ground (arith, q)
      cases (ok (f, id)) at q =
          subst (λ (s : Link C × Engine K). IsEnded p false l e s) (ok-injective _ r q)
            (record {
              same_fifo = refl;
              same_manager = refl;
              free = refl;
              outcome = inr (refl, (id, at), refl, refl);
            })

  -- What follows on a link whose transmission has ended: nothing, or the oldest waiting packet.
  pub record IsResting (l : Link C) (e : Engine K) (r : Link C × Engine K) : Type 0 where
    pub reason : (l.managed ≡ true) ⊎ (first l.fifo ≡ none)
    pub same_engine : r.1 ≡ e
    pub same_fifo : r.0.fifo ≡ l.fifo
    pub free : r.0.transmitting ≡ false

  pub record IsStarted (l : Link C) (e : Engine K) (r : Link C × Engine K) : Type 0 where
    pub autonomous : l.managed ≡ false
    pub next : Transmission C
    pub oldest : first l.fifo ≡ some next
    pub event : ℕ
    pub scheduled : schedule_after (pos next.duration) (completes next) e ≡ ok (r.1, event)
    pub others_wait : waiting r.0.fifo ≡ drop 1 (waiting l.fifo)
    pub busy : r.0.transmitting ≡ true

  start_lem :
      (next : Transmission C) (l : Link C) (e : Engine K) (r : Link C × Engine K)
      → start completes arrives zero next l e ≡ ok r
      → (r.0 ≡ record l { transmitting = true })
        × ((id : ℕ) × (schedule_after (pos next.duration) (completes next) e ≡ ok (r.1, id)))
  unfolding start
  start_lem next l e r eq = cases (schedule_after (pos next.duration) (completes next) e) refl eq
    where
      cases :
          (s : Result (Engine K × ℕ))
          → schedule_after (pos next.duration) (completes next) e ≡ s
          → (elim s [ panic ↦ panic | ok (f, id) ↦ ok (record l { transmitting = true }, f) ])
            ≡ ok r
          → (r.0 ≡ record l { transmitting = true })
            × ((id : ℕ) × (schedule_after (pos next.duration) (completes next) e ≡ ok (r.1, id)))
      cases panic at q = ground (arith, q)
      cases (ok (f, id)) at q =
          let same = ok-injective _ r q in
          (
            ap (λ (s : Link C × Engine K). s.0) (sym same),
            (id, at ∙ ap (λ (s : Link C × Engine K). ok (s.1, id)) same),
          )

  start_next_lem :
      (l : Link C) (e : Engine K) (r : Link C × Engine K)
      → l.transmitting ≡ false
      → start_next completes arrives zero l e ≡ ok r
      → IsResting l e r ⊎ IsStarted l e r
  unfolding start_next pop
  start_next_lem l e r free eq = elim (Bool-cases l.managed) [
    | inl m ↦ let same : (l, e) ≡ r = ok-injective _ r (simp m at eq) in inl (rest (inl m) same)
    | inr m ↦ elim (Option-cases (first l.fifo)) [
      | inl f ↦
          let same : (l, e) ≡ r = ok-injective _ r (simp (m, f) at eq) in inl (rest (inr f) same)
      | inr (next, f) ↦
          let popped : Link C = record l { fifo = remove_head zero l.fifo; managed = false } in
          let began : start completes arrives zero next popped e ≡ ok r = simp (m, f) at eq in
          let s = start_lem next popped e r began in
          inr (record {
            autonomous = m;
            next = next;
            oldest = f;
            event = s.1.0;
            scheduled = s.1.1;
            others_wait =
                ap (λ (k : Link C). waiting k.fifo) s.0
                ∙ (remove_head_lem zero l.fifo (inside l.fifo next f)).1;
            busy = ap (λ (k : Link C). k.transmitting) s.0;
          })
    ]
  ]
    where
      rest : (l.managed ≡ true) ⊎ (first l.fifo ≡ none) → (l, e) ≡ r → IsResting l e r
      rest reason same = record {
        reason = reason;
        same_engine = ap (λ (s : Link C × Engine K). s.1) (sym same);
        same_fifo = ap (λ (s : Link C × Engine K). s.0.fifo) (sym same);
        free = ap (λ (s : Link C × Engine K). s.0.transmitting) (sym same) ∙ free;
      }

  -- A transmission ends, and another may start.
  pub record IsCompleted (p : Transmission C) (lost : Bool) (l : Link C) (e : Engine K)
      (r : Link C × Engine K) : Type 0 where
    pub between : Link C × Engine K
    pub ended : IsEnded p lost l e between
    pub continued : IsResting between.0 between.1 r ⊎ IsStarted between.0 between.1 r

module _ {C K : Type 0} (completes arrives : Transmission C → K) (zero : Transmission C) (a i : ℕ)
    (e : Engine K) (v : IsEngine a i e) where
  -- When a transmission ends on a valid link, its packet is counted as lost and the engine is unchanged,
  -- or it is counted as travelling and its arrival is scheduled after the travel time. Then an
  -- autonomous link takes its oldest waiting packet off the queue and schedules its completion after
  -- its duration; a managed link, or one with nothing waiting, stays free. The call returns while the
  -- engine has two ids left; the link and the engine are valid afterwards, and the engine's clock and
  -- bounds are unchanged.
  pub complete-IsLink :
      (p : Transmission C) (draw : Bool) (l : Link C)
      → e.next_id + 1 < max_u64
      → l.transmitting ≡ true
      → IsLink l
      → Returns {A = Link C × Engine K}
          (λ r.
            (IsLink r.0 × IsEngine a i r.1 × IsKept e r.1)
            × IsCompleted completes arrives zero p (happens l.config.loss_rate draw) l e r)
          (complete completes arrives zero p draw l e)
  unfolding complete
  complete-IsLink p draw l h t w =
      let lost = happens l.config.loss_rate draw in
      let Done : Link C × Engine K → Type 0 = λ r.
        (IsLink r.0 × IsEngine a i r.1 × IsKept e r.1)
        × IsCompleted completes arrives zero p lost l e r in
      let step = finish completes arrives zero p lost l e in
      Returns-elim
        (λ r.
          Returns {A = Link C × Engine K} Done
            (elim r [ panic ↦ panic | ok (m, f) ↦ start_next completes arrives zero m f ]))
        step
        (Returns-with (λ r. IsFree r.0 × IsNext a i e v r.1)
          (IsEnded completes arrives zero p lost l e) step
          (finish-Returns completes arrives zero a i e v p lost l (omega arith) t w)
          (finish_lem completes arrives zero p lost l e))
        (λ x n.
          let next = start_next completes arrives zero x.0 x.1 in
          Returns-elim (λ r. Returns {A = Link C × Engine K} Done r) next
            (Returns-with (λ r. IsLink r.0 × IsNext a i x.1 n.0.1.valid r.1)
              (λ r.
                IsResting completes arrives zero x.0 x.1 r
                ⊎ IsStarted completes arrives zero x.0 x.1 r)
              next
              (start_next-Returns completes arrives zero a i x.1 n.0.1.valid x.0
                (omega (arith, n.0.1.ids)) n.0.0)
              (λ r. start_next_lem completes arrives zero x.0 x.1 r n.1.free))
            (λ y m. (
              (m.0.0, m.0.1.valid, IsKept-trans n.0.1.kept m.0.1.kept),
              record { between = x; ended = n.1; continued = m.1 },
            )))
