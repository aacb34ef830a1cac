-- ===== src/Network/Ingress/Order.antt =====
-- simulator/network/ingress.go: the loop of `dispatch`.
use Prim.{tt}
use balancer_go.Base.{
  ℕ, suc, ◌+◌, ◌-◌, ◌≤◌, ◌<◌, ◌≡◌, ◌⊎◌, refl, ap, sym, ◌∙◌, ltb, Option, none, some, List, [], ◌∷◌,
  length, get_elem?, arith, Bool-cases, inl, inr, max_i64,
}
use balancer_go.Fifo.{Fifo, queued, first}
use balancer_go.Fifo.Refinement.{IsFifo, waiting, queued_lem, first_lem}
use balancer_go.Network.Serialization.{ceiling}
use balancer_go.Network.Ingress.{Input, IngressPacket, older, oldest_from}

module _ {C : Type 0} where
  -- Sequence numbers above `lo` and up to `hi`, in ascending order, of packets whose duration at the given
  -- bandwidth fits an int64.
  abbrev pub IsSequence : ℕ → ℕ → ℕ → List (IngressPacket C) → Type 0
  IsSequence bandwidth lo hi [] = Unit {0}
  IsSequence bandwidth lo hi (p ∷ ps) =
      (lo < p.sequence)
      × (p.sequence ≤ hi)
      × (ceiling p.size_bytes bandwidth ≤ max_i64)
      × IsSequence bandwidth p.sequence hi ps

  pub record IsInput (bandwidth capacity hi : ℕ) (input : Input C) : Type 0 where
    pub fifo : IsFifo input.fifo
    pub room : queued input.fifo ≤ capacity
    pub sequence : IsSequence bandwidth 0 hi (waiting input.fifo)

  abbrev pub AllInputs : ℕ → ℕ → ℕ → List (Input C) → Type 0
  AllInputs bandwidth capacity hi [] = Unit {0}
  AllInputs bandwidth capacity hi (x ∷ xs) =
      IsInput bandwidth capacity hi x × AllInputs bandwidth capacity hi xs

  -- The packets that wait at all inputs.
  abbrev pub waiting_packets : List (Input C) → ℕ
  waiting_packets [] = 0
  waiting_packets (x ∷ xs) = queued x.fifo + waiting_packets xs

  -- Every waiting packet was admitted at `s` or later.
  abbrev pub IsSince : ℕ → List (IngressPacket C) → Type 0
  IsSince s [] = Unit {0}
  IsSince s (p ∷ ps) = (s ≤ p.sequence) × IsSince s ps

  abbrev pub AllSince : ℕ → List (Input C) → Type 0
  AllSince s [] = Unit {0}
  AllSince s (x ∷ xs) = IsSince s (waiting x.fifo) × AllSince s xs

  IsSince-sequence :
      (bandwidth s lo hi : ℕ) (ps : List (IngressPacket C))
      → s ≤ lo
      → IsSequence bandwidth lo hi ps
      → IsSince s ps
  IsSince-sequence bandwidth s lo hi [] h v = tt
  IsSince-sequence bandwidth s lo hi (p ∷ ps) h v =
      (omega (arith, v.0), IsSince-sequence bandwidth s p.sequence hi ps (omega (arith, v.0)) v.3)

  -- The first waiting packet of an input is its oldest.
  first-IsSince :
      (bandwidth hi : ℕ) (f : Fifo (IngressPacket C)) (p : IngressPacket C) (s : ℕ)
      → IsSequence bandwidth 0 hi (waiting f)
      → first f ≡ some p
      → s ≤ p.sequence
      → IsSince s (waiting f)
  first-IsSince bandwidth hi f p s v e h = cases (waiting f) v (sym (first_lem f) ∙ e)
    where
      cases :
          (ps : List (IngressPacket C))
          → IsSequence bandwidth 0 hi ps
          → get_elem? ps 0 ≡ some p
          → IsSince s ps
      cases [] v e = tt
      cases (q ∷ qs) v e =
          let same : q.sequence ≡ p.sequence = ground arith in
          (omega arith, IsSince-sequence bandwidth s q.sequence hi qs (omega arith) v.3)

  no-waiting : (f : Fifo (IngressPacket C)) → first f ≡ none → waiting f ≡ []
  no-waiting f e = cases (waiting f) (sym (first_lem f) ∙ e)
    where
      cases : (ps : List (IngressPacket C)) → get_elem? ps 0 ≡ none → ps ≡ []
      cases [] e = refl
      cases (q ∷ qs) e = ground arith

  -- Where the chosen packet comes from: it was the best before, or heads the input of its index.
  abbrev pub IsFrom :
      ℕ → Option (ℕ × IngressPacket C) → List (Input C) → ℕ × IngressPacket C → Type 0
  IsFrom i best inputs (j, p) =
      (best ≡ some (j, p))
      ⊎ ((x : Input C) × (i ≤ j) × (get_elem? inputs (j - i) ≡ some x) × (first x.fifo ≡ some p))

  abbrev pub IsNoLater : Option (ℕ × IngressPacket C) → ℕ → Type 0
  IsNoLater none s = Unit {0}
  IsNoLater (some (j, q)) s = s ≤ q.sequence

  abbrev pub IsOldest :
      ℕ → Option (ℕ × IngressPacket C) → List (Input C) → Option (ℕ × IngressPacket C) → Type 0
  IsOldest i best inputs none = (best ≡ none) × (waiting_packets inputs ≡ 0)
  IsOldest i best inputs (some (j, p)) =
      AllSince p.sequence inputs × IsNoLater best p.sequence × IsFrom i best inputs (j, p)

  -- An input found among the later ones.
  IsFrom-later :
      (i : ℕ) (x y : Input C) (xs : List (Input C)) (j : ℕ)
      → suc i ≤ j
      → get_elem? xs (j - suc i) ≡ some y
      → get_elem? (x ∷ xs) (j - i) ≡ some y
  IsFrom-later i x y xs j h e = let k : j - i ≡ suc (j - suc i) = omega arith in rw k e

  abbrev index_of : Option (ℕ × IngressPacket C) → ℕ
  index_of none = 0
  index_of (some r) = r.0

  abbrev packet_of : Option (ℕ × IngressPacket C) → Option (IngressPacket C)
  packet_of none = none
  packet_of (some r) = some r.1

  -- The packet at the head of this very input.
  IsFrom-here :
      (i : ℕ) (x : Input C) (xs : List (Input C)) (q p : IngressPacket C) (j : ℕ)
      → first x.fifo ≡ some q
      → ◌≡◌ {A = Option (ℕ × IngressPacket C)} (some (i, q)) (some (j, p))
      → (y : Input C) × (i ≤ j) × (get_elem? (x ∷ xs) (j - i) ≡ some y) × (first y.fifo ≡ some p)
  IsFrom-here i x xs q p j e same =
      let at : j ≡ i = sym (ap index_of same) in
      let zero_there : j - i ≡ 0 = omega arith in
      (x, omega arith, rw zero_there refl, e ∙ ap packet_of same)

  -- The turn of an input whose first waiting packet is `o`.
  turn :
      (b c hi i : ℕ) (x : Input C) (xs : List (Input C)) (o : Option (IngressPacket C))
      (best r : Option (ℕ × IngressPacket C))
      → IsInput b c hi x
      → first x.fifo ≡ o
      → IsOldest (suc i) (older i o best) xs r
      → IsOldest i best (x ∷ xs) r
  turn b c hi i x xs none best none v e h =
      (h.0, omega (arith, h.1, queued_lem x.fifo, ap length (no-waiting x.fifo e)))
  turn b c hi i x xs none best (some (j, p)) v e (since, later, from) =
      let nothing : IsSince p.sequence (waiting x.fifo) = rw (no-waiting x.fifo e) tt in
      (
        (nothing, since),
        later,
        elim from [
          | inl f ↦ inl f
          | inr (y, h, at, f) ↦ inr (y, omega (arith, h), IsFrom-later i x y xs j h at, f)
        ],
      )
  turn b c hi i x xs (some q) none none v e h = ground (arith, h.0)
  turn b c hi i x xs (some q) none (some (j, p)) v e (since, later, from) = (
    (first-IsSince b hi x.fifo q p.sequence v.sequence e later, since),
    tt,
    elim from [
      | inl f ↦ inr (IsFrom-here i x xs q p j e f)
      | inr (y, h, at, f) ↦ inr (y, omega (arith, h), IsFrom-later i x y xs j h at, f)
    ],
  )
  turn b c hi i x xs (some q) (some (k, o)) none v e h = ground (arith, h.0)
  turn b c hi i x xs (some q) (some (k, o)) (some (j, p)) v e h =
      elim (Bool-cases (ltb q.sequence o.sequence)) [
        | inl l ↦
            let (since, later, from) = rw l at h in
            (
              (first-IsSince b hi x.fifo q p.sequence v.sequence e later, since),
              ground (arith, later),
              elim from [
                | inl f ↦ inr (IsFrom-here i x xs q p j e f)
                | inr (y, h, at, f) ↦ inr (y, omega (arith, h), IsFrom-later i x y xs j h at, f)
              ],
            )
        | inr l ↦
            let (since, later, from) = rw l at h in
            (
              (first-IsSince b hi x.fifo q p.sequence v.sequence e (ground (arith, later)), since),
              later,
              elim from [
                | inl f ↦ inl f
                | inr (y, h, at, f) ↦ inr (y, omega (arith, h), IsFrom-later i x y xs j h at, f)
              ],
            )
      ]

  -- From a given index on, and beside the best packet so far, the loop of `dispatch` over inputs
  -- whose queues are in the order of admission finds nothing only when there was no best packet
  -- and none waits. Otherwise it finds the best one so far, or the packet that heads the queue of
  -- the input with the index that it reports, and neither a waiting packet nor the best one so far
  -- was admitted earlier.
  pub oldest_lem :
      (bandwidth capacity hi i : ℕ) (best : Option (ℕ × IngressPacket C)) (inputs : List (Input C))
      → AllInputs bandwidth capacity hi inputs
      → IsOldest i best inputs (oldest_from i best inputs)
  unfolding oldest_from
  oldest_lem b c hi i none [] v = (refl, refl)
  oldest_lem b c hi i (some (j, q)) [] v = (tt, omega arith, inl refl)
  oldest_lem b c hi i best (x ∷ xs) v =
      turn b c hi i x xs (first x.fifo) best (oldest_from (suc i) (older i (first x.fifo) best) xs)
        v.0 refl (oldest_lem b c hi (suc i) (older i (first x.fifo) best) xs v.1)
