-- ===== src/Network/Ingress/Removal.antt =====
-- simulator/network/ingress.go: `removeHead` at an input.
use Prim.{tt}
use balancer_go.Base.{
  ℕ, zero, suc, ◌+◌, ◌≤◌, ◌≡◌, ap, sym, ◌∙◌, true, Option, none, some, List, [], ◌∷◌, length,
  get_elem?, drop, arith, max_i64, length-drop, get_elem?-lt,
}
use balancer_go.Fifo.{queued, first, remove_head}
use balancer_go.Fifo.Refinement.{waiting, queued_lem, first_lem, remove_head_lem}
use balancer_go.Network.Serialization.{ceiling}
use balancer_go.Network.Ingress.{Input, IngressPacket, modify}
use balancer_go.Network.Ingress.Order.{IsSequence, IsInput, AllInputs, waiting_packets}

module _ {C : Type 0} where
  -- Removing the head leaves the later packets.
  removed-IsInput :
      (z p : IngressPacket C) (b c hi : ℕ) (x : Input C)
      → first x.fifo ≡ some p
      → IsInput b c hi x
      → IsInput b c hi (record x { transmitting = true; fifo = remove_head z x.fifo })
        × (queued (remove_head z x.fifo) + 1 ≡ queued x.fifo)
        × (ceiling p.size_bytes b ≤ max_i64)
  unfolding first queued
  removed-IsInput z p b c hi x e v =
      let inside = get_elem?-lt x.fifo.slots x.fifo.head p e in
      let (valid, tail) = remove_head_lem z x.fifo inside in
      let shorter : queued (remove_head z x.fifo) + 1 ≡ queued x.fifo = omega (
        arith,
        inside,
        length-drop x.fifo.head x.fifo.slots,
        ap length tail,
        length-drop 1 (waiting x.fifo),
        queued_lem (remove_head z x.fifo),
      ) in
      let both = split (waiting x.fifo) (sym (first_lem x.fifo) ∙ e) v.sequence in
      (
        record { fifo = valid; room = omega (arith, shorter, v.room); sequence = rw tail both.0 },
        shorter,
        both.1,
      )
    where
      size_of : Option (IngressPacket C) → ℕ
      size_of none = 0
      size_of (some q) = q.size_bytes

      same :
          (q : IngressPacket C)
          → some q ≡ some p
          → ceiling q.size_bytes b ≤ max_i64
          → ceiling p.size_bytes b ≤ max_i64
      same q e h = rw (ap size_of e) at h

      split :
          (ps : List (IngressPacket C))
          → get_elem? ps 0 ≡ some p
          → IsSequence b 0 hi ps
          → IsSequence b 0 hi (drop 1 ps) × (ceiling p.size_bytes b ≤ max_i64)
      split [] e v = ground arith
      split (q ∷ []) e v = (tt, same q e v.2)
      split (q ∷ r ∷ rs) e v = ((omega arith, v.3.1, v.3.2, v.3.3), same q e v.2)

  abbrev first_of : Option (Input C) → Option (IngressPacket C)
  first_of none = none
  first_of (some x) = first x.fifo

  -- The chosen input's share of the list.
  pub removed-AllInputs :
      (z p : IngressPacket C) (b c hi i : ℕ) (x : Input C) (xs : List (Input C))
      → get_elem? xs i ≡ some x
      → first x.fifo ≡ some p
      → AllInputs b c hi xs
      → let ys = modify i (λ y. record y { transmitting = true; fifo = remove_head z y.fifo }) xs in
        AllInputs b c hi ys
        × (waiting_packets ys + 1 ≡ waiting_packets xs)
        × (ceiling p.size_bytes b ≤ max_i64)
  removed-AllInputs z p b c hi i x [] e f v = ground arith
  removed-AllInputs z p b c hi zero x (y ∷ ys) e f v =
      let r = removed-IsInput z p b c hi y (ap first_of e ∙ f) v.0 in
      ((r.0, v.1), omega (arith, r.1), r.2)
  removed-AllInputs z p b c hi (suc i) x (y ∷ ys) e f v =
      let rest = removed-AllInputs z p b c hi i x ys e f v.1 in
      ((v.0, rest.0), omega (arith, rest.1), rest.2)
