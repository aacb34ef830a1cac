-- ===== src/Host/Counts.antt =====
-- simulator/host/host.go: the lengths of the host's lists.
use balancer_go.Base.{
  ℕ, suc, ◌-◌, ◌≤◌, ◌<◌, ◌≡◌, refl, ap, true, ◌==◌, List, [], ◌∷◌, ◌++◌, length, take, drop, arith,
  Bool-cases, inl, inr, length-append, length-take, length-drop,
}
use balancer_go.Host.{Host, Work, Active, is_active, without, pop, zero_work}

module _ {C : Type 0} where
  pub length-without :
      (p : ℕ) (active : List (Active C))
      → is_active p active ≡ true
      → suc (length (without p active)) ≡ length active
  length-without p [] e = ground arith
  length-without p (a ∷ rest) e = elim (Bool-cases (p == a.pointer)) [
    | inl f ↦ rw f refl
    | inr f ↦ rw f (ap suc (length-without p rest (ground arith)))
  ]

  -- Popping takes one of the waiting packets, also where it reclaims slots.
  pub pop_lem :
      (work : Work C) (h : Host C)
      → h.queue_head < length h.queue
      → ((pop work h).queue_head ≤ length (pop work h).queue)
        × (suc (length (pop work h).queue - (pop work h).queue_head)
            ≡ length h.queue - h.queue_head)
  unfolding pop
  pop_lem work h k =
      let head = suc h.queue_head in
      let emptied : List (Work C) = take h.queue_head h.queue ++ zero_work ∷ drop head h.queue in
      let front = length-take h.queue_head h.queue (omega arith) in
      let back = length-drop head h.queue in
      let all = length-append (take h.queue_head h.queue) (zero_work ∷ drop head h.queue) in
      let same : length emptied ≡ length h.queue = omega (arith, front, back, all) in
      let rest = length-drop head emptied in
      let cut =
        length-take (length h.queue - head) (drop head emptied) (omega (arith, same, rest)) in
      ground (arith, same, cut)

  pub pop_kept :
      (work : Work C) (h : Host C)
      → ((pop work h).active ≡ h.active)
        × ((pop work h).stats ≡ h.stats)
        × ((pop work h).config ≡ h.config)
  unfolding pop
  pop_kept work h = ground arith
