-- ===== src/Host/Discard.antt =====
-- simulator/host/host.go: `DiscardPending` and the events that it cancels.
use balancer_go.Base.{
  ℕ, ◌+◌, ◌-◌, ◌≡◌, refl, Bool, true, false, ◌⊎◌, ◌==◌, ◌||◌, ◌&&◌, not, List, [], ◌∷◌, length,
  arith, Bool-cases, inl, inr, +u64_lem,
}
use balancer_go.Engine.{Engine, cancel}
use balancer_go.Engine.Queue.{IsEngine, is_queued}
use balancer_go.Engine.Operations.{cancel_lem}
use balancer_go.Host.{Host, Active, queued, account_busy_time, cancel_all, discard_pending}
use balancer_go.Host.Invariant.{IsHost}

-- Whether the event completes work in service.
abbrev pub is_completion : {C : Type 0} → ℕ → List (Active C) → Bool
is_completion id [] = false
is_completion id (a ∷ active) = (a.completion == id) || is_completion id active

-- The engine after the completions of these packets were cancelled.
pub record IsCancelled {C K : Type 0} (a i : ℕ) (active : List (Active C)) (e f : Engine K)
    : Type 0 where
  pub valid : IsEngine a i f
  pub others :
      (id : ℕ) → is_queued id f.queue ≡ (not (is_completion id active) && is_queued id e.queue)

cancel_all_lem :
    {C K : Type 0} (completes : ℕ → K) (a i : ℕ) (active : List (Active C)) (e : Engine K)
    → IsEngine a i e
    → IsCancelled a i active e (cancel_all completes active e)
cancel_all_lem completes a i [] e v = record { valid = v; others = λ id. refl }
cancel_all_lem completes a i (x ∷ rest) e v =
    let one = cancel_lem a i e v x.completion in
    let more = cancel_all_lem completes a i rest (cancel x.completion e).0 one.2 in
    record { valid = more.valid; others = λ id. ground (arith, one.1 id, more.others id) }

-- A host after its work was discarded.
pub record IsDiscarded {C : Type 0} (h d : Host C) : Type 0 where
  pub valid : IsHost d
  pub none_active : d.active ≡ []
  pub none_waiting : d.queue ≡ []
  pub counted :
      d.stats.discarded_packets
      ≡ h.stats.discarded_packets + length h.active + (length h.queue - h.queue_head)
  pub processed : d.stats.processed_packets ≡ h.stats.processed_packets
  pub accepted : d.stats.accepted_packets ≡ h.stats.accepted_packets
  pub still_runs : d.stopped ≡ false

module _ {C K : Type 0} (completes : ℕ → K) (a i : ℕ) (e : Engine K) (u : IsEngine a i e) where
  -- `DiscardPending` changes nothing at a stopped host. At any other valid host it leaves nothing in
  -- service or waiting, counts all of it as discarded and none of it as processed, and cancels exactly
  -- the completions of the packets in service; the host and the engine stay valid.
  pub discard-IsDiscarded :
      (h : Host C)
      → IsHost h
      → ((h.stopped ≡ true) × (discard_pending completes h e ≡ (h, e)))
        ⊎ ((h.stopped ≡ false)
            × IsDiscarded h (discard_pending completes h e).0
            × IsCancelled a i h.active e (discard_pending completes h e).1)
  unfolding discard_pending account_busy_time queued
  discard-IsDiscarded h v =
      let discarded =
        +u64_lem h.stats.discarded_packets (length h.active + (length h.queue - h.queue_head))
          (omega (arith, v.conserved, v.offered, v.fits)) in
      elim (Bool-cases h.stopped) [
        | inl s ↦ simp s (inl (refl, refl))
        | inr s ↦ simp s (
            inr (
              refl,
              record {
                valid = ground (arith, discarded, v.conserved, v.offered, v.fits);
                none_active = refl;
                none_waiting = refl;
                counted = omega (arith, discarded);
                processed = refl;
                accepted = refl;
                still_runs = refl;
              },
              cancel_all_lem completes a i h.active e u,
            ))
      ]
