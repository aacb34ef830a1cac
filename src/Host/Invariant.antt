-- ===== src/Host/Invariant.antt =====
-- simulator/host/host.go: `New`, `Submit` and the completion of a packet.
use balancer_go.Base.{
  ℕ, suc, ◌+◌, ◌-◌, ◌≤◌, ◌<◌, ◌≡◌, Bool, true, false, ltb, leb, ◌==◌, Option, none, some, [], ◌∷◌,
  length, arith, Bool-cases, inl, inr, length-append, max_u64, +u64_lem,
}
use balancer_go.Base.Int.{pos}
use balancer_go.Engine.{Engine, Result, ok, panic, schedule_after}
use balancer_go.Engine.Queue.{IsEngine}
use balancer_go.Engine.Operations.{Scheduled, schedule_after_lem}
use balancer_go.Host.{
  Config, new, Host, Work, queued, account_busy_time, begin, start, offer, admit, submit,
}

module _ {C : Type 0} where
  pub record IsHost (h : Host C) : Type 0 where
    pub head_fits : h.queue_head ≤ length h.queue
    pub cores_fit : length h.active ≤ h.config.cores
    pub queue_fits : length h.queue - h.queue_head ≤ h.config.queue_capacity
    pub no_idle_core : 0 < length h.queue - h.queue_head → length h.active ≡ h.config.cores
    pub conserved :
        h.stats.accepted_packets
        ≡ h.stats.processed_packets
          + h.stats.discarded_packets
          + length h.active
          + (length h.queue - h.queue_head)
    pub offered : h.stats.offered_packets ≡ h.stats.accepted_packets + h.stats.queue_dropped_packets
    pub fits : h.stats.offered_packets ≤ max_u64

  -- A host from which a waiting or new packet has just been taken to a free core.
  begin-IsHost :
      (now : ℕ) (work : Work C) (id : ℕ) (h : Host C)
      → h.queue_head ≤ length h.queue
      → length h.active < h.config.cores
      → length h.queue - h.queue_head ≤ h.config.queue_capacity
      → (0 < length h.queue - h.queue_head → suc (length h.active) ≡ h.config.cores)
      → h.stats.accepted_packets
        ≡ h.stats.processed_packets
          + h.stats.discarded_packets
          + suc (length h.active)
          + (length h.queue - h.queue_head)
      → h.stats.offered_packets ≡ h.stats.accepted_packets + h.stats.queue_dropped_packets
      → h.stats.offered_packets ≤ max_u64
      → IsHost (begin now work id h)
  unfolding begin account_busy_time
  begin-IsHost now work id h a b c d e f g = record {
    head_fits = a;
    cores_fit = omega arith;
    queue_fits = c;
    no_idle_core = d;
    conserved = e;
    offered = f;
    fits = g;
  }

  account-IsHost : (now : ℕ) (h : Host C) → IsHost h → IsHost (account_busy_time now h)
  unfolding account_busy_time
  account-IsHost now h v = record {
    head_fits = v.head_fits;
    cores_fit = v.cores_fit;
    queue_fits = v.queue_fits;
    no_idle_core = v.no_idle_core;
    conserved = v.conserved;
    offered = v.offered;
    fits = v.fits;
  }

module _ {C K : Type 0} (completes : ℕ → K) (a i : ℕ) (e : Engine K) (u : IsEngine a i e) where
  -- `start` reaches its end unless the engine has used up its ids.
  start_cases {ℓ} :
      (P : Result (Host C × Engine K) → Type ℓ) (work : Work C) (h : Host C)
      → ((f : Engine K) (id : ℕ) → P (ok (begin e.now work id h, f)))
      → (e.next_id ≡ max_u64 → P panic)
      → P (start completes work h e)
  unfolding start
  start_cases P work h good full =
      cases (schedule_after (pos h.config.packet_processing_time) (completes h.next_pointer) e)
        (schedule_after_lem a i e u h.config.packet_processing_time (completes h.next_pointer))
    where
      cases :
          (r : Result (Engine K × ℕ))
          → Scheduled a i e (e.now + h.config.packet_processing_time) (completes h.next_pointer) r
          → P (elim r [ panic ↦ panic | ok (f, id) ↦ ok (begin e.now work id h, f) ])
      cases r (Scheduled.too_late late eq) = rw eq (good e 0)
      cases r (Scheduled.overflows no_ids eq t) = rw eq (full no_ids)
      cases r (Scheduled.is_queued_now f id eq w k z n t q) = rw eq (good f id)

  -- How a call ends: the host is valid, or the engine has used up its ids and panics.
  abbrev pub Submitted : Result (Host C × Engine K × Bool × Option C) → Type 0
  Submitted (ok r) = IsHost r.0
  Submitted panic = e.next_id ≡ max_u64

  abbrev pub Completed : Result (Host C × Engine K × Option C) → Type 0
  Completed (ok r) = IsHost r.0
  Completed panic = e.next_id ≡ max_u64

  -- `Submit` on a valid host that can still count an offer leaves a valid one, on every branch: no core
  -- is idle while a packet waits, at most the configured numbers are in service and waiting, each
  -- accepted packet is processed, discarded, in service or waiting, and each offered one is accepted or
  -- dropped. It panics only if the engine has used up its ids.
  pub submit-IsHost :
      (c : C) (h : Host C)
      → IsHost h
      → h.stats.offered_packets < max_u64
      → Submitted (submit completes c h e)
  unfolding submit queued
  submit-IsHost c h v k =
      let more = +u64_lem h.stats.offered_packets 1 (omega arith) in
      let accepted = +u64_lem h.stats.accepted_packets 1 (omega (arith, v.offered)) in
      let processed =
        +u64_lem h.stats.processed_packets 1 (omega (arith, v.offered, v.conserved)) in
      let dropped = +u64_lem h.stats.queue_dropped_packets 1 (omega (arith, v.offered)) in
      let work : Work C = record { queued_at = e.now; on_processed = some c } in
      let longer = length-append h.queue (work ∷ []) in
      elim (Bool-cases h.stopped) [
        | inl s ↦ simp s v
        | inr s ↦ elim (Bool-cases (h.config.packet_processing_time == 0)) [
          | inl z ↦ simp (s, z) (ground (arith, more, accepted, processed, v.conserved, v.offered))
          | inr z ↦ elim (Bool-cases (ltb (length h.active) h.config.cores)) [
            | inl free ↦
                simp (s, z, free)
                  (start_cases
                    (λ r. Submitted (elim r [ panic ↦ panic | ok (g, f) ↦ ok (g, f, true, none) ]))
                    work (record (admit completes (offer completes h)) { stopped = false })
                    (λ f id.
                      begin-IsHost e.now work id _ v.head_fits (ground arith) v.queue_fits
                        (λ p. ground (arith, v.no_idle_core)) (omega (arith, accepted, v.conserved))
                        (omega (arith, more, accepted, v.offered)) (omega (arith, more)))
                    (λ n. n))
            | inr busy ↦
                elim (Bool-cases (leb h.config.queue_capacity (length h.queue - h.queue_head))) [
                  | inl full ↦
                      simp (s, z, busy, full)
                        (ground (arith, more, dropped, v.conserved, v.offered))
                  | inr room ↦
                      simp (s, z, busy, room)
                        (ground
                          (arith, more, accepted, longer, v.conserved, v.offered, v.cores_fit))
                ]
          ]
        ]
      ]

-- A new host is valid.
pub new-IsHost :
    {C K : Type 0} (completes : ℕ → K) (config : Config) (e : Engine K) (h : Host C)
    → new completes config e ≡ some h
    → IsHost h
unfolding new
new-IsHost completes config e h eq = ground arith
