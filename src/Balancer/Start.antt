-- ===== src/Balancer/Start.antt =====
-- A new balancer, and its cleanup.
use balancer_go.Base.{
  ℕ, ◌<◌, ◌≡◌, refl, ap, ◌∙◌, sym, none, List, [], arith, Bool-cases, inl, inr, max_u64,
}
use balancer_go.Base.Int.{pos}
use balancer_go.Model.{ClientKey}
use balancer_go.Algorithms.{Candidate, Picked}
use balancer_go.Engine.{Engine, ok, panic, schedule_after}
use balancer_go.Engine.Queue.{IsEngine}
use balancer_go.Engine.Operations.{IsKept-refl}
use balancer_go.Engine.Returns.{Returns, Returns-elim, IsNext, schedule_after-Returns}
use balancer_go.Host as Host
use balancer_go.Balancer.Tables.{count, lookup, is_some}
use balancer_go.Balancer.{LoadBalancer, Callback, sweep_mappings, cleanup_interval, sweep}
use balancer_go.Balancer.Invariant.{IsBalancer}
use balancer_go.Balancer.Traffic.{schedule_cleanup}
use balancer_go.Balancer.Handling.{new_load_balancer, run_cleanup}
use balancer_go.Balancer.Sweep.{sweep_lem}

module _ {S D : Type 0} (key_of : ℕ → ClientKey) where
  -- The event of the next cleanup is not in the tables.
  scheduled_lem :
      (id : ℕ) (lb : LoadBalancer S D)
      → IsBalancer key_of lb
      → IsBalancer key_of (record lb { cleanup = id })
  scheduled_lem id lb w = record {
    listed = w.listed;
    mapped = w.mapped;
    keyed = w.keyed;
    ordered = w.ordered;
    tracked = w.tracked;
    registered = w.registered;
    checked = w.checked;
    bounded = w.bounded;
    narrow = w.narrow;
  }

  -- Empty tables agree.
  pub empty-IsBalancer :
      (lb : LoadBalancer S D)
      → lb.servers ≡ []
      → lb.clients ≡ (λ k. none)
      → lb.conn_table ≡ (λ s. [])
      → lb.by_key ≡ (λ k. none)
      → lb.connections ≡ (λ k. none)
      → lb.health ≡ []
      → IsBalancer key_of lb
  empty-IsBalancer lb servers clients table by_key connections health =
      let unmapped : (k : ClientKey) → lb.by_key k ≡ none = λ k. ap (λ t. t k) by_key in
      let unknown : (k : ClientKey) → lb.clients k ≡ none = λ k. ap (λ t. t k) clients in
      let unchecked : (s : ℕ) → lookup s lb.health ≡ none = λ s. ap (lookup s) health in
      record {
        listed = λ s c h. absurd (omega (arith, h, ap (λ t. count c (t s)) table));
        mapped = λ k s m. ground (arith, sym (unmapped k) ∙ m);
        keyed = λ k c m. ground (arith, sym (unknown k) ∙ m);
        ordered = λ k c m. ground (arith, sym (unknown k) ∙ m);
        tracked = λ k. ap is_some (unmapped k) ∙ sym (ap (λ t. is_some (t k)) connections);
        registered = λ k s m. ground (arith, sym (unmapped k) ∙ m);
        checked = λ s n. absurd (omega (arith, n, ap (count s) servers));
        bounded = λ s c m. ground (arith, sym (unchecked s) ∙ m);
        narrow = λ s c m. ground (arith, sym (unchecked s) ∙ m);
      }

module _ {S D K : Type 0} (key_of : ℕ → ClientKey) (pick : S → List Candidate → Picked × S)
    (callback : Callback D → K) (host_done : ℕ → K) (a n : ℕ) (e : Engine K)
    (v : IsEngine a n e) where
  schedule_cleanup-Returns :
      (lb : LoadBalancer S D)
      → e.next_id < max_u64
      → IsBalancer key_of lb
      → Returns {A = LoadBalancer S D × Engine K}
          (λ r. IsBalancer key_of r.0 × IsNext a n e v r.1)
          (schedule_cleanup callback lb e)
  unfolding schedule_cleanup
  schedule_cleanup-Returns lb h w =
      Returns-elim
        (λ r.
          Returns {A = LoadBalancer S D × Engine K}
            (λ r. IsBalancer key_of r.0 × IsNext a n e v r.1)
            (elim r [ panic ↦ panic | ok (f, id) ↦ ok (record lb { cleanup = id }, f) ]))
        (schedule_after (pos cleanup_interval) (callback sweep_mappings) e)
        (schedule_after-Returns a n e v cleanup_interval (callback sweep_mappings) h)
        (λ r m. (scheduled_lem key_of r.1 lb w, m))

  -- A cleanup returns while the engine has an id left, and the tables agree afterwards.
  run_cleanup-Returns :
      (lb : LoadBalancer S D)
      → e.next_id < max_u64
      → IsBalancer key_of lb
      → Returns {A = LoadBalancer S D × Engine K}
          (λ r. IsBalancer key_of r.0 × IsNext a n e v r.1)
          (run_cleanup key_of pick callback host_done lb e)
  unfolding run_cleanup
  run_cleanup-Returns lb h w = elim (Bool-cases lb.closed) [
    | inl c ↦ simp c (w, record { valid = v; kept = IsKept-refl e; ids = omega arith })
    | inr c ↦ simp c (
        schedule_cleanup-Returns (sweep key_of e.now lb.client_order lb) h
          (sweep_lem key_of e.now lb w).0)
  ]

  -- A new balancer's tables agree.
  new_load_balancer-Returns :
      (algo : S)
      → e.next_id < max_u64
      → Returns {A = LoadBalancer S D × Engine K}
          (λ r. IsBalancer key_of r.0 × IsNext a n e v r.1)
          (new_load_balancer key_of pick callback host_done algo e)
  unfolding new_load_balancer Host.new Host.default_config Host.validate
  new_load_balancer-Returns algo h =
      schedule_cleanup-Returns _ h (empty-IsBalancer key_of _ refl refl refl refl refl refl)
