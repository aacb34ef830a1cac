-- ===== src/Balancer/Registration.antt =====
-- simulator/balancer/balancer.go: AddServer. `same_id` compares the ids of two servers.
use balancer_go.Base.{
  ℕ, Bool, true, false, ◌||◌, ◌==◌, if◌then◌else◌, Option, none, some, List, [], ◌∷◌, ◌++◌,
}
use balancer_go.Engine.{Engine, Result, ok, panic}
use balancer_go.Balancer.{LoadBalancer, HealthCheck, Callback}
use balancer_go.Balancer.Traffic.{schedule_health_check}

abbrev pub is_duplicate : (ℕ → ℕ → Bool) → ℕ → List ℕ → Bool
is_duplicate same_id srv [] = false
is_duplicate same_id srv (s ∷ servers) =
    let rest = is_duplicate same_id srv servers in s == srv || same_id s srv || rest

module _ {S D K : Type 0} (callback : Callback D → K) (same_id : ℕ → ℕ → Bool) where
  -- AddServer with the backend's limit; `none` is an error, which changes nothing.
  unfoldable pub add_server :
      Option ℕ
      → ℕ
      → Option D
      → LoadBalancer S D
      → Engine K
      → Result (Option (LoadBalancer S D × Engine K))
  add_server none max_connections send lb e = ok none
  add_server (some srv) max_connections none lb e = ok none
  add_server (some srv) max_connections (some send) lb e =
      let check : HealthCheck = record {
        tick = 0;
        timeout = 0;
        serial = 0;
        healthy = true;
        max_connections = max_connections;
      } in
      if lb.closed || is_duplicate same_id srv lb.servers
      then ok none
      else elim (schedule_health_check callback srv
          (record lb {
            servers = lb.servers ++ srv ∷ [];
            to_server = λ s. if s == srv then some send else lb.to_server s;
            health = (srv, check) ∷ lb.health;
          })
          e) [ panic ↦ panic | ok (l, f) ↦ ok (some (l, f)) ]
