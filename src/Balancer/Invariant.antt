-- ===== src/Balancer/Invariant.antt =====
-- What the balancer's tables say of one another.
use balancer_go.Base.{false, ℕ, ◌≤◌, ◌<◌, ◌≡◌, ◌⊎◌, true, some, List, length}
use balancer_go.Model.{ClientKey}
use balancer_go.Algorithms.{Candidate, Picked, PickError, picked, failed, is_open}
use balancer_go.Balancer.Tables.{count, lookup, is_some}
use balancer_go.Balancer.{LoadBalancer, HealthCheck}

-- What the balancer relies on in an algorithm: a candidate that it picks is there and below its limit,
-- and it fails only when there is no such candidate.
pub record Algorithm (S : Type 0) : Type 0 where
  pub pick : S → List Candidate → Picked × S
  pub picks_open :
      (s : S) (cs : List Candidate) (i : ℕ) → (pick s cs).0 ≡ picked i → is_open cs i ≡ true
  pub fails_closed :
      (s : S) (cs : List Candidate) (error : PickError)
      → (pick s cs).0 ≡ failed error
      → (i : ℕ) → is_open cs i ≡ false

-- Each listed client is the registered client of a key that is mapped to that server, and the client of
-- a mapped key is listed once at its server, which is registered, has a health check and is within its
-- limit.
pub record IsBalancer {S D : Type 0} (key_of : ℕ → ClientKey) (lb : LoadBalancer S D) : Type 0 where
  pub listed :
      (s c : ℕ)
      → 0 < count c (lb.conn_table s)
      → (lb.by_key (key_of c) ≡ some s) × (lb.clients (key_of c) ≡ some c)
  pub mapped :
      (k : ClientKey) (s : ℕ)
      → lb.by_key k ≡ some s
      → (c : ℕ) × (lb.clients k ≡ some c) × (count c (lb.conn_table s) ≡ 1)
  pub keyed : (k : ClientKey) (c : ℕ) → lb.clients k ≡ some c → key_of c ≡ k
  pub ordered : (k : ClientKey) (c : ℕ) → lb.clients k ≡ some c → 0 < count c lb.client_order
  pub tracked : (k : ClientKey) → is_some (lb.by_key k) ≡ is_some (lb.connections k)
  pub registered : (k : ClientKey) (s : ℕ) → lb.by_key k ≡ some s → 0 < count s lb.servers
  pub checked : (s : ℕ) → 0 < count s lb.servers → is_some (lookup s lb.health) ≡ true
  pub bounded :
      (s : ℕ) (check : HealthCheck)
      → lookup s lb.health ≡ some check
      → (check.max_connections ≡ 0) ⊎ (length (lb.conn_table s) ≤ check.max_connections)
  pub narrow :
      (s : ℕ) (check : HealthCheck)
      → lookup s lb.health ≡ some check
      → check.max_connections < 4294967296
