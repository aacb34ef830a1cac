-- ===== src/Balancer/Tables.antt =====
-- simulator/balancer/balancer.go: the maps and lists of pointers that the balancer keeps. A map is the
-- function of its lookups, and a pointer the address of its endpoint.
use mathlib.Core.Logic.{ite, if_pos, if_neg}
use mathlib.Core.Path.{subst}
use balancer_go.Base.{
  ℕ, zero, suc, get_elem?, ◌+◌, ◌-◌, ◌≤◌, ◌≡◌, ap, Bool, true, false, ◌==◌, if◌then◌else◌, Option,
  none, some, List, [], ◌∷◌, ◌++◌, length, arith,
}

-- m[k] = v
abbrev pub put {ℓ μ} : {K : Type ℓ} {V : Type μ} → Discrete K → K → V → (K → V) → K → V
put same k v m j = ite (same j k) v (m j)

abbrev pub is_some {ℓ} : {A : Type ℓ} → Option A → Bool
is_some none = false
is_some (some a) = true

abbrev pub is_at : ℕ → Option ℕ → Bool
is_at p none = false
is_at p (some q) = p == q

-- The first entry that is the pointer is taken out; a nil pointer is no entry.
abbrev pub without_first : Option ℕ → List ℕ → List ℕ
without_first cl [] = []
without_first cl (x ∷ xs) = let rest = without_first cl xs in if is_at x cl then xs else x ∷ rest

abbrev pub prepend : ℕ → Option (List ℕ) → Option (List ℕ)
prepend x none = none
prepend x (some xs) = some (x ∷ xs)

-- The first entry that is the pointer becomes another; `none` where there is no such entry.
abbrev pub replace_first : ℕ → ℕ → List ℕ → Option (List ℕ)
replace_first old new [] = none
replace_first old new (x ∷ xs) =
    let rest = replace_first old new xs in if x == old then some (new ∷ xs) else prepend x rest

abbrev pub given : List ℕ → Option (List ℕ) → List ℕ
given xs none = xs
given xs (some ys) = ys

-- The clients in order with a client at the end, or in the place of the previous one of its key.
abbrev pub order_with : Option ℕ → ℕ → List ℕ → List ℕ
order_with none cl order = order ++ cl ∷ []
order_with (some previous) cl order = given (order ++ cl ∷ []) (replace_first previous cl order)

abbrev pub lookup {ℓ} : {V : Type ℓ} → ℕ → List (ℕ × V) → Option V
lookup k [] = none
lookup k ((j, v) ∷ m) = let rest = lookup k m in if j == k then some v else rest

abbrev pub change {ℓ} : {V : Type ℓ} → ℕ → (V → V) → List (ℕ × V) → List (ℕ × V)
change k f [] = []
change k f ((j, v) ∷ m) = let rest = change k f m in if j == k then (j, f v) ∷ m else (j, v) ∷ rest

abbrev pub count : ℕ → List ℕ → ℕ
count p [] = 0
count p (x ∷ xs) = if x == p then count p xs + 1 else count p xs

abbrev pointer_in : Option ℕ → ℕ
pointer_in none = 0
pointer_in (some p) = p

pub some-injective : {p q : ℕ} → some p ≡ some q → p ≡ q
some-injective e = ap pointer_in e

pub put-same {ℓ μ} :
    {K : Type ℓ} {V : Type μ} (same : Discrete K) (k j : K) (v : V) (m : K → V)
    → j ≡ k
    → put same k v m j ≡ v
put-same same k j v m e = if_pos (same j k) e v (m j)

pub put-other {ℓ μ} :
    {K : Type ℓ} {V : Type μ} (same : Discrete K) (k j : K) (v : V) (m : K → V)
    → ¬ (j ≡ k)
    → put same k v m j ≡ m j
put-other same k j v m n = if_neg (same j k) n v (m j)

pub count-append : (p : ℕ) (xs ys : List ℕ) → count p (xs ++ ys) ≡ count p xs + count p ys
count-append p [] ys = omega arith
count-append p (x ∷ xs) ys = ground (arith, count-append p xs ys)

pub count-without_first :
    (p q : ℕ) (xs : List ℕ)
    → count p (without_first (some q) xs) ≡ (if p == q then count p xs - 1 else count p xs)
count-without_first p q [] = ground arith
count-without_first p q (x ∷ xs) = ground (arith, count-without_first p q xs)

pub length-without_first : (cl : Option ℕ) (xs : List ℕ) → length (without_first cl xs) ≤ length xs
length-without_first cl [] = omega arith
length-without_first none (x ∷ xs) = omega (arith, length-without_first none xs)
length-without_first (some q) (x ∷ xs) = ground (arith, length-without_first (some q) xs)

abbrev Holds {ℓ μ} : {A : Type ℓ} → (A → Type μ) → Option A → Type μ
Holds P none = Unit
Holds P (some a) = P a

-- What the head and every later element have, each element has.
pub get_elem?-each {ℓ μ} :
    {A : Type ℓ} (P : A → Type μ) (x : A) (xs : List A)
    → P x
    → ((i : ℕ) (a : A) → get_elem? xs i ≡ some a → P a)
    → (i : ℕ) (a : A) → get_elem? (x ∷ xs) i ≡ some a
    → P a
get_elem?-each P x xs here later zero a e = subst (Holds P) e here
get_elem?-each P x xs here later (suc i) a e = later i a e
