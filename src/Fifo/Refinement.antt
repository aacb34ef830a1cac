-- ===== src/Fifo/Refinement.antt =====
-- simulator/network: the waiting queues beside plain lists.
use balancer_go.Base.{
  ℕ, zero, suc, ◌-◌, ◌≤◌, ◌<◌, ◌≡◌, refl, sym, ap, ◌∙◌, ◌&&◌, leb, ◌==◌, List, [], ◌∷◌, ◌++◌,
  length, get_elem?, take, drop, arith, Bool-cases, inl, inr, length-append, length-drop,
}
use balancer_go.Fifo.{Fifo, empty, queued, enqueue, first, remove_head}

module _ {ℓ} {A : Type ℓ} where
  drop-append : (k : ℕ) (xs ys : List A) → k ≤ length xs → drop k (xs ++ ys) ≡ drop k xs ++ ys
  drop-append zero xs ys h = refl
  drop-append (suc k) [] ys h = absurd (omega arith)
  drop-append (suc k) (x ∷ xs) ys h = drop-append k xs ys (omega arith)

  -- Releasing a slot changes nothing behind it.
  drop-release :
      (k : ℕ) (z : A) (xs : List A)
      → k < length xs
      → drop (suc k) (take k xs ++ z ∷ drop (suc k) xs) ≡ drop (suc k) xs
  drop-release zero z xs h = refl
  drop-release (suc k) z [] h = absurd (omega arith)
  drop-release (suc k) z (x ∷ xs) h = drop-release k z xs (omega arith)

  take-length : (xs : List A) → take (length xs) xs ≡ xs
  take-length [] = refl
  take-length (x ∷ xs) = ap (λ ys. x ∷ ys) (take-length xs)

  drop-get : (k : ℕ) (xs : List A) → get_elem? (drop k xs) 0 ≡ get_elem? xs k
  drop-get zero xs = refl
  drop-get (suc k) [] = refl
  drop-get (suc k) (x ∷ xs) = drop-get k xs

  drop-tail : (k : ℕ) (xs : List A) → drop 1 (drop k xs) ≡ drop (suc k) xs
  drop-tail zero xs = refl
  drop-tail (suc k) [] = refl
  drop-tail (suc k) (x ∷ xs) = drop-tail k xs

  abbrev pub waiting : Fifo A → List A
  waiting f = drop f.head f.slots

  abbrev pub IsFifo : Fifo A → Type 0
  IsFifo f = f.head ≤ length f.slots

  pub queued_lem : (f : Fifo A) → queued f ≡ length (waiting f)
  unfolding queued
  queued_lem f = sym (length-drop f.head f.slots)

  pub first_lem : (f : Fifo A) → first f ≡ get_elem? (waiting f) 0
  unfolding first
  first_lem f = sym (drop-get f.head f.slots)

  pub enqueue_lem :
      (x : A) (f : Fifo A)
      → IsFifo f
      → IsFifo (enqueue x f) × (waiting (enqueue x f) ≡ waiting f ++ x ∷ [])
  unfolding enqueue
  enqueue_lem x f v =
      (omega (arith, length-append f.slots (x ∷ [])), drop-append f.head f.slots (x ∷ []) v)

  length-zero : (xs : List A) → length xs ≡ 0 → xs ≡ []
  length-zero [] e = refl
  length-zero (x ∷ xs) e = absurd (omega arith)

  length-release :
      (k : ℕ) (z : A) (xs : List A)
      → k < length xs
      → length (take k xs ++ z ∷ drop (suc k) xs) ≡ length xs
  length-release zero z [] h = absurd (omega arith)
  length-release zero z (x ∷ xs) h = refl
  length-release (suc k) z [] h = absurd (omega arith)
  length-release (suc k) z (x ∷ xs) h = ap suc (length-release k z xs (omega arith))

  pub remove_head_lem :
      (z : A) (f : Fifo A)
      → f.head < length f.slots
      → IsFifo (remove_head z f) × (waiting (remove_head z f) ≡ drop 1 (waiting f))
  unfolding remove_head
  remove_head_lem z f v =
      let head = suc f.head in
      let released = take f.head f.slots ++ z ∷ drop head f.slots in
      let remaining = length f.slots - head in
      let kept = drop-release f.head z f.slots v in
      let size = length-drop head f.slots in
      let tail = drop-tail f.head f.slots in
      let all = length-release f.head z f.slots v in
      elim (Bool-cases (remaining == 0)) [
        | inl e ↦
            rw (e, tail) (omega arith, sym (length-zero (drop head f.slots) (ground (arith, size))))
        | inr e ↦ elim (Bool-cases (leb 1024 head && leb remaining head)) [
          | inl g ↦
              let same : take remaining (drop head released) ≡ drop head f.slots =
                rw (kept, sym size) (take-length (drop head f.slots)) in
              rw (e, g) (omega arith, same ∙ sym tail)
          | inr g ↦ rw (e, g) (ground (arith, all), kept ∙ sym tail)
        ]
      ]

-- The operations of a queue, and what they do to a list.
pub data Op {ℓ} (A : Type ℓ) : Type ℓ where
  arrive : A → Op A
  leave : Op A

module _ {ℓ} {A : Type ℓ} (z : A) where
  -- A removal is called on a queue that has a waiting element.
  unfoldable pub run : List (Op A) → Fifo A → Fifo A
  run [] f = f
  run (arrive x ∷ ops) f = run ops (enqueue x f)
  run (leave ∷ ops) f = run ops (remove_head z f)

  abbrev pub replay : List (Op A) → List A → List A
  replay [] xs = xs
  replay (arrive x ∷ ops) xs = replay ops (xs ++ x ∷ [])
  replay (leave ∷ ops) xs = replay ops (drop 1 xs)

  -- No removal finds the list empty.
  abbrev pub IsAllowed : List (Op A) → List A → Type 0
  IsAllowed [] xs = Unit {0}
  IsAllowed (arrive x ∷ ops) xs = IsAllowed ops (xs ++ x ∷ [])
  IsAllowed (leave ∷ ops) xs = (0 < length xs) × IsAllowed ops (drop 1 xs)

  run_from :
      (ops : List (Op A)) (f : Fifo A) (xs : List A)
      → IsFifo f
      → waiting f ≡ xs
      → IsAllowed ops xs
      → IsFifo (run ops f) × (waiting (run ops f) ≡ replay ops xs)
  unfolding run
  run_from [] f xs v e h = (v, e)
  run_from (arrive x ∷ ops) f xs v e h =
      let step = enqueue_lem x f v in
      run_from ops (enqueue x f) (xs ++ x ∷ []) step.0 (step.1 ∙ ap (λ ys. ys ++ x ∷ []) e) h
  run_from (leave ∷ ops) f xs v e h =
      let some_there : f.head < length f.slots =
        omega (arith, h.0, ap length e, length-drop f.head f.slots) in
      let step = remove_head_lem z f some_there in
      run_from ops (remove_head z f) (drop 1 xs) step.0 (step.1 ∙ ap (λ ys. drop 1 ys) e) h.1

  -- From the empty queue, any arrivals and removals that find an element leave waiting what they leave
  -- of a plain list, in its order; the queue's length and its head are that list's.
  pub run_refines :
      (ops : List (Op A))
      → IsAllowed ops []
      → let f = run ops empty in
        let xs = replay ops [] in
        IsFifo f × (waiting f ≡ xs) × (queued f ≡ length xs) × (first f ≡ get_elem? xs 0)
  run_refines ops h =
      let f = run ops empty in
      let (v, e) = run_from ops empty [] (omega arith) refl h in
      (v, e, queued_lem f ∙ ap length e, first_lem f ∙ ap (λ xs. get_elem? xs 0) e)
