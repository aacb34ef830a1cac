-- ===== src/Engine/Queue.antt =====
-- simulator/engine/engine.go: the event queue of the engine.
use balancer_go.Base.{
  Option, none, some, if◌then◌else◌, ℕ, ◌≤◌, ◌<◌, ◌≡◌, refl, Bool, true, false, ◌&&◌, ◌||◌, List,
  [], ◌∷◌, ◌==◌, max_u64, arith, Bool-cases, inl, inr, not,
}
use balancer_go.Engine.{Event, Engine, is_before, has_id, without_id, push, remove}

module _ {K : Type 0} where
  -- The events come strictly one after another in the order of `Less`, all after (at, id).
  abbrev pub IsOrdered : ℕ → ℕ → List (Event K) → Type 0
  IsOrdered at id [] = Unit {0}
  IsOrdered at id (x ∷ xs) = (is_before at id x.at x.id ≡ true) × IsOrdered x.at x.id xs

  -- Times lie between the clock and the end time, and ids below the next one.
  abbrev pub IsBounded : ℕ → ℕ → ℕ → List (Event K) → Type 0
  IsBounded now end_time next_id [] = Unit {0}
  IsBounded now end_time next_id (x ∷ xs) =
      (now ≤ x.at)
      × (x.at ≤ end_time)
      × (0 < x.id)
      × (x.id ≤ next_id)
      × IsBounded now end_time next_id xs

  abbrev pub is_queued : ℕ → List (Event K) → Bool
  is_queued id [] = false
  is_queued id (x ∷ xs) = (id == x.id) || is_queued id xs

  abbrev pub IsDistinct : List (Event K) → Type 0
  IsDistinct [] = Unit {0}
  IsDistinct (x ∷ xs) = (is_queued x.id xs ≡ false) × IsDistinct xs

  pub IsBounded-mono :
      (m n z k l : ℕ) (xs : List (Event K))
      → m ≤ n
      → k ≤ l
      → IsBounded n z k xs
      → IsBounded m z l xs
  IsBounded-mono m n z k l [] h g b = tt
  IsBounded-mono m n z k l (x ∷ xs) h g b =
      (omega arith, b.1, b.2, omega arith, IsBounded-mono m n z k l xs h g b.4)

  -- A valid engine whose pending events all come after the event (at, id).
  pub record IsEngine (at id : ℕ) (e : Engine K) : Type 0 where
    pub past : at ≤ e.now
    pub known : id ≤ e.next_id
    pub clock : e.now ≤ e.end_time
    pub ids_fit : e.next_id ≤ max_u64
    pub within_limit : e.executed ≤ e.max_events
    pub ordered : IsOrdered at id e.queue
    pub bounded : IsBounded e.now e.end_time e.next_id e.queue
    pub distinct : IsDistinct e.queue
    pub indexed : (j : ℕ) → has_id j e.by_id ≡ is_queued j e.queue

  pub IsOrdered-weaken :
      (a i b j : ℕ) (xs : List (Event K))
      → is_before a i b j ≡ true
      → IsOrdered b j xs
      → IsOrdered a i xs
  IsOrdered-weaken a i b j [] h o = tt
  IsOrdered-weaken a i b j (x ∷ xs) h o = (ground arith, o.1)

  pub push-IsOrdered :
      (a i n z k : ℕ) (x : Event K) (xs : List (Event K))
      → is_before a i x.at x.id ≡ true
      → IsBounded n z k xs
      → k < x.id
      → IsOrdered a i xs
      → IsOrdered a i (push x xs)
  unfolding push
  push-IsOrdered a i n z k x [] h b f o = (h, tt)
  push-IsOrdered a i n z k x (y ∷ ys) h b f o = elim (Bool-cases (is_before x.at x.id y.at y.id)) [
    | inl e ↦ rw e (h, (e, o.1))
    | inr e ↦
        let after : is_before y.at y.id x.at x.id ≡ true = ground arith in
        rw e (o.0, push-IsOrdered y.at y.id n z k x ys after b.4 f o.1)
  ]

  pub push-IsBounded :
      (n z k : ℕ) (x : Event K) (xs : List (Event K))
      → n ≤ x.at
      → x.at ≤ z
      → k < x.id
      → IsBounded n z k xs
      → IsBounded n z x.id (push x xs)
  unfolding push
  push-IsBounded n z k x [] p q f b = omega arith
  push-IsBounded n z k x (y ∷ ys) p q f b =
      ground (arith, push-IsBounded n z k x ys p q f b.4, IsBounded-mono n n z k x.id ys)

  pub is_queued-push :
      (j : ℕ) (x : Event K) (xs : List (Event K))
      → is_queued j (push x xs) ≡ ((j == x.id) || is_queued j xs)
  unfolding push
  is_queued-push j x [] = refl
  is_queued-push j x (y ∷ ys) = ground (arith, is_queued-push j x ys)

  -- The pending event with this id.
  abbrev pub event_of : ℕ → List (Event K) → Option (Event K)
  event_of id [] = none
  event_of id (x ∷ xs) = let rest = event_of id xs in if id == x.id then some x else rest

  pub event_of-push :
      (j : ℕ) (x : Event K) (xs : List (Event K))
      → is_queued x.id xs ≡ false
      → event_of j (push x xs) ≡ (if j == x.id then some x else event_of j xs)
  unfolding push
  event_of-push j x [] h = refl
  event_of-push j x (y ∷ ys) h = ground (arith, event_of-push j x ys)

  pub is_queued_above :
      (j n z k : ℕ) (xs : List (Event K)) → IsBounded n z k xs → k < j → is_queued j xs ≡ false
  is_queued_above j n z k [] b h = refl
  is_queued_above j n z k (x ∷ xs) b h = ground (arith, is_queued_above j n z k xs b.4)

  pub push-IsDistinct :
      (n z k : ℕ) (x : Event K) (xs : List (Event K))
      → IsBounded n z k xs
      → k < x.id
      → IsDistinct xs
      → IsDistinct (push x xs)
  unfolding push
  push-IsDistinct n z k x [] b f d = (refl, tt)
  push-IsDistinct n z k x (y ∷ ys) b f d = ground (
    arith,
    is_queued_above x.id n z k (y ∷ ys) b f,
    is_queued-push y.id x ys,
    push-IsDistinct n z k x ys b.4 f d.1,
  )

  pub remove-IsOrdered :
      (a i id : ℕ) (xs : List (Event K)) → IsOrdered a i xs → IsOrdered a i (remove id xs)
  unfolding remove
  remove-IsOrdered a i id [] o = tt
  remove-IsOrdered a i id (y ∷ ys) o = elim (Bool-cases (id == y.id)) [
    | inl e ↦ rw e (IsOrdered-weaken a i y.at y.id ys o.0 o.1)
    | inr e ↦ rw e (o.0, remove-IsOrdered y.at y.id id ys o.1)
  ]

  pub remove-IsBounded :
      (n z k id : ℕ) (xs : List (Event K)) → IsBounded n z k xs → IsBounded n z k (remove id xs)
  unfolding remove
  remove-IsBounded n z k id [] b = tt
  remove-IsBounded n z k id (y ∷ ys) b = ground (arith, remove-IsBounded n z k id ys b.4)

  pub is_queued-remove :
      (j id : ℕ) (xs : List (Event K))
      → IsDistinct xs
      → is_queued j (remove id xs) ≡ (not (id == j) && is_queued j xs)
  unfolding remove
  is_queued-remove j id [] d = ground arith
  is_queued-remove j id (y ∷ ys) d = elim (Bool-cases (id == y.id)) [
    | inl e ↦ rw e (elim (Bool-cases (id == j)) [
      | inl f ↦ let same : j ≡ y.id = ground arith in rw (f, same) d.0
      | inr f ↦ ground arith
    ])
    | inr e ↦ rw e (ground (arith, is_queued-remove j id ys d.1))
  ]

  pub remove-IsDistinct : (id : ℕ) (xs : List (Event K)) → IsDistinct xs → IsDistinct (remove id xs)
  unfolding remove
  remove-IsDistinct id [] d = tt
  remove-IsDistinct id (y ∷ ys) d =
      ground (arith, is_queued-remove y.id id ys d.1, remove-IsDistinct id ys d.1)

  abbrev pub IsAfter : ℕ → List (Event K) → Type 0
  IsAfter t [] = Unit {0}
  IsAfter t (x ∷ xs) = (t < x.at) × IsAfter t xs

  pub IsAfter-IsOrdered :
      (t at id : ℕ) (xs : List (Event K)) → t < at → IsOrdered at id xs → IsAfter t xs
  IsAfter-IsOrdered t at id [] h o = tt
  IsAfter-IsOrdered t at id (x ∷ xs) h o =
      let later : t < x.at = ground arith in (later, IsAfter-IsOrdered t x.at x.id xs later o.1)

  pub IsBounded-from :
      (n z k at id : ℕ) (xs : List (Event K))
      → IsOrdered at id xs
      → IsBounded n z k xs
      → IsBounded at z k xs
  IsBounded-from n z k at id [] o b = tt
  IsBounded-from n z k at id (x ∷ xs) o b = (
    ground arith,
    b.1,
    b.2,
    b.3,
    IsBounded-from n z k at id xs (IsOrdered-weaken at id x.at x.id xs o.0 o.1) b.4,
  )

pub has_id-without_id :
    (j id : ℕ) (ids : List ℕ) → has_id j (without_id id ids) ≡ (not (id == j) && has_id j ids)
has_id-without_id j id [] = ground arith
has_id-without_id j id (k ∷ ids) = ground (arith, has_id-without_id j id ids)
