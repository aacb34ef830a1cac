-- ===== src/Fifo.antt =====
-- The waiting queues of simulator/network: a slice and the index of its first waiting element, so that
-- a removal seldom moves what is left. Consumed slots hold the zero value until they are reclaimed.
pub mod Refinement
use balancer_go.Base.{
  ℕ, suc, ◌-◌, Bool, ◌&&◌, leb, ◌==◌, if◌then◌else◌, Option, List, [], ◌∷◌, ◌++◌, length, get_elem?,
  take, drop,
}

pub record Fifo {ℓ} (A : Type ℓ) : Type ℓ where
  pub slots : List A
  pub head : ℕ

module _ {ℓ} {A : Type ℓ} where
  abbrev pub empty : Fifo A
  empty = record { slots = []; head = 0 }

  unfoldable pub queued : Fifo A → ℕ
  queued f = length f.slots - f.head

  unfoldable pub enqueue : A → Fifo A → Fifo A
  enqueue x f = record { slots = f.slots ++ x ∷ []; head = f.head }

  -- The element at the head; `none` would be an index out of range.
  unfoldable pub first : Fifo A → Option A
  first f = get_elem? f.slots f.head

  unfoldable pub remove_head : A → Fifo A → Fifo A
  remove_head zero f =
      let head = suc f.head in
      let released = take f.head f.slots ++ zero ∷ drop head f.slots in
      let remaining = length f.slots - head in
      if remaining == 0
      then empty
      else if leb 1024 head && leb remaining head
      then record { slots = take remaining (drop head released); head = 0 }
      else record { slots = released; head = head }
