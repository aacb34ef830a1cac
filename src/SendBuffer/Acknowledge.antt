-- ===== src/SendBuffer/Acknowledge.antt =====
-- simulator/protocols/tcp/send_buffer.go: `append` and `acknowledge`.
use balancer_go.Base.{
  ℕ, zero, suc, ◌+◌, ◌-◌, ◌≤◌, ◌<◌, ◌≡◌, refl, sym, ◌∙◌, ap, true, false, ◌&&◌, List, [], ◌∷◌, ◌++◌,
  map, ltb, leb, arith, max_u64, u64_mod, ◌%◌, +u64_lem, -u64_lem, ◌-u64◌, length, take, drop,
  length-append, Bool-cases, inl, inr,
}
use native.Mathlib.Nat.{zero-add, suc-add}
use balancer_go.Base.Int.{to_u64}
use balancer_go.Ranges.{Range, covered}
use balancer_go.Model.{Packet}
use balancer_go.SendBuffer.{SendBuffer, append, confirm, compact, acknowledge}

abbrev pub pending : SendBuffer → List Packet
pending buffer = drop buffer.first_pending_index buffer.segments

-- The payload bytes of a segment.
abbrev pub payload : Packet → Range
payload p = record { start = p.seq; end = p.seq + to_u64 p.size }

-- The segments hold payload in ascending order from `lo`, none past the last uint64.
abbrev pub IsOrdered : ℕ → List Packet → Type 0
IsOrdered lo [] = Unit {0}
IsOrdered lo (p ∷ ps) =
    (lo ≤ p.seq)
    × (0 < to_u64 p.size)
    × (p.seq + to_u64 p.size ≤ max_u64)
    × IsOrdered (p.seq + to_u64 p.size) ps

pub record IsBuffer (buffer : SendBuffer) : Type 0 where
  pub bounded : buffer.first_pending_index ≤ length buffer.segments
  pub ordered : IsOrdered 0 (pending buffer)

-- What `confirm` leaves behind the segments that it passes.
abbrev left : ℕ → List Packet → List Packet
left ack ps = drop (confirm ack ps).0 (confirm ack ps).1

trim_size : (n ack : ℕ) → n ≤ max_u64 → ack ≤ n → (n -u64 ack) % u64_mod ≡ n - ack
trim_size n ack h k = rw (-u64_lem n ack k h) (omega arith)

IsOrdered-mono : {a b : ℕ} (ps : List Packet) → a ≤ b → IsOrdered b ps → IsOrdered a ps
IsOrdered-mono [] h o = tt
IsOrdered-mono (p ∷ ps) h o = (omega arith, o.1, o.2, o.3)

covered_ordered :
    (x lo : ℕ) (ps : List Packet) → IsOrdered lo ps → x < lo → covered x (map payload ps) ≡ false
covered_ordered x lo [] o h = refl
covered_ordered x lo (p ∷ ps) o h = ground (arith, covered_ordered x (p.seq + to_u64 p.size) ps o.3)

left_lem :
    (lo ack x : ℕ) (ps : List Packet)
    → IsOrdered lo ps
    → IsOrdered lo (left ack ps)
      × (covered x (map payload (left ack ps)) ≡ (leb ack x && covered x (map payload ps)))
unfolding confirm
left_lem lo ack x [] o = (tt, ground arith)
left_lem lo ack x (p ∷ ps) o =
    let end = p.seq + to_u64 p.size in
    let ih = left_lem end ack x ps o.3 in
    rw (+u64_lem p.seq (to_u64 p.size) o.2) (elim (Bool-cases (leb ack p.seq)) [
      | inl e ↦
          rw e (o, ground (arith, covered_ordered x p.seq (p ∷ ps) (omega arith, o.1, o.2, o.3)))
      | inr e ↦ elim (Bool-cases (ltb ack end)) [
        | inl f ↦
            rw (e, f, trim_size end ack o.2 (ground arith))
              (ground (
                arith,
                covered_ordered x end ps o.3,
                IsOrdered-mono {a = ack + (end - ack)} {b = end} ps,
              ))
        | inr f ↦
            rw (e, f)
              (ground (
                arith,
                covered_ordered x end ps o.3,
                IsOrdered-mono {a = lo} {b = end} (left ack ps),
              ))
      ]
    ])

drop-append :
    (k : ℕ) (xs ys : List Packet) (j : ℕ)
    → k ≤ length xs
    → drop (k + j) (take k xs ++ ys) ≡ drop j ys
drop-append zero xs ys j h = rw zero-add
drop-append (suc k) [] ys j h = absurd (omega arith)
drop-append (suc k) (x ∷ xs) ys j h = rw suc-add (drop-append k xs ys j (omega arith))

length-drop : (k : ℕ) (xs : List Packet) → length (drop k xs) ≡ length xs - k
length-drop zero xs = omega arith
length-drop (suc k) [] = omega arith
length-drop (suc k) (x ∷ xs) = omega (arith, length-drop k xs)

take_all : (xs : List Packet) (n : ℕ) → length xs ≤ n → take n xs ≡ xs
take_all [] zero h = refl
take_all [] (suc n) h = refl
take_all (x ∷ xs) zero h = absurd (omega arith)
take_all (x ∷ xs) (suc n) h = ap (◌∷◌ x) (take_all xs n (omega arith))

drop_all : (xs : List Packet) (n : ℕ) → length xs ≤ n → drop n xs ≡ []
drop_all [] zero h = refl
drop_all [] (suc n) h = refl
drop_all (x ∷ xs) zero h = absurd (omega arith)
drop_all (x ∷ xs) (suc n) h = drop_all xs n (omega arith)

-- Emptying or shifting the slice does not change the pending segments.
pending-compact :
    (b : SendBuffer)
    → b.first_pending_index ≤ length b.segments
    → (pending (compact b) ≡ pending b)
      × ((compact b).first_pending_index ≤ length (compact b).segments)
unfolding compact
pending-compact b h =
    let remaining = length b.segments - b.first_pending_index in
    elim (Bool-cases (leb remaining 0)) [
      | inl e ↦ rw e (sym (drop_all b.segments b.first_pending_index (ground arith)), omega arith)
      | inr e ↦ elim (Bool-cases (leb remaining b.first_pending_index)) [
        | inl f ↦
            rw (e, f)
              (
                take_all (pending b) remaining
                    (omega (arith, length-drop b.first_pending_index b.segments)),
                omega arith,
              )
        | inr f ↦ rw (e, f) (refl, h)
      ]
    ]

length-confirm :
    (ack : ℕ) (ps : List Packet)
    → (length (confirm ack ps).1 ≡ length ps) × ((confirm ack ps).0 ≤ length ps)
unfolding confirm
length-confirm ack [] = (refl, omega arith)
length-confirm ack (p ∷ ps) = ground (arith, length-confirm ack ps)

length-take : (k : ℕ) (xs : List Packet) → k ≤ length xs → length (take k xs) ≡ k
length-take zero xs h = refl
length-take (suc k) [] h = absurd (omega arith)
length-take (suc k) (x ∷ xs) h = ap suc (length-take k xs (omega arith))

-- Acknowledging a position leaves a valid buffer, whose pending segments hold exactly the payload
-- bytes that were pending before and lie at or after that position.
pub acknowledge_lem :
    (ack : ℕ) (buffer : SendBuffer)
    → IsBuffer buffer
    → IsBuffer (acknowledge ack buffer)
      × ((x : ℕ)
          → covered x (map payload (pending (acknowledge ack buffer)))
            ≡ (leb ack x && covered x (map payload (pending buffer))))
unfolding acknowledge
acknowledge_lem ack buffer v =
    let index = buffer.first_pending_index in
    let passed = confirm ack (pending buffer) in
    let shorter = length-confirm ack (pending buffer) in
    let front = length-take index buffer.segments v.bounded in
    let middle : SendBuffer = record {
      segments = take index buffer.segments ++ passed.1;
      first_pending_index = index + passed.0;
    } in
    let compacted =
      pending-compact middle
        (omega (arith, shorter, front, length-append (take index buffer.segments) passed.1)) in
    let same : pending (compact middle) ≡ left ack (pending buffer) =
      compacted.0 ∙ drop-append index buffer.segments passed.1 passed.0 v.bounded in
    (
      record {
        bounded = compacted.1;
        ordered = rw same (left_lem 0 ack 0 (pending buffer) v.ordered).0;
      },
      λ x. rw same (left_lem 0 ack x (pending buffer) v.ordered).1,
    )

IsOrdered-append :
    (lo : ℕ) (ps : List Packet) (p : Packet)
    → IsOrdered lo ps
    → lo ≤ p.seq
    → ((x : ℕ) → covered x (map payload ps) ≡ true → x < p.seq)
    → 0 < to_u64 p.size
    → p.seq + to_u64 p.size ≤ max_u64
    → IsOrdered lo (ps ++ p ∷ [])
IsOrdered-append lo [] p o h c s e = (h, s, e, tt)
IsOrdered-append lo (q ∷ ps) p o h c s e =
    let last = c (q.seq + to_u64 q.size - 1) (ground arith) in
    (
      o.0,
      o.1,
      o.2,
      IsOrdered-append (q.seq + to_u64 q.size) ps p o.3 (omega arith) (λ x k. c x (ground arith)) s
          e,
    )

drop-append_list :
    (k : ℕ) (xs ys : List Packet) → k ≤ length xs → drop k (xs ++ ys) ≡ drop k xs ++ ys
drop-append_list zero xs ys h = refl
drop-append_list (suc k) [] ys h = absurd (omega arith)
drop-append_list (suc k) (x ∷ xs) ys h = drop-append_list k xs ys (omega arith)

-- A segment sent after all pending payload is appended behind the pending segments, and the buffer
-- stays valid.
pub append_lem :
    (p : Packet) (buffer : SendBuffer)
    → IsBuffer buffer
    → ((x : ℕ) → covered x (map payload (pending buffer)) ≡ true → x < p.seq)
    → 0 < to_u64 p.size
    → p.seq + to_u64 p.size ≤ max_u64
    → IsBuffer (append p buffer) × (pending (append p buffer) ≡ pending buffer ++ p ∷ [])
unfolding append
append_lem p buffer v c s e =
    let same = drop-append_list buffer.first_pending_index buffer.segments (p ∷ []) v.bounded in
    (
      record {
        bounded = omega (arith, v.bounded, length-append buffer.segments (p ∷ []));
        ordered = rw same (IsOrdered-append 0 (pending buffer) p v.ordered (omega arith) c s e);
      },
      same,
    )
