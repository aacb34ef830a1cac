-- ===== src/Network/Ingress/Transmit.antt =====
-- simulator/network/ingress.go: the end of `TransmitECN`.
use Prim.{tt}
use balancer_go.Base.{
  ℕ, zero, suc, ◌+◌, ◌≤◌, ◌<◌, ◌≡◌, refl, ap, Option, none, some, List, [], ◌∷◌, ◌++◌, length,
  get_elem?, arith, max_i64, length-append,
}
use balancer_go.Fifo.{queued, enqueue}
use balancer_go.Fifo.Refinement.{waiting, queued_lem, enqueue_lem}
use balancer_go.Network.Serialization.{ceiling}
use balancer_go.Network.Link.{Stats}
use balancer_go.Network.Ingress.{Input, IngressPacket, modify}
use balancer_go.Network.Ingress.Order.{IsSequence, AllInputs, waiting_packets}

module _ {C : Type 0} (b c : ℕ) where
  -- More numbers may be given out.
  IsSequence-mono :
      (lo m n : ℕ) (ps : List (IngressPacket C))
      → m ≤ n
      → IsSequence b lo m ps
      → IsSequence b lo n ps
  IsSequence-mono lo m n [] h v = tt
  IsSequence-mono lo m n (p ∷ ps) h v =
      (v.0, omega (arith, v.1), v.2, IsSequence-mono p.sequence m n ps h v.3)

  pub AllInputs-mono :
      (m n : ℕ) (xs : List (Input C)) → m ≤ n → AllInputs b c m xs → AllInputs b c n xs
  AllInputs-mono m n [] h v = tt
  AllInputs-mono m n (x ∷ xs) h v = (
    record {
      fifo = v.0.fifo;
      room = v.0.room;
      sequence = IsSequence-mono 0 m n (waiting x.fifo) h v.0.sequence;
    },
    AllInputs-mono m n xs h v.1,
  )

  IsSequence-append :
      (lo hi : ℕ) (ps : List (IngressPacket C)) (p : IngressPacket C)
      → lo < p.sequence
      → hi < p.sequence
      → ceiling p.size_bytes b ≤ max_i64
      → IsSequence b lo hi ps
      → IsSequence b lo p.sequence (ps ++ p ∷ [])
  IsSequence-append lo hi [] p l h k v = (l, omega arith, k, tt)
  IsSequence-append lo hi (q ∷ qs) p l h k v = (
    v.0,
    omega (arith, v.1),
    v.2,
    IsSequence-append q.sequence hi qs p (omega (arith, v.1)) h k v.3,
  )

  -- A packet joins the input of index `i`, which has room for one more.
  pub appended :
      (hi i : ℕ) (p : IngressPacket C) (count : Stats → Stats) (x : Input C) (xs : List (Input C))
      → get_elem? xs i ≡ some x
      → queued x.fifo < c
      → hi < p.sequence
      → ceiling p.size_bytes b ≤ max_i64
      → AllInputs b c hi xs
      → let ys = modify i (λ y. record y { stats = count y.stats; fifo = enqueue p y.fifo }) xs in
        AllInputs b c p.sequence ys × (waiting_packets ys ≡ waiting_packets xs + 1)
  appended hi i p count x [] e q h k v = ground arith
  appended hi zero p count x (y ∷ ys) e q h k v =
      let step = enqueue_lem p y.fifo v.0.fifo in
      let longer : queued (enqueue p y.fifo) ≡ queued y.fifo + 1 = omega (
        arith,
        queued_lem y.fifo,
        queued_lem (enqueue p y.fifo),
        ap length step.1,
        length-append (waiting y.fifo) (p ∷ []),
      ) in
      let same : queued y.fifo ≡ queued x.fifo = ap queued_of e in
      (
        (
          record {
            fifo = step.0;
            room = omega (arith, longer, same);
            sequence =
                rw step.1
                  (IsSequence-append 0 hi (waiting y.fifo) p (omega arith) h k v.0.sequence);
          },
          AllInputs-mono hi p.sequence ys (omega arith) v.1,
        ),
        omega (arith, longer),
      )
    where
      queued_of : Option (Input C) → ℕ
      queued_of none = 0
      queued_of (some z) = queued z.fifo
  appended hi (suc i) p count x (y ∷ ys) e q h k v =
      let rest = appended hi i p count x ys e q h k v.1 in
      (
        (
          record {
            fifo = v.0.fifo;
            room = v.0.room;
            sequence = IsSequence-mono 0 hi p.sequence (waiting y.fifo) (omega arith) v.0.sequence;
          },
          rest.0,
        ),
        omega (arith, rest.1),
      )

  -- The counters of an input do not matter to what waits.
  pub counted_only :
      (hi i : ℕ) (count : Stats → Stats) (xs : List (Input C))
      → AllInputs b c hi xs
      → let ys = modify i (λ y. record y { stats = count y.stats }) xs in
        AllInputs b c hi ys × (waiting_packets ys ≡ waiting_packets xs)
  counted_only hi i count [] v = (tt, refl)
  counted_only hi zero count (y ∷ ys) v =
      ((record { fifo = v.0.fifo; room = v.0.room; sequence = v.0.sequence }, v.1), refl)
  counted_only hi (suc i) count (y ∷ ys) v =
      let rest = counted_only hi i count ys v.1 in ((v.0, rest.0), omega (arith, rest.1))
