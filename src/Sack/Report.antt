-- ===== src/Sack/Report.antt =====
-- simulator/protocols/tcp/sack/scoreboard.go: `Update`.
use balancer_go.Base.{
  ℕ, suc, ◌+◌, ◌-◌, ◌≤◌, ◌<◌, ◌≡◌, sym, ◌∙◌, Bool, true, false, ◌&&◌, ◌||◌, not, ◌↔◌, List, [], ◌∷◌,
  ltb, leb, arith, max_u64, +u64_lem, -u64_lem, Bool-cases, inl, inr,
}
use balancer_go.Ranges.{
  Range, within, covered, IsSeparated, IsBelow, IsSeparated-mono, bytes, covered_below,
  covered_above,
}
use balancer_go.Ranges.Union.{union, covered-union, union-IsSeparated, replace-union}
use balancer_go.Ranges.Count.{count, count-bytes, count-lt, lt-count}
use balancer_go.Sack.{
  Scoreboard, received_bytes_from, received_bytes, discard_before, insert, is_ignored, insert_all,
  update,
}

-- What a scoreboard keeps: separated ranges from `lo` on, none past `hi`.
pub record IsBoard (lo hi : ℕ) (board : Scoreboard) : Type 0 where
  pub separated : IsSeparated lo board
  pub below : IsBelow hi board

received_bytes_from-bytes :
    (total lo hi : ℕ) (board : Scoreboard)
    → IsSeparated lo board
    → IsBelow hi board
    → hi ≤ max_u64
    → total ≤ lo
    → received_bytes_from total board ≡ total + bytes board
unfolding received_bytes_from
received_bytes_from-bytes total lo hi [] s u h k = omega arith
received_bytes_from-bytes total lo hi (r ∷ rs) s u h k =
    rw
      (
        -u64_lem r.end r.start (omega arith) (omega arith),
        +u64_lem total (r.end - r.start) (omega arith),
      )
      (omega (
        arith,
        received_bytes_from-bytes (total + (r.end - r.start)) r.end hi rs
            (IsSeparated-mono {b = suc r.end} rs (omega arith) s.2) u.1 h (omega arith),
      ))

received_bytes-bytes :
    (lo hi : ℕ) (board : Scoreboard)
    → IsBoard lo hi board
    → hi ≤ max_u64
    → received_bytes board ≡ bytes board
unfolding received_bytes
received_bytes-bytes lo hi board v h =
    omega (arith, received_bytes_from-bytes 0 lo hi board v.separated v.below h (omega arith))

discard_before-IsSeparated :
    (ack lo hi : ℕ) (board : Scoreboard)
    → IsSeparated lo board
    → IsBelow hi board
    → IsSeparated ack (discard_before ack board)
      × IsSeparated lo (discard_before ack board)
      × IsBelow hi (discard_before ack board)
unfolding discard_before
discard_before-IsSeparated ack lo hi [] s u = (tt, tt, tt)
discard_before-IsSeparated ack lo hi (r ∷ rs) s u = ground (
  arith,
  discard_before-IsSeparated ack (suc r.end) hi rs s.2 u.1,
  IsSeparated-mono {a = lo} {b = suc r.end} (discard_before ack rs),
)

pub covered-discard_before :
    (x ack lo : ℕ) (board : Scoreboard)
    → IsSeparated lo board
    → covered x (discard_before ack board) ≡ (leb ack x && covered x board)
unfolding discard_before
covered-discard_before x ack lo [] s = ground arith
covered-discard_before x ack lo (r ∷ rs) s =
    ground (arith, covered-discard_before x ack (suc r.end) rs s.2)

insert-union : (b : Range) (board : Scoreboard) → insert b board ≡ union b board
unfolding insert
insert-union b board = replace-union b board

-- A block that `Update` does not skip holds the position.
abbrev pub reported : ℕ → ℕ → ℕ → List Range → Bool
reported x ack sent_end [] = false
reported x ack sent_end (b ∷ blocks) =
    (not (is_ignored ack sent_end b) && within x b) || reported x ack sent_end blocks

insert_all-IsBoard :
    (ack sent_end : ℕ) (blocks : List Range) (board : Scoreboard)
    → IsBoard ack sent_end board
    → IsBoard ack sent_end (insert_all ack sent_end blocks board)
unfolding insert_all
insert_all-IsBoard ack sent_end [] board v = v
insert_all-IsBoard ack sent_end (b ∷ blocks) board v =
    elim (Bool-cases (is_ignored ack sent_end b)) [
      | inl e ↦ rw e (insert_all-IsBoard ack sent_end blocks board v)
      | inr e ↦
          let more =
            union-IsSeparated ack sent_end b board v.separated v.below (ground arith) (ground arith)
              (ground arith) in
          rw (e, insert-union b board)
            (insert_all-IsBoard ack sent_end blocks (union b board)
              (record { separated = more.0; below = more.1 }))
    ]

covered-insert_all :
    (x ack sent_end : ℕ) (blocks : List Range) (board : Scoreboard)
    → IsBoard ack sent_end board
    → covered x (insert_all ack sent_end blocks board)
      ≡ (covered x board || reported x ack sent_end blocks)
unfolding insert_all
covered-insert_all x ack sent_end [] board v = ground arith
covered-insert_all x ack sent_end (b ∷ blocks) board v =
    elim (Bool-cases (is_ignored ack sent_end b)) [
      | inl e ↦ rw e (covered-insert_all x ack sent_end blocks board v)
      | inr e ↦
          let more =
            union-IsSeparated ack sent_end b board v.separated v.below (ground arith) (ground arith)
              (ground arith) in
          let here = covered-union x ack b board v.separated (ground arith) in
          let rest =
            covered-insert_all x ack sent_end blocks (union b board)
              (record { separated = more.0; below = more.1 }) in
          rw (e, insert-union b board) (ground (arith, here, rest))
    ]

module _ (ack lo sent_end : ℕ) (blocks : List Range) (board : Scoreboard)
    (v : IsBoard lo sent_end board) where
  kept-IsBoard : IsBoard ack sent_end (discard_before ack board)
  kept-IsBoard =
      let kept = discard_before-IsSeparated ack lo sent_end board v.separated v.below in
      record { separated = kept.0; below = kept.2 }

  -- After `Update` the scoreboard's ranges are in order, separated, not empty, and lie between the
  -- cumulative ACK and the end of the sent data, whatever blocks the peer reports.
  pub update-IsBoard : IsBoard ack sent_end (update ack sent_end blocks board).0
  unfolding update
  update-IsBoard = insert_all-IsBoard ack sent_end blocks _ kept-IsBoard

  -- `Update` keeps exactly the positions from the cumulative ACK on that were reported before or
  -- lie in a block that it does not skip.
  pub covered-update :
      (x : ℕ)
      → covered x (update ack sent_end blocks board).0
        ≡ ((leb ack x && covered x board) || reported x ack sent_end blocks)
  unfolding update
  covered-update x = rw (
    covered-insert_all x ack sent_end blocks _ kept-IsBoard,
    covered-discard_before x ack lo board v.separated,
  )

  -- `Update` returns true exactly when some position from the cumulative ACK on is covered now and
  -- was not before.
  pub update_reports_news :
      sent_end ≤ max_u64
      → ((update ack sent_end blocks board).1 ≡ true) ↔ (
          (x : ℕ) × (ack ≤ x)
          × (covered x board ≡ false)
          × (covered x (update ack sent_end blocks board).0 ≡ true))
  unfolding update
  update_reports_news h = (forward, backward)
    where
      kept : Scoreboard
      kept = discard_before ack board

      after : Scoreboard
      after = insert_all ack sent_end blocks kept

      after-IsBoard : IsBoard ack sent_end after
      after-IsBoard = insert_all-IsBoard ack sent_end blocks _ kept-IsBoard

      kept_count : received_bytes kept ≡ count sent_end (λ x. covered x kept)
      kept_count =
          received_bytes-bytes ack sent_end kept kept-IsBoard h
          ∙ sym (count-bytes ack sent_end kept kept-IsBoard.separated kept-IsBoard.below)

      after_count : received_bytes after ≡ count sent_end (λ x. covered x after)
      after_count =
          received_bytes-bytes ack sent_end after after-IsBoard h
          ∙ sym (count-bytes ack sent_end after after-IsBoard.separated after-IsBoard.below)

      grows : (x : ℕ) → x < sent_end → covered x kept ≡ true → covered x after ≡ true
      grows x k e = ground (arith, covered-insert_all x ack sent_end blocks kept kept-IsBoard)

      forward :
          ltb (received_bytes kept) (received_bytes after) ≡ true
          → (x : ℕ) × (ack ≤ x) × (covered x board ≡ false) × (covered x after ≡ true)
      forward e =
          let (x, k, a, b) =
            count-lt sent_end (λ x. covered x kept) (λ x. covered x after) grows
              (ground (arith, kept_count, after_count)) in
          let inside : ack ≤ x =
            ground (arith, covered_below x ack after after-IsBoard.separated) in
          (x, inside, ground (arith, covered-discard_before x ack lo board v.separated), b)

      backward :
          ((x : ℕ) × (ack ≤ x) × (covered x board ≡ false) × (covered x after ≡ true))
          → ltb (received_bytes kept) (received_bytes after) ≡ true
      backward (x, a, b, c) =
          let inside : x < sent_end =
            ground (arith, covered_above x sent_end after after-IsBoard.below) in
          ground (
            arith,
            kept_count,
            after_count,
            lt-count sent_end (λ x. covered x kept) (λ x. covered x after) x grows inside
                (ground (arith, covered-discard_before x ack lo board v.separated)) c,
          )
