-- ===== src/Sack.antt =====
-- simulator/protocols/tcp/sack/scoreboard.go: the sender's record of the bytes that SACK blocks
-- reported. Positions are uint64; sums of them wrap as the source's do.
pub mod Report
pub mod Holes
pub mod Retry
use balancer_go.Base.{
  ℕ, ◌+◌, Bool, true, false, ◌&&◌, ◌||◌, List, [], ◌∷◌, ltb, leb, if◌then◌else◌, min, max, drop,
  length, ◌+u64◌, ◌-u64◌, ◌*u64◌, not,
}
use balancer_go.Ranges.{Range, count_before, replace}
use balancer_go.Ranges.Union.{absorb}

-- The state of `Scoreboard`: its `ranges`.
abbrev pub Scoreboard : Type 0
Scoreboard = List Range

pub received_bytes_from : ℕ → Scoreboard → ℕ
received_bytes_from total [] = total
received_bytes_from total (r ∷ rs) = received_bytes_from (total +u64 (r.end -u64 r.start)) rs

pub received_bytes : Scoreboard → ℕ
unfolding received_bytes_from
received_bytes board = received_bytes_from 0 board

pub discard_before : ℕ → Scoreboard → Scoreboard
discard_before ack [] = []
discard_before ack (r ∷ rs) =
    let rest = discard_before ack rs in
    if leb r.end ack then rest else record r { start = max r.start ack } ∷ rest

pub insert : Range → Scoreboard → Scoreboard
insert incoming board =
    let first = count_before incoming.start board in
    let grown = absorb incoming (drop first board) in
    replace board first (first + grown.1) (grown.0 ∷ [])

-- The guard of the loop in `Update`: the block is skipped.
abbrev pub is_ignored : ℕ → ℕ → Range → Bool
is_ignored ack sent_end b = leb b.start ack || leb b.end b.start || ltb sent_end b.end

pub insert_all : ℕ → ℕ → List Range → Scoreboard → Scoreboard
insert_all ack sent_end [] board = board
insert_all ack sent_end (b ∷ blocks) board =
    insert_all ack sent_end blocks (if is_ignored ack sent_end b then board else insert b board)

pub update : ℕ → ℕ → List Range → Scoreboard → Scoreboard × Bool
update ack sent_end blocks board =
    let kept = discard_before ack board in
    let after = insert_all ack sent_end blocks kept in
    (after, ltb (received_bytes kept) (received_bytes after))

-- The loop of `IsLost`, with its two counters.
pub is_lost_from : ℕ → ℕ → ℕ → ℕ → Scoreboard → Bool
is_lost_from sequence mss blocks_above bytes_above [] =
    leb 3 blocks_above || ltb (2 *u64 mss) bytes_above
is_lost_from sequence mss blocks_above bytes_above (r ∷ rs) =
    let here = leb r.start sequence in
    let rest =
      is_lost_from sequence mss (if here then blocks_above else blocks_above + 1)
        (if here then bytes_above else bytes_above +u64 (r.end -u64 r.start)) rs in
    if here && ltb sequence r.end then false else rest

pub is_lost : ℕ → ℕ → Scoreboard → Bool
unfolding is_lost_from
is_lost sequence mss board = is_lost_from sequence mss 0 0 board

-- `holes`: the visitor returns the state that its closure keeps, and whether to go on.
pub holes {ℓ} : {S : Type ℓ} → (Range → S → S × Bool) → ℕ → S → ℕ → Scoreboard → S
holes visit end s start [] =
    if ltb start end then (visit (record { start = start; end = end }) s).0 else s
holes visit end s start (r ∷ rs) =
    let skipped = holes visit end s start rs in
    let last = if ltb start end then (visit (record { start = start; end = end }) s).0 else s in
    let seen = visit (record { start = start; end = r.start }) s in
    let after_visit = holes visit end seen.0 (max start r.end) rs in
    let no_gap = holes visit end s (max start r.end) rs in
    if leb r.end start
    then skipped
    else if leb end r.start
    then last
    else if ltb start r.start
    then (if seen.1 then after_visit else seen.0)
    else no_gap

-- The visitor of `Pipe`.
pub pipe_visit : ℕ → ℕ → Scoreboard → Range → ℕ → ℕ × Bool
pipe_visit retransmitted_end mss board hole total =
    let sent =
      if is_lost hole.start mss board then total else total +u64 (hole.end -u64 hole.start) in
    let again =
      if ltb hole.start retransmitted_end
      then sent +u64 (min hole.end retransmitted_end -u64 hole.start)
      else sent in
    (again, true)

pub pipe : ℕ → ℕ → ℕ → ℕ → Scoreboard → ℕ
unfolding holes pipe_visit
pipe start end retransmitted_end mss board =
    holes (pipe_visit retransmitted_end mss board) end 0 start board

-- The zero value of a selection.
abbrev pub nothing : Range
nothing = record { start = 0; end = 0 }

-- The visitor of `NextHole`.
pub next_visit : Bool → ℕ → Scoreboard → Range → Range → Range × Bool
next_visit require_loss mss board hole selected =
    if require_loss && not (is_lost hole.start mss board)
    then (selected, true)
    else (record hole { end = hole.start +u64 min (hole.end -u64 hole.start) mss }, false)

pub next_hole : ℕ → ℕ → Bool → ℕ → Scoreboard → Range × Bool
next_hole start end require_loss mss board =
    let selected = holes (next_visit require_loss mss board) end nothing start board in
    (selected, ltb selected.start selected.end)

-- The visitor of `LastHole`.
pub last_visit : ℕ → Range → Range → Range × Bool
last_visit mss hole selected =
    (record hole { start = hole.end -u64 min (hole.end -u64 hole.start) mss }, true)

pub last_hole : ℕ → ℕ → ℕ → Scoreboard → Range × Bool
last_hole start end mss board =
    let selected = holes (last_visit mss) end nothing start board in
    (selected, ltb selected.start selected.end)

pub reset : Scoreboard → Scoreboard
reset board = []

pub highest_reported_end : Scoreboard → ℕ
highest_reported_end [] = 0
highest_reported_end (r ∷ []) = r.end
highest_reported_end (r ∷ q ∷ rs) = highest_reported_end (q ∷ rs)

pub range_count : Scoreboard → ℕ
range_count board = length board
