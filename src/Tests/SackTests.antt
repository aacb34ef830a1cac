-- ===== src/Tests/SackTests.antt =====
-- The scoreboard at concrete inputs.
use Prim.{tt}
use balancer_go.Base.{
  ℕ, ◌≡◌, ◌≤◌, Bool, true, false, ◌&&◌, ◌||◌, not, ltb, leb, List, [], ◌∷◌, arith, ◌⊎◌, ◌↔◌,
}
use balancer_go.Ranges.{Range, covered, IsSeparated}
use balancer_go.Sack.{Scoreboard, update, next_hole, holes}
use balancer_go.Sack.Report.{IsBoard, reported, update-IsBoard, covered-update, update_reports_news}
use balancer_go.Sack.Holes.{walk, holes_lem}
use balancer_go.Sack.Retry.{IsEarliest, is_eligible, next_hole-IsEarliest}

-- Bytes 10 to 14 and 20 to 24 are reported.
abbrev two_blocks : Scoreboard
two_blocks = record { start = 10; end = 15 } ∷ record { start = 20; end = 25 } ∷ []

two_blocks-IsSeparated : IsSeparated 1 two_blocks
two_blocks-IsSeparated = (omega arith, omega arith, (omega arith, omega arith, tt))

two_blocks-IsBoard : IsBoard 1 40 two_blocks
two_blocks-IsBoard = record {
  separated = two_blocks-IsSeparated;
  below = (omega arith, (omega arith, tt));
}

abbrev news : List Range
news = record { start = 15; end = 18 } ∷ []

update-IsBoard_example : IsBoard 12 40 (update 12 40 news two_blocks).0
update-IsBoard_example = update-IsBoard 12 1 40 news two_blocks two_blocks-IsBoard

covered-update_example :
    covered 16 (update 12 40 news two_blocks).0
    ≡ ((leb 12 16 && covered 16 two_blocks) || reported 16 12 40 news)
covered-update_example = covered-update 12 1 40 news two_blocks two_blocks-IsBoard 16

update_reports_news_example : ((update 12 40 news two_blocks).1 ≡ true) ↔ (
    (x : ℕ) × (12 ≤ x)
    × (covered x two_blocks ≡ false)
    × (covered x (update 12 40 news two_blocks).0 ≡ true))
update_reports_news_example =
    update_reports_news 12 1 40 news two_blocks two_blocks-IsBoard (omega arith)

-- A visitor that collects what it is shown.
abbrev collect : Range → List Range → List Range × Bool
collect r rs = (r ∷ rs, true)

holes_lem_example :
    (hs : List Range) × (holes collect 40 [] 5 two_blocks ≡ walk collect [] hs)
    × IsSeparated 5 hs
    × ((x : ℕ) → covered x hs ≡ ((leb 5 x && ltb x 40) && not (covered x two_blocks)))
holes_lem_example = holes_lem collect 1 40 5 [] two_blocks two_blocks-IsSeparated

next_hole-IsEarliest_example :
    let found = next_hole 5 40 true 4 two_blocks in
    let missing : ℕ → Bool = λ x. (leb 5 x && ltb x 40) && not (covered x two_blocks) in
    ((found.1 ≡ false) × ((x : ℕ) → missing x ≡ true → is_eligible true 4 two_blocks x ≡ false))
    ⊎ ((found.1 ≡ true) × IsEarliest 5 40 4 missing (is_eligible true 4 two_blocks) found.0)
next_hole-IsEarliest_example =
    next_hole-IsEarliest 40 4 true two_blocks 1 two_blocks-IsSeparated (omega arith) (omega arith) 5
