-- ===== src/Sack/Holes.antt =====
-- simulator/protocols/tcp/sack/scoreboard.go: `holes`.
use balancer_go.Base.{
  ℕ, suc, ◌≡◌, Bool, ◌&&◌, not, List, [], ◌∷◌, ltb, leb, if◌then◌else◌, arith, max, Bool-cases, inl,
  inr,
}
use balancer_go.Ranges.{Range, covered, IsSeparated, IsBelow, IsSeparated-mono, covered_below}
use balancer_go.Sack.{Scoreboard, holes}

-- The gaps in [start, end), from the first to the last.
pub gaps : ℕ → ℕ → Scoreboard → List Range
gaps end start [] = if ltb start end then record { start = start; end = end } ∷ [] else []
gaps end start (r ∷ rs) =
    let skipped = gaps end start rs in
    let last : List Range =
      if ltb start end then record { start = start; end = end } ∷ [] else [] in
    let later = gaps end (max start r.end) rs in
    if leb r.end start
    then skipped
    else if leb end r.start
    then last
    else if ltb start r.start
    then record { start = start; end = r.start } ∷ later
    else later

-- A visitor's walk along the gaps, until it stops.
unfoldable pub walk {ℓ} : {S : Type ℓ} → (Range → S → S × Bool) → S → List Range → S
walk visit s [] = s
walk visit s (h ∷ hs) =
    let seen = visit h s in let rest = walk visit seen.0 hs in if seen.1 then rest else seen.0

-- The gaps hold exactly the positions of [start, end) that no report covers.
pub covered-gaps :
    (x lo start end : ℕ) (board : Scoreboard)
    → IsSeparated lo board
    → covered x (gaps end start board) ≡ ((leb start x && ltb x end) && not (covered x board))
unfolding gaps
covered-gaps x lo start end [] s = ground arith
covered-gaps x lo start end (r ∷ rs) s = elim (Bool-cases (leb r.end start)) [
  | inl e ↦ rw e (ground (arith, covered-gaps x (suc r.end) start end rs s.2))
  | inr e ↦ elim (Bool-cases (leb end r.start)) [
    | inl f ↦ rw (e, f) (ground (arith, covered_below x (suc r.end) rs s.2))
    | inr f ↦ elim (Bool-cases (ltb start r.start)) [
      | inl g ↦
          rw (e, f, g)
            (ground (
              arith,
              covered-gaps x (suc r.end) (max start r.end) end rs s.2,
              covered_below x (suc r.end) rs s.2,
            ))
      | inr g ↦
          rw (e, f, g)
            (ground (
              arith,
              covered-gaps x (suc r.end) (max start r.end) end rs s.2,
              covered_below x (suc r.end) rs s.2,
            ))
    ]
  ]
]

-- What the visitor sees.
pub holes-walk {ℓ} :
    {S : Type ℓ} (visit : Range → S → S × Bool) (end start : ℕ) (s : S) (board : Scoreboard)
    → holes visit end s start board ≡ walk visit s (gaps end start board)
unfolding holes walk gaps
holes-walk visit end start s [] = ground arith
holes-walk visit end start s (r ∷ rs) = ground (
  arith,
  holes-walk visit end start s rs,
  holes-walk visit end (max start r.end) s rs,
  holes-walk visit end (max start r.end) (visit (record { start = start; end = r.start }) s).0 rs,
)

-- A gap lies in [start, end), ends at a report or at `end`, and is not empty.
pub gaps-IsSeparated :
    (lo start end : ℕ) (board : Scoreboard)
    → IsSeparated lo board
    → IsSeparated start (gaps end start board) × IsBelow end (gaps end start board)
unfolding gaps
gaps-IsSeparated lo start end [] s = ground arith
gaps-IsSeparated lo start end (r ∷ rs) s = ground (
  arith,
  gaps-IsSeparated (suc r.end) start end rs s.2,
  gaps-IsSeparated (suc r.end) (max start r.end) end rs s.2,
  IsSeparated-mono {a = start} {b = max start r.end} (gaps end (max start r.end) rs),
  IsSeparated-mono {a = suc r.start} {b = max start r.end} (gaps end (max start r.end) rs),
)

-- On a board in order, `holes` shows its visitor a list of ranges from first to last, until the visitor
-- stops it. They are in order, separated and not empty, and they hold exactly the positions of
-- [start, end) that the board does not cover.
pub holes_lem {ℓ} :
    {S : Type ℓ} (visit : Range → S → S × Bool) (lo end start : ℕ) (s : S) (board : Scoreboard)
    → IsSeparated lo board
    → (hs : List Range) × (holes visit end s start board ≡ walk visit s hs)
      × IsSeparated start hs
      × ((x : ℕ) → covered x hs ≡ ((leb start x && ltb x end) && not (covered x board)))
holes_lem visit lo end start s board v = (
  gaps end start board,
  holes-walk visit end start s board,
  (gaps-IsSeparated lo start end board v).0,
  λ x. covered-gaps x lo start end board v,
)
