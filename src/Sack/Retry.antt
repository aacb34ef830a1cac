-- ===== src/Sack/Retry.antt =====
-- simulator/protocols/tcp/sack/scoreboard.go: `NextHole`.
use balancer_go.Base.{
  ℕ, suc, ◌+◌, ◌-◌, ◌≤◌, ◌<◌, ◌≡◌, refl, Bool, true, false, ◌&&◌, not, List, [], ◌∷◌, ltb, leb,
  arith, min, max_u64, ◌+u64◌, ◌-u64◌, +u64_lem, -u64_lem, Bool-cases, inl, inr, ◌⊎◌, ◌∙◌,
}
use balancer_go.Ranges.{Range, within, covered, IsSeparated, IsBelow, covered_below}
use balancer_go.Sack.{Scoreboard, is_lost, is_lost_from, next_hole, next_visit, nothing}
use balancer_go.Sack.Holes.{gaps, walk, covered-gaps, holes-walk, gaps-IsSeparated}

-- The bytes above a hole are the same for all its positions.
is_lost_from-same :
    (h x mss blocks above lo : ℕ) (board : Scoreboard)
    → IsSeparated lo board
    → h ≤ x
    → ((y : ℕ) → h ≤ y → y ≤ x → covered y board ≡ false)
    → is_lost_from h mss blocks above board ≡ is_lost_from x mss blocks above board
unfolding is_lost_from
is_lost_from-same h x mss blocks above lo [] s k c = refl
is_lost_from-same h x mss blocks above lo (r ∷ rs) s k c =
    let at_h = c h (omega arith) k in
    let at_x = c x k (omega arith) in
    let rest : (y : ℕ) → h ≤ y → y ≤ x → covered y rs ≡ false = λ y a b. ground (arith, c y a b) in
    elim (Bool-cases (leb r.start h)) [
      | inl e ↦
          let e' : leb r.start x ≡ true = ground arith in
          let f : ltb h r.end ≡ false = ground arith in
          let f' : ltb x r.end ≡ false = ground arith in
          rw (e, e', f, f') (is_lost_from-same h x mss blocks above (suc r.end) rs s.2 k rest)
      | inr e ↦
          let start_free = c r.start in
          let e' : leb r.start x ≡ false = ground (arith, c r.start) in
          rw (e, e')
            (is_lost_from-same h x mss (blocks + 1) (above +u64 (r.end -u64 r.start)) (suc r.end) rs
              s.2 k rest)
    ]

-- A position that a retry may start from.
abbrev pub is_eligible : Bool → ℕ → Scoreboard → ℕ → Bool
is_eligible require_loss mss board x = not (require_loss && not (is_lost x mss board))

-- What a chosen retry keeps to, and that it is the earliest of the positions in question.
pub record IsEarliest (start end mss : ℕ) (is_open is_fit : ℕ → Bool) (r : Range) : Type 0 where
  pub inside : start ≤ r.start
  pub nonempty : r.start < r.end
  pub ends : r.end ≤ end
  pub short : r.end ≤ r.start + mss
  pub fits : (x : ℕ) → within x r ≡ true → (is_open x && is_fit x) ≡ true
  pub earliest : (x : ℕ) → x < r.start → is_open x ≡ true → is_fit x ≡ false

module _ (end mss : ℕ) (require_loss : Bool) (board : Scoreboard) (lo_board : ℕ)
    (s : IsSeparated lo_board board) (fits : end ≤ max_u64) (positive : 0 < mss) where
  eligible-same :
      (h : Range) (x : ℕ)
      → ((y : ℕ) → within y h ≡ true → covered y board ≡ false)
      → within x h ≡ true
      → is_eligible require_loss mss board h.start ≡ is_eligible require_loss mss board x
  unfolding is_lost
  eligible-same h x c e =
      let a : h.start ≤ x = ground arith in
      rw (is_lost_from-same h.start x mss 0 0 lo_board board s a (λ y k l. c y (ground arith)))

  walk_next :
      (lo : ℕ) (hs : List Range)
      → IsSeparated lo hs
      → IsBelow end hs
      → ((x : ℕ) → covered x hs ≡ true → covered x board ≡ false)
      → let found = walk (next_visit require_loss mss board) nothing hs in
        ((ltb found.start found.end ≡ false)
          × ((x : ℕ) → covered x hs ≡ true → is_eligible require_loss mss board x ≡ false))
        ⊎ IsEarliest lo end mss (λ x. covered x hs) (is_eligible require_loss mss board) found
  unfolding walk next_visit
  walk_next lo [] v u c = inl (refl, λ x e. cc)
  walk_next lo (h ∷ hs) v u c =
      let free : (y : ℕ) → within y h ≡ true → covered y board ≡ false =
        λ y a. c y (ground arith) in
      let same = eligible-same h in
      let ih = walk_next (suc h.end) hs v.2 u.1 (λ x a. c x (ground arith)) in
      elim (Bool-cases (require_loss && not (is_lost h.start mss board))) [
        | inl e ↦
            let here : (x : ℕ) → within x h ≡ true → is_eligible require_loss mss board x ≡ false =
              λ x a. ground (arith, same x free a) in
            rw e (elim ih [
              | inl (z, nowhere) ↦ inl (z, λ x a. ground (arith, here x, nowhere x))
              | inr r ↦ inr (record {
                inside = omega (arith, r.inside);
                nonempty = r.nonempty;
                ends = r.ends;
                short = r.short;
                fits = λ x a. ground (arith, r.fits x);
                earliest = λ x a b. ground (arith, here x, r.earliest x);
              })
            ])
        | inr e ↦
            let long = min (h.end - h.start) mss in
            let minus = -u64_lem h.end h.start (omega arith) (omega arith) in
            let plus = +u64_lem h.start long (omega arith) in
            rw (e, minus, plus)
              (inr (record {
                inside = v.0;
                nonempty = omega arith;
                ends = omega arith;
                short = omega arith;
                fits = λ x a.
                    let w : within x h ≡ true = ground arith in ground (arith, same x free w);
                earliest = λ x a b. absurd (ground (arith, covered_below x (suc h.end) hs v.2));
              }))
      ]

  -- `NextHole` reports no retry only if no missing byte is eligible; otherwise it selects at most
  -- one MSS of missing, eligible bytes, and no eligible missing byte stands before them.
  pub next_hole-IsEarliest :
      (start : ℕ)
      → let found = next_hole start end require_loss mss board in
        let missing : ℕ → Bool = λ x. (leb start x && ltb x end) && not (covered x board) in
        ((found.1 ≡ false)
          × ((x : ℕ) → missing x ≡ true → is_eligible require_loss mss board x ≡ false))
        ⊎ ((found.1 ≡ true)
            × IsEarliest start end mss missing (is_eligible require_loss mss board) found.0)
  unfolding next_hole
  next_hole-IsEarliest start =
      let hs = gaps end start board in
      let gap = λ (x : ℕ). covered-gaps x lo_board start end board s in
      let shape = gaps-IsSeparated lo_board start end board s in
      rw (holes-walk (next_visit require_loss mss board) end start nothing board)
        (elim (walk_next start hs shape.0 shape.1 (λ x a. ground (arith, gap x))) [
          | inl (z, nowhere) ↦ inl (z, λ x a. nowhere x (gap x ∙ a))
          | inr r ↦ inr (
            ground (arith, r.nonempty),
            record {
              inside = r.inside;
              nonempty = r.nonempty;
              ends = r.ends;
              short = r.short;
              fits = λ x a. ground (arith, gap x, r.fits x a);
              earliest = λ x a b. r.earliest x a (gap x ∙ b);
            },
          )
        ])
