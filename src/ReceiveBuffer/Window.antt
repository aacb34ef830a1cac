-- ===== src/ReceiveBuffer/Window.antt =====
-- simulator/protocols/tcp/receiver_buffer.go: `accept` of any incoming data.
use balancer_go.Base.{
  ℕ, ◌≤◌, ◌<◌, ◌≡◌, sym, ◌&&◌, ◌||◌, not, arith, min, max, ltb, leb, Bool-cases, inl, inr,
}
use balancer_go.Ranges.{Range, within, covered, IsSeparated-mono}
use balancer_go.Ranges.Count.{count, count-cong, count-diff, count-none, count-within}
use balancer_go.Ranges.Overlap.{count-overlap}
use balancer_go.ReceiveBuffer.{ReceiveBuffer, window_end, accept_cut, accept}
use balancer_go.ReceiveBuffer.Accept.{IsBuffer, IsAccepted, received, accept_cut-IsAccepted}

module _ (buffer : ReceiveBuffer) (v : IsBuffer buffer) (start end : ℕ) where
  abbrev cut : Range
  cut = record { start = max start buffer.next_expected_seq; end = min end (window_end buffer) }

  accept_cases {ℓ} :
      (P : ReceiveBuffer × ℕ → Type ℓ)
      → (cut.end ≤ cut.start → P (buffer, 0))
      → (cut.start < cut.end
          → IsAccepted buffer cut (accept_cut buffer cut)
          → P (accept_cut buffer cut))
      → P (accept buffer start end)
  unfolding accept
  accept_cases P outside inside = elim (Bool-cases (leb cut.end cut.start)) [
    | inl e ↦ rw e (outside (ground arith))
    | inr e ↦
        let nonempty : cut.start < cut.end = ground arith in
        rw e (
          inside nonempty (accept_cut-IsAccepted buffer v cut (omega arith) nonempty (omega arith)))
  ]

  -- Whatever data arrives, the ranges of a valid buffer stay in order, separated, beyond the next
  -- expected position and inside the window, and `bufferedBytes` is the number of bytes in them.
  pub accept-IsBuffer : IsBuffer (accept buffer start end).0
  accept-IsBuffer = accept_cases (λ r. IsBuffer r.0) (λ _. v) (λ _ a. a.valid)

  -- After `accept` a position has arrived exactly when it had before, or when it lies in the
  -- incoming data and before the window's right edge.
  pub received-accept :
      (x : ℕ)
      → received x (accept buffer start end).0
        ≡ (received x buffer || (leb start x && ltb x end && ltb x (window_end buffer)))
  received-accept x =
      accept_cases
        (λ r.
          received x r.0
          ≡ (received x buffer || (leb start x && ltb x end && ltb x (window_end buffer))))
        (λ h. ground arith) (λ h a. ground (arith, a.merged x))

  -- `accept` returns the number of positions that have newly arrived.
  pub accept_counts :
      (accept buffer start end).1
      ≡ count
          (window_end buffer)
          (λ x. received x (accept buffer start end).0 && not (received x buffer))
  accept_counts =
      let hi = window_end buffer in
      let s =
        IsSeparated-mono {a = buffer.next_expected_seq} buffer.ranges (omega arith) v.separated in
      accept_cases (λ r. r.1 ≡ count hi (λ x. received x r.0 && not (received x buffer)))
        (λ h. sym (count-none hi _ (λ x k. ground arith)))
        (λ h a. omega (
          arith,
          a.fresh,
          count-cong hi (λ x. received x (accept_cut buffer cut).0 && not (received x buffer))
              (λ x. within x cut && not (covered x buffer.ranges))
              (λ x k. ground (arith, a.merged x)),
          count-diff hi (λ x. within x cut) (λ x. covered x buffer.ranges),
          count-overlap buffer.next_expected_seq hi cut buffer.ranges s (omega arith),
          count-within hi cut,
        ))
