-- ===== src/Congestion/Lifetime.antt =====
-- simulator/protocols/tcp/congestion_control: the factory's checks, and a policy's calls one after
-- another.
use balancer_go.Base.{
  ◌⊎◌, ap, sym, ◌∙◌, ℕ, zero, suc, ◌*◌, ◌/◌, ◌≤◌, ◌≡◌, refl, Bool, true, false, ◌&&◌, ◌||◌, ltb,
  if◌then◌else◌, u64_mod, max_i64, max_u64, ◌%◌, ◌*u64◌, arith, *u64_lem, Bool-cases, inl, inr,
  Option, none, some, List, [], ◌∷◌,
}
use Prim.{tt}
use native.Mathlib.Nat.{le-div_iff_mul-le}
use balancer_go.Base.Int.{ℤ, pos, negsuc}
use balancer_go.Model.{valid_mss_bytes, max_mss_bytes}
use balancer_go.Congestion.{
  Mode, CongestionConfig, ClassicWindow, Loss, LossKind, State, fast_retransmit_loss, timeout_loss,
  handshake_loss, window_state, new_classic_window,
}
use balancer_go.Congestion.Reno
use balancer_go.Congestion.Reno.{RenoPolicy}
use balancer_go.Congestion.NewReno
use balancer_go.Congestion.NewReno.{NewRenoPolicy}
use balancer_go.Congestion.Tahoe
use balancer_go.Congestion.Policy.{
  Policy, unlimited, reno, new_reno, tahoe, Made, made, Event, acked, duplicated, stopped, idled,
  lost, marked, is_valid_config, in_range, make, new_with_mss, apply, apply_all, policy_state,
}
use balancer_go.Congestion.Bounds.{
  IsWindow, grow-IsWindow, reduce_for_ecn-IsWindow, restart_after_loss-IsWindow,
  restart_after_handshake_loss-IsWindow, restart_after_idle-IsWindow,
}
use balancer_go.Congestion.Invariant.{IsPolicy, IsEvent}
use balancer_go.Congestion.Limits.{limits, sizes, limits-apply_all}
use balancer_go.Congestion.RenoBounds.{
  reno_ack, reno_duplicate, reno_loss, reno_ecn, reno_idle, reno_stop,
}
use balancer_go.Congestion.NewRenoBounds.{
  new_reno_duplicate, new_reno_loss, new_reno_ack, new_reno_ecn, new_reno_idle, new_reno_stop,
}

tahoe_loss :
    (w : ClassicWindow)
    → IsWindow w
    → (k : LossKind) (l : Loss) → l.flight_bytes ≤ max_u64
    → IsWindow (Tahoe.on_loss_of k l w)
unfolding Tahoe.on_loss_of
tahoe_loss w v fast_retransmit_loss l h =
    ground (arith, restart_after_loss-IsWindow w v l.flight_bytes false h)
tahoe_loss w v timeout_loss l h =
    restart_after_loss-IsWindow w v l.flight_bytes (l.already_timed_out || l.already_reduced) h
tahoe_loss w v handshake_loss l h = restart_after_handshake_loss-IsWindow w v

-- The segments that fit below a limit, in bytes.
segments-le : (n mss limit : ℕ) → 1 ≤ mss → n ≤ limit / mss → n * mss ≤ limit
segments-le n mss limit one h = (le-div_iff_mul-le one).0 h

-- Every call of the interface keeps a policy within its bounds.
apply-IsPolicy : (e : Event) (p : Policy) → IsEvent e → IsPolicy p → IsPolicy (apply e p)
unfolding apply Reno.on_loss NewReno.on_loss Tahoe.on_loss
apply-IsPolicy e unlimited h v = tt
apply-IsPolicy (acked a) (reno p) h v = reno_ack p v a
apply-IsPolicy duplicated (reno p) h v = reno_duplicate p v
apply-IsPolicy stopped (reno p) h v = reno_stop p v
apply-IsPolicy idled (reno p) h v = reno_idle p v
apply-IsPolicy (lost l) (reno p) h v = reno_loss p v l.kind l h
apply-IsPolicy (marked flight) (reno p) h v = reno_ecn p v flight h
apply-IsPolicy (acked a) (new_reno p) h v = new_reno_ack p v a h
apply-IsPolicy duplicated (new_reno p) h v = new_reno_duplicate p v
apply-IsPolicy stopped (new_reno p) h v = new_reno_stop p v
apply-IsPolicy idled (new_reno p) h v = new_reno_idle p v
apply-IsPolicy (lost l) (new_reno p) h v = new_reno_loss p v l.kind l h
apply-IsPolicy (marked flight) (new_reno p) h v = new_reno_ecn p v flight h
apply-IsPolicy (acked a) (tahoe w) h v = grow-IsWindow a w v
apply-IsPolicy duplicated (tahoe w) h v = v
apply-IsPolicy stopped (tahoe w) h v = v
apply-IsPolicy idled (tahoe w) h v = restart_after_idle-IsWindow w v
apply-IsPolicy (lost l) (tahoe w) h v = tahoe_loss w v l.kind l h
apply-IsPolicy (marked flight) (tahoe w) h v = reduce_for_ecn-IsWindow w v flight h

abbrev pub AllEvents : List Event → Type 0
AllEvents [] = Unit
AllEvents (e ∷ es) = IsEvent e × AllEvents es

apply_all-IsPolicy :
    (es : List Event) (p : Policy) → AllEvents es → IsPolicy p → IsPolicy (apply_all es p)
unfolding apply_all
apply_all-IsPolicy [] p h v = v
apply_all-IsPolicy (e ∷ es) p h v = apply_all-IsPolicy es (apply e p) h.1 (apply-IsPolicy e p h.0 v)

-- A Go int.
abbrev pub IsInt : ℤ → Type 0
IsInt (pos n) = n ≤ max_i64
IsInt (negsuc n) = n ≤ max_i64

several-le : (n mss : ℕ) → 1 ≤ n → mss ≤ n * mss
several-le zero mss h = ground arith
several-le (suc n) mss h = ground arith

-- What the factory's checks come to, for a limit in segments.
in_range_lem :
    (least most n : ℕ) → n ≤ max_i64 → in_range least most (pos n) ≡ true → (least ≤ n) × (n ≤ most)
in_range_lem least most n i e = ground arith

-- The window's ceiling: so many segments, and the largest int64 if none are asked for.
abbrev pub ceiling : ℤ → ℕ → ℕ
ceiling (pos segments) mss = if ltb 0 segments then segments * mss else max_i64
ceiling (negsuc n) mss = max_i64

abbrev settings : Mode → Bool → Bool → ℤ → ℤ → ℕ → CongestionConfig
settings mode fast convergence initial maximum threshold = record {
  mode = mode;
  fast_retransmit = fast;
  cubic_fast_convergence = convergence;
  initial_window_segments = initial;
  maximum_window_segments = maximum;
  initial_slow_start_threshold_bytes = threshold;
}

-- What is true of the first window.
abbrev IsFirst : CongestionConfig → ℕ → Type 0
IsFirst config mss =
    IsWindow (new_classic_window config mss)
    × (sizes (new_classic_window config mss) ≡ (mss, ceiling config.maximum_window_segments mss))

first-of :
    (mode : Mode) (fast convergence : Bool) (initial maximum threshold mss : ℕ)
    → valid_mss_bytes (pos mss) ≡ true
    → is_valid_config (settings mode fast convergence (pos initial) (pos maximum) threshold) mss
      ≡ true
    → initial ≤ max_i64
    → maximum ≤ max_i64
    → IsFirst (settings mode fast convergence (pos initial) (pos maximum) threshold) mss
unfolding new_classic_window is_valid_config valid_mss_bytes
first-of mode fast convergence initial maximum threshold mss m v i j =
    let one : 1 ≤ mss = ground arith in
    let small : mss ≤ max_mss_bytes = ground arith in
    let some_fit : (1 ≤ initial) × (initial ≤ max_i64 / mss) = ground arith in
    let all_fit : maximum ≤ max_i64 / mss = ground arith in
    let low = segments-le initial mss max_i64 one some_fit.1 in
    let high = segments-le maximum mss max_i64 one all_fit in
    let one_low = several-le initial mss some_fit.0 in
    let one_high = several-le maximum mss in
    let first : initial % u64_mod ≡ initial = omega arith in
    let last : maximum % u64_mod ≡ maximum = omega arith in
    let from = *u64_lem initial mss (omega arith) in
    let to = *u64_lem maximum mss (omega arith) in
    let double = *u64_lem 2 mss (omega arith) in
    let above : (2 *u64 mss ≤ threshold) × (threshold ≤ max_i64) = ground arith in
    elim (Bool-cases (ltb 0 maximum)) [
      | inl e ↦
          let some_max : 1 ≤ maximum = ground arith in
          rw (e, first, last, from, to) (ground (arith, double), refl)
      | inr e ↦ rw (e, first, from) (ground (arith, double), refl)
    ]

first :
    (mode : Mode) (fast convergence : Bool) (initial maximum : ℤ) (threshold mss : ℕ)
    → valid_mss_bytes (pos mss) ≡ true
    → is_valid_config (settings mode fast convergence initial maximum threshold) mss ≡ true
    → IsInt initial
    → IsInt maximum
    → IsFirst (settings mode fast convergence initial maximum threshold) mss
unfolding is_valid_config
first mode fast convergence (pos a) (pos b) t mss m v i j =
    first-of mode fast convergence a b t mss m v i j
first mode fast convergence (pos a) (negsuc b) t mss m v i j = ground arith
first mode fast convergence (negsuc a) maximum t mss m v i j = ground arith

-- What is true of a made policy.
abbrev IsMade : CongestionConfig → ℕ → Policy → Type 0
IsMade config mss p =
    IsPolicy p × ((p ≡ unlimited) ⊎ (limits p ≡ (mss, ceiling config.maximum_window_segments mss)))

abbrev policy_of : Option Made → Policy
policy_of (some (made p)) = p
policy_of _ = unlimited

made_lem :
    (mode : Mode) (fast convergence : Bool) (initial maximum : ℤ) (threshold mss : ℕ) (p : Policy)
    → IsFirst (settings mode fast convergence initial maximum threshold) mss
    → some (make (settings mode fast convergence initial maximum threshold) mss) ≡ some (made p)
    → IsMade (settings mode fast convergence initial maximum threshold) mss p
unfolding make NewReno.new
made_lem Mode.none fast convergence initial maximum t mss p v e =
    rw (sym (ap policy_of e)) (tt, inl refl)
made_lem Mode.reno fast convergence initial maximum t mss p v e =
    rw (sym (ap policy_of e)) (record { window = v.0; remembered = λ f. cc }, inr v.1)
made_lem Mode.new_reno fast convergence initial maximum t mss p v e =
    rw (sym (ap policy_of e)) (record { window = v.0; remembered = λ f. cc }, inr v.1)
made_lem Mode.tahoe fast convergence initial maximum t mss p v e =
    rw (sym (ap policy_of e)) (v.0, inr v.1)
made_lem Mode.cubic fast convergence initial maximum t mss p v e = cc

-- What a state promises to a sender: one without a limit, or a window within the two bounds.
abbrev pub IsBounded : ℕ → ℕ → State → Type 0
IsBounded least most s =
    (s.limits_new_data ≡ false) ⊎ ((least ≤ s.window_bytes) × (s.window_bytes ≤ most))

bounded :
    (least most : ℕ) (p : Policy)
    → IsPolicy p
    → (p ≡ unlimited) ⊎ (limits p ≡ (least, most))
    → IsBounded least most (policy_state p)
unfolding policy_state Reno.state NewReno.state window_state
bounded least most unlimited v e = inl refl
bounded least most (reno p) v e = ground (arith, v.window)
bounded least most (new_reno p) v e = ground (arith, v.window)
bounded least most (tahoe w) v e = inr (ground arith)

apply_all-unlimited : (es : List Event) → apply_all es unlimited ≡ unlimited
unfolding apply_all apply
apply_all-unlimited [] = refl
apply_all-unlimited (e ∷ es) = apply_all-unlimited es

-- A policy other than CUBIC that the factory accepts and makes (unlimited, Reno, NewReno or Tahoe)
-- has, after any calls of the interface, no limit on new data, or a window of at least one segment
-- and at most the ceiling that the settings ask for. The settings are Go ints, each ACK reports a
-- flight of at most the largest int64, and each loss and mark a flight that fits a uint64.
pub state-IsBounded :
    (config : CongestionConfig) (mss : ℕ) (p : Policy)
    → IsInt config.initial_window_segments
    → IsInt config.maximum_window_segments
    → new_with_mss config (pos mss) ≡ some (made p)
    → (es : List Event) → AllEvents es
    → IsBounded mss (ceiling config.maximum_window_segments mss) (policy_state (apply_all es p))
unfolding new_with_mss
state-IsBounded config mss p i j e es h =
    elim (Bool-cases (valid_mss_bytes (pos mss) && is_valid_config config mss)) [
      | inl ok ↦
          let d : some (make config mss) ≡ some (made p) =
            sym (ap (λ b. if b then some (make config mss) else none) ok) ∙ e in
          let v =
            first config.mode config.fast_retransmit config.cubic_fast_convergence
              config.initial_window_segments config.maximum_window_segments
              config.initial_slow_start_threshold_bytes mss (ground arith) (ground arith) i j in
          let q =
            made_lem config.mode config.fast_retransmit config.cubic_fast_convergence
              config.initial_window_segments config.maximum_window_segments
              config.initial_slow_start_threshold_bytes mss p v d in
          bounded mss (ceiling config.maximum_window_segments mss) (apply_all es p)
            (apply_all-IsPolicy es p h q.0)
            (elim q.1 [
              | inl f ↦ inl (ap (apply_all es) f ∙ apply_all-unlimited es)
              | inr f ↦ inr (limits-apply_all es p ∙ f)
            ])
      | inr e' ↦ ground arith
    ]
