-- ===== src/Scheduler/Congestion/Window.antt =====
-- The congestion window of hyperagg/scheduler/congestion_control.py over any run of events.
use ratan_engine.Prelude.{
  ℕ, zero, suc, ◌+◌, ◌-◌, ◌*◌, ◌/◌, ◌≤◌, ◌≡◌, refl, max, true, false, List, [], ◌∷◌, arith,
  Bool-cases, inl, inr, length, subst,
}
use native.Mathlib.Nat.{
  div-le_of_le-mul, le_trans, mul-le-mul_left, mul-le-mul_right, div-mul-le_self,
}
use ratan_engine.Prelude.Floats.{FloatOps}
use ratan_engine.Scheduler.Congestion.{
  AimdController, mss, grow, record_ack, record_sent, record_rtt, update_estimated_bw, on_success,
  on_loss,
}

-- What may happen to a controller.
pub data Event (Float : Type 0) : Type 0 where
  sent acked : (nbytes : ℕ) → Event Float
  loss : Event Float
  success : (now : Float) → Event Float
  rtt : (rtt_ms : Float) → Event Float
  bandwidth : (bw : Float) → Event Float

module _ {Float : Type 0} (fl : FloatOps Float) where
  pub step : Event Float → AimdController Float → AimdController Float
  step (sent n) c = record_sent n c
  step (acked n) c = record_ack fl n c
  step loss c = on_loss fl c
  step (success now) c = on_success fl now c
  step (rtt rtt_ms) c = record_rtt fl rtt_ms c
  step (bandwidth bw) c = update_estimated_bw fl bw c

  pub run : List (Event Float) → AimdController Float → AimdController Float
  run [] c = c
  run (e ∷ es) c = run es (step e c)

  -- What one event does to the window and to the bytes in flight.
  abbrev pub Moves : Event Float → AimdController Float → AimdController Float → Type 0
  Moves (sent n) c c' =
      (c'.cwnd_bytes ≡ c.cwnd_bytes)
      × (c'.in_slow_start ≡ c.in_slow_start)
      × (c'.bytes_in_flight ≡ c.bytes_in_flight + n)
  Moves (acked n) c c' =
      (c.in_slow_start ≡ true
        → (c'.cwnd_bytes ≡ c.cwnd_bytes + n)
          × (c'.in_slow_start ≡ fl.lt (fl.of_ℕ c'.cwnd_bytes) c.ssthresh))
      × (c.in_slow_start ≡ false
          → (c'.cwnd_bytes ≡ c.cwnd_bytes + max 1 (mss * n / c.cwnd_bytes))
            × (c'.in_slow_start ≡ false))
      × (c'.cwnd_bytes ≤ c.cwnd_bytes + max 1 n)
      × (c'.bytes_in_flight ≡ c.bytes_in_flight - n)
  Moves loss c c' =
      (c'.cwnd_bytes ≡ max (c.cwnd_bytes / 2) (2 * mss))
      × (c'.bytes_in_flight ≡ c.bytes_in_flight)
      × (c'.in_slow_start ≡ false)
  Moves e c c' =
      (c'.cwnd_bytes ≡ c.cwnd_bytes)
      × (c'.in_slow_start ≡ c.in_slow_start)
      × (c'.bytes_in_flight ≡ c.bytes_in_flight)

  share-le : (w n : ℕ) → mss ≤ w → mss * n / w ≤ n
  share-le w n h = grind (arith, div-le_of_le-mul)

  step-Moves :
      (e : Event Float) (c : AimdController Float)
      → 2 * mss ≤ c.cwnd_bytes
      → Moves e c (step e c) × (2 * mss ≤ (step e c).cwnd_bytes)
  unfolding step record_sent record_ack grow on_loss on_success record_rtt update_estimated_bw
  step-Moves (sent n) c h = ((refl, refl, refl), h)
  step-Moves (acked n) c h = elim (Bool-cases c.in_slow_start) [
    | inl slow ↦ ground (arith, slow)
    | inr linear ↦ ground (arith, linear, share-le c.cwnd_bytes n)
  ]
  step-Moves loss c h = ground arith
  step-Moves (success now) c h = ground arith
  step-Moves (rtt rtt_ms) c h = ground arith
  step-Moves (bandwidth bw) c h = ground arith

  abbrev pub IsRun : AimdController Float → List (Event Float) → Type 0
  IsRun c [] = Unit
  IsRun c (e ∷ es) = Moves e c (step e c) × IsRun (step e c) es

  -- From a window of at least two segments, which a new controller has, along any run of events:
  -- the window never falls below two segments; an acknowledgement of n bytes adds n to it in slow
  -- start, which lasts while the window is below the threshold, and in congestion avoidance a segment
  -- times the share of n in the window, at least 1 and never more than the greater of n and 1; it
  -- takes n from the bytes in flight; a loss sets the window to its half, but to two segments at least, and
  -- ends slow start; sent bytes are counted as in flight, and nothing else moves the window, the
  -- phase or that count.
  pub run-IsRun :
      (es : List (Event Float)) (c : AimdController Float)
      → 2 * mss ≤ c.cwnd_bytes
      → IsRun c es × (2 * mss ≤ (run es c).cwnd_bytes)
  unfolding run
  run-IsRun [] c h = (tt, h)
  run-IsRun (e ∷ es) c h =
      let (moved, kept) = step-Moves e c h in
      let (rest, final) = run-IsRun es (step e c) kept in ((moved, rest), final)

  pub acks : List ℕ → List (Event Float)
  acks [] = []
  acks (n ∷ ns) = acked n ∷ acks ns

  pub sum_of : List ℕ → ℕ
  sum_of [] = 0
  sum_of (n ∷ ns) = n + sum_of ns

  -- Congestion avoidance from a window w to w': a byte for each acknowledgement, and beyond that at
  -- most a segment for each window of bytes that is acknowledged.
  abbrev pub IsLinear : ℕ → List ℕ → ℕ → Type 0
  IsLinear w ns w' = (extra : ℕ) × (w' ≡ w + length ns + extra) × (extra * w ≤ mss * sum_of ns)

  extra-le : (w n : ℕ) → (max 1 (mss * n / w) - 1) * w ≤ mss * n
  extra-le w n = le_trans (mul-le-mul_right w (omega arith)) (div-mul-le_self (mss * n) w)

  IsLinear-cons :
      (w n : ℕ) (ns : List ℕ) (w' : ℕ)
      → IsLinear (w + max 1 (mss * n / w)) ns w'
      → IsLinear w (n ∷ ns) w'
  unfolding sum_of
  IsLinear-cons w n ns w' (extra, e, bound) =
      let first : ℕ = max 1 (mss * n / w) - 1 in
      let small : extra * w ≤ mss * sum_of ns =
        le_trans (mul-le-mul_left extra (omega arith)) bound in
      (first + extra, omega (arith, e), grind (arith, small, extra-le w n))

  acks-IsLinear :
      (ns : List ℕ) (c : AimdController Float)
      → c.in_slow_start ≡ false
      → IsLinear c.cwnd_bytes ns (run (acks ns) c).cwnd_bytes
        × ((run (acks ns) c).in_slow_start ≡ false)
  unfolding run acks step record_ack grow sum_of
  acks-IsLinear [] c linear = ((0, omega arith, omega arith), linear)
  acks-IsLinear (n ∷ ns) c linear =
      let w = c.cwnd_bytes in
      let c1 = record_ack fl n c in
      let grown : c1.cwnd_bytes ≡ w + max 1 (mss * n / w) = ground (arith, linear) in
      let (rest, stays) = acks-IsLinear ns c1 (ground (arith, linear)) in
      (
        IsLinear-cons w n ns (run (acks ns) c1).cwnd_bytes
            (subst (λ (v : ℕ). IsLinear v ns (run (acks ns) c1).cwnd_bytes) grown rest),
        stays,
      )

  -- Over any run of acknowledgements: as long as slow start lasts the window grows by all bytes that
  -- are acknowledged, so that it doubles with each window of them; from a controller in congestion
  -- avoidance it grows by a byte for each acknowledgement and beyond that by at most a segment for
  -- each starting window of bytes that is acknowledged, and slow start does not come back.
  pub acks_grow :
      (ns : List ℕ) (c : AimdController Float)
      → let c' = run (acks ns) c in
        (c'.in_slow_start ≡ true → c'.cwnd_bytes ≡ c.cwnd_bytes + sum_of ns)
        × (c.in_slow_start ≡ false
            → IsLinear c.cwnd_bytes ns c'.cwnd_bytes × (c'.in_slow_start ≡ false))
  unfolding run acks step record_ack grow sum_of
  acks_grow [] c = (λ slow. omega arith, λ linear. acks-IsLinear [] c linear)
  acks_grow (n ∷ ns) c = (
    λ slow. elim (Bool-cases c.in_slow_start) [
      | inl before ↦
          let ih = (acks_grow ns (record_ack fl n c)).0 slow in ground (arith, before, ih)
      | inr before ↦ absurd (ground (arith, slow, (acks-IsLinear (n ∷ ns) c before).1))
    ],
    λ linear. acks-IsLinear (n ∷ ns) c linear,
  )

  pub losses : ℕ → List (Event Float)
  losses zero = []
  losses (suc k) = loss ∷ losses k
