-- ===== src/Reorder/Fuel.antt =====
-- The two loops of hyperagg/tunnel/reorder_buffer.py end: more fuel than the model gives changes
-- nothing.
use ratan_engine.Prelude.{
  ℕ, zero, suc, ◌+◌, ◌≤◌, ◌≡◌, refl, ap, false, List, ◌∷◌, arith, length, Bool-cases, Option-cases,
  inl, inr,
}
use ratan_engine.Prelude.Bytes.{Bytes}
use ratan_engine.Prelude.Dict.{lookup, contains}
use ratan_engine.Prelude.Floats.{FloatOps}
use ratan_engine.Reorder.{
  AdaptiveReorderBuffer, deliver_loop, deliver_in_order, pop_next, skip_loop, skip_next, skip_fuel,
  is_overdue,
}
use ratan_engine.Reorder.Loops.{deliver_in_order-Delivered, skip_loop-Skipped}
use ratan_engine.Reorder.Valid.{IsValid}

module _ {Float : Type 0} where
  abbrev onto :
      Bytes → List Bytes × AdaptiveReorderBuffer Float → List Bytes × AdaptiveReorderBuffer Float
  onto p (ps, b) = (p ∷ ps, b)

  -- A loop that has stopped at a gap stops there with more fuel too.
  deliver_loop_more :
      (fuel more : ℕ) (b : AdaptiveReorderBuffer Float)
      → fuel ≤ more
      → (let b' = (deliver_loop fuel b).1 in contains b'.next_seq b'.buffer ≡ false)
      → deliver_loop more b ≡ deliver_loop fuel b
  unfolding deliver_loop
  deliver_loop_more zero zero b h gap = refl
  deliver_loop_more zero (suc more) b h gap = elim (Option-cases (lookup b.next_seq b.buffer)) [
    | inl absent ↦ rw (absent, deliver_loop) refl
    | inr (p, present) ↦ absurd (ground (arith, gap, present))
  ]
  deliver_loop_more (suc fuel) zero b h gap = absurd (omega (arith, h))
  deliver_loop_more (suc fuel) (suc more) b h gap =
      elim (Option-cases (lookup b.next_seq b.buffer)) [
        | inl absent ↦ rw (absent, deliver_loop) refl
        | inr (p, present) ↦
            let ih =
              deliver_loop_more fuel more (pop_next b) (omega (arith, h))
                (rw (present, deliver_loop) at gap) in
            rw (present, deliver_loop) (ap (onto p) ih)
      ]

  module _ (fl : FloatOps Float) where
    skip_loop_more :
        (fuel more : ℕ) (now cutoff : Float) (b : AdaptiveReorderBuffer Float)
        → fuel ≤ more
        → is_overdue fl now cutoff (skip_loop fl fuel now cutoff b) ≡ false
        → skip_loop fl more now cutoff b ≡ skip_loop fl fuel now cutoff b
    unfolding skip_loop
    skip_loop_more zero zero now cutoff b h stop = refl
    skip_loop_more zero (suc more) now cutoff b h stop = rw (stop, skip_loop) refl
    skip_loop_more (suc fuel) zero now cutoff b h stop = absurd (omega (arith, h))
    skip_loop_more (suc fuel) (suc more) now cutoff b h stop =
        elim (Bool-cases (is_overdue fl now cutoff b)) [
          | inl on ↦
              rw (on, skip_loop)
                (skip_loop_more fuel more now cutoff (skip_next b) (omega (arith, h))
                  (rw (on, skip_loop) at stop))
          | inr ended ↦ rw (ended, skip_loop) refl
        ]

    -- Both loops of the reorder buffer end on a well-formed buffer: with any fuel above what the model
    -- gives them, the number of buffered packets for delivery and the distance to the smallest
    -- number for skipping, they give the same result.
    pub loops_end :
        (Q : ℕ → Bytes → Type 0) (more : ℕ) (now cutoff : Float) (b : AdaptiveReorderBuffer Float)
        → IsValid Q b
        → (deliver_loop (length b.buffer + more) b ≡ deliver_in_order b)
          × (skip_loop fl (skip_fuel b + more) now cutoff b
              ≡ skip_loop fl (skip_fuel b) now cutoff b)
    unfolding deliver_in_order
    loops_end Q more now cutoff b v = (
      deliver_loop_more (length b.buffer) (length b.buffer + more) b (omega arith)
          (deliver_in_order-Delivered b).at_gap,
      skip_loop_more (skip_fuel b) (skip_fuel b + more) now cutoff b (omega arith)
          (skip_loop-Skipped fl (skip_fuel b) now cutoff b v.is_open.ahead (omega arith)).stopped,
    )
