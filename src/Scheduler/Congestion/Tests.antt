-- ===== src/Scheduler/Congestion/Tests.antt =====
-- Runs of a controller at concrete inputs.
use ratan_engine.Prelude.{ℕ, ◌+◌, ◌*◌, ◌≤◌, ◌≡◌, true, false, [], ◌∷◌, arith}
use ratan_engine.Prelude.Thousandths.{thousandths, thousandths_math}
use ratan_engine.Scheduler.Congestion.{AimdController, mss, new_controller, on_loss}
use ratan_engine.Scheduler.Congestion.Window.{
  acked, loss, run, IsRun, run-IsRun, acks, sum_of, IsLinear, acks_grow,
}

abbrev fresh : AimdController ℕ
unfolding new_controller
fresh = new_controller thousandths thousandths_math 0 10000000000

run-IsRun_example :
    IsRun thousandths fresh (acked 1400 ∷ loss ∷ acked 700 ∷ [])
    × (2 * mss ≤ (run thousandths (acked 1400 ∷ loss ∷ acked 700 ∷ []) fresh).cwnd_bytes)
unfolding new_controller
run-IsRun_example = run-IsRun thousandths (acked 1400 ∷ loss ∷ acked 700 ∷ []) fresh (omega arith)

-- After a loss the controller is in congestion avoidance.
abbrev after_loss : AimdController ℕ
unfolding on_loss
after_loss = on_loss thousandths fresh

acks_grow_example :
    let c' = run thousandths (acks thousandths (1400 ∷ 700 ∷ [])) after_loss in
    (c'.in_slow_start ≡ true
      → c'.cwnd_bytes ≡ after_loss.cwnd_bytes + sum_of thousandths (1400 ∷ 700 ∷ []))
    × (after_loss.in_slow_start ≡ false
        → IsLinear thousandths after_loss.cwnd_bytes (1400 ∷ 700 ∷ []) c'.cwnd_bytes
          × (c'.in_slow_start ≡ false))
acks_grow_example = acks_grow thousandths (1400 ∷ 700 ∷ []) after_loss
