-- ===== src/Scheduler/Monitor/Tests.antt =====
-- Runs of the monitor at concrete inputs.
use ratan_engine.Prelude.{ℕ, ◌≡◌, refl, List, [], ◌∷◌}
use ratan_engine.Prelude.Thousandths.{thousandths}
use ratan_engine.Scheduler.Monitor.{PathMonitor, new_monitor, register_path, get_path_state}
use ratan_engine.Scheduler.Monitor.Windows.{
  Probe, answered, unanswered, failures_after, run, Reported, run-Reported,
}

abbrev monitor : PathMonitor ℕ
unfolding new_monitor
monitor = new_monitor thousandths 50 300 150000 300 500 200 3

abbrev probes : List (Probe ℕ)
probes = unanswered 1 ∷ answered 2 30000 ∷ unanswered 3 ∷ unanswered 4 ∷ unanswered 5 ∷ []

run-Reported_example :
    Reported thousandths 0 monitor
      (failures_after 0 probes)
      (get_path_state thousandths 6 0
        (run thousandths 0 probes (register_path thousandths 0 0 monitor))).0
run-Reported_example = run-Reported thousandths 0 monitor 0 6 probes

three_failures : failures_after 0 probes ≡ 3
unfolding failures_after
three_failures = refl
