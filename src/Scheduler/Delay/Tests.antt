-- ===== src/Scheduler/Delay/Tests.antt =====
-- Runs of the delay estimator at concrete inputs.
use ratan_engine.Prelude.{ℕ, ◌≡◌, refl, ◌⊎◌, true, ok, raise, key_error}
use ratan_engine.Prelude.Dict.{contains}
use ratan_engine.Prelude.Floats.{float_max}
use ratan_engine.Prelude.Thousandths.{thousandths}
use ratan_engine.Scheduler.Delay.{
  OwdEstimator, delays, new_owd, record_timestamps, record_rtt_with_asymmetry,
}
use ratan_engine.Scheduler.Delay.Offset.{IsPaired, IsRecorded, record_timestamps_lem}

abbrev estimator : OwdEstimator ℕ
estimator = new_owd thousandths 100 50

record_timestamps_lem_example :
    let (offset, up, down) = delays thousandths 1000 1020 1021 1070 in
    let least = thousandths.decimal 1 1 in
    ((e' : OwdEstimator ℕ) × (record_timestamps thousandths 1 1000 1020 1021 1070 estimator ≡ ok e')
      × IsRecorded thousandths 1 offset
          (float_max thousandths least up)
          (float_max thousandths least down)
          estimator
          e'
      × IsPaired thousandths e')
    × ((contains 1 estimator.owd_up ≡ true)
        ⊎ (record_timestamps thousandths 1 1000 1020 1021 1070
              (record_rtt_with_asymmetry thousandths 1 50000 450 estimator)
            ≡ raise key_error))
record_timestamps_lem_example =
    record_timestamps_lem thousandths 1 1000 1020 1021 1070 50000 450 estimator (λ k. refl)
