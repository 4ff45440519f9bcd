-- ===== src/Scheduler/PathScheduler/Tests.antt =====
-- Runs of the scheduler at concrete inputs.
use ratan_engine.Prelude.{ℕ, ◌<◌, ◌≡◌, refl, true, if◌then◌else◌, none, [], length, All}
use ratan_engine.Prelude.Dict.{elem}
use ratan_engine.Prelude.Thousandths.{thousandths, thousandths_math}
use ratan_engine.Fec.Engine.{Tier}
use ratan_engine.Scheduler.Monitor.{
  PathMonitor, new_monitor, record_rtt, record_loss, get_all_path_states,
}
use ratan_engine.Scheduler.Predictor.{PathPredictor, new_predictor}
use ratan_engine.Scheduler.PathScheduler.{PathScheduler, ai, schedule}
use ratan_engine.Scheduler.PathScheduler.Alive.{schedule-Promised}
use ratan_engine.Scheduler.PathScheduler.Table.{IsReady, is_alive_in}

-- Two paths that answer, and one that has failed three times.
abbrev monitor : PathMonitor ℕ
monitor =
    let two =
      record_rtt thousandths 0 1 65000
        (record_rtt thousandths 0 0 30000 (new_monitor thousandths 50 300 150000 300 500 200 0)) in
    record_loss thousandths 0 2 (record_loss thousandths 0 2 (record_loss thousandths 0 2 two))

abbrev predictor : PathPredictor ℕ
predictor = new_predictor thousandths thousandths_math 50 300 150000

abbrev scheduler : PathScheduler ℕ
scheduler = record {
  mode = ai;
  probe_interval_ms = 100000;
  predictions = [];
  path_states = [];
  alive_paths = [];
  best_path = none;
  last_update = 0;
  rr_counter = 0;
  schedule_table = [];
  table_pos = 0;
}

none_alive : (k : ℕ) → elem k [] ≡ is_alive_in {Float = ℕ} k []
unfolding elem is_alive_in
none_alive k = refl

schedule-Promised_example :
    let (d, s', monitor', predictor') =
      schedule thousandths thousandths_math none 1000 7 Tier.bulk monitor predictor scheduler in
    All (λ a. (is_alive_in a.path_id s'.path_states ≡ true) × (a.send ≡ true)) d.assignments
    × ((k : ℕ) → is_alive_in k s'.path_states ≡ true → 0 < length d.assignments)
    × IsReady s'
    × (s'.path_states ≡ (
        if thousandths.lt
          (thousandths.div scheduler.probe_interval_ms (thousandths.of_ℕ 1000))
          (thousandths.sub 1000 scheduler.last_update)
        then (get_all_path_states thousandths 1000 monitor).0
        else scheduler.path_states))
schedule-Promised_example =
    schedule-Promised thousandths thousandths_math none 1000 7 Tier.bulk monitor predictor scheduler
      (record { only_alive = tt; every_path = tt; tracks = none_alive })
