-- ===== src/Scheduler/PathScheduler.antt =====
-- `PathScheduler` of hyperagg/scheduler/path_scheduler.py: the paths on which each packet is sent.
-- The monitor and the predictor, which the object shares with its owner, are arguments of
-- `update_predictions`. The statistics are not modelled: they are for display.
pub mod Alive
pub mod Decisions
pub mod Table
mod Tests
use ratan_engine.Prelude.{
  ℕ, zero, suc, ◌+◌, ◌*◌, ◌%◌, max, Bool, true, false, Option, none, some, List, [], ◌∷◌, ◌++◌, map,
  ◌&&◌, ltb, ◌==◌, if◌then◌else◌, length, get_or, replicate,
}
use ratan_engine.Prelude.Dict.{Dict, lookup, keys}
use ratan_engine.Prelude.Floats.{FloatOps, FloatMath, float_le, float_sum}
use ratan_engine.Fec.Engine.{Tier, realtime, streaming, bulk}
use ratan_engine.Scheduler.Models.{
  PathState, PathPrediction, PathAssignment, SchedulerDecision, Reason, no_alive_paths, realtime,
  single_path, split_fec, stripe, degraded, round_robin, weighted, replicate_all,
}
use ratan_engine.Scheduler.Monitor.{PathMonitor, get_all_path_states}
use ratan_engine.Scheduler.Predictor.{PathPredictor, predict_path_in_future}

-- The configured mode; any other string is treated as `weighted`.
pub data SchedulerMode : Type 0 where
  ai round_robin_mode weighted_mode replicate_mode : SchedulerMode

pub record PathScheduler (Float : Type 0) : Type 0 where
  pub mode : SchedulerMode
  pub probe_interval_ms : Float
  pub predictions : Dict (PathPrediction Float)
  pub path_states : Dict (PathState Float)
  pub alive_paths : List ℕ
  pub best_path : Option ℕ
  pub last_update : Float
  pub rr_counter : ℕ
  pub schedule_table : List ℕ
  pub table_pos : ℕ

abbrev pub send_on : ℕ → PathAssignment
send_on path_id = record { path_id = path_id; send = true; is_fec_parity = false }

abbrev pub parity_on : ℕ → PathAssignment
parity_on path_id = record { path_id = path_id; send = true; is_fec_parity = true }

abbrev pub decide : ℕ → List PathAssignment → Reason → SchedulerDecision
decide global_seq assignments reason = record {
  packet_global_seq = global_seq;
  assignments = assignments;
  reason = reason;
}

module _ {Float : Type 0} where
  -- `[pid for pid, s in states.items() if s.is_alive]`
  unfoldable pub alive_of : Dict (PathState Float) → List ℕ
  alive_of [] = []
  alive_of ((path_id, s) ∷ rest) =
      let others = alive_of rest in if s.is_alive then path_id ∷ others else others

  -- `_schedule_replicate`, and the other decisions for all paths
  unfoldable pub on_all : PathScheduler Float → List PathAssignment
  on_all s = map send_on s.alive_paths

  -- `_schedule_round_robin`, called with some path alive
  unfoldable pub schedule_round_robin :
      ℕ → PathScheduler Float → SchedulerDecision × PathScheduler Float
  schedule_round_robin global_seq s =
      let path_id = get_or s.alive_paths (s.rr_counter % length s.alive_paths) 0 in
      (
        decide global_seq (send_on path_id ∷ []) round_robin,
        record s { rr_counter = s.rr_counter + 1 },
      )

  -- `_pick_from_table`
  unfoldable pub pick_from_table : PathScheduler Float → ℕ × PathScheduler Float
  pick_from_table s = elim s.schedule_table [
    | [] ↦ (get_or s.alive_paths 0 0, s)
    | x ∷ xs ↦ (
      get_or (x ∷ xs) (s.table_pos % length (x ∷ xs)) x,
      record s { table_pos = s.table_pos + 1 },
    )
  ]

  unfoldable pub schedule_weighted :
      ℕ → PathScheduler Float → SchedulerDecision × PathScheduler Float
  schedule_weighted global_seq s =
      let (path_id, s') = pick_from_table s in
      (decide global_seq (send_on path_id ∷ []) weighted, s')

  -- The predictions of the alive paths
  unfoldable pub known_predictions :
      Dict (PathPrediction Float) → List ℕ → List (ℕ × PathPrediction Float)
  known_predictions preds [] = []
  known_predictions preds (path_id ∷ rest) =
      let others = known_predictions preds rest in
      elim (lookup path_id preds) [ none ↦ others | some p ↦ (path_id, p) ∷ others ]

module _ {Float : Type 0} (fl : FloatOps Float) where
  -- A stable sort in descending order puts an entry before those that are not greater.
  unfoldable pub insert_prediction :
      ℕ → PathPrediction Float → List (ℕ × PathPrediction Float) → List (ℕ × PathPrediction Float)
  insert_prediction path_id p [] = (path_id, p) ∷ []
  insert_prediction path_id p ((k, q) ∷ qs) =
      if fl.lt p.delivery_probability q.delivery_probability
      then (k, q) ∷ insert_prediction path_id p qs
      else (path_id, p) ∷ (k, q) ∷ qs

  -- `sorted(..., reverse=True)`
  unfoldable pub sort_predictions :
      List (ℕ × PathPrediction Float) → List (ℕ × PathPrediction Float)
  sort_predictions [] = []
  sort_predictions ((path_id, p) ∷ ps) = insert_prediction path_id p (sort_predictions ps)

  -- The decision of `_schedule_ai` from the two best predictions. Without a second path its
  -- probability is 0 and no parity is sent.
  unfoldable pub decide_by :
      ℕ
      → (best_pid : ℕ) (best_prob second_prob : Float) (parity : List PathAssignment)
      → PathScheduler Float
      → SchedulerDecision × PathScheduler Float
  decide_by global_seq best_pid best_prob second_prob parity s =
      if fl.lt (fl.decimal 95 2) best_prob && fl.lt (fl.decimal 3 1) (fl.sub best_prob second_prob)
      then (decide global_seq (send_on best_pid ∷ []) single_path, s)
      else if fl.lt (fl.decimal 7 1) best_prob
      then (decide global_seq (send_on best_pid ∷ parity) split_fec, s)
      else if fl.lt (fl.decimal 5 1) best_prob && fl.lt (fl.decimal 5 1) second_prob
      then (decide global_seq (send_on (pick_from_table s).0 ∷ []) stripe, (pick_from_table s).1)
      else (decide global_seq (on_all s) degraded, s)

  unfoldable pub decide_by_ranking :
      ℕ
      → List (ℕ × PathPrediction Float)
      → PathScheduler Float
      → SchedulerDecision × PathScheduler Float
  decide_by_ranking global_seq [] s = schedule_weighted global_seq s
  decide_by_ranking global_seq ((best_pid, best) ∷ []) s =
      decide_by global_seq best_pid best.delivery_probability (fl.of_ℕ 0) [] s
  decide_by_ranking global_seq ((best_pid, best) ∷ (second_pid, second) ∷ others) s =
      decide_by global_seq best_pid best.delivery_probability second.delivery_probability
        (parity_on second_pid ∷ []) s

  -- `_schedule_ai`, called with some path alive
  unfoldable pub schedule_ai :
      ℕ → Tier → PathScheduler Float → SchedulerDecision × PathScheduler Float
  schedule_ai global_seq Tier.realtime s = (decide global_seq (on_all s) Reason.realtime, s)
  schedule_ai global_seq tier s =
      if ltb (length s.alive_paths) 2
      then (decide global_seq (send_on (get_or s.alive_paths 0 0) ∷ []) single_path, s)
      else decide_by_ranking global_seq
          (sort_predictions (known_predictions s.predictions s.alive_paths)) s

  unfoldable pub schedule_as :
      SchedulerMode → ℕ → Tier → PathScheduler Float → SchedulerDecision × PathScheduler Float
  schedule_as ai global_seq tier s = schedule_ai global_seq tier s
  schedule_as round_robin_mode global_seq tier s = schedule_round_robin global_seq s
  schedule_as weighted_mode global_seq tier s = schedule_weighted global_seq s
  schedule_as replicate_mode global_seq tier s = (decide global_seq (on_all s) replicate_all, s)

  -- `scores[pid]`; a path without a state has the score 0.5.
  unfoldable pub score_of : Dict (PathState Float) → ℕ → Float
  score_of states path_id = elim (lookup path_id states) [
    | none ↦ fl.decimal 5 1
    | some s ↦ s.quality_score
  ]

  -- `list.extend([pid] * slots)` for each alive path
  unfoldable pub fill_table : FloatMath Float → Dict (PathState Float) → Float → List ℕ → List ℕ
  fill_table fm states total [] = []
  fill_table fm states total (path_id ∷ rest) =
      replicate (max 1 (fm.floor (fl.div (fl.mul (fl.of_ℕ 100) (score_of states path_id)) total)))
        path_id
      ++ fill_table fm states total rest

  -- `_rebuild_schedule_table`
  unfoldable pub rebuild_schedule_table :
      FloatMath Float → PathScheduler Float → PathScheduler Float
  rebuild_schedule_table fm s = elim s.alive_paths [
    | [] ↦ record s { schedule_table = [] }
    | x ∷ xs ↦
        let total = float_sum fl (fl.of_ℕ 0) (map (score_of s.path_states) (x ∷ xs)) in
        if float_le fl total (fl.of_ℕ 0)
        then record s { schedule_table = x ∷ xs }
        else record s { schedule_table = fill_table fm s.path_states total (x ∷ xs); table_pos = 0 }
  ]

  unfoldable pub probability_of : Dict (PathPrediction Float) → ℕ → Float
  probability_of preds path_id = elim (lookup path_id preds) [
    | none ↦ fl.of_ℕ 0
    | some p ↦ p.delivery_probability
  ]

  -- `max(alive, key=...)`: the first path with the greatest probability
  unfoldable pub best_of : Dict (PathPrediction Float) → ℕ → List ℕ → ℕ
  best_of preds best [] = best
  best_of preds best (x ∷ xs) =
      best_of preds (if fl.lt (probability_of preds best) (probability_of preds x) then x else best)
        xs

  unfoldable pub best_path_of : Dict (PathPrediction Float) → List ℕ → Option ℕ
  best_path_of preds [] = none
  best_path_of preds (x ∷ xs) = some (best_of preds x xs)

  -- The decision of `schedule`, from predictions that are up to date
  unfoldable pub schedule_now :
      ℕ → Tier → PathScheduler Float → SchedulerDecision × PathScheduler Float
  schedule_now global_seq tier s = elim s.alive_paths [
    | [] ↦ (decide global_seq [] no_alive_paths, s)
    | x ∷ xs ↦ schedule_as s.mode global_seq tier s
  ]

  module _ (fm : FloatMath Float) (scipy_cdf : Option (Float → Float → Float → Float)) where
    -- The loop over the states in `update_predictions`
    unfoldable pub predict_all :
        Dict (PathState Float)
        → PathPredictor Float
        → Dict (PathPrediction Float) × PathPredictor Float
    predict_all [] p = ([], p)
    predict_all ((path_id, state) ∷ rest) p =
        let (prediction, p') = predict_path_in_future fl fm scipy_cdf path_id state p in
        let (predictions, p'') = predict_all rest p' in ((path_id, prediction) ∷ predictions, p'')

    unfoldable pub update_predictions :
        Float
        → PathMonitor Float
        → PathPredictor Float
        → PathScheduler Float
        → PathScheduler Float × PathMonitor Float × PathPredictor Float
    update_predictions now monitor predictor s =
        let (states, monitor') = get_all_path_states fl now monitor in
        let (predictions, predictor') = predict_all states predictor in
        let alive = alive_of states in
        (
          record (rebuild_schedule_table fm (record s {
            path_states = states;
            alive_paths = alive;
            predictions = predictions;
            best_path = best_path_of predictions alive;
          })) { last_update = now },
          monitor',
          predictor',
        )

    unfoldable pub schedule :
        Float
        → ℕ
        → Tier
        → PathMonitor Float
        → PathPredictor Float
        → PathScheduler Float
        → SchedulerDecision × PathScheduler Float × PathMonitor Float × PathPredictor Float
    schedule now global_seq tier monitor predictor s =
        let stale = fl.lt (fl.div s.probe_interval_ms (fl.of_ℕ 1000)) (fl.sub now s.last_update) in
        let (s', monitor', predictor') =
          if stale then update_predictions now monitor predictor s else (s, monitor, predictor) in
        let (decision, s'') = schedule_now global_seq tier s' in
        (decision, s'', monitor', predictor')
