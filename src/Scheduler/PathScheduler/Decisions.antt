-- ===== src/Scheduler/PathScheduler/Decisions.antt =====
-- Each way of deciding of hyperagg/scheduler/path_scheduler.py sends on alive paths.
use ratan_engine.Prelude.{
  ℕ, ◌%◌, ◌<◌, ◌≡◌, refl, true, List, [], ◌∷◌, map, All, arith, length, length-map, get_or,
  if◌then◌else◌, ltb, Bool-cases, Option-cases, inl, inr, ◌&&◌,
}
use native.Mathlib.Nat.{mod-lt}
use ratan_engine.Prelude.Dict.{Dict, elem, lookup}
use ratan_engine.Prelude.Floats.{FloatOps}
use ratan_engine.Fec.Engine.{Tier}
use ratan_engine.Scheduler.Models.{PathAssignment, PathPrediction, single_path}
use ratan_engine.Scheduler.PathScheduler.{
  PathScheduler, SchedulerMode, ai, round_robin_mode, weighted_mode, replicate_mode, on_all,
  send_on, parity_on, schedule_round_robin, pick_from_table, schedule_weighted, known_predictions,
  insert_prediction, sort_predictions, decide_by, decide_by_ranking, schedule_ai, schedule_as,
  decide,
}
use ratan_engine.Scheduler.PathScheduler.Table.{IsReady, AllIn, AllIn-self, All-get_or}

-- Every assignment sends, on one of these paths.
abbrev pub SendsOn : List ℕ → List PathAssignment → Type 0
SendsOn paths = All (λ a. (elem a.path_id paths ≡ true) × (a.send ≡ true))

-- A decision for some alive path: it sends at least once, only on alive paths, and leaves the list
-- of paths and the table as they were.
pub record IsDecision {Float : Type 0} (s s' : PathScheduler Float)
    (assignments : List PathAssignment) : Type 0 where
  pub sends_on : SendsOn s.alive_paths assignments
  pub sends : 0 < length assignments
  pub alive_same : s'.alive_paths ≡ s.alive_paths
  pub table_same : s'.schedule_table ≡ s.schedule_table
  pub states_same : s'.path_states ≡ s.path_states

SendsOn-map : (paths xs : List ℕ) → AllIn xs paths → SendsOn paths (map send_on xs)
SendsOn-map paths [] h = tt
SendsOn-map paths (x ∷ xs) h = ((h.0, refl), SendsOn-map paths xs h.1)

module _ {Float : Type 0} (s : PathScheduler Float) (some_alive : 0 < length s.alive_paths) where
  on_all-IsDecision : IsDecision s s (on_all s)
  unfolding on_all
  on_all-IsDecision = record {
    sends_on = SendsOn-map s.alive_paths s.alive_paths (AllIn-self s.alive_paths);
    sends = omega (arith, length-map s.alive_paths send_on);
    alive_same = refl;
    table_same = refl;
    states_same = refl;
  }

  one-IsDecision :
      (path_id : ℕ) → elem path_id s.alive_paths ≡ true → IsDecision s s (send_on path_id ∷ [])
  one-IsDecision path_id h = record {
    sends_on = ((h, refl), tt);
    sends = omega arith;
    alive_same = refl;
    table_same = refl;
    states_same = refl;
  }

  first_alive : elem (get_or s.alive_paths 0 0) s.alive_paths ≡ true
  first_alive =
      All-get_or (λ k. elem k s.alive_paths ≡ true) s.alive_paths 0 0 (AllIn-self s.alive_paths)
        some_alive

  round_robin-IsDecision :
      (global_seq : ℕ)
      → let (d, s') = schedule_round_robin global_seq s in IsDecision s s' d.assignments
  unfolding schedule_round_robin
  round_robin-IsDecision global_seq =
      let i : ℕ = s.rr_counter % length s.alive_paths in
      let h : elem (get_or s.alive_paths i 0) s.alive_paths ≡ true =
        All-get_or (λ k. elem k s.alive_paths ≡ true) s.alive_paths i 0 (AllIn-self s.alive_paths)
          (mod-lt s.rr_counter some_alive) in
      record {
        sends_on = ((h, refl), tt);
        sends = omega arith;
        alive_same = refl;
        table_same = refl;
        states_same = refl;
      }

  picked_alive :
      (table : List ℕ)
      → AllIn table s.alive_paths
      → let (path_id, s') = pick_from_table (record s { schedule_table = table }) in
        (elem path_id s.alive_paths ≡ true)
        × (s'.alive_paths ≡ s.alive_paths)
        × (s'.schedule_table ≡ table)
        × (s'.path_states ≡ s.path_states)
  unfolding pick_from_table
  picked_alive [] h = (first_alive, refl, refl, refl)
  picked_alive (x ∷ xs) h = (
    All-get_or (λ k. elem k s.alive_paths ≡ true) (x ∷ xs) (s.table_pos % length (x ∷ xs)) x h
        (mod-lt s.table_pos (omega arith)),
    refl,
    refl,
    refl,
  )

  module _ (ready : IsReady s) where
    picked-IsDecision :
        let (path_id, s') = pick_from_table s in IsDecision s s' (send_on path_id ∷ [])
    picked-IsDecision =
        let p = picked_alive s.schedule_table ready.only_alive in
        record {
          sends_on = ((p.0, refl), tt);
          sends = omega arith;
          alive_same = p.1;
          table_same = p.2;
          states_same = p.3;
        }

    weighted-IsDecision :
        (global_seq : ℕ)
        → let (d, s') = schedule_weighted global_seq s in IsDecision s s' d.assignments
    unfolding schedule_weighted
    weighted-IsDecision global_seq = picked-IsDecision

-- The ranking names alive paths.
abbrev Ranked : {Float : Type 0} → List ℕ → List (ℕ × PathPrediction Float) → Type 0
Ranked alive = All (λ entry. elem entry.0 alive ≡ true)

module _ {Float : Type 0} (fl : FloatOps Float) where
  known-Ranked :
      (preds : Dict (PathPrediction Float)) (alive xs : List ℕ)
      → AllIn xs alive
      → Ranked alive (known_predictions preds xs)
  unfolding known_predictions
  known-Ranked preds alive [] h = tt
  known-Ranked preds alive (x ∷ xs) h = elim (Option-cases (lookup x preds)) [
    | inl missing ↦ rw (missing, known_predictions) (known-Ranked preds alive xs h.1)
    | inr (p, found) ↦ rw (found, known_predictions) (h.0, known-Ranked preds alive xs h.1)
  ]

  insert-Ranked :
      (alive : List ℕ) (k : ℕ) (p : PathPrediction Float) (qs : List (ℕ × PathPrediction Float))
      → elem k alive ≡ true
      → Ranked alive qs
      → Ranked alive (insert_prediction fl k p qs)
  unfolding insert_prediction
  insert-Ranked alive k p [] h hs = (h, tt)
  insert-Ranked alive k p ((j, q) ∷ qs) h hs =
      elim (Bool-cases (fl.lt p.delivery_probability q.delivery_probability)) [
        | inl less ↦ rw less (hs.0, insert-Ranked alive k p qs h hs.1)
        | inr more ↦ rw more (h, hs)
      ]

  sort-Ranked :
      (alive : List ℕ) (ps : List (ℕ × PathPrediction Float))
      → Ranked alive ps
      → Ranked alive (sort_predictions fl ps)
  unfolding sort_predictions
  sort-Ranked alive [] h = tt
  sort-Ranked alive ((k, p) ∷ ps) h =
      insert-Ranked alive k p (sort_predictions fl ps) h.0 (sort-Ranked alive ps h.1)

  module _ (s : PathScheduler Float) (some_alive : 0 < length s.alive_paths) (ready : IsReady s)
      (global_seq : ℕ) where
    decide_by-IsDecision :
        (best : ℕ) (best_prob second_prob : Float) (parity : List PathAssignment)
        → elem best s.alive_paths ≡ true
        → SendsOn s.alive_paths parity
        → let (d, s') = decide_by fl global_seq best best_prob second_prob parity s in
          IsDecision s s' d.assignments
    unfolding decide_by
    decide_by-IsDecision best best_prob second_prob parity h hp =
        elim (Bool-cases (
          fl.lt (fl.decimal 95 2) best_prob
          && fl.lt (fl.decimal 3 1) (fl.sub best_prob second_prob))) [
            | inl clear ↦ rw clear (one-IsDecision s some_alive best h)
            | inr unclear ↦ elim (Bool-cases (fl.lt (fl.decimal 7 1) best_prob)) [
              | inl good ↦
                  rw (unclear, good)
                    (record {
                      sends_on = ((h, refl), hp);
                      sends = omega arith;
                      alive_same = refl;
                      table_same = refl;
                      states_same = refl;
                    })
              | inr poor ↦
                  elim (Bool-cases
                    (fl.lt (fl.decimal 5 1) best_prob && fl.lt (fl.decimal 5 1) second_prob)) [
                      | inl both ↦ rw (unclear, poor, both) (picked-IsDecision s some_alive ready)
                      | inr neither ↦ rw (unclear, poor, neither) (on_all-IsDecision s some_alive)
                    ]
            ]
          ]

    ranking-IsDecision :
        (ranking : List (ℕ × PathPrediction Float))
        → Ranked s.alive_paths ranking
        → let (d, s') = decide_by_ranking fl global_seq ranking s in IsDecision s s' d.assignments
    unfolding decide_by_ranking
    ranking-IsDecision [] h = weighted-IsDecision s some_alive ready global_seq
    ranking-IsDecision ((k, p) ∷ []) h =
        decide_by-IsDecision k p.delivery_probability (fl.of_ℕ 0) [] h.0 tt
    ranking-IsDecision ((k, p) ∷ (j, q) ∷ rest) h =
        decide_by-IsDecision k p.delivery_probability q.delivery_probability (parity_on j ∷ []) h.0
          ((h.1.0, refl), tt)

    by_prediction-IsDecision :
        let (d, s') =
          if ltb (length s.alive_paths) 2
          then (decide global_seq (send_on (get_or s.alive_paths 0 0) ∷ []) single_path, s)
          else decide_by_ranking fl global_seq
              (sort_predictions fl (known_predictions s.predictions s.alive_paths))
              s in
        IsDecision s s' d.assignments
    by_prediction-IsDecision = elim (Bool-cases (ltb (length s.alive_paths) 2)) [
      | inl one ↦
          rw one (one-IsDecision s some_alive (get_or s.alive_paths 0 0) (first_alive s some_alive))
      | inr more ↦ rw more (
          ranking-IsDecision (sort_predictions fl (known_predictions s.predictions s.alive_paths)) (
            sort-Ranked s.alive_paths (known_predictions s.predictions s.alive_paths)
              (known-Ranked s.predictions s.alive_paths s.alive_paths (AllIn-self s.alive_paths))))
    ]

    schedule_ai-IsDecision :
        (tier : Tier)
        → let (d, s') = schedule_ai fl global_seq tier s in IsDecision s s' d.assignments
    unfolding schedule_ai
    schedule_ai-IsDecision Tier.realtime = on_all-IsDecision s some_alive
    schedule_ai-IsDecision Tier.streaming = by_prediction-IsDecision
    schedule_ai-IsDecision Tier.bulk = by_prediction-IsDecision

    pub schedule_as-IsDecision :
        (mode : SchedulerMode) (tier : Tier)
        → let (d, s') = schedule_as fl mode global_seq tier s in IsDecision s s' d.assignments
    unfolding schedule_as
    schedule_as-IsDecision ai tier = schedule_ai-IsDecision tier
    schedule_as-IsDecision round_robin_mode tier = round_robin-IsDecision s some_alive global_seq
    schedule_as-IsDecision weighted_mode tier = weighted-IsDecision s some_alive ready global_seq
    schedule_as-IsDecision replicate_mode tier = on_all-IsDecision s some_alive
