-- ===== src/Scheduler/PathScheduler/Alive.antt =====
-- The decisions of hyperagg/scheduler/path_scheduler.py: which paths get a packet.
use ratan_engine.Prelude.{
  min, ℕ, ◌≤◌, ◌<◌, ◌≡◌, refl, true, if◌then◌else◌, All, sym, ◌∙◌, Option, List, [], ◌∷◌, ap, arith,
  length, Bool-cases, inl, inr,
}
use ratan_engine.Prelude.Dict.{Dict, elem}
use ratan_engine.Prelude.Floats.{FloatOps, FloatMath}
use ratan_engine.Fec.Engine.{Tier}
use ratan_engine.Scheduler.Models.{PathAssignment, PathState}
use ratan_engine.Scheduler.Monitor.{PathMonitor, get_all_path_states}
use ratan_engine.Scheduler.Predictor.{PathPredictor}
use ratan_engine.Scheduler.PathScheduler.{
  PathScheduler, schedule_as, schedule_now, schedule, update_predictions,
}
use ratan_engine.Scheduler.PathScheduler.Table.{IsReady, is_alive_in, update_predictions-IsReady}
use ratan_engine.Scheduler.PathScheduler.Decisions.{SendsOn, IsDecision, schedule_as-IsDecision}

module _ {Float : Type 0} (fl : FloatOps Float) where
  -- What `schedule` promises of a decision and of the scheduler after it.
  abbrev Promised : Dict (PathState Float) → PathScheduler Float → List PathAssignment → Type 0
  Promised states s assignments =
      SendsOn s.alive_paths assignments
      × (min 1 (length s.alive_paths) ≤ length assignments)
      × IsReady s
      × (s.path_states ≡ states)

  IsDecision-Promised :
      (s s' : PathScheduler Float) (assignments : List PathAssignment)
      → IsReady s
      → IsDecision s s' assignments
      → Promised s.path_states s' assignments
  IsDecision-Promised s s' assignments ready d = rw (d.alive_same) (
    d.sends_on,
    omega (arith, d.sends),
    record {
      only_alive = rw (d.table_same) ready.only_alive;
      every_path = rw (d.table_same) ready.every_path;
      tracks = rw (d.states_same) ready.tracks;
    },
    d.states_same,
  )

  schedule_now-Promised :
      (global_seq : ℕ) (tier : Tier) (s : PathScheduler Float) (alive : List ℕ)
      → s.alive_paths ≡ alive
      → IsReady s
      → let (d, s') = schedule_now fl global_seq tier s in Promised s.path_states s' d.assignments
  unfolding schedule_now
  schedule_now-Promised global_seq tier s [] e ready =
      rw (e, schedule_now) (tt, omega (arith, ap length e), ready, refl)
  schedule_now-Promised global_seq tier s (x ∷ xs) e ready =
      rw (e, schedule_now)
        (IsDecision-Promised s (schedule_as fl s.mode global_seq tier s).1
          (schedule_as fl s.mode global_seq tier s).0.assignments ready
          (schedule_as-IsDecision fl s (omega (arith, ap length e)) ready global_seq s.mode tier))

  SendsOn-alive :
      (s : PathScheduler Float) (assignments : List PathAssignment)
      → ((k : ℕ) → elem k s.alive_paths ≡ is_alive_in k s.path_states)
      → SendsOn s.alive_paths assignments
      → All (λ a. (is_alive_in a.path_id s.path_states ≡ true) × (a.send ≡ true)) assignments
  SendsOn-alive s [] tracks h = tt
  SendsOn-alive s (a ∷ assignments) tracks h =
      ((sym (tracks a.path_id) ∙ h.0.0, h.0.1), SendsOn-alive s assignments tracks h.1)

  elem-length : (k : ℕ) (xs : List ℕ) → elem k xs ≡ true → 0 < length xs
  unfolding elem
  elem-length k [] h = absurd (ground (arith, h))
  elem-length k (x ∷ xs) h = omega arith

  -- The same in terms of the states.
  Promised-keeps :
      (s s' : PathScheduler Float) (assignments : List PathAssignment)
      → Promised s.path_states s' assignments
      → All (λ a. (is_alive_in a.path_id s'.path_states ≡ true) × (a.send ≡ true)) assignments
        × ((k : ℕ) → is_alive_in k s'.path_states ≡ true → 0 < length assignments)
        × IsReady s'
        × (s'.path_states ≡ s.path_states)
  Promised-keeps s s' assignments (sends_on, some, ready, states) = (
    SendsOn-alive s' assignments ready.tracks sends_on,
    λ k alive. omega (arith, some, elem-length k s'.alive_paths (ready.tracks k ∙ alive)),
    ready,
    states,
  )

  module _ (fm : FloatMath Float) (scipy_cdf : Option (Float → Float → Float → Float)) where
    -- In every mode and for every tier, a decision sends only on paths that are alive by the states
    -- that the scheduler has after the call, and at least once if there is one. These states are the
    -- monitor's of now where the interval between two looks has passed, and the last ones otherwise.
    -- The weighted table keeps holding the alive paths and no other, each of them at least once, so
    -- that no path is starved.
    pub schedule-Promised :
        (now : Float) (global_seq : ℕ) (tier : Tier) (monitor : PathMonitor Float)
        (predictor : PathPredictor Float) (s : PathScheduler Float)
        → IsReady s
        → let (d, s', monitor', predictor') =
            schedule fl fm scipy_cdf now global_seq tier monitor predictor s in
          All (λ a. (is_alive_in a.path_id s'.path_states ≡ true) × (a.send ≡ true)) d.assignments
          × ((k : ℕ) → is_alive_in k s'.path_states ≡ true → 0 < length d.assignments)
          × IsReady s'
          × (s'.path_states ≡ (
              if fl.lt (fl.div s.probe_interval_ms (fl.of_ℕ 1000)) (fl.sub now s.last_update)
              then (get_all_path_states fl now monitor).0
              else s.path_states))
    unfolding schedule
    schedule-Promised now global_seq tier monitor predictor s ready =
        elim (Bool-cases
          (fl.lt (fl.div s.probe_interval_ms (fl.of_ℕ 1000)) (fl.sub now s.last_update))) [
            | inl stale ↦
                let s1 : PathScheduler Float =
                  (update_predictions fl fm scipy_cdf now monitor predictor s).0 in
                let (ready1, states) =
                  update_predictions-IsReady fl fm scipy_cdf now monitor predictor s in
                let (d, s') = schedule_now fl global_seq tier s1 in
                let p =
                  Promised-keeps s1 s' d.assignments
                    (schedule_now-Promised global_seq tier s1 s1.alive_paths refl ready1) in
                rw stale (p.0, p.1, p.2, p.3 ∙ states)
            | inr fresh ↦
                let (d, s') = schedule_now fl global_seq tier s in
                rw fresh (
                  Promised-keeps s s' d.assignments
                    (schedule_now-Promised global_seq tier s s.alive_paths refl ready))
          ]
