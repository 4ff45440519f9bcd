-- ===== src/Scheduler/Delay.antt =====
-- `OWDEstimator` of hyperagg/scheduler/owd_estimator.py: the delay of a path in each direction.
pub mod Offset
mod Tests
use ratan_engine.Prelude.{
  ℕ, ◌+◌, Option, none, some, List, [], ◌∷◌, ltb, if◌then◌else◌, length, Bool, true, false, not,
  ◌&&◌, Result, ok, raise, ◌>>=◌, key_error,
}
use ratan_engine.Prelude.Dict.{Dict, lookup, insert, get_default, values, contains}
use ratan_engine.Prelude.Floats.{FloatOps, FloatMath, float_max, float_min_of, float_max_of, ewma}
use ratan_engine.Scheduler.Models.{append_last}

-- The two histories have the same keys.
pub record OwdEstimator (Float : Type 0) : Type 0 where
  pub alpha : Float
  pub owd_up : Dict Float
  pub owd_down : Dict Float
  pub offset : Dict Float
  pub history_up : Dict (List Float)
  pub history_down : Dict (List Float)
  pub history_size : ℕ

module _ {Float : Type 0} where
  -- `[v for v in values if v > 0]`
  unfoldable pub positive_values : FloatOps Float → List Float → List Float
  positive_values fl [] = []
  positive_values fl (x ∷ xs) =
      let rest = positive_values fl xs in if fl.lt (fl.of_ℕ 0) x then x ∷ rest else rest

  -- `min(d, key=d.get)`: the first key with the smallest value
  unfoldable pub argmin : FloatOps Float → ℕ → Float → Dict Float → ℕ
  argmin fl k v [] = k
  argmin fl k v ((j, w) ∷ d) = if fl.lt w v then argmin fl j w d else argmin fl k v d

module _ {Float : Type 0} (fl : FloatOps Float) where
  -- `__init__`
  abbrev pub new_owd : Float → ℕ → OwdEstimator Float
  new_owd alpha history_size = record {
    alpha = alpha;
    owd_up = [];
    owd_down = [];
    offset = [];
    history_up = [];
    history_down = [];
    history_size = history_size;
  }

  -- The smoothed value, or the first one
  unfoldable pub smooth : Float → ℕ → Float → Dict Float → Dict Float
  smooth alpha path_id x d = elim (lookup path_id d) [
    | none ↦ insert path_id x d
    | some old ↦ insert path_id (ewma fl alpha x old) d
  ]

  -- The end of both methods: smoothing and the histories
  unfoldable pub note_delays : ℕ → (up down : Float) → OwdEstimator Float → OwdEstimator Float
  note_delays path_id up down e = record e {
    owd_up = smooth e.alpha path_id up e.owd_up;
    owd_down = smooth e.alpha path_id down e.owd_down;
    history_up =
        insert path_id (append_last e.history_size up (get_default path_id [] e.history_up))
          e.history_up;
    history_down =
        insert path_id (append_last e.history_size down (get_default path_id [] e.history_down))
          e.history_down;
  }

  -- The offset and the delays in milliseconds, before they are bounded
  unfoldable pub delays : (t1 t2 t3 t4 : Float) → Float × Float × Float
  delays t1 t2 t3 t4 =
      let ms = λ (t : Float). fl.mul t (fl.of_ℕ 1000) in
      let up = fl.sub (ms t2) (ms t1) in
      let down = fl.sub (ms t4) (ms t3) in
      let offset = fl.div (fl.sub up down) (fl.of_ℕ 2) in
      (offset, fl.sub up offset, fl.add down offset)

  -- The new offset: a path that has delays is looked up in `offset`, with KeyError where it has none.
  unfoldable pub next_offset : ℕ → Float → OwdEstimator Float → Result (Dict Float)
  next_offset path_id offset e =
      if contains path_id e.owd_up && not (contains path_id e.offset)
      then raise key_error
      else ok (smooth e.alpha path_id offset e.offset)

  unfoldable pub record_timestamps :
      ℕ → (t1 t2 t3 t4 : Float) → OwdEstimator Float → Result (OwdEstimator Float)
  record_timestamps path_id t1 t2 t3 t4 e =
      let (offset, up, down) = delays t1 t2 t3 t4 in
      let least = fl.decimal 1 1 in
      do
        offsets ← next_offset path_id offset e
        ok (
            note_delays path_id (float_max fl least up) (float_max fl least down)
              (record e { offset = offsets }))

  unfoldable pub record_rtt_with_asymmetry :
      ℕ → (rtt_ms up_ratio : Float) → OwdEstimator Float → OwdEstimator Float
  record_rtt_with_asymmetry path_id rtt_ms up_ratio e =
      note_delays path_id (fl.mul rtt_ms up_ratio) (fl.mul rtt_ms (fl.sub (fl.of_ℕ 1) up_ratio)) e

  abbrev pub get_owd_up : ℕ → OwdEstimator Float → Float
  get_owd_up path_id e = get_default path_id (fl.of_ℕ 0) e.owd_up

  abbrev pub get_owd_down : ℕ → OwdEstimator Float → Float
  get_owd_down path_id e = get_default path_id (fl.of_ℕ 0) e.owd_down

  -- `max(values) - min(values)` for two values at least
  unfoldable pub spread : List Float → Float
  spread [] = fl.of_ℕ 0
  spread (x ∷ []) = fl.of_ℕ 0
  spread (x ∷ y ∷ xs) = fl.sub (float_max_of fl x (y ∷ xs)) (float_min_of fl x (y ∷ xs))

  unfoldable pub get_download_differential : OwdEstimator Float → Float
  get_download_differential e =
      if ltb (length e.owd_down) 2
      then fl.of_ℕ 0
      else spread (positive_values fl (values e.owd_down))

  -- `get_best_download_path` of `owd_down`, `get_best_upload_path` of `owd_up`
  unfoldable pub best_path_of : Dict Float → Option ℕ
  best_path_of [] = none
  best_path_of ((k, v) ∷ d) = some (argmin fl k v d)

  abbrev pub get_best_download_path : OwdEstimator Float → Option ℕ
  get_best_download_path e = best_path_of e.owd_down

  abbrev pub get_best_upload_path : OwdEstimator Float → Option ℕ
  get_best_upload_path e = best_path_of e.owd_up

  -- The entries `owd_down_ms` of `get_all_owd`: both dicts have the same keys.
  unfoldable pub rounded_downs : FloatMath Float → Dict Float → Dict Float
  rounded_downs fm [] = []
  rounded_downs fm ((k, v) ∷ d) = (k, fm.round_to 1 v) ∷ rounded_downs fm d
