-- ===== src/Scheduler/Bandwidth.antt =====
-- `BandwidthEstimator` of hyperagg/scheduler/bandwidth_estimator.py: the bytes of the last second on
-- each path, smoothed. `now` is the clock's reading.
use ratan_engine.Prelude.{
  ℕ, ◌+◌, Option, none, some, List, [], ◌∷◌, ◌++◌, ltb, if◌then◌else◌, length, ◌||◌,
}
use ratan_engine.Prelude.Dict.{Dict, lookup, insert, get_default}
use ratan_engine.Prelude.Floats.{FloatOps, ewma}

pub record BandwidthEstimator (Float : Type 0) : Type 0 where
  pub alpha : Float
  pub window_sec : Float
  pub samples : Dict (List (Float × ℕ))
  pub ewma_bw : Dict Float

-- `sum(b for _, b in samples)`
unfoldable pub total_bytes : {Float : Type 0} → List (Float × ℕ) → ℕ
total_bytes [] = 0
total_bytes ((t, b) ∷ rest) = b + total_bytes rest

module _ {Float : Type 0} (fl : FloatOps Float) where
  -- `__init__`
  abbrev pub new_estimator : (ewma_alpha window_sec : Float) → BandwidthEstimator Float
  new_estimator alpha window = record {
    alpha = alpha;
    window_sec = window;
    samples = [];
    ewma_bw = [];
  }

  -- The loop of `_prune`
  unfoldable pub drop_before : Float → List (Float × ℕ) → List (Float × ℕ)
  drop_before cutoff [] = []
  drop_before cutoff ((t, b) ∷ rest) =
      if fl.lt t cutoff then drop_before cutoff rest else (t, b) ∷ rest

  -- `_prune`
  unfoldable pub prune : Float → ℕ → BandwidthEstimator Float → BandwidthEstimator Float
  prune now path_id e = elim (lookup path_id e.samples) [
    | none ↦ e
    | some q ↦ record e {
      samples = insert path_id (drop_before (fl.sub now e.window_sec) q) e.samples;
    }
  ]

  -- A path that is new gets an empty window and the estimate 0.
  unfoldable pub open_path : ℕ → BandwidthEstimator Float → BandwidthEstimator Float
  open_path path_id e = elim (lookup path_id e.samples) [
    | none ↦ record e {
      samples = insert path_id [] e.samples;
      ewma_bw = insert path_id (fl.of_ℕ 0) e.ewma_bw;
    }
    | some q ↦ e
  ]

  unfoldable pub record_ack : Float → ℕ → ℕ → BandwidthEstimator Float → BandwidthEstimator Float
  record_ack now path_id nbytes e =
      let e' = open_path path_id e in
      prune now path_id (record e' {
        samples =
            insert path_id (get_default path_id [] e'.samples ++ (now, nbytes) ∷ []) e'.samples;
      })

  -- The estimate from the samples in the window, where there are two of them and time has passed
  unfoldable pub raw_bandwidth : Float → List (Float × ℕ) → Option Float
  raw_bandwidth now [] = none
  raw_bandwidth now ((t, b) ∷ rest) =
      let span = fl.sub now t in
      if ltb (length ((t, b) ∷ rest)) 2 || fl.lt span (fl.decimal 1 2)
      then none
      else some (fl.div (fl.of_ℕ (total_bytes ((t, b) ∷ rest))) span)

  unfoldable pub get_estimated_bw :
      Float → ℕ → BandwidthEstimator Float → Float × BandwidthEstimator Float
  get_estimated_bw now path_id e =
      let e' = prune now path_id e in
      elim (raw_bandwidth now (get_default path_id [] e'.samples)) [
        | none ↦ (get_default path_id (fl.of_ℕ 0) e'.ewma_bw, e')
        | some raw ↦
            let smoothed = ewma fl e'.alpha raw (get_default path_id raw e'.ewma_bw) in
            (smoothed, record e' { ewma_bw = insert path_id smoothed e'.ewma_bw })
      ]
