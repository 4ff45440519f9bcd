-- ===== src/Scheduler/Predictor.antt =====
-- `PathPredictor` of hyperagg/scheduler/path_predictor.py: the probability that a path delivers within
-- the deadline. The normal distribution of scipy is a parameter, absent where scipy is not installed.
use ratan_engine.Prelude.{
  ℕ, suc, ◌-◌, Option, none, some, List, [], ◌∷◌, ltb, if◌then◌else◌, length, get_or,
}
use ratan_engine.Prelude.Dict.{Dict, lookup, insert}
use ratan_engine.Prelude.Floats.{
  FloatOps, FloatMath, float_le, float_eq, float_min, float_max, float_sum, ewma,
}
use ratan_engine.Scheduler.Models.{
  PathState, PathPrediction, Trend, improving, stable, degrading, Action, prefer, use_path, avoid,
  abandon, last_n,
}

pub record PathPredictor (Float : Type 0) : Type 0 where
  pub history_window : ℕ
  pub ewma_alpha : Float
  pub latency_budget_ms : Float
  pub predicted_rtt : Dict Float

module _ {Float : Type 0} (fl : FloatOps Float) (fm : FloatMath Float) where
  -- `__init__`
  abbrev pub new_predictor : ℕ → (ewma_alpha latency_budget_ms : Float) → PathPredictor Float
  new_predictor window alpha budget = record {
    history_window = window;
    ewma_alpha = alpha;
    latency_budget_ms = budget;
    predicted_rtt = [];
  }

  -- `_std`
  unfoldable pub std : List Float → Float
  std values = if ltb (length values) 2 then fl.of_ℕ 0 else fm.stdev values

  -- `_mean`
  unfoldable pub mean_of : List Float → Float
  mean_of [] = fl.of_ℕ 0
  mean_of (x ∷ xs) = fm.mean (x ∷ xs)

  -- `_normal_cdf`
  unfoldable pub normal_cdf : (x mu sigma : Float) → Float
  normal_cdf x mu sigma =
      if float_le fl sigma (fl.of_ℕ 0)
      then (if fl.lt x mu then fl.of_ℕ 0 else fl.of_ℕ 1)
      else let z = fl.div (fl.sub x mu) sigma in
        fl.mul (fl.decimal 5 1) (fl.add (fl.of_ℕ 1) (fm.erf (fl.div z (fm.sqrt (fl.of_ℕ 2)))))

  -- The terms of the two sums of `_simple_slope`, from the index `i` on
  unfoldable pub slope_terms : (x_mean y_mean : Float) → ℕ → List Float → List Float × List Float
  slope_terms x_mean y_mean i [] = ([], [])
  slope_terms x_mean y_mean i (v ∷ vs) =
      let dx = fl.sub (fl.of_ℕ i) x_mean in
      let (nums, dens) = slope_terms x_mean y_mean (suc i) vs in
      (fl.mul dx (fl.sub v y_mean) ∷ nums, fl.mul dx dx ∷ dens)

  -- `_simple_slope`
  unfoldable pub simple_slope : List Float → Float
  simple_slope values =
      let n = length values in
      let x_mean = fl.div (fl.of_ℕ (n - 1)) (fl.of_ℕ 2) in
      let (nums, dens) = slope_terms x_mean (mean_of values) 0 values in
      let den = float_sum fl (fl.of_ℕ 0) dens in
      if ltb n 3
      then fl.of_ℕ 0
      else if fl.lt (fl.of_ℕ 0) den
      then fl.div (float_sum fl (fl.of_ℕ 0) nums) den
      else fl.of_ℕ 0

  -- `_get_predicted_rtt`
  unfoldable pub get_predicted_rtt :
      ℕ → PathState Float → PathPredictor Float → Float × PathPredictor Float
  get_predicted_rtt path_id s p = elim s.rtt_history [
    | [] ↦ (p.latency_budget_ms, p)
    | x ∷ xs ↦
        let latest = get_or (x ∷ xs) (length xs) x in
        let predicted : Float = elim (lookup path_id p.predicted_rtt) [
          | none ↦ latest
          | some old ↦ ewma fl p.ewma_alpha latest old
        ] in
        (predicted, record p { predicted_rtt = insert path_id predicted p.predicted_rtt })
  ]

  -- `path_state.jitter_ms or 1.0`
  unfoldable pub jitter_or_one : PathState Float → Float
  jitter_or_one s = if float_eq fl s.jitter_ms (fl.of_ℕ 0) then fl.of_ℕ 1 else s.jitter_ms

  module _ (scipy_cdf : Option (Float → Float → Float → Float)) where
    unfoldable pub cdf : (x mu sigma : Float) → Float
    cdf x mu sigma = elim scipy_cdf [ none ↦ normal_cdf x mu sigma | some f ↦ f x mu sigma ]

    unfoldable pub predict_delivery_probability :
        ℕ → Float → PathState Float → PathPredictor Float → Float × PathPredictor Float
    predict_delivery_probability path_id deadline_ms s p =
        if s.is_alive
        then elim s.rtt_history [
          | [] ↦ (fl.decimal 5 1, p)
          | x ∷ xs ↦
              let (predicted, p') = get_predicted_rtt path_id s p in
              let recent = last_n p.history_window (x ∷ xs) in
              let spread = if ltb 1 (length recent) then std recent else jitter_or_one s in
              let p_rtt = cdf deadline_ms predicted (float_max fl spread (fl.decimal 1 1)) in
              let p_delivery = fl.mul p_rtt (fl.sub (fl.of_ℕ 1) s.loss_pct) in
              (float_max fl (fl.of_ℕ 0) (float_min fl (fl.of_ℕ 1) p_delivery), p')
        ]
        else (fl.of_ℕ 0, p)

    -- The thresholds for the action.
    unfoldable pub action_of : Float → Action
    action_of prob =
        if fl.lt (fl.decimal 95 2) prob
        then prefer
        else if fl.lt (fl.decimal 7 1) prob
        then use_path
        else if fl.lt (fl.decimal 3 1) prob
        then avoid
        else abandon

    -- `_detect_trend`
    unfoldable pub detect_trend : PathState Float → Trend
    detect_trend s =
        let recent = last_n 20 s.rtt_history in
        let slope = simple_slope recent in
        let mean_rtt = mean_of recent in
        let normalized = if fl.lt (fl.of_ℕ 0) mean_rtt then fl.div slope mean_rtt else fl.of_ℕ 0 in
        if ltb (length s.rtt_history) 10
        then stable
        else if fl.lt (fl.decimal 2 2) normalized
        then degrading
        else if fl.lt normalized (fl.sub (fl.of_ℕ 0) (fl.decimal 2 2))
        then improving
        else stable

    -- The horizon is not used.
    unfoldable pub predict_path_in_future :
        ℕ → PathState Float → PathPredictor Float → PathPrediction Float × PathPredictor Float
    predict_path_in_future path_id s p =
        let (predicted, p') = get_predicted_rtt path_id s p in
        let recent = last_n p.history_window s.rtt_history in
        let margin = fl.mul (fl.decimal 196 2) (std recent) in
        let interval =
          if ltb 2 (length recent)
          then (float_max fl (fl.of_ℕ 0) (fl.sub predicted margin), fl.add predicted margin)
          else (fl.mul predicted (fl.decimal 5 1), fl.mul predicted (fl.of_ℕ 2)) in
        let (prob, p'') = predict_delivery_probability path_id p.latency_budget_ms s p' in
        (
          record {
            path_id = path_id;
            predicted_rtt_ms = predicted;
            rtt_confidence_interval = interval;
            predicted_loss_pct = s.loss_pct;
            delivery_probability = prob;
            trend = detect_trend s;
            recommended_action = action_of prob;
          },
          p'',
        )
