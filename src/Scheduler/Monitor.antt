-- ===== src/Scheduler/Monitor.antt =====
-- `PathMonitor` of hyperagg/scheduler/path_monitor.py. Its ten dicts are set together, by
-- `register_path`, and no key is ever removed: they are one dict of the paths' histories.
pub mod Windows
mod Tests
use ratan_engine.Prelude.{
  ℕ, zero, suc, ◌+◌, ◌*◌, Bool, true, false, not, Option, none, some, List, [], ◌∷◌, ltb, ◌==◌,
  if◌then◌else◌, length, get_or, ◌-◌,
}
use ratan_engine.Prelude.Dict.{Dict, lookup, insert}
use ratan_engine.Prelude.Floats.{
  FloatOps, float_eq, float_min, float_max, float_dist, float_min_of, float_max_of, ewma,
}
use ratan_engine.Scheduler.Models.{PathState, append_last, last_n}

pub record PathHistory (Float : Type 0) : Type 0 where
  pub rtt_history : List Float
  pub loss_history : List Bool
  pub throughput_history : List Float
  pub ewma_rtt : Float
  pub ewma_jitter : Float
  pub prev_rtt : Float
  pub consecutive_failures : ℕ
  pub last_success : Float
  pub throughput_accum : ℕ
  pub throughput_last_time : Float

pub record PathMonitor (Float : Type 0) : Type 0 where
  pub history_window : ℕ
  pub ewma_alpha : Float
  pub latency_budget_ms : Float
  pub jitter_weight : Float
  pub loss_weight : Float
  pub rtt_weight : Float
  pub keepalive_timeout_count : ℕ
  pub paths : Dict (PathHistory Float)

unfoldable pub count_true : List Bool → ℕ
count_true [] = 0
count_true (true ∷ xs) = suc (count_true xs)
count_true (false ∷ xs) = count_true xs

module _ {Float : Type 0} (fl : FloatOps Float) where
  -- `__init__`, with the values of the configuration; a timeout count of 0 counts as 3.
  unfoldable pub new_monitor :
      (history_window : ℕ)
      (ewma_alpha latency_budget_ms jitter_weight loss_weight rtt_weight : Float)
      (keepalive_timeout_count : ℕ)
      → PathMonitor Float
  new_monitor window alpha budget jitter loss rtt count = record {
    history_window = window;
    ewma_alpha = alpha;
    latency_budget_ms = budget;
    jitter_weight = jitter;
    loss_weight = loss;
    rtt_weight = rtt;
    keepalive_timeout_count = if count == 0 then 3 else count;
    paths = [];
  }

  abbrev pub new_history : Float → PathHistory Float
  new_history now = record {
    rtt_history = [];
    loss_history = [];
    throughput_history = [];
    ewma_rtt = fl.of_ℕ 0;
    ewma_jitter = fl.of_ℕ 0;
    prev_rtt = fl.of_ℕ 0;
    consecutive_failures = 0;
    last_success = now;
    throughput_accum = 0;
    throughput_last_time = now;
  }

  unfoldable pub register_path : Float → ℕ → PathMonitor Float → PathMonitor Float
  register_path now path_id m = record m { paths = insert path_id (new_history now) m.paths }

  -- The history that an operation finds: a path that is not registered is registered first.
  unfoldable pub history_of : Float → ℕ → PathMonitor Float → PathHistory Float
  history_of now path_id m = elim (lookup path_id m.paths) [ none ↦ new_history now | some h ↦ h ]

  unfoldable pub note_rtt : Float → ℕ → Float → Float → PathHistory Float → PathHistory Float
  note_rtt alpha window now rtt_ms h = record h {
    rtt_history = append_last window rtt_ms h.rtt_history;
    loss_history = append_last window false h.loss_history;
    consecutive_failures = 0;
    last_success = now;
    ewma_rtt =
        if float_eq fl h.ewma_rtt (fl.of_ℕ 0) then rtt_ms else ewma fl alpha rtt_ms h.ewma_rtt;
    ewma_jitter =
        if fl.lt (fl.of_ℕ 0) h.prev_rtt
        then ewma fl alpha (float_dist fl rtt_ms h.prev_rtt) h.ewma_jitter
        else h.ewma_jitter;
    prev_rtt = rtt_ms;
  }

  unfoldable pub record_rtt : Float → ℕ → Float → PathMonitor Float → PathMonitor Float
  record_rtt now path_id rtt_ms m = record m {
    paths =
        insert path_id
          (note_rtt m.ewma_alpha m.history_window now rtt_ms (history_of now path_id m)) m.paths;
  }

  unfoldable pub note_loss : ℕ → PathHistory Float → PathHistory Float
  note_loss window h = record h {
    loss_history = append_last window true h.loss_history;
    consecutive_failures = h.consecutive_failures + 1;
  }

  unfoldable pub record_loss : Float → ℕ → PathMonitor Float → PathMonitor Float
  record_loss now path_id m = record m {
    paths = insert path_id (note_loss m.history_window (history_of now path_id m)) m.paths;
  }

  unfoldable pub record_throughput : Float → ℕ → ℕ → PathMonitor Float → PathMonitor Float
  record_throughput now path_id bytes_sent m =
      let h = history_of now path_id m in
      record m {
        paths =
            insert path_id (record h { throughput_accum = h.throughput_accum + bytes_sent })
              m.paths;
      }

  -- `_flush_throughput`
  unfoldable pub flush_throughput : ℕ → Float → PathHistory Float → PathHistory Float
  flush_throughput window now h =
      let elapsed = fl.sub now h.throughput_last_time in
      if fl.lt (fl.decimal 1 2) elapsed
      then record h {
        throughput_history =
            append_last window
              (fl.div (fl.of_ℕ (h.throughput_accum * 8)) (fl.mul elapsed (fl.of_ℕ 1000000)))
              h.throughput_history;
        throughput_accum = 0;
        throughput_last_time = now;
      }
      else h

  -- `_compute_quality_score`
  unfoldable pub compute_quality_score :
      PathMonitor Float → (avg_rtt loss_pct jitter : Float) → Float
  compute_quality_score m avg_rtt loss_pct jitter =
      let one = fl.of_ℕ 1 in
      let budget = m.latency_budget_ms in
      let has_budget = fl.lt (fl.of_ℕ 0) budget in
      let norm_rtt = if has_budget then float_min fl (fl.div avg_rtt budget) one else fl.of_ℕ 0 in
      let norm_jitter =
        if has_budget
        then float_min fl (fl.div jitter (fl.mul budget (fl.decimal 5 1))) one
        else fl.of_ℕ 0 in
      let cost =
        fl.add (fl.add (fl.mul m.rtt_weight norm_rtt) (fl.mul m.loss_weight loss_pct))
          (fl.mul m.jitter_weight norm_jitter) in
      float_max fl (fl.of_ℕ 0) (float_min fl one (fl.sub one cost))

  -- `avg_rtt, min_rtt, max_rtt` of `get_path_state`; the last ten samples count for the bounds.
  unfoldable pub rtt_stats : PathHistory Float → Float × Float × Float
  rtt_stats h = elim (last_n 10 h.rtt_history) [
    | [] ↦ (fl.of_ℕ 0, fl.of_ℕ 0, fl.of_ℕ 0)
    | x ∷ xs ↦ (h.ewma_rtt, float_min_of fl x xs, float_max_of fl x xs)
  ]

  unfoldable pub loss_pct_of : List Bool → Float
  loss_pct_of [] = fl.of_ℕ 0
  loss_pct_of (x ∷ xs) = fl.div (fl.of_ℕ (count_true (x ∷ xs))) (fl.of_ℕ (length (x ∷ xs)))

  unfoldable pub is_alive_of : PathMonitor Float → PathHistory Float → Bool
  is_alive_of m h = ltb h.consecutive_failures m.keepalive_timeout_count

  -- The state that `get_path_state` returns for a registered path whose throughput is flushed.
  unfoldable pub state_of : PathMonitor Float → ℕ → PathHistory Float → PathState Float
  state_of m path_id h =
      let (avg_rtt, min_rtt, max_rtt) = rtt_stats h in
      let loss_pct = loss_pct_of h.loss_history in
      let alive = is_alive_of m h in
      record {
        path_id = path_id;
        avg_rtt_ms = avg_rtt;
        min_rtt_ms = min_rtt;
        max_rtt_ms = max_rtt;
        jitter_ms = h.ewma_jitter;
        loss_pct = loss_pct;
        throughput_mbps = get_or h.throughput_history (length h.throughput_history - 1) (fl.of_ℕ 0);
        is_alive = alive;
        quality_score =
            if alive then compute_quality_score m avg_rtt loss_pct h.ewma_jitter else fl.of_ℕ 0;
        rtt_history = h.rtt_history;
        loss_history = h.loss_history;
      }

  unfoldable pub get_path_state :
      Float → ℕ → PathMonitor Float → PathState Float × PathMonitor Float
  get_path_state now path_id m = elim (lookup path_id m.paths) [
    | none ↦ (
      record {
        path_id = path_id;
        avg_rtt_ms = fl.of_ℕ 0;
        min_rtt_ms = fl.of_ℕ 0;
        max_rtt_ms = fl.of_ℕ 0;
        jitter_ms = fl.of_ℕ 0;
        loss_pct = fl.of_ℕ 0;
        throughput_mbps = fl.of_ℕ 0;
        is_alive = false;
        quality_score = fl.of_ℕ 0;
        rtt_history = [];
        loss_history = [];
      },
      m,
    )
    | some h ↦
        let h' = flush_throughput m.history_window now h in
        (state_of m path_id h', record m { paths = insert path_id h' m.paths })
  ]

  -- The loop of `get_all_path_states`: the states, and the histories with flushed throughput.
  unfoldable pub all_states :
      Float
      → PathMonitor Float
      → Dict (PathHistory Float)
      → Dict (PathState Float) × Dict (PathHistory Float)
  all_states now m [] = ([], [])
  all_states now m ((path_id, h) ∷ rest) =
      let h' = flush_throughput m.history_window now h in
      let (states, paths) = all_states now m rest in
      ((path_id, state_of m path_id h') ∷ states, (path_id, h') ∷ paths)

  unfoldable pub get_all_path_states :
      Float → PathMonitor Float → Dict (PathState Float) × PathMonitor Float
  get_all_path_states now m =
      let (states, paths) = all_states now m m.paths in (states, record m { paths = paths })
