-- ===== src/Metrics.antt =====
-- `ThroughputCalculator` of hyperagg/metrics/throughput_calculator.py: what of the traffic on the
-- wire reaches the user.
pub mod Accounting
mod Tests
use ratan_engine.Prelude.{
  ℕ, ◌+◌, ◌*◌, max, Bool, true, false, List, [], ◌∷◌, ◌++◌, if◌then◌else◌, length,
}
use ratan_engine.Prelude.Floats.{FloatOps, FloatMath, float_max, float_sum}
use ratan_engine.Scheduler.Bandwidth.{total_bytes, drop_before}

pub record ThroughputCalculator (Float : Type 0) : Type 0 where
  pub window_sec : Float
  pub sent_samples : List (Float × ℕ)
  pub fec_bytes_samples : List (Float × ℕ)
  pub dup_bytes_samples : List (Float × ℕ)
  pub reorder_waits : List (Float × Float)
  pub total_sent : ℕ
  pub total_fec : ℕ
  pub total_dup : ℕ
  pub total_reorder_wait : Float

module _ {Float : Type 0} (fl : FloatOps Float) where
  -- `__init__`
  abbrev pub new_calculator : Float → ThroughputCalculator Float
  new_calculator window_sec = record {
    window_sec = window_sec;
    sent_samples = [];
    fec_bytes_samples = [];
    dup_bytes_samples = [];
    reorder_waits = [];
    total_sent = 0;
    total_fec = 0;
    total_dup = 0;
    total_reorder_wait = fl.of_ℕ 0;
  }

  unfoldable pub record_reorder_wait :
      (now wait_sec : Float) → ThroughputCalculator Float → ThroughputCalculator Float
  record_reorder_wait now wait_sec c = record c {
    reorder_waits = c.reorder_waits ++ (now, wait_sec) ∷ [];
    total_reorder_wait = fl.add c.total_reorder_wait wait_sec;
  }

  unfoldable pub drop_waits : Float → List (Float × Float) → List (Float × Float)
  drop_waits cutoff [] = []
  drop_waits cutoff ((t, w) ∷ rest) =
      if fl.lt t cutoff then drop_waits cutoff rest else (t, w) ∷ rest

  -- `_prune`
  unfoldable pub prune : Float → ThroughputCalculator Float → ThroughputCalculator Float
  prune now c =
      let cutoff = fl.sub now c.window_sec in
      record c {
        sent_samples = drop_before fl cutoff c.sent_samples;
        fec_bytes_samples = drop_before fl cutoff c.fec_bytes_samples;
        dup_bytes_samples = drop_before fl cutoff c.dup_bytes_samples;
        reorder_waits = drop_waits cutoff c.reorder_waits;
      }

  -- `sum(w for _, w in waits)`, from the left
  unfoldable pub total_wait : Float → List (Float × Float) → Float
  total_wait acc [] = acc
  total_wait acc ((t, w) ∷ rest) = total_wait (fl.add acc w) rest

  -- `bytes / window * 8 / 1_000_000`, 0 without a window
  unfoldable pub mbps_over : Float → ℕ → Float
  mbps_over window nbytes =
      if fl.lt (fl.of_ℕ 0) window
      then fl.div (fl.mul (fl.div (fl.of_ℕ nbytes) window) (fl.of_ℕ 8)) (fl.of_ℕ 1000000)
      else fl.of_ℕ 0

  -- The values of `compute`, before they are rounded
  pub record Throughput : Type 0 where
    pub raw_mbps : Float
    pub fec_ratio : Float
    pub fec_mbps : Float
    pub dup_mbps : Float
    pub reorder_cost_mbps : Float
    pub effective_mbps : Float
    pub efficiency : Float

  -- `avg_wait * raw_bps` in megabits, 0 without waits
  unfoldable pub reorder_cost : Float → ℕ → List (Float × Float) → Float
  reorder_cost window raw_bytes [] = fl.of_ℕ 0
  reorder_cost window raw_bytes (w ∷ ws) =
      let avg_wait = fl.div (total_wait (fl.of_ℕ 0) (w ∷ ws)) (fl.of_ℕ (length (w ∷ ws))) in
      let raw_bps =
        if fl.lt (fl.of_ℕ 0) window then fl.div (fl.of_ℕ raw_bytes) window else fl.of_ℕ 0 in
      fl.div (fl.mul (fl.mul avg_wait raw_bps) (fl.of_ℕ 8)) (fl.of_ℕ 1000000)

  unfoldable pub compute :
      Float → ThroughputCalculator Float → Throughput × ThroughputCalculator Float
  compute now c =
      let c' = prune now c in
      let window = c'.window_sec in
      let raw_bytes = total_bytes c'.sent_samples in
      let fec_bytes = total_bytes c'.fec_bytes_samples in
      let raw = mbps_over window raw_bytes in
      let ratio = fl.div (fl.of_ℕ fec_bytes) (fl.of_ℕ (max raw_bytes 1)) in
      let dup = mbps_over window (total_bytes c'.dup_bytes_samples) in
      let cost = reorder_cost window raw_bytes c'.reorder_waits in
      let effective =
        float_max fl (fl.of_ℕ 0)
          (fl.sub (fl.sub (fl.mul raw (fl.sub (fl.of_ℕ 1) ratio)) cost) dup) in
      (
        record {
          raw_mbps = raw;
          fec_ratio = ratio;
          fec_mbps = mbps_over window fec_bytes;
          dup_mbps = dup;
          reorder_cost_mbps = cost;
          effective_mbps = effective;
          efficiency =
              if fl.lt (fl.of_ℕ 0) raw
              then fl.mul (fl.div effective raw) (fl.of_ℕ 100)
              else fl.of_ℕ 0;
        },
        c',
      )

module _ {Float : Type 0} where
  unfoldable pub record_sent :
      Float
      → ℕ
      → (is_fec_parity is_duplicate : Bool) → ThroughputCalculator Float
      → ThroughputCalculator Float
  record_sent now nbytes is_fec_parity is_duplicate c = record c {
    sent_samples = c.sent_samples ++ (now, nbytes) ∷ [];
    total_sent = c.total_sent + nbytes;
    fec_bytes_samples =
        if is_fec_parity then c.fec_bytes_samples ++ (now, nbytes) ∷ [] else c.fec_bytes_samples;
    total_fec = if is_fec_parity then c.total_fec + nbytes else c.total_fec;
    dup_bytes_samples =
        if is_duplicate then c.dup_bytes_samples ++ (now, nbytes) ∷ [] else c.dup_bytes_samples;
    total_dup = if is_duplicate then c.total_dup + nbytes else c.total_dup;
  }
