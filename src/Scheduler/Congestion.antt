-- ===== src/Scheduler/Congestion.antt =====
-- hyperagg/scheduler/congestion_control.py: the congestion window and the send rate of a path, and
-- the budgets of the traffic tiers.
pub mod Window
mod Tests
use ratan_engine.Prelude.{ℕ, ◌+◌, ◌-◌, ◌*◌, ◌/◌, max, Bool, true, false, not, leb, if◌then◌else◌}
use ratan_engine.Prelude.Floats.{FloatOps, FloatMath, float_le, float_eq, float_min, float_max}
use ratan_engine.Fec.Engine.{Tier, realtime, streaming, bulk}

-- The threshold is a float at first and a whole number after a loss. The counters of events are for
-- display.
pub record AimdController (Float : Type 0) : Type 0 where
  pub estimated_bw : Float
  pub alpha : Float
  pub beta : Float
  pub min_rate : Float
  pub send_rate : Float
  pub last_increase : Float
  pub increase_interval : Float
  pub cwnd_bytes : ℕ
  pub ssthresh : Float
  pub in_slow_start : Bool
  pub bytes_in_flight : ℕ
  pub bytes_acked : ℕ
  pub rtt_min_ms : Float

abbrev pub mss : ℕ
mss = 1400

module _ {Float : Type 0} (fl : FloatOps Float) where
  -- `__init__` with the default ratios
  unfoldable pub new_controller :
      FloatMath Float → (now estimated_bw : Float) → AimdController Float
  new_controller fm now estimated_bw = record {
    estimated_bw = estimated_bw;
    alpha = fl.mul estimated_bw (fl.decimal 5 2);
    beta = fl.decimal 5 1;
    min_rate = fl.mul estimated_bw (fl.decimal 1 1);
    send_rate = fl.mul estimated_bw (fl.decimal 8 1);
    last_increase = now;
    increase_interval = fl.decimal 1 1;
    cwnd_bytes = 65536;
    ssthresh = fl.mul estimated_bw (fl.decimal 5 1);
    in_slow_start = true;
    bytes_in_flight = 0;
    bytes_acked = 0;
    rtt_min_ms = fm.infinity;
  }

  unfoldable pub update_estimated_bw : Float → AimdController Float → AimdController Float
  update_estimated_bw bw c = record c {
    estimated_bw = bw;
    alpha = fl.mul bw (fl.decimal 5 2);
    min_rate = fl.mul bw (fl.decimal 1 1);
    send_rate = float_min fl c.send_rate (fl.mul bw (fl.decimal 12 1));
  }

  unfoldable pub record_rtt : Float → AimdController Float → AimdController Float
  record_rtt rtt_ms c =
      if fl.lt (fl.of_ℕ 0) rtt_ms
      then record c { rtt_min_ms = float_min fl c.rtt_min_ms rtt_ms }
      else c

  -- The window after an acknowledgement, and whether slow start goes on.
  unfoldable pub grow : ℕ → AimdController Float → ℕ × Bool
  grow nbytes c =
      if c.in_slow_start
      then (c.cwnd_bytes + nbytes, fl.lt (fl.of_ℕ (c.cwnd_bytes + nbytes)) c.ssthresh)
      else (c.cwnd_bytes + max 1 (mss * nbytes / c.cwnd_bytes), false)

  unfoldable pub record_ack : ℕ → AimdController Float → AimdController Float
  record_ack nbytes c =
      let (window, slow) = grow nbytes c in
      record c {
        bytes_in_flight = c.bytes_in_flight - nbytes;
        bytes_acked = c.bytes_acked + nbytes;
        cwnd_bytes = window;
        in_slow_start = slow;
      }

  unfoldable pub bdp_bytes : FloatMath Float → AimdController Float → Float
  bdp_bytes fm c =
      if float_eq fl c.rtt_min_ms fm.infinity
      then fl.of_ℕ 65536
      else if float_le fl c.estimated_bw (fl.of_ℕ 0)
      then fl.of_ℕ 65536
      else fl.mul c.estimated_bw (fl.div c.rtt_min_ms (fl.of_ℕ 1000))

  unfoldable pub on_success : Float → AimdController Float → AimdController Float
  on_success now c =
      if float_le fl c.increase_interval (fl.sub now c.last_increase)
      then record c {
        send_rate =
            float_min fl (fl.add c.send_rate c.alpha) (fl.mul c.estimated_bw (fl.decimal 12 1));
        last_increase = now;
      }
      else c

  unfoldable pub on_loss : AimdController Float → AimdController Float
  on_loss c =
      let window = max (c.cwnd_bytes / 2) (2 * mss) in
      record c {
        send_rate = float_max fl (fl.mul c.send_rate c.beta) c.min_rate;
        ssthresh = fl.of_ℕ window;
        cwnd_bytes = window;
        in_slow_start = false;
      }

module _ {Float : Type 0} where
  unfoldable pub record_sent : ℕ → AimdController Float → AimdController Float
  record_sent nbytes c = record c { bytes_in_flight = c.bytes_in_flight + nbytes }

  unfoldable pub can_send : ℕ → AimdController Float → Bool
  can_send nbytes c = leb (c.bytes_in_flight + nbytes) c.cwnd_bytes

-- The three tiers of TIER_GUARANTEES; a tier of any other name has the whole capacity as its limit.
pub record TierBandwidthManager (Float : Type 0) : Type 0 where
  pub total_capacity : Float
  pub tier_usage : Tier → ℕ
  pub tier_limits : Tier → Float

-- TIER_GUARANTEES, in bytes per second
abbrev pub tier_guarantee : Tier → ℕ
tier_guarantee realtime = 250000
tier_guarantee streaming = 625000
tier_guarantee bulk = 0

-- `sum(TIER_GUARANTEES.values())`
abbrev pub guaranteed : ℕ
guaranteed = 875000

abbrev pub same_tier : Tier → Tier → Bool
same_tier realtime realtime = true
same_tier streaming streaming = true
same_tier bulk bulk = true
same_tier s t = false

module _ {Float : Type 0} (fl : FloatOps Float) where
  -- `_update_limits` for a capacity
  unfoldable pub limits_for : Float → Tier → Float
  limits_for capacity bulk = float_max fl (fl.of_ℕ 0) (
      fl.sub (fl.sub capacity (fl.of_ℕ (tier_guarantee realtime)))
        (fl.of_ℕ (tier_guarantee streaming)))
  limits_for capacity tier =
      let surplus = float_max fl (fl.of_ℕ 0) (fl.sub capacity (fl.of_ℕ guaranteed)) in
      let weight = fl.div (fl.of_ℕ (tier_guarantee tier)) (fl.of_ℕ guaranteed) in
      fl.add (fl.of_ℕ (tier_guarantee tier)) (fl.mul surplus weight)

  abbrev pub new_tier_manager : Float → TierBandwidthManager Float
  new_tier_manager capacity = record {
    total_capacity = capacity;
    tier_usage = λ tier. 0;
    tier_limits = limits_for capacity;
  }

  unfoldable pub update_capacity : Float → TierBandwidthManager Float → TierBandwidthManager Float
  update_capacity capacity m = record m {
    total_capacity = capacity;
    tier_limits = limits_for capacity;
  }

  unfoldable pub tier_can_send : Tier → ℕ → TierBandwidthManager Float → Bool
  tier_can_send tier nbytes m =
      float_le fl (fl.of_ℕ (m.tier_usage tier + nbytes)) (m.tier_limits tier)

module _ {Float : Type 0} where
  unfoldable pub record_send : Tier → ℕ → TierBandwidthManager Float → TierBandwidthManager Float
  record_send tier nbytes m = record m {
    tier_usage = λ t. if same_tier t tier then m.tier_usage t + nbytes else m.tier_usage t;
  }

  unfoldable pub reset_window : TierBandwidthManager Float → TierBandwidthManager Float
  reset_window m = record m { tier_usage = λ tier. 0 }
