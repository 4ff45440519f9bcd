-- ===== src/Scheduler/Models.antt =====
-- The data of hyperagg/scheduler/models.py, with sequences as windows of the last entries.
use ratan_engine.Prelude.{ℕ, ◌+◌, ◌-◌, Bool, List, [], ◌∷◌, ◌++◌, length, drop}

pub record PathState (Float : Type 0) : Type 0 where
  pub path_id : ℕ
  pub avg_rtt_ms : Float
  pub min_rtt_ms : Float
  pub max_rtt_ms : Float
  pub jitter_ms : Float
  pub loss_pct : Float
  pub throughput_mbps : Float
  pub is_alive : Bool
  pub quality_score : Float
  pub rtt_history : List Float
  pub loss_history : List Bool

pub data Trend : Type 0 where
  improving stable degrading : Trend

pub data Action : Type 0 where
  prefer use_path avoid abandon : Action

pub record PathPrediction (Float : Type 0) : Type 0 where
  pub path_id : ℕ
  pub predicted_rtt_ms : Float
  pub rtt_confidence_interval : Float × Float
  pub predicted_loss_pct : Float
  pub delivery_probability : Float
  pub trend : Trend
  pub recommended_action : Action

-- `priority` is 0 in every assignment that the code makes.
pub record PathAssignment : Type 0 where
  pub path_id : ℕ
  pub send : Bool
  pub is_fec_parity : Bool

-- The part of the text before the colon; the rest of the text is for display.
pub data Reason : Type 0 where
  no_alive_paths realtime single_path split_fec stripe degraded : Reason
  round_robin weighted replicate_all : Reason

pub record SchedulerDecision : Type 0 where
  pub packet_global_seq : ℕ
  pub assignments : List PathAssignment
  pub reason : Reason

-- `deque.append` with a `maxlen`
unfoldable pub append_last {ℓ} : {A : Type ℓ} → ℕ → A → List A → List A
append_last maxlen x q = drop (length q + 1 - maxlen) (q ++ x ∷ [])

-- `xs[-n:]`
unfoldable pub last_n {ℓ} : {A : Type ℓ} → ℕ → List A → List A
last_n n xs = drop (length xs - n) xs
