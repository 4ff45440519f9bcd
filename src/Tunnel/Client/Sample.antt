-- ===== src/Tunnel/Client/Sample.antt =====
-- A client for runs at concrete inputs.
use ratan_engine.Prelude.{ℕ, none, true, [], ◌∷◌}
use ratan_engine.Prelude.Thousandths.{thousandths, thousandths_math}
use ratan_engine.Fec.Engine.{auto, new_engine}
use ratan_engine.Metrics.{new_calculator}
use ratan_engine.Reorder.{new_buffer}
use ratan_engine.Scheduler.Bandwidth.{new_estimator}
use ratan_engine.Scheduler.Congestion.{new_tier_manager}
use ratan_engine.Scheduler.Delay.{new_owd}
use ratan_engine.Scheduler.Monitor.{PathMonitor}
use ratan_engine.Scheduler.PathScheduler.{ai}
use ratan_engine.Scheduler.Predictor.{new_predictor}
use ratan_engine.Session.{new_manager}
use ratan_engine.Tunnel.Client.{TunnelClient}

abbrev pub monitor : PathMonitor ℕ
monitor = record {
  history_window = 50;
  ewma_alpha = 300;
  latency_budget_ms = 150000;
  jitter_weight = 300;
  loss_weight = 500;
  rtt_weight = 200;
  keepalive_timeout_count = 3;
  paths = [];
}

-- Path 0 may send nothing for now, path 1 a thousand bytes.
abbrev pub client : TunnelClient ℕ ℕ
client = record {
  crypto = none;
  fec = new_engine thousandths auto 4 3 1 500;
  monitor = monitor;
  predictor = new_predictor thousandths thousandths_math 50 300 150000;
  scheduler = record {
    mode = ai;
    probe_interval_ms = 100000;
    predictions = [];
    path_states = [];
    alive_paths = [];
    best_path = none;
    last_update = 0;
    rr_counter = 0;
    schedule_table = [];
    table_pos = 0;
  };
  reorder = new_buffer 1024 10000 500000 100000;
  bw_estimator = new_estimator thousandths 300 1000;
  pacer = record {
    max_wait_ms = 50000;
    buckets = (0, 0) ∷ (1, 1000000) ∷ [];
    rates = [];
    last_refill = [];
    max_burst = [];
  };
  congestion = [];
  tier_mgr = new_tier_manager thousandths 10000000000;
  owd = new_owd thousandths 100 50;
  throughput = new_calculator thousandths 5000;
  session_mgr = new_manager thousandths 10000 5000;
  global_seq = 7;
  path_seqs = (0, 40) ∷ (1, 90) ∷ [];
  sockets = 0 ∷ 1 ∷ [];
  connected_paths = [];
  tier_reset_time = 0;
  tun_open = true;
  packets_sent_per_path = [];
  packets_received = 0;
  fec_recoveries = 0;
  duplicates_dropped = 0;
}
