-- ===== src/Tunnel/Client.antt =====
-- The state of `TunnelClient`, hyperagg/tunnel/client.py, which owns an object of every other part.
-- The children have its methods. Sockets, the TUN device and JSON are outside; a path is open if it
-- is a key of `_sockets`.
pub mod Send
pub mod Arrive
pub mod Rounds
pub mod Sockets
pub mod Counters
pub mod Failover
pub mod Probes
pub mod Sample
mod Tests
use ratan_engine.Prelude.{ℕ, ◌+◌, Bool, Option, none, List, [], ◌∷◌, if◌then◌else◌}
use ratan_engine.Prelude.Bytes.{Bytes}
use ratan_engine.Prelude.Dict.{Dict, insert, add_elem}
use ratan_engine.Prelude.Floats.{FloatOps, FloatMath}
use ratan_engine.Crypto.{PacketCrypto}
use ratan_engine.Fec.Engine.{FecEngine}
use ratan_engine.Metrics.{ThroughputCalculator}
use ratan_engine.Pacer.{TokenBucketPacer, set_rate}
use ratan_engine.Reorder.{AdaptiveReorderBuffer}
use ratan_engine.Scheduler.Bandwidth.{BandwidthEstimator}
use ratan_engine.Scheduler.Congestion.{AimdController, TierBandwidthManager, new_controller}
use ratan_engine.Scheduler.Delay.{OwdEstimator}
use ratan_engine.Scheduler.Monitor.{PathMonitor, register_path}
use ratan_engine.Scheduler.PathScheduler.{PathScheduler, SchedulerMode}
use ratan_engine.Scheduler.Predictor.{PathPredictor}
use ratan_engine.Session.{SessionManager}

pub record TunnelClient (Float Ident : Type 0) : Type 0 where
  pub crypto : Option PacketCrypto
  pub fec : FecEngine Float
  pub monitor : PathMonitor Float
  pub predictor : PathPredictor Float
  pub scheduler : PathScheduler Float
  pub reorder : AdaptiveReorderBuffer Float
  pub bw_estimator : BandwidthEstimator Float
  pub pacer : TokenBucketPacer Float
  pub congestion : Dict (AimdController Float)
  pub tier_mgr : TierBandwidthManager Float
  pub owd : OwdEstimator Float
  pub throughput : ThroughputCalculator Float
  pub session_mgr : SessionManager Float Ident SchedulerMode
  pub global_seq : ℕ
  pub path_seqs : Dict ℕ
  pub sockets : List ℕ
  pub connected_paths : List ℕ
  pub tier_reset_time : Float
  pub tun_open : Bool
  pub packets_sent_per_path : Dict ℕ
  pub packets_received : ℕ
  pub fec_recoveries : ℕ
  pub duplicates_dropped : ℕ

-- The readings of the clocks while one packet is handled: the monotonic clock, the microsecond clock
-- of the packets, and for the session's file the wall clock, whether the file could be written, and
-- the monotonic clock after that.
pub record Readings (Float : Type 0) : Type 0 where
  pub now : Float
  pub stamp : ℕ
  pub wall : Float
  pub written : Bool
  pub saved_at : Float

module _ {Float Ident : Type 0} (fl : FloatOps Float) (fm : FloatMath Float) where
  -- `add_path`, without its socket: a path is open once, and starts at ten megabytes a second.
  unfoldable pub add_path : Float → ℕ → TunnelClient Float Ident → TunnelClient Float Ident
  add_path now path_id c =
      let rate = fl.of_ℕ 10000000 in
      record c {
        sockets = add_elem path_id c.sockets;
        path_seqs = insert path_id 0 c.path_seqs;
        packets_sent_per_path = insert path_id 0 c.packets_sent_per_path;
        monitor = register_path fl now path_id c.monitor;
        pacer = set_rate fl now path_id rate c.pacer;
        congestion = insert path_id (new_controller fl fm now rate) c.congestion;
      }
