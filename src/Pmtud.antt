-- ===== src/Pmtud.antt =====
-- `PathMTUDiscovery` of hyperagg/tunnel/pmtud.py: the binary search for the largest packet that a
-- path takes. The socket is outside: the outcome of a `sendto` with the DF bit is a function of the
-- number of the call and of the datagram.
pub mod Search
mod Tests
use ratan_engine.Prelude.{
  ℕ, zero, suc, ◌+◌, ◌-◌, ◌/◌, max, Bool, true, false, List, [], ltb, if◌then◌else◌, length,
  replicate, Result, ok, ◌>>=◌,
}
use ratan_engine.Prelude.Bytes.{Bytes}
use ratan_engine.Prelude.Dict.{Dict, insert, get_default}
use ratan_engine.Prelude.Floats.{FloatOps}
use ratan_engine.Packet.{HyperAggPacket, create_keepalive, serialize}

abbrev pub min_mtu : ℕ
min_mtu = 576

abbrev pub max_mtu : ℕ
max_mtu = 1500

-- How a probe ends: no exception, EMSGSIZE, or another OSError.
pub data ProbeOutcome : Type 0 where
  passed too_big other_error : ProbeOutcome

pub record PathMtuDiscovery (Float : Type 0) : Type 0 where
  pub path_mtu : Dict ℕ
  pub last_probe : Dict Float
  pub probe_interval : Float

-- The wire of the probe for `test_size`.
unfoldable pub probe_wire : (timestamp path_id test_size : ℕ) → Result Bytes
probe_wire timestamp path_id test_size =
    let payload_size = max 1 (test_size - 28 - 28 - 16) in
    let probe_payload = replicate payload_size 0 in
    serialize (record (create_keepalive timestamp path_id 0) {
      payload = probe_payload;
      payload_len = length probe_payload;
    })

module _ (stamps : ℕ → ℕ) (socket : ℕ → Bytes → ProbeOutcome) (path_id : ℕ) where
  -- The loop of `probe_path`, with the number of turns left and of those made.
  unfoldable pub probe_loop : ℕ → ℕ → (low high best : ℕ) → Result ℕ
  unfolding probe_wire
  probe_loop zero made low high best = ok best
  probe_loop (suc left) made low high best =
      let test_size = (low + high) / 2 in
      if ltb high (low + 10) then ok best else do
        wire ← probe_wire (stamps made) path_id test_size
        elim (socket made wire) [
          | passed ↦ probe_loop left (suc made) (test_size + 1) high test_size
          | too_big ↦ probe_loop left (suc made) low (test_size - 1) best
          | other_error ↦ ok best
        ]

  unfoldable pub probe_path :
      {Float : Type 0} → Float → PathMtuDiscovery Float → Result (ℕ × PathMtuDiscovery Float)
  probe_path now d = do
    best ← probe_loop 10 0 min_mtu max_mtu min_mtu
    ok (
      best,
      record d {
        path_mtu = insert path_id best d.path_mtu;
        last_probe = insert path_id now d.last_probe;
      },
    )

module _ {Float : Type 0} where
  -- `__init__`
  abbrev pub new_discovery : FloatOps Float → PathMtuDiscovery Float
  new_discovery fl = record { path_mtu = []; last_probe = []; probe_interval = fl.of_ℕ 60 }

  unfoldable pub get_mtu : ℕ → ℕ → PathMtuDiscovery Float → ℕ
  get_mtu path_id default d = get_default path_id default d.path_mtu

  -- Both sides of `max` are compared with 504, so a difference below 0 is as good as 0.
  unfoldable pub get_safe_payload_size : ℕ → ℕ → PathMtuDiscovery Float → ℕ
  get_safe_payload_size path_id default_mtu d =
      max (min_mtu - 72) (get_mtu path_id default_mtu d - 72)

  unfoldable pub should_probe : FloatOps Float → Float → ℕ → PathMtuDiscovery Float → Bool
  should_probe fl now path_id d =
      fl.lt d.probe_interval (fl.sub now (get_default path_id (fl.of_ℕ 0) d.last_probe))
