-- ===== src/Pmtud/Tests.antt =====
-- Runs of the MTU search at concrete inputs.
use ratan_engine.Prelude.{ℕ, ◌+◌, ◌≤◌, ◌≡◌, [], leb, if◌then◌else◌, length, arith, ok}
use ratan_engine.Prelude.Bytes.{Bytes}
use ratan_engine.Pmtud.{
  ProbeOutcome, passed, too_big, PathMtuDiscovery, probe_path, probe_wire, get_safe_payload_size,
}
use ratan_engine.Pmtud.Search.{IsPath, IsNear, probe_wire_lem, probe_path_lem}

abbrev path_of : ℕ → ℕ → Bytes → ProbeOutcome
path_of mtu k wire = if leb (length wire + 28) mtu then passed else too_big

path_of-IsPath : (mtu : ℕ) → IsPath (path_of mtu) mtu
path_of-IsPath mtu = record {
  takes = λ k wire h. ground (arith, h);
  refuses = λ k wire h. ground (arith, h);
}

abbrev unknown : PathMtuDiscovery ℕ
unknown = record { path_mtu = []; last_probe = []; probe_interval = 60 }

probe_wire_lem_example :
    (wire : Bytes) × (probe_wire 5 1 1038 ≡ ok wire) × (length wire + 44 ≡ 1038)
probe_wire_lem_example =
    probe_wire_lem 5 1 1038 (omega arith) (omega arith) (omega arith) (omega arith)

probe_path_lem_example :
    (result : ℕ) × (d' : PathMtuDiscovery ℕ) × (probe_path (λ k. 5) (path_of 1400) 1 7 unknown
      ≡ ok (result, d'))
    × IsNear 1416 result
    × (get_safe_payload_size 1 1280 d' + 72 ≡ result)
    × (1400 ≤ 1484 → 1406 ≤ result)
probe_path_lem_example =
    probe_path_lem (λ k. 5) (path_of 1400) 1 (λ k. omega arith) (omega arith) 1400 1280 7 unknown
      (path_of-IsPath 1400) (omega arith)
