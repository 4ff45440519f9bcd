-- ===== src/Pmtud/Search.antt =====
-- The accuracy of the search of hyperagg/tunnel/pmtud.py.
use native.Mathlib.Decide.{dec_le}
use native.Mathlib.Nat.{pow-suc}
use ratan_engine.Prelude.{
  ℕ, zero, suc, ◌+◌, ◌-◌, ◌*◌, ◌/◌, ◌^◌, ◌≤◌, ◌<◌, ◌≡◌, refl, min, max, ltb, ltb→lt, length,
  length-replicate, replicate, ok, arith, inl, inr, Bool-cases,
}
use ratan_engine.Prelude.Bytes.{Bytes}
use ratan_engine.Prelude.Dict.{insert, lookup-insert}
use ratan_engine.Packet.{HyperAggPacket, create_keepalive}
use ratan_engine.Packet.Wire.{serialize_lem}
use ratan_engine.Pmtud.{
  ProbeOutcome, passed, too_big, PathMtuDiscovery, probe_wire, probe_loop, probe_path, min_mtu,
  max_mtu, get_mtu, get_safe_payload_size,
}

-- A keepalive packet is not encrypted: the probe has no tag of 16 bytes.
pub probe_wire_lem :
    (timestamp path_id test_size : ℕ)
    → timestamp < 2 ^ 32
    → path_id < 2 ^ 16
    → min_mtu ≤ test_size
    → test_size ≤ max_mtu
    → (wire : Bytes) × (probe_wire timestamp path_id test_size ≡ ok wire)
      × (length wire + 44 ≡ test_size)
unfolding probe_wire create_keepalive
probe_wire_lem timestamp path_id test_size ht hp lo hi =
    let size : ℕ = max 1 (test_size - 28 - 28 - 16) in
    let p : HyperAggPacket = record (create_keepalive timestamp path_id 0) {
      payload = replicate size 0;
      payload_len = length {A = ℕ} (replicate size 0);
    } in
    elim (serialize_lem p) [
      | inl (fits, (wire, e, l)) ↦ (wire, e, omega (arith, l, length-replicate {A = ℕ} size 0))
      | inr (over, e) ↦ absurd (over (omega (arith, length-replicate {A = ℕ} size 0)))
    ]

-- A path that takes IP packets of up to `mtu` bytes, 28 of them for the headers of IP and UDP.
pub record IsPath (socket : ℕ → Bytes → ProbeOutcome) (mtu : ℕ) : Type 0 where
  pub takes : (k : ℕ) (wire : Bytes) → length wire + 28 ≤ mtu → socket k wire ≡ passed
  pub refuses : (k : ℕ) (wire : Bytes) → mtu < length wire + 28 → socket k wire ≡ too_big

-- A result within 10 bytes below `limit` or `max_mtu`, and never above them.
pub record IsNear (limit result : ℕ) : Type 0 where
  pub below : result ≤ limit
  pub in_range : min_mtu ≤ result
  pub at_most : result ≤ max_mtu
  pub near : min limit max_mtu ≤ result + 10

module _ (stamps : ℕ → ℕ) (socket : ℕ → Bytes → ProbeOutcome) (path_id : ℕ)
    (stamps_ok : (k : ℕ) → stamps k < 2 ^ 32) (path_ok : path_id < 2 ^ 16) where
  -- The interval that is left, of which each probe takes half.
  record Bracket (limit left low high best : ℕ) : Type 0 where
    low_in : min_mtu ≤ low
    high_in : high ≤ max_mtu
    best_in : min_mtu ≤ best
    best_at_most : best ≤ max_mtu
    best_low : low ≤ best + 1
    best_below : best ≤ limit
    limit_high : min limit max_mtu ≤ high
    small : high + 1 ≤ low + 10 * 2 ^ left

  Bracket-IsNear :
      (limit left low high best : ℕ)
      → Bracket limit left low high best
      → high < low + 10
      → IsNear limit best
  Bracket-IsNear limit left low high best b close = record {
    below = b.best_below;
    in_range = b.best_in;
    at_most = b.best_at_most;
    near = omega (arith, b.limit_high, b.best_low);
  }

  Bracket-up :
      (limit left low high best size : ℕ)
      → Bracket limit (suc left) low high best
      → size ≡ (low + high) / 2
      → low + 10 ≤ high
      → size ≤ limit
      → Bracket limit left (size + 1) high size
  Bracket-up limit left low high best size b e wide fits = record {
    low_in = omega (arith, b.low_in);
    high_in = b.high_in;
    best_in = omega (arith, b.low_in);
    best_at_most = omega (arith, b.high_in);
    best_low = omega arith;
    best_below = fits;
    limit_high = b.limit_high;
    small = omega (arith, b.small, pow-suc 2 left);
  }

  Bracket-down :
      (limit left low high best size : ℕ)
      → Bracket limit (suc left) low high best
      → size ≡ (low + high) / 2
      → low + 10 ≤ high
      → limit < size
      → Bracket limit left low (size - 1) best
  Bracket-down limit left low high best size b e wide over = record {
    low_in = b.low_in;
    high_in = omega (arith, b.high_in);
    best_in = b.best_in;
    best_at_most = b.best_at_most;
    best_low = b.best_low;
    best_below = b.best_below;
    limit_high = omega arith;
    small = omega (arith, b.small, pow-suc 2 left);
  }

  probe_loop-IsNear :
      (mtu left made low high best : ℕ)
      → IsPath socket mtu
      → Bracket (mtu + 16) left low high best
      → (result : ℕ) × (probe_loop stamps socket path_id left made low high best ≡ ok result)
        × IsNear (mtu + 16) result
  unfolding probe_loop
  probe_loop-IsNear mtu zero made low high best l b =
      (best, refl, Bracket-IsNear (mtu + 16) 0 low high best b (omega (arith, b.small)))
  probe_loop-IsNear mtu (suc left) made low high best l b =
      let size : ℕ = (low + high) / 2 in
      elim (Bool-cases (ltb high (low + 10))) [
        | inl close ↦ (
          best,
          ground (arith, close),
          Bracket-IsNear (mtu + 16) (suc left) low high best b (ltb→lt high (low + 10) close),
        )
        | inr wide ↦
            let far : low + 10 ≤ high = ground (arith, wide) in
            let (wire, e, len) =
              probe_wire_lem (stamps made) path_id size (stamps_ok made) path_ok
                (omega (arith, b.low_in)) (omega (arith, b.high_in)) in
            elim (dec_le (length wire + 28) mtu) [
              | yes fits ↦
                  let (result, e', near) =
                    probe_loop-IsNear mtu left (suc made) (size + 1) high size l
                      (Bracket-up (mtu + 16) left low high best size b refl far (omega arith)) in
                  (result, ground (arith, wide, e, l.takes made wire fits, e'), near)
              | no over ↦
                  let (result, e', near) =
                    probe_loop-IsNear mtu left (suc made) low (size - 1) best l
                      (Bracket-down (mtu + 16) left low high best size b refl far (omega arith)) in
                  (result, ground (arith, wide, e, l.refuses made wire (omega arith), e'), near)
            ]
      ]

  -- On a path that takes IP packets of up to `mtu` bytes, at least 560, the search returns, with 10
  -- probes or fewer, the sum `mtu` + 16 (1500 at most) up to 10 bytes below it, and the safe
  -- payload is then this value without 72. So a path of at most 1484 is credited with 6 to 16 bytes that it does not
  -- take: the probe of `test_size` is sent without the tag of 16 bytes that was subtracted for it.
  pub probe_path_lem :
      {Float : Type 0} (mtu default : ℕ) (now : Float) (d : PathMtuDiscovery Float)
      → IsPath socket mtu
      → 560 ≤ mtu
      → (result : ℕ) × (d' : PathMtuDiscovery Float) × (probe_path stamps socket path_id now d
          ≡ ok (result, d'))
        × IsNear (mtu + 16) result
        × (get_safe_payload_size path_id default d' + 72 ≡ result)
        × (mtu ≤ 1484 → mtu + 6 ≤ result)
  unfolding probe_path get_mtu get_safe_payload_size
  probe_path_lem mtu default now d l h =
      let b : Bracket (mtu + 16) 10 min_mtu max_mtu min_mtu = record {
        low_in = omega arith;
        high_in = omega arith;
        best_in = omega arith;
        best_at_most = omega arith;
        best_low = omega arith;
        best_below = omega arith;
        limit_high = omega arith;
        small = omega arith;
      } in
      let (result, e, near) = probe_loop-IsNear mtu 10 0 min_mtu max_mtu min_mtu l b in
      (
        result,
        record d {
          path_mtu = insert path_id result d.path_mtu;
          last_probe = insert path_id now d.last_probe;
        },
        ground (arith, e),
        near,
        ground (arith, near.in_range, lookup-insert path_id path_id result d.path_mtu),
        λ small. omega (arith, near.near),
      )
