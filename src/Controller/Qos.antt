-- ===== src/Controller/Qos.antt =====
-- `QoSEngine` of hyperagg/controller/qos_engine.py: a table from ports to tiers.
pub mod Agreement
mod Tests
use ratan_engine.Prelude.{
  ℕ, zero, suc, ◌+◌, ◌-◌, Bool, true, false, not, ◌||◌, Option, none, some, List, [], ◌∷◌, ltb, leb,
  ◌==◌, if◌then◌else◌, length, get_or,
}
use ratan_engine.Prelude.Bytes.{Bytes}
use ratan_engine.Prelude.Dict.{Dict, lookup, insert}
use ratan_engine.Prelude.Text.{Text, has_char, split, parse_int}
use ratan_engine.Tunnel.Classify.{Tiers, bulk_name, header_length, port_at, tier_or_bulk}

pub record QosEngine : Type 0 where
  pub enabled : Bool
  pub tiers : Tiers
  pub port_map : Dict Text

-- `for port in range(low, low + n): ...`
unfoldable pub add_ports : (n low : ℕ) → Text → Dict Text → Dict Text
add_ports zero low name d = d
add_ports (suc n) low name d = add_ports n (low + 1) name (insert low name d)

abbrev pub add_bounds : Option ℕ → Option ℕ → Text → Dict Text → Dict Text
add_bounds none high name d = d
add_bounds (some low) none name d = d
add_bounds (some low) (some high) name d = add_ports (high + 1 - low) low name d

-- `low, high = ports_str.split("-")`; what raises ValueError adds nothing.
abbrev pub add_pair : List Text → Text → Dict Text → Dict Text
add_pair [] name d = d
add_pair (low ∷ []) name d = d
add_pair (low ∷ high ∷ []) name d = add_bounds (parse_int low) (parse_int high) name d
add_pair (low ∷ high ∷ more ∷ rest) name d = d

abbrev pub add_port : Option ℕ → Text → Dict Text → Dict Text
add_port none name d = d
add_port (some port) name d = insert port name d

-- A turn of the loop of `_build_port_map`
unfoldable pub add_tier : Text → Text → Dict Text → Dict Text
add_tier name [] d = d
add_tier name (c ∷ s) d =
    if has_char 45 (c ∷ s)
    then add_pair (split 45 (c ∷ s)) name d
    else add_port (parse_int (c ∷ s)) name d

-- `_build_port_map`
unfoldable pub build_port_map : Tiers → Dict Text → Dict Text
build_port_map [] d = d
build_port_map ((name, ports) ∷ rest) d = build_port_map rest (add_tier name ports d)

-- `__init__`; `enabled` is true where the configuration does not say.
unfoldable pub new_engine : Bool → Tiers → QosEngine
new_engine enabled tiers = record {
  enabled = enabled;
  tiers = tiers;
  port_map = build_port_map tiers [];
}

-- `_extract_dst_port`
unfoldable pub extract_dst_port : Bytes → (protocol : ℕ) → Option ℕ
extract_dst_port packet protocol =
    let ihl = header_length packet in
    if protocol == 17 || protocol == 6
    then (if leb (ihl + 4) (length packet) then some (port_at packet ihl) else none)
    else none

unfoldable pub classify : QosEngine → Bytes → Text
classify e packet =
    if not e.enabled || ltb (length packet) 20
    then bulk_name
    else elim (extract_dst_port packet (get_or packet 9 0)) [
      | none ↦ bulk_name
      | some port ↦ tier_or_bulk (lookup port e.port_map)
    ]
