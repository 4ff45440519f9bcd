-- ===== src/Fec/Xor.antt =====
-- hyperagg/fec/xor_fec.py: XOR parity over groups of packets.
pub mod Bytewise
pub mod Parity
pub mod Encoder
pub mod Decoder
mod Tests
use Prim.Native.Nat.{bit_xor}
use ratan_engine.Prelude.{
  ℕ, suc, ◌+◌, ◌-◌, ◌/◌, max, Bool, true, false, not, ◌&&◌, Option, none, some, List, [], ◌∷◌, ◌++◌,
  ltb, ◌==◌, if◌then◌else◌, length, drop, replicate, range_from, Result, ok, raise, value_error,
  index_error, ◌>>=◌, ◌>>◌, raise_if,
}
use ratan_engine.Prelude.Bytes.{Bytes, from_bytes, to_bytes}
use ratan_engine.Prelude.Dict
use ratan_engine.Prelude.Dict.{Dict, elem, add_elem, minus, keys, lookup, insert, remove}
use ratan_engine.Prelude.Floats.{FloatOps}
use ratan_engine.Prelude.Sort.{sorted}

-- `_xor_bytes`: the shorter string is padded with zeros, and both are combined as integers.
unfoldable pub xor_bytes : Bytes → Bytes → Result Bytes
xor_bytes a b =
    let la = length a in
    let lb = length b in
    let a' = if ltb la lb then a ++ replicate (lb - la) 0 else a in
    let b' = if ltb la lb then b else if ltb lb la then b ++ replicate (la - lb) 0 else b in
    to_bytes (bit_xor (from_bytes a') (from_bytes b')) (max la lb)

-- `for p in packets: parity = _xor_bytes(parity, p)`
unfoldable pub xor_all : Bytes → List Bytes → Result Bytes
xor_all parity [] = ok parity
xor_all parity (p ∷ ps) = do next ← xor_bytes parity p; xor_all next ps

-- `packets[0]` raises IndexError on an empty group.
unfoldable pub xor_group : List Bytes → Result Bytes
unfolding xor_all
xor_group [] = raise index_error
xor_group (p ∷ ps) = xor_all p ps

unfoldable pub encode_group : (group_size : ℕ) → List Bytes → Result Bytes
unfolding xor_group
encode_group group_size packets = do
  raise_if (not (length packets == group_size)) value_error
  xor_group packets

-- The loop of `decode_recover`, over the received packets in the dict's order.
unfoldable pub decode_recover :
    (received : Dict Bytes) (parity : Bytes) (missing_index : ℕ) → Result Bytes
decode_recover [] parity missing_index = ok parity
decode_recover ((index, payload) ∷ received) parity missing_index =
    let skipped = decode_recover received parity missing_index in
    if index == missing_index
    then skipped
    else do next ← xor_bytes parity payload; decode_recover received next missing_index

-- `set(range(self.group_size)) - received_indices`
abbrev pub missing_indices : ℕ → List ℕ → List ℕ
missing_indices group_size received_indices = minus (range_from 0 group_size) received_indices

unfoldable pub can_recover : (group_size : ℕ) (received_indices : List ℕ) (has_parity : Bool) → Bool
can_recover group_size received_indices has_parity =
    length (missing_indices group_size received_indices) == 1 && has_parity
