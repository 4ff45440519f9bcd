-- ===== src/Fec/Xor/Encoder.antt =====
-- `XORFecEncoder` of hyperagg/fec/xor_fec.py: the sending side, which gathers packets into groups and
-- emits a parity for each.
pub mod Stream
use ratan_engine.Prelude.{
  ℕ, zero, suc, ◌+◌, ◌-◌, Option, none, some, List, [], ◌∷◌, ◌++◌, ◌==◌, if◌then◌else◌, length,
  Result, ok, ◌>>=◌,
}
use ratan_engine.Prelude.Bytes.{Bytes}
use ratan_engine.Fec.Xor.{encode_group}

pub record XorFecEncoder : Type 0 where
  pub group_size : ℕ
  pub current_group : List Bytes
  pub group_id : ℕ

-- `__init__`
abbrev pub new_encoder : ℕ → XorFecEncoder
new_encoder group_size = record { group_size = group_size; current_group = []; group_id = 0 }

-- `(fec_group_id, fec_index, parity_or_none)`
pub record Added : Type 0 where
  pub fec_group_id : ℕ
  pub fec_index : ℕ
  pub parity : Option Bytes

-- The group once the packet is appended; a full one is encoded and a new group begins.
unfoldable pub close_group : XorFecEncoder → List Bytes → Result (Option Bytes × XorFecEncoder)
close_group e group =
    if length group == e.group_size
    then (do
      parity ← encode_group e.group_size group
      ok (some parity, record e { current_group = []; group_id = e.group_id + 1 }))
    else ok (none, record e { current_group = group })

unfoldable pub add_packet : Bytes → XorFecEncoder → Result (Added × XorFecEncoder)
unfolding close_group
add_packet payload e = do
  (parity, e') ← close_group e (e.current_group ++ payload ∷ [])
  ok (record { fec_group_id = e.group_id; fec_index = length e.current_group; parity = parity }, e')

-- `while len(group) < group_size: group.append(b"")`, with the rounds that are left.
unfoldable pub pad_group : ℕ → List Bytes → List Bytes
pad_group zero group = group
pad_group (suc left) group = pad_group left (group ++ [] ∷ [])

unfoldable pub flush : XorFecEncoder → Result (Option (ℕ × Bytes) × XorFecEncoder)
flush e = if length e.current_group == 0 then ok (none, e) else do
  let group = pad_group (e.group_size - length e.current_group) e.current_group
  parity ← encode_group e.group_size group
  ok (some (e.group_id, parity), record e { current_group = []; group_id = e.group_id + 1 })

unfoldable pub pending_count : XorFecEncoder → ℕ
pending_count e = length e.current_group
