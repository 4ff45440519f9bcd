-- ===== src/Packet/Tests.antt =====
-- Runs of the packet functions at concrete inputs.
use ratan_engine.Prelude.{◌≡◌, refl, [], ◌∷◌, ◌++◌, arith, ok, raise, value_error, ◌⊎◌}
use ratan_engine.Prelude.Bytes.{Bytes, IsBytes, from_bytes, be_bytes, le_bytes, le_value}
use ratan_engine.Packet.Struct.{struct_pack, struct_unpack}
use ratan_engine.Packet.{HyperAggPacket, serialize, deserialize, from_fields}
use ratan_engine.Packet.Wire.{IsWellFormed, deserialize-serialize}
use ratan_engine.Packet.Parse.{IsPacket, deserialize-IsPacket, serialize-deserialize}
use ratan_engine.Packet.Create.{InRange}

abbrev sample : HyperAggPacket
sample = record {
  magic = 0x48414747;
  version = 1;
  flags = 0;
  path_id = 1;
  seq = 7;
  global_seq = 42;
  fec_group_id = 3;
  fec_index = 2;
  fec_group_size = 5;
  payload_len = 2;
  timestamp_us = 0x01020304;
  payload = 72 ∷ 105 ∷ [];
}

abbrev sample_wire : Bytes
sample_wire =
    0x48 ∷ 0x41 ∷ 0x47 ∷ 0x47 ∷ 1 ∷ 0 ∷ 0 ∷ 1 ∷ 0 ∷ 0 ∷ 0 ∷ 7 ∷ 0 ∷ 0 ∷ 0 ∷ 42 ∷ 0 ∷ 0 ∷ 0 ∷ 3 ∷ 2
    ∷ 5 ∷ 0 ∷ 2 ∷ 1 ∷ 2 ∷ 3 ∷ 4 ∷ 72 ∷ 105 ∷ []

serialize-sample : serialize sample ≡ ok sample_wire
unfolding serialize struct_pack be_bytes le_bytes
serialize-sample = refl

deserialize-sample : deserialize (sample_wire ++ 9 ∷ []) ≡ ok sample
unfolding deserialize struct_unpack from_fields from_bytes le_value
deserialize-sample = refl

deserialize_errors :
    (deserialize (1 ∷ 2 ∷ []) ≡ raise value_error)
    × (deserialize (0 ∷ sample_wire) ≡ raise value_error)
unfolding deserialize struct_unpack from_fields from_bytes le_value
deserialize_errors = (refl, refl)

sample-IsWellFormed : IsWellFormed sample
sample-IsWellFormed = record { magic_ok = refl; len_ok = refl }

sample_wire-IsBytes : IsBytes (sample_wire ++ 9 ∷ [])
sample_wire-IsBytes = omega arith

sample-InRange : InRange 5 1 7 42 3 2 5
sample-InRange = omega arith

deserialize-serialize_example : deserialize (sample_wire ++ 9 ∷ []) ≡ ok sample
deserialize-serialize_example =
    deserialize-serialize sample sample_wire (9 ∷ []) sample-IsWellFormed serialize-sample

serialize-deserialize_example : serialize sample ≡ ok sample_wire
serialize-deserialize_example =
    serialize-deserialize (sample_wire ++ 9 ∷ []) sample sample_wire-IsBytes deserialize-sample

deserialize-IsPacket_example :
    (IsPacket sample_wire × ((p : HyperAggPacket) × (deserialize sample_wire ≡ ok p)))
    ⊎ ((¬ IsPacket sample_wire) × (deserialize sample_wire ≡ raise value_error))
deserialize-IsPacket_example = deserialize-IsPacket sample_wire
