-- ===== src/Packet/Create.antt =====
-- The constructors of hyperagg/tunnel/packet.py: what they make is read back from the wire with the
-- kind that was made, and timestamps wrap to 32 bits.
use Prim.Native.Nat.{bit_and}
use mathlib.Core.List.{append-nil}
use ratan_engine.Prelude.{
  ℕ, ◌≡◌, ap, sym, inl, inr, ◌-◌, ◌/◌, ◌%◌, ◌^◌, ◌≤◌, ◌<◌, refl, ◌∙◌, true, false, [], arith,
  length, ok, raise, struct_error, Bool, if◌then◌else◌, ◌==◌,
}
use ratan_engine.Prelude.Bits.{bit_and_mask}
use ratan_engine.Prelude.Bytes.{Bytes}
use ratan_engine.Packet.{
  HyperAggPacket, create_data, create_keepalive, create_fec_parity, create_control, serialize,
  deserialize, get_timestamp_us, is_fec_parity, is_replicated, is_keepalive, is_control,
}
use ratan_engine.Packet.Wire.{
  IsWellFormed, FitsHeader, deserialize-serialize, serialize-FitsHeader, serialize_lem,
}

-- The kind that a receiver sees: parity, replicated, keepalive, control.
abbrev pub kind : HyperAggPacket → Bool × Bool × Bool × Bool
kind p = (is_fec_parity p, is_replicated p, is_keepalive p, is_control p)

-- `p` is sent, and a receiver that reads it back sees `seen`.
abbrev pub Arrives : HyperAggPacket → Bool × Bool × Bool × Bool → Type 0
Arrives p seen =
    (wire : Bytes) × (serialize p ≡ ok wire) × (deserialize wire ≡ ok p) × (kind p ≡ seen)

arrives :
    (p : HyperAggPacket) (seen : Bool × Bool × Bool × Bool)
    → IsWellFormed p
    → FitsHeader p
    → kind p ≡ seen
    → Arrives p seen
arrives p seen w fits k =
    let (wire, e) = serialize-FitsHeader p fits in
    (wire, e, ap deserialize (sym (append-nil wire)) ∙ deserialize-serialize p wire [] w e, k)

-- The arguments of a constructor fit the header's fields.
pub record InRange (timestamp path_id seq global_seq group_id index size : ℕ) : Type 0 where
  pub timestamp_in : timestamp < 2 ^ 32
  pub path_in : path_id < 2 ^ 16
  pub seq_in : seq < 2 ^ 32
  pub global_seq_in : global_seq < 2 ^ 32
  pub group_in : group_id < 2 ^ 32
  pub index_in : index < 2 ^ 8
  pub size_in : size < 2 ^ 8

module _ (payload : Bytes) (timestamp path_id seq global_seq group_id index size : ℕ)
    (r : InRange timestamp path_id seq global_seq group_id index size) where
  -- With arguments in range and a payload below 64 KiB, each of the four constructors makes a
  -- packet that serializes and is read back unchanged, and the receiver sees its kind and no other.
  pub create-Arrives :
      length payload < 2 ^ 16
      → Arrives
          (create_data timestamp payload path_id seq global_seq group_id index size)
          (false, false, false, false)
        × Arrives
            (create_fec_parity timestamp payload path_id seq global_seq group_id index size)
            (true, false, false, false)
        × Arrives (create_keepalive timestamp path_id seq) (false, false, true, false)
        × Arrives (create_control timestamp payload path_id seq) (false, false, false, true)
  unfolding create_data create_fec_parity create_keepalive create_control is_fec_parity
      is_replicated is_keepalive is_control
  create-Arrives small = (
    arrives _ _ (record { magic_ok = refl; len_ok = refl }) (omega arith) refl,
    arrives _ _ (record { magic_ok = refl; len_ok = refl }) (omega arith) refl,
    arrives _ _ (record { magic_ok = refl; len_ok = refl }) (omega arith) refl,
    arrives _ _ (record { magic_ok = refl; len_ok = refl }) (omega arith) refl,
  )

-- A data packet with a payload of 64 KiB or more is refused by `struct.pack`, whatever the other
-- fields hold.
pub create_data_oversized :
    (payload : Bytes) (timestamp path_id seq global_seq group_id index size : ℕ)
    → 2 ^ 16 ≤ length payload
    → serialize (create_data timestamp payload path_id seq global_seq group_id index size)
      ≡ raise struct_error
create_data_oversized payload timestamp path_id seq global_seq group_id index size big =
    elim (serialize_lem
      (create_data timestamp payload path_id seq global_seq group_id index size)) [
        | inl (fits, rest) ↦ absurd (unfold create_data in omega arith)
        | inr (over, e) ↦ e
      ]

-- With a clock that never reads 0: the timestamp is the whole microseconds since the start, modulo
-- 2 ^ 32, and a later call keeps the start that the first one set.
pub get_timestamp_us_lem :
    (start now later now' later' : ℕ)
    → 0 < now
    → let (start', stamp) = get_timestamp_us start now later in
      (stamp ≡ (later - start') / 1000 % 2 ^ 32)
      × (stamp < 2 ^ 32)
      × ((get_timestamp_us start' now' later').0 ≡ start')
unfolding get_timestamp_us
get_timestamp_us_lem start now later now' later' h =
    let start' : ℕ = if start == 0 then now else start in
    let mask : bit_and ((later - start') / 1000) 0xFFFFFFFF ≡ (later - start') / 1000 % 2 ^ 32 =
      bit_and_mask 32 ((later - start') / 1000) in
    (mask, omega (arith, mask), ground arith)
