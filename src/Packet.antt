-- ===== src/Packet.antt =====
-- hyperagg/tunnel/packet.py: the 28-byte header of a tunnel packet, its flags, and the constructors
-- of the four kinds of packet. Every field is a number; a byte string is a list of bytes.
pub mod Struct
pub mod Wire
pub mod Parse
pub mod Create
mod Tests
use Prim.Native.Nat.{bit_and}
use ratan_engine.Prelude.{
  ℕ, ◌+◌, ◌-◌, ◌/◌, ◌^◌, Bool, not, List, [], ◌∷◌, ◌++◌, ltb, ◌==◌, if◌then◌else◌, length, take,
  drop, Result, ok, raise, value_error, ◌>>=◌, ◌>>◌, raise_if,
}
use ratan_engine.Prelude.Bytes.{Bytes}
use ratan_engine.Packet.Struct.{struct_pack, struct_unpack}

-- MAGIC, "HAGG"
abbrev pub magic_number : ℕ
magic_number = 0x48414747

abbrev pub version_number : ℕ
version_number = 1

abbrev pub header_size : ℕ
header_size = 28

-- HEADER_FORMAT = "!IBBHIIIBBHI"
abbrev pub header_format : List ℕ
header_format = 4 ∷ 1 ∷ 1 ∷ 2 ∷ 4 ∷ 4 ∷ 4 ∷ 1 ∷ 1 ∷ 2 ∷ 4 ∷ []

abbrev pub flag_fec_parity : ℕ
flag_fec_parity = 0x01

abbrev pub flag_replicated : ℕ
flag_replicated = 0x02

abbrev pub flag_keepalive : ℕ
flag_keepalive = 0x04

abbrev pub flag_control : ℕ
flag_control = 0x08

pub record HyperAggPacket : Type 0 where
  pub magic : ℕ
  pub version : ℕ
  pub flags : ℕ
  pub path_id : ℕ
  pub seq : ℕ
  pub global_seq : ℕ
  pub fec_group_id : ℕ
  pub fec_index : ℕ
  pub fec_group_size : ℕ
  pub payload_len : ℕ
  pub timestamp_us : ℕ
  pub payload : Bytes

-- `bool(self.flags & flag)`
abbrev pub has_flag : HyperAggPacket → ℕ → Bool
has_flag p flag = not (bit_and p.flags flag == 0)

unfoldable pub is_fec_parity : HyperAggPacket → Bool
is_fec_parity p = has_flag p flag_fec_parity

unfoldable pub is_replicated : HyperAggPacket → Bool
is_replicated p = has_flag p flag_replicated

unfoldable pub is_keepalive : HyperAggPacket → Bool
is_keepalive p = has_flag p flag_keepalive

unfoldable pub is_control : HyperAggPacket → Bool
is_control p = has_flag p flag_control

-- The header's fields, in the order of the format.
abbrev pub header_fields : HyperAggPacket → List ℕ
header_fields p =
    p.magic ∷ p.version ∷ p.flags ∷ p.path_id ∷ p.seq ∷ p.global_seq ∷ p.fec_group_id ∷ p.fec_index
    ∷ p.fec_group_size ∷ p.payload_len ∷ p.timestamp_us ∷ []

unfoldable pub header_bytes : HyperAggPacket → Result Bytes
header_bytes p = struct_pack header_format (header_fields p)

unfoldable pub serialize : HyperAggPacket → Result Bytes
serialize p = do header ← struct_pack header_format (header_fields p); ok (header ++ p.payload)

-- What `deserialize` does with the unpacked fields. The format has eleven, so that no other list
-- reaches the last clause.
unfoldable pub from_fields : List ℕ → Bytes → Result HyperAggPacket
from_fields
      (magic ∷ version ∷ flags ∷ path_id ∷ seq ∷ global_seq ∷ group_id ∷ index ∷ size ∷ len ∷ stamp
        ∷ [])
      bytes =
    let payload = take len (drop header_size bytes) in
    do
      raise_if (not (magic == magic_number)) value_error
      raise_if (not (length payload == len)) value_error
      ok (record {
        magic = magic;
        version = version;
        flags = flags;
        path_id = path_id;
        seq = seq;
        global_seq = global_seq;
        fec_group_id = group_id;
        fec_index = index;
        fec_group_size = size;
        payload_len = len;
        timestamp_us = stamp;
        payload = payload;
      })
from_fields _ bytes = raise value_error

unfoldable pub deserialize : Bytes → Result HyperAggPacket
deserialize bytes = do
  raise_if (ltb (length bytes) header_size) value_error
  fields ← struct_unpack header_format (take header_size bytes)
  from_fields fields bytes

-- The connection's start in nanoseconds, 0 where it is not set. `now` is the clock's reading in
-- `set_connection_start`, `later` the reading after it.
unfoldable pub get_timestamp_us : (start now later : ℕ) → ℕ × ℕ
get_timestamp_us start now later =
    let start' = if start == 0 then now else start in
    (start', bit_and ((later - start') / 1000) 0xFFFFFFFF)

module _ (timestamp : ℕ) where
  unfoldable pub create_data :
      (payload : Bytes) (path_id seq global_seq fec_group_id fec_index fec_group_size : ℕ)
      → HyperAggPacket
  create_data payload path_id seq global_seq fec_group_id fec_index fec_group_size = record {
    magic = magic_number;
    version = version_number;
    flags = 0;
    path_id = path_id;
    seq = seq;
    global_seq = global_seq;
    fec_group_id = fec_group_id;
    fec_index = fec_index;
    fec_group_size = fec_group_size;
    payload_len = length payload;
    timestamp_us = timestamp;
    payload = payload;
  }

  unfoldable pub create_keepalive : (path_id seq : ℕ) → HyperAggPacket
  create_keepalive path_id seq = record {
    magic = magic_number;
    version = version_number;
    flags = flag_keepalive;
    path_id = path_id;
    seq = seq;
    global_seq = 0;
    fec_group_id = 0;
    fec_index = 0;
    fec_group_size = 0;
    payload_len = 0;
    timestamp_us = timestamp;
    payload = [];
  }

  unfoldable pub create_fec_parity :
      (parity_data : Bytes) (path_id seq global_seq fec_group_id fec_index fec_group_size : ℕ)
      → HyperAggPacket
  create_fec_parity parity_data path_id seq global_seq fec_group_id fec_index fec_group_size =
      record {
        magic = magic_number;
        version = version_number;
        flags = flag_fec_parity;
        path_id = path_id;
        seq = seq;
        global_seq = global_seq;
        fec_group_id = fec_group_id;
        fec_index = fec_index;
        fec_group_size = fec_group_size;
        payload_len = length parity_data;
        timestamp_us = timestamp;
        payload = parity_data;
      }

  unfoldable pub create_control : (control_data : Bytes) (path_id seq : ℕ) → HyperAggPacket
  create_control control_data path_id seq = record {
    magic = magic_number;
    version = version_number;
    flags = flag_control;
    path_id = path_id;
    seq = seq;
    global_seq = 0;
    fec_group_id = 0;
    fec_index = 0;
    fec_group_size = 0;
    payload_len = length control_data;
    timestamp_us = timestamp;
    payload = control_data;
  }
