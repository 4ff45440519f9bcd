-- ===== src/Packet/Wire.antt =====
-- `serialize` and `deserialize` of hyperagg/tunnel/packet.py against one another.
use ratan_engine.Prelude.{
  ℕ, ◌+◌, ◌≡◌, sym, ap, ◌∙◌, ◌⊎◌, false, inl, inr, ◌++◌, arith, ltb, length, take, drop, ok, raise,
  struct_error, length-append, take-append, drop-append, >>=-eq-ok, ok-injective,
}
use mathlib.Core.List.{append_assoc}
use ratan_engine.Prelude.Bytes.{Bytes}
use ratan_engine.Packet.Struct.{
  Fits, struct_pack_raise, dec_fits, length-struct_pack, struct_pack, struct_pack-Fits,
  struct_unpack-struct_pack,
}
use ratan_engine.Packet.{
  HyperAggPacket, magic_number, header_size, header_format, header_fields, serialize, from_fields,
  deserialize,
}

-- The fields fit their widths.
abbrev pub FitsHeader : HyperAggPacket → Type 0
FitsHeader p = Fits header_format (header_fields p)

-- A packet as the constructors make it.
pub record IsWellFormed (p : HyperAggPacket) : Type 0 where
  pub magic_ok : p.magic ≡ magic_number
  pub len_ok : p.payload_len ≡ length p.payload

take-header :
    (header rest : Bytes) → length header ≡ header_size → take header_size (header ++ rest) ≡ header
take-header header rest h =
    ap (λ (k : ℕ). take k (header ++ rest)) (sym h) ∙ take-append header rest

drop-header :
    (header rest : Bytes) → length header ≡ header_size → drop header_size (header ++ rest) ≡ rest
drop-header header rest h =
    ap (λ (k : ℕ). drop k (header ++ rest)) (sym h) ∙ drop-append header rest

from_fields-header_fields :
    (p : HyperAggPacket) (bytes : Bytes)
    → IsWellFormed p
    → take p.payload_len (drop header_size bytes) ≡ p.payload
    → from_fields (header_fields p) bytes ≡ ok p
unfolding from_fields
from_fields-header_fields p bytes w h = ground (arith, h)

from_fields-append :
    (p : HyperAggPacket) (header rest : Bytes)
    → IsWellFormed p
    → length header ≡ header_size
    → from_fields (header_fields p) (header ++ (p.payload ++ rest)) ≡ ok p
from_fields-append p header rest w size =
    from_fields-header_fields p (header ++ (p.payload ++ rest)) w
      (rw (drop-header header (p.payload ++ rest) size, w.len_ok) (take-append p.payload rest))

-- What is sent is read back, whatever follows it in the buffer: if a packet with the right magic
-- number and the length of its payload in `payload_len` serializes to `wire`, then `deserialize`
-- takes `wire`, with any bytes behind it, to that packet.
pub deserialize-serialize :
    (p : HyperAggPacket) (wire rest : Bytes)
    → IsWellFormed p
    → serialize p ≡ ok wire
    → deserialize (wire ++ rest) ≡ ok p
unfolding deserialize serialize
deserialize-serialize p wire rest w h =
    let (header, e, f) =
      >>=-eq-ok (struct_pack header_format (header_fields p)) (λ b. ok (b ++ p.payload))
        {final = wire} h in
    let size : length header ≡ header_size =
      length-struct_pack header_format (header_fields p) header e in
    let buffer : wire ++ rest ≡ header ++ (p.payload ++ rest) =
      ap (λ (b : Bytes). b ++ rest) (sym (ok-injective f)) ∙ append_assoc header p.payload rest in
    let long : ltb (length (header ++ (p.payload ++ rest))) header_size ≡ false =
      ground (arith, length-append header (p.payload ++ rest), size) in
    rw
      (
        buffer,
        long,
        take-header header (p.payload ++ rest) size,
        struct_unpack-struct_pack header_format (header_fields p) header e,
      )
      (from_fields-append p header rest w size)

-- A packet serializes if and only if its fields fit their widths: then the wire has 28 bytes of
-- header and the payload; otherwise `struct.pack` raises.
pub serialize_lem :
    (p : HyperAggPacket)
    → (FitsHeader p
        × ((wire : Bytes) × (serialize p ≡ ok wire)
            × (length wire ≡ header_size + length p.payload)))
      ⊎ ((¬ FitsHeader p) × (serialize p ≡ raise struct_error))
unfolding serialize
serialize_lem p = elim (dec_fits header_format (header_fields p)) [
  | yes fits ↦
      let (header, e, l) = struct_pack-Fits header_format (header_fields p) fits in
      inl (fits, (header ++ p.payload, rw e, omega (arith, length-append header p.payload, l)))
  | no over ↦ inr (over, rw (struct_pack_raise header_format (header_fields p) over))
]

pub serialize-FitsHeader :
    (p : HyperAggPacket) → FitsHeader p → (wire : Bytes) × (serialize p ≡ ok wire)
serialize-FitsHeader p fits = elim (serialize_lem p) [
  | inl (f, (wire, e, l)) ↦ (wire, e)
  | inr (over, e) ↦ absurd (over fits)
]
