-- ===== src/Packet/Parse.antt =====
-- What `deserialize` of hyperagg/tunnel/packet.py accepts, and what it raises on the rest.
use ratan_engine.Prelude.{
  ℕ, ◌+◌, ◌≤◌, ◌<◌, ◌≡◌, refl, ap, ◌∙◌, ◌⊎◌, ◌↔◌, Error, Result-cases, inl, inr, Bool-cases, List,
  [], ◌∷◌, arith, ltb, length, take, drop, ok, raise, value_error, length-take, length-drop,
  take-take-drop, take-drop-take, get_elem?, some, >>=-eq-ok, raise-ne-ok, All-take,
}
use native.Mathlib.Decide.{dec_le}
use ratan_engine.Prelude.Bytes.{Bytes, IsBytes, from_bytes}
use ratan_engine.Packet.Struct.{
  struct_unpack, struct_pack-struct_unpack, struct_unpack_total, get_elem?-struct_unpack, offset,
}
use ratan_engine.Packet.{
  HyperAggPacket, magic_number, header_size, header_format, header_fields, serialize, from_fields,
  deserialize,
}
use ratan_engine.Packet.Wire.{IsWellFormed}

-- The payload that a header with this length field names.
abbrev payload_of : ℕ → Bytes → Bytes
payload_of len bytes = take len (drop header_size bytes)

from_fields_inv :
    (fields : List ℕ) (bytes : Bytes) (p : HyperAggPacket)
    → from_fields fields bytes ≡ ok p
    → (header_fields p ≡ fields) × IsWellFormed p × (p.payload ≡ payload_of p.payload_len bytes)
unfolding from_fields
from_fields_inv (a ∷ b ∷ c ∷ d ∷ e ∷ f ∷ g ∷ h ∷ i ∷ j ∷ k ∷ []) bytes p q = ground arith
from_fields_inv _ bytes p q = absurd (raise-ne-ok q)

-- What a successful `deserialize` has read.
deserialize_inv :
    (bytes : Bytes) (p : HyperAggPacket)
    → deserialize bytes ≡ ok p
    → (header_size ≤ length bytes)
      × (struct_unpack header_format (take header_size bytes) ≡ ok (header_fields p))
      × IsWellFormed p
      × (p.payload ≡ payload_of p.payload_len bytes)
unfolding deserialize
deserialize_inv bytes p h = elim (Bool-cases (ltb (length bytes) header_size)) [
  | inl short ↦ absurd (raise-ne-ok (rw short at h))
  | inr long ↦
      let (fields, e, f) =
        >>=-eq-ok (struct_unpack header_format (take header_size bytes))
          (λ fields. from_fields fields bytes) {final = p} (rw long at h) in
      let (same, w, q) = from_fields_inv fields bytes p f in (ground arith, rw same e, w, q)
]

-- A packet that was read serializes to the bytes that it was read from: if `deserialize` takes a
-- byte string to a packet, the packet serializes to the string's first 28 + `payload_len` bytes.
pub serialize-deserialize :
    (bytes : Bytes) (p : HyperAggPacket)
    → IsBytes bytes
    → deserialize bytes ≡ ok p
    → serialize p ≡ ok (take (header_size + p.payload_len) bytes)
unfolding serialize
serialize-deserialize bytes p hb h =
    let (long, e, w, q) = deserialize_inv bytes p h in
    rw
      (
        struct_pack-struct_unpack header_format (take header_size bytes) (header_fields p)
            (All-take (λ b. b < 256) header_size bytes hb) e,
        q,
      )
      (ap ok (take-take-drop header_size p.payload_len bytes))

-- The bytes of a packet: a whole header, the magic number in the first four bytes, and as many
-- bytes behind the header as its bytes 22 and 23 say.
pub record IsPacket (bytes : Bytes) : Type 0 where
  pub whole_header : header_size ≤ length bytes
  pub magic_first : from_bytes (take 4 bytes) ≡ magic_number
  pub whole_payload : header_size + from_bytes (take 2 (drop 22 bytes)) ≤ length bytes

field_at :
    (bytes : Bytes) (fields : List ℕ) (i w : ℕ)
    → struct_unpack header_format (take header_size bytes) ≡ ok fields
    → get_elem? header_format i ≡ some w
    → offset header_format i + w ≤ header_size
    → get_elem? fields i ≡ some (from_bytes (take w (drop (offset header_format i) bytes)))
field_at bytes fields i w e g h =
    get_elem?-struct_unpack header_format i w (take header_size bytes) fields e g
    ∙ ap (λ (b : Bytes). some (from_bytes b))
        (take-drop-take w (offset header_format i) header_size bytes h)

from_fields_ok :
    (fields : List ℕ) (bytes : Bytes) (magic len : ℕ) (p : HyperAggPacket)
    → get_elem? fields 0 ≡ some magic
    → get_elem? fields 9 ≡ some len
    → from_fields fields bytes ≡ ok p
    → (magic ≡ magic_number) × (length (payload_of len bytes) ≡ len)
unfolding from_fields
from_fields_ok (a ∷ b ∷ c ∷ d ∷ e ∷ f ∷ g ∷ h ∷ i ∷ j ∷ k ∷ []) bytes magic len p m n q =
    ground arith
from_fields_ok _ bytes magic len p m n q = absurd (raise-ne-ok q)

from_fields_raise :
    (fields : List ℕ) (bytes : Bytes) (magic len : ℕ) (error : Error)
    → length fields ≡ 11
    → get_elem? fields 0 ≡ some magic
    → get_elem? fields 9 ≡ some len
    → from_fields fields bytes ≡ raise error
    → (error ≡ value_error) × ¬ ((magic ≡ magic_number) × (length (payload_of len bytes) ≡ len))
unfolding from_fields
from_fields_raise (a ∷ b ∷ c ∷ d ∷ e ∷ f ∷ g ∷ h ∷ i ∷ j ∷ k ∷ []) bytes magic len error l m n q =
    (ground arith, λ both. let (x, y) = both in ground (arith, x, y))
from_fields_raise _ bytes magic len error l m n q = absurd (omega arith)

length-payload_of :
    (len : ℕ) (bytes : Bytes)
    → header_size ≤ length bytes
    → (length (payload_of len bytes) ≡ len) ↔ (header_size + len ≤ length bytes)
length-payload_of len bytes h = (
  λ e. omega (arith, length-take len (drop header_size bytes), length-drop header_size bytes),
  λ e. omega (arith, length-take len (drop header_size bytes), length-drop header_size bytes),
)

deserialize_long :
    (bytes : Bytes)
    → header_size ≤ length bytes
    → (fields : List ℕ) × (length fields ≡ 11)
      × (get_elem? fields 0 ≡ some (from_bytes (take 4 bytes)))
      × (get_elem? fields 9 ≡ some (from_bytes (take 2 (drop 22 bytes))))
      × (deserialize bytes ≡ from_fields fields bytes)
unfolding deserialize
deserialize_long bytes h =
    let (fields, e, l) =
      struct_unpack_total header_format (take header_size bytes)
        (omega (arith, length-take header_size bytes)) in
    (
      fields,
      l,
      field_at bytes fields 0 4 e refl (omega arith),
      field_at bytes fields 9 2 e refl (omega arith),
      ground (arith, e),
    )

-- `deserialize` reads exactly the packets: on the bytes of a packet it returns one, and on any
-- other byte string it raises ValueError (never `struct.error`).
pub deserialize-IsPacket :
    (bytes : Bytes)
    → (IsPacket bytes × ((p : HyperAggPacket) × (deserialize bytes ≡ ok p)))
      ⊎ ((¬ IsPacket bytes) × (deserialize bytes ≡ raise value_error))
deserialize-IsPacket bytes = elim (dec_le header_size (length bytes)) [
  | no short ↦ inr (λ is. short is.whole_header, unfold deserialize in ground arith)
  | yes long ↦
      let (fields, l, m, n, e) = deserialize_long bytes long in
      let len : ℕ = from_bytes (take 2 (drop 22 bytes)) in
      elim (Result-cases (from_fields fields bytes)) [
        | inl (p, f) ↦
            let (a, b) = from_fields_ok fields bytes _ len p m n f in
            inl (
              record {
                whole_header = long;
                magic_first = a;
                whole_payload = (length-payload_of len bytes long).0 b;
              },
              (p, e ∙ f),
            )
        | inr (error, f) ↦
            let (a, b) = from_fields_raise fields bytes _ len error l m n f in
            inr (
              λ is. b (is.magic_first, (length-payload_of len bytes long).1 is.whole_payload),
              e ∙ f ∙ ap raise a,
            )
      ]
]
