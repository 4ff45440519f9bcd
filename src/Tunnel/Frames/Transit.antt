-- ===== src/Tunnel/Frames/Transit.antt =====
-- Packets on their way from one end of the tunnel to the other: built, sealed, serialized, read back
-- and opened.
use mathlib.Core.List.{append-nil}
use ratan_engine.Prelude.{
  ℕ, ◌+◌, ◌^◌, ◌<◌, ◌≡◌, refl, sym, ap, ◌∙◌, true, false, some, [], arith, length, ok, Bool-cases,
  inl, inr, some-injective, ◌≢◌, ◌⊎◌,
}
use ratan_engine.Prelude.Bytes.{Bytes}
use ratan_engine.Crypto.{Aead, IsAead, PacketCrypto, tag_size}
use ratan_engine.Crypto.Nonce.{decrypt-encrypt, encrypt_total}
use ratan_engine.Fec.Engine.{FecMetadata}
use ratan_engine.Packet.Struct.{struct_pack-Fits}
use ratan_engine.Packet.{
  HyperAggPacket, create_data, create_fec_parity, header_bytes, header_format, header_fields,
  is_fec_parity, serialize, deserialize, magic_number,
}
use ratan_engine.Packet.Wire.{FitsHeader, deserialize-serialize, serialize-FitsHeader}
use ratan_engine.Packet.Create.{InRange}
use ratan_engine.Tunnel.Frames.{build_packet, seal_packet, decrypt_payload, open_payload}

-- The header of the sealed packet, whose length field counts the tag.
abbrev with_tag : HyperAggPacket → HyperAggPacket
with_tag p = record p { payload_len = length p.payload + tag_size }

-- What sealing does to a packet, and what the other end makes of the bytes.
pub record Sealed (aead : Aead) (c : PacketCrypto) (p q : HyperAggPacket) (wire : Bytes)
    : Type 0 where
  pub sealed : seal_packet aead (some c) p ≡ ok q
  pub sent : serialize q ≡ ok wire
  pub read_back : deserialize wire ≡ ok q
  pub decrypted : decrypt_payload aead c q ≡ ok p.payload
  pub longer : length q.payload ≡ length p.payload + tag_size
  pub flags_same : q.flags ≡ p.flags

open_payload_plain :
    (aead : Aead) (c : PacketCrypto) (q : HyperAggPacket) (text : Bytes)
    → is_fec_parity q ≡ false
    → decrypt_payload aead c q ≡ ok text
    → open_payload aead (some c) q ≡ some text
unfolding open_payload
open_payload_plain aead c q text plain decrypted = rw (plain, decrypted)

open_payload_parity :
    (aead : Aead) (c : PacketCrypto) (q : HyperAggPacket)
    → is_fec_parity q ≡ true
    → open_payload aead (some c) q ≡ some q.payload
unfolding open_payload
open_payload_parity aead c q parity = rw parity

module _ (aead : Aead) (c : PacketCrypto) (law : IsAead aead) where
  seal_packet-Sealed :
      (p : HyperAggPacket)
      → p.magic ≡ magic_number
      → FitsHeader (with_tag p)
      → p.path_id < 2 ^ 16
      → (q : HyperAggPacket) × (wire : Bytes) × Sealed aead c p q wire
  unfolding seal_packet header_bytes decrypt_payload
  seal_packet-Sealed p magic fits path =
      let (aad, e, l) = struct_pack-Fits header_format (header_fields (with_tag p)) fits in
      let (text, f) = encrypt_total aead c p.payload aad p.global_seq p.path_id path in
      let (back, size) = decrypt-encrypt aead c p.payload aad text p.global_seq p.path_id law f in
      let q : HyperAggPacket = record p {
        payload_len = length p.payload + tag_size;
        payload = text;
      } in
      let (wire, s) = serialize-FitsHeader q fits in
      (
        q,
        wire,
        record {
          sealed = rw (e, f);
          sent = s;
          read_back =
              ap deserialize (sym (append-nil wire))
              ∙ deserialize-serialize q wire [] (record { magic_ok = magic; len_ok = sym size }) s;
          decrypted = rw e back;
          longer = size;
          flags_same = refl;
        },
      )

  module _ (timestamp : ℕ) (payload : Bytes) (meta : FecMetadata) (path_id seq global_seq : ℕ)
      (range : InRange timestamp path_id seq global_seq meta.fec_group_id meta.fec_index
        meta.fec_group_size) where
    build_packet-Sealed :
        length payload + tag_size < 2 ^ 16
        → let p = build_packet timestamp payload meta path_id seq global_seq in
          (q : HyperAggPacket) × (wire : Bytes) × Sealed aead c p q wire
          × (p.payload ≡ payload)
          × (is_fec_parity q ≡ meta.is_parity)
    unfolding build_packet create_data create_fec_parity is_fec_parity
    build_packet-Sealed small = elim (Bool-cases meta.is_parity) [
      | inl parity ↦
          let p : HyperAggPacket =
            create_fec_parity timestamp payload path_id seq global_seq meta.fec_group_id
              meta.fec_index meta.fec_group_size in
          let (q, wire, s) = seal_packet-Sealed p refl (omega arith) range.path_in in
          rw parity (q, wire, s, refl, rw s.flags_same refl)
      | inr plain ↦
          let p : HyperAggPacket =
            create_data timestamp payload path_id seq global_seq meta.fec_group_id meta.fec_index
              meta.fec_group_size in
          let (q, wire, s) = seal_packet-Sealed p refl (omega arith) range.path_in in
          rw plain (q, wire, s, refl, rw s.flags_same refl)
    ]

    -- With encryption on, a packet with fields in range and room for the tag is sealed, serialized
    -- and read back as it was sent. The receiver opens a data packet to the payload that was sent,
    -- but takes the sealed payload of a parity packet as it is: 16 bytes longer than the parity that
    -- error correction made, and so never that parity.
    pub open_payload-seal_packet :
        length payload + tag_size < 2 ^ 16
        → (q : HyperAggPacket) × (wire : Bytes) × (seal_packet aead
              (some c)
              (build_packet timestamp payload meta path_id seq global_seq)
            ≡ ok q)
          × (serialize q ≡ ok wire)
          × (deserialize wire ≡ ok q)
          × (((meta.is_parity ≡ false) × (open_payload aead (some c) q ≡ some payload))
              ⊎ ((meta.is_parity ≡ true)
                  × (open_payload aead (some c) q ≡ some q.payload)
                  × (length q.payload ≡ length payload + tag_size)
                  × (open_payload aead (some c) q ≢ some payload)))
    open_payload-seal_packet small =
        let (q, wire, s, same, kind) = build_packet-Sealed small in
        let size : length q.payload ≡ length payload + tag_size =
          s.longer ∙ ap (λ (b : Bytes). length b + tag_size) same in
        (
          q,
          wire,
          s.sealed,
          s.sent,
          s.read_back,
          elim (Bool-cases meta.is_parity) [
            | inr plain ↦ inl (
              plain,
              open_payload_plain aead c q payload (kind ∙ plain) (s.decrypted ∙ ap ok same),
            )
            | inl parity ↦
                let taken : open_payload aead (some c) q ≡ some q.payload =
                  open_payload_parity aead c q (kind ∙ parity) in
                inr (
                  parity,
                  taken,
                  size,
                  λ h. absurd (omega (arith, ap length (some-injective (sym taken ∙ h)), size)),
                )
          ],
        )
