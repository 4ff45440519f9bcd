-- ===== src/Tunnel/Frames.antt =====
-- What the client and the server do alike with each packet, in hyperagg/tunnel/client.py and
-- hyperagg/tunnel/server.py: a packet is built from what error correction returns and sealed, and
-- the payload of an arriving packet is opened.
pub mod Transit
mod Tests
use ratan_engine.Prelude.{
  ℕ, ◌+◌, Bool, Option, none, some, if◌then◌else◌, length, Result, ok, raise, ◌>>=◌,
}
use ratan_engine.Prelude.Bytes.{Bytes}
use ratan_engine.Crypto.{Aead, PacketCrypto, encrypt, decrypt, tag_size}
use ratan_engine.Fec.Engine.{FecMetadata}
use ratan_engine.Packet.{
  HyperAggPacket, create_data, create_fec_parity, header_bytes, is_fec_parity,
}

-- `fec_meta.get(..., 0)` of a packet outside every group is the 0 of its metadata.
unfoldable pub build_packet :
    (timestamp : ℕ) (payload : Bytes) (meta : FecMetadata) (path_id seq global_seq : ℕ)
    → HyperAggPacket
build_packet timestamp payload meta path_id seq global_seq =
    if meta.is_parity
    then create_fec_parity timestamp payload path_id seq global_seq meta.fec_group_id meta.fec_index
        meta.fec_group_size
    else create_data timestamp payload path_id seq global_seq meta.fec_group_id meta.fec_index
        meta.fec_group_size

module _ (aead : Aead) where
  -- `if self._crypto: ...` of `_send_packet` and `_send_return`
  unfoldable pub seal_packet : Option PacketCrypto → HyperAggPacket → Result HyperAggPacket
  seal_packet none p = ok p
  seal_packet (some c) p =
      let p' : HyperAggPacket = record p { payload_len = length p.payload + tag_size } in
      do
        aad ← header_bytes p'
        sealed ← encrypt aead c p.payload aad p.global_seq p.path_id
        ok (record p' { payload = sealed })

  unfoldable pub decrypt_payload : PacketCrypto → HyperAggPacket → Result Bytes
  decrypt_payload c p = do aad ← header_bytes p; decrypt aead c p.payload aad p.global_seq p.path_id

  -- The payload that is used, or `none` where decryption fails and the packet is dropped.
  unfoldable pub open_payload : Option PacketCrypto → HyperAggPacket → Option Bytes
  open_payload none p = some p.payload
  open_payload (some c) p =
      if is_fec_parity p
      then some p.payload
      else elim (decrypt_payload c p) [ ok text ↦ some text | raise e ↦ none ]
