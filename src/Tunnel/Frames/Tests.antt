-- ===== src/Tunnel/Frames/Tests.antt =====
-- A parity packet on its way at a concrete input.
use ratan_engine.Prelude.{
  ◌+◌, ◌≡◌, ◌≢◌, ◌⊎◌, some, false, true, [], ◌∷◌, arith, length, replicate, ok,
}
use ratan_engine.Prelude.Bytes.{Bytes}
use ratan_engine.Crypto.{PacketCrypto, tag_size}
use ratan_engine.Crypto.Marking.{marking, marking-IsAead}
use ratan_engine.Fec.Engine.{FecMetadata}
use ratan_engine.Packet.{HyperAggPacket, serialize, deserialize}
use ratan_engine.Packet.Create.{InRange}
use ratan_engine.Tunnel.Frames.{build_packet, seal_packet, open_payload}
use ratan_engine.Tunnel.Frames.Transit.{open_payload-seal_packet}

abbrev crypto : PacketCrypto
crypto = record { key = replicate 32 1 }

abbrev parity : FecMetadata
parity = record {
  fec_group_id = 3;
  fec_index = 4;
  fec_group_size = 5;
  is_parity = true;
  replicated = false;
}

abbrev text : Bytes
text = 65 ∷ 66 ∷ []

abbrev in_range : InRange 1000 1 9 44 3 4 5
in_range = omega arith

open_payload-seal_packet_example :
    (q : HyperAggPacket) × (wire : Bytes) × (seal_packet marking
        (some crypto)
        (build_packet 1000 text parity 1 9 44)
      ≡ ok q)
    × (serialize q ≡ ok wire)
    × (deserialize wire ≡ ok q)
    × (((parity.is_parity ≡ false) × (open_payload marking (some crypto) q ≡ some text))
        ⊎ ((parity.is_parity ≡ true)
            × (open_payload marking (some crypto) q ≡ some q.payload)
            × (length q.payload ≡ length text + tag_size)
            × (open_payload marking (some crypto) q ≢ some text)))
open_payload-seal_packet_example =
    open_payload-seal_packet marking crypto marking-IsAead 1000 text parity 1 9 44 in_range
      (omega arith)
