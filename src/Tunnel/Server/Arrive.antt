-- ===== src/Tunnel/Server/Arrive.antt =====
-- `_on_udp_readable` of hyperagg/tunnel/server.py with `_handle_keepalive` and `_handle_control`: what
-- the server does with a datagram.
use ratan_engine.Prelude.{
  ℕ, ◌+◌, Bool, Option, none, some, List, [], ◌∷◌, ◌++◌, map, ltb, if◌then◌else◌, length, Result,
  ok, raise, ◌>>=◌,
}
use Prim.Native.Nat.{bit_and}
use ratan_engine.Prelude.Bytes.{Bytes}
use ratan_engine.Packet.Struct.{struct_pack}
use ratan_engine.Packet.{
  HyperAggPacket, deserialize, serialize, is_keepalive, is_control, is_fec_parity, create_keepalive,
  create_control,
}
use ratan_engine.Crypto.{Aead}
use ratan_engine.Fec.Rs.{RsCodec}
use ratan_engine.Fec.Mode.{Mode}
use ratan_engine.Fec.Engine.{FecEngine, decode_packet}
use ratan_engine.Reorder.{AdaptiveReorderBuffer, is_duplicate, check_timeouts}
use ratan_engine.Reorder as Reorder
use ratan_engine.Tunnel.Frames.{open_payload}
use ratan_engine.Tunnel.Server.{
  TunnelServer, Effect, Addr, quiet, session_of, put_session, set_path_addr, touch_session, to_tun,
}

-- The echo of a keepalive: the sender's timestamp, and the server's two in the payload.
unfoldable pub echo : (stamp t2 t3 : ℕ) → HyperAggPacket → Result Bytes
echo stamp t2 t3 pkt = do
  times ← struct_pack (4 ∷ 4 ∷ []) (bit_and t2 0xFFFFFFFF ∷ bit_and t3 0xFFFFFFFF ∷ [])
  let response = create_keepalive stamp pkt.path_id pkt.seq
  serialize (record response {
    timestamp_us = pkt.timestamp_us;
    payload = times;
    payload_len = length times;
  })

module _ {Float : Type 0} where
  -- `_handle_keepalive`: an OSError of `sendto` is passed over.
  unfoldable pub handle_keepalive :
      (now : Float) (stamp t2 t3 : ℕ)
      → HyperAggPacket
      → Addr
      → TunnelServer Float
      → Result (Effect Float)
  handle_keepalive now stamp t2 t3 pkt addr s = do
    wire ← echo stamp t2 t3 pkt
    ok (record {
      written = [];
      sent = (wire, addr) ∷ [];
      server = set_path_addr now addr pkt.path_id s;
    })

  -- `_handle_control`. `is_handshake` says whether the payload is JSON of the type "handshake", and
  -- `ack` is the answer's JSON; every exception is caught.
  module _ (is_handshake : Bytes → Bool) (ack : (client : ℕ) → Mode → (path_id : ℕ) → Bytes) where
    unfoldable pub handle_control :
        Float → ℕ → HyperAggPacket → Addr → TunnelServer Float → Effect Float
    handle_control now stamp pkt addr s =
        let s' = set_path_addr now addr pkt.path_id s in
        let c = session_of now addr.ip s' in
        let s'' = put_session addr.ip (record c { packets_received = c.packets_received + 1 }) s' in
        let answer =
          serialize
            (create_control stamp (ack addr.ip s.fec.current_mode pkt.path_id) pkt.path_id 0) in
        if is_handshake pkt.payload
        then elim answer [
          | ok wire ↦ record { written = []; sent = (wire, addr) ∷ []; server = s'' }
          | raise e ↦ quiet s''
        ]
        else quiet s

  -- `if pkt.fec_group_size > 0: ...`
  unfoldable pub decode_payload :
      RsCodec
      → Float
      → HyperAggPacket
      → Bytes
      → TunnelServer Float
      → Result (List (ℕ × Bytes) × FecEngine Float)
  decode_payload codec now pkt payload s =
      if ltb 0 pkt.fec_group_size
      then decode_packet codec now pkt.fec_group_id pkt.fec_index pkt.fec_group_size
          (is_fec_parity pkt) payload s.fec
      else ok ([], s.fec)

  -- What was recovered is written at once, and a data packet is put in order.
  unfoldable pub deliver_payload :
      Float
      → HyperAggPacket
      → Bytes
      → List (ℕ × Bytes)
      → FecEngine Float
      → TunnelServer Float
      → Effect Float
  deliver_payload now pkt payload recovered fec s =
      let rescued = to_tun s (map (λ (r : ℕ × Bytes). r.1) recovered) in
      let s' : TunnelServer Float = record s {
        fec = fec;
        fec_recoveries = s.fec_recoveries + length recovered;
      } in
      let inserted = Reorder.insert now pkt.global_seq payload s.reorder in
      if is_fec_parity pkt then record { written = rescued; sent = []; server = s' } else record {
        written = rescued ++ to_tun s inserted.0;
        sent = [];
        server = record s' {
          reorder = inserted.1;
          packets_received = s.packets_received + length inserted.0;
        };
      }

  -- The end of `_on_udp_readable`
  unfoldable pub receive_payload :
      RsCodec → Float → HyperAggPacket → Bytes → TunnelServer Float → Result (Effect Float)
  receive_payload codec now pkt payload s = do
    decoded ← decode_payload codec now pkt payload s
    ok (deliver_payload now pkt payload decoded.0 decoded.1 s)

  -- From the decryption on; without a payload it has failed.
  unfoldable pub receive_opened :
      RsCodec → Float → HyperAggPacket → Option Bytes → TunnelServer Float → Result (Effect Float)
  receive_opened codec now pkt none s = ok (quiet s)
  receive_opened codec now pkt (some payload) s = receive_payload codec now pkt payload s

  -- From the test for a duplicate on
  unfoldable pub receive_known :
      Aead → RsCodec → Float → HyperAggPacket → TunnelServer Float → Result (Effect Float)
  receive_known aead codec now pkt s =
      if is_duplicate pkt.global_seq s.reorder
      then ok (quiet (record s { duplicates_dropped = s.duplicates_dropped + 1 }))
      else receive_opened codec now pkt (open_payload aead s.crypto pkt) s

  -- The part of `_on_udp_readable` for data and parity packets
  unfoldable pub receive_data :
      Aead → RsCodec → Float → HyperAggPacket → Addr → TunnelServer Float → Result (Effect Float)
  receive_data aead codec now pkt addr s =
      receive_known aead codec now pkt (touch_session now addr pkt.path_id s)

  -- `_on_udp_readable` for a datagram that the socket returned; `stamp`, `t2` and `t3` are the
  -- readings of the microsecond clock.
  unfoldable pub on_udp_readable :
      Aead
      → RsCodec
      → (is_handshake : Bytes → Bool) (ack : (client : ℕ) → Mode → (path_id : ℕ) → Bytes)
        (now : Float) (stamp t2 t3 : ℕ)
      → Bytes
      → Addr
      → TunnelServer Float
      → Result (Effect Float)
  on_udp_readable aead codec is_handshake ack now stamp t2 t3 bytes addr s =
      elim (deserialize bytes) [
        | raise e ↦ ok (quiet s)
        | ok pkt ↦
            if is_keepalive pkt
            then handle_keepalive now stamp t2 t3 pkt addr s
            else if is_control pkt
            then ok (handle_control is_handshake ack now stamp pkt addr s)
            else receive_data aead codec now pkt addr s
      ]
