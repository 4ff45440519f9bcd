-- ===== src/Tunnel/Client/Arrive.antt =====
-- `_on_udp_readable` and `_handle_keepalive_response` of hyperagg/tunnel/client.py: datagrams from
-- the server. Where error correction or the estimate of the delays raises, the callback ends with that
-- exception, and the state it leaves is not modelled.
use ratan_engine.Prelude.{
  ℕ, zero, suc, ◌+◌, ◌-◌, min, Bool, Option, none, some, List, [], ◌∷◌, ◌++◌, map, ltb, leb, ◌==◌,
  if◌then◌else◌, length, take, Result, ok, raise, ◌>>=◌, get_or,
}
use ratan_engine.Prelude.Bytes.{Bytes}
use ratan_engine.Prelude.Dict.{lookup, insert, add_elem}
use ratan_engine.Prelude.Floats.{FloatOps}
use ratan_engine.Packet.Struct.{struct_unpack}
use ratan_engine.Packet.{HyperAggPacket, deserialize, is_keepalive, is_control, is_fec_parity}
use ratan_engine.Crypto.{Aead}
use ratan_engine.Fec.Rs.{RsCodec}
use ratan_engine.Fec.Engine.{FecEngine, decode_packet}
use ratan_engine.Fec.Engine.Modes as Modes
use ratan_engine.Reorder as Reorder
use ratan_engine.Scheduler.Bandwidth.{record_ack}
use ratan_engine.Scheduler.Congestion.{AimdController, on_success, on_loss}
use ratan_engine.Scheduler.Delay.{OwdEstimator, record_timestamps, record_rtt_with_asymmetry}
use ratan_engine.Scheduler.Monitor.{record_rtt, record_loss}
use ratan_engine.Tunnel.Frames.{open_payload}
use ratan_engine.Tunnel.Client.{TunnelClient}

-- The packets written to the TUN device, and the client after the callback.
pub record Effect (Float Ident : Type 0) : Type 0 where
  pub written : List Bytes
  pub client : TunnelClient Float Ident

-- The round trip in microseconds of two readings of a 32-bit clock
unfoldable pub rtt_us : (t1 t4 : ℕ) → ℕ
rtt_us t1 t4 = if leb t1 t4 then t4 - t1 else 0xFFFFFFFF - t1 + t4

-- The packets that are missing before one, counted as five losses at most
unfoldable pub gap_losses : (global_seq next_seq : ℕ) → ℕ
gap_losses global_seq next_seq =
    if ltb (next_seq + 1) global_seq then min (global_seq - next_seq - 1) 5 else 0

-- The server's two timestamps, from a payload that has them
unfoldable pub server_times : Bytes → Option (ℕ × ℕ)
server_times payload = elim (struct_unpack (4 ∷ 4 ∷ []) (take 8 payload)) [
  | raise e ↦ none
  | ok fields ↦ some (get_or fields 0 0, get_or fields 1 0)
]

module _ {Float : Type 0} (fl : FloatOps Float) where
  -- The delays of an answer with the server's timestamps, or of its round trip alone
  unfoldable pub record_delays :
      (t1 t4 path_id : ℕ) (rtt_ms : Float)
      → Bytes
      → OwdEstimator Float
      → Result (OwdEstimator Float)
  record_delays t1 t4 path_id rtt_ms payload e =
      let micros = λ (t : ℕ). fl.div (fl.of_ℕ t) (fl.of_ℕ 1000000) in
      elim (server_times payload) [
        | some (t2, t3) ↦
            record_timestamps fl path_id (micros t1) (micros t2) (micros t3) (micros t4) e
        | none ↦
            let up_ratio = if path_id == 0 then fl.decimal 33 2 else fl.decimal 45 2 in
            ok (record_rtt_with_asymmetry fl path_id rtt_ms up_ratio e)
      ]

module _ {Float Ident : Type 0} where
  abbrev pub quiet : TunnelClient Float Ident → Effect Float Ident
  quiet c = record { written = []; client = c }

  abbrev pub to_tun : TunnelClient Float Ident → List Bytes → List Bytes
  to_tun c payloads = if c.tun_open then payloads else []

  -- A method of the congestion controller of a path, if it has one
  abbrev pub with_controller :
      ℕ
      → (AimdController Float → AimdController Float)
      → TunnelClient Float Ident
      → TunnelClient Float Ident
  with_controller path_id f c = elim (lookup path_id c.congestion) [
    | none ↦ c
    | some a ↦ record c { congestion = insert path_id (f a) c.congestion }
  ]

  -- `if pkt.fec_group_size > 0: ...`
  unfoldable pub decode_payload :
      RsCodec
      → Float
      → HyperAggPacket
      → Bytes
      → TunnelClient Float Ident
      → Result (List (ℕ × Bytes) × FecEngine Float)
  decode_payload codec now pkt payload c =
      if ltb 0 pkt.fec_group_size
      then decode_packet codec now pkt.fec_group_id pkt.fec_index pkt.fec_group_size
          (is_fec_parity pkt) payload c.fec
      else ok ([], c.fec)

  -- What was recovered is written at once, and a data packet is put in order.
  unfoldable pub deliver_payload :
      Float
      → HyperAggPacket
      → Bytes
      → List (ℕ × Bytes)
      → FecEngine Float
      → TunnelClient Float Ident
      → Effect Float Ident
  deliver_payload now pkt payload recovered fec c =
      let rescued = to_tun c (map (λ (r : ℕ × Bytes). r.1) recovered) in
      let c' : TunnelClient Float Ident = record c {
        fec = fec;
        fec_recoveries = c.fec_recoveries + length recovered;
      } in
      let inserted = Reorder.insert now pkt.global_seq payload c.reorder in
      if is_fec_parity pkt then record { written = rescued; client = c' } else record {
        written = rescued ++ to_tun c inserted.0;
        client = record c' {
          reorder = inserted.1;
          packets_received = c.packets_received + length inserted.0;
        };
      }

  -- From the decryption on; without a payload it has failed.
  unfoldable pub receive_opened :
      RsCodec
      → Float
      → HyperAggPacket
      → Option Bytes
      → TunnelClient Float Ident
      → Result (Effect Float Ident)
  receive_opened codec now pkt none c = ok (quiet c)
  receive_opened codec now pkt (some payload) c = do
    decoded ← decode_payload codec now pkt payload c
    ok (deliver_payload now pkt payload decoded.0 decoded.1 c)

module _ {Float Ident : Type 0} (fl : FloatOps Float) where
  -- A loss for error correction and for the path's congestion controller
  unfoldable pub note_lost : ℕ → TunnelClient Float Ident → TunnelClient Float Ident
  note_lost path_id c =
      with_controller path_id (on_loss fl) (record c { fec = Modes.record_lost c.fec })

  unfoldable pub note_losses : ℕ → ℕ → TunnelClient Float Ident → TunnelClient Float Ident
  note_losses zero path_id c = c
  note_losses (suc n) path_id c = note_losses n path_id (note_lost path_id c)

  -- The packet's arrival, as the estimators see it
  unfoldable pub note_arrival :
      Float → (path_id size : ℕ) → TunnelClient Float Ident → TunnelClient Float Ident
  note_arrival now path_id size c = with_controller path_id (on_success fl now) (record c {
    bw_estimator = record_ack fl now path_id size c.bw_estimator;
    fec = Modes.record_received c.fec;
  })

  -- From the test for a duplicate on
  unfoldable pub receive_known :
      Aead
      → RsCodec
      → Float
      → ℕ
      → HyperAggPacket
      → TunnelClient Float Ident
      → Result (Effect Float Ident)
  receive_known aead codec now path_id pkt c =
      if Reorder.is_duplicate pkt.global_seq c.reorder
      then ok (quiet (record c { duplicates_dropped = c.duplicates_dropped + 1 }))
      else let c' = note_losses (gap_losses pkt.global_seq c.reorder.next_seq) path_id c in
        receive_opened codec now pkt (open_payload aead c'.crypto pkt) c'

  -- `_handle_keepalive_response`; `t4` is the reading of the microsecond clock.
  unfoldable pub handle_keepalive_response :
      Float → ℕ → ℕ → HyperAggPacket → TunnelClient Float Ident → Result (TunnelClient Float Ident)
  handle_keepalive_response now t4 path_id pkt c =
      let rtt_ms = fl.div (fl.of_ℕ (rtt_us pkt.timestamp_us t4)) (fl.of_ℕ 1000) in
      if fl.lt rtt_ms (fl.of_ℕ 10000)
      then (do
        owd ← record_delays fl pkt.timestamp_us t4 path_id rtt_ms pkt.payload c.owd
        ok (record c { monitor = record_rtt fl now path_id rtt_ms c.monitor; owd = owd }))
      else ok (record c { monitor = record_loss fl now path_id c.monitor })

  -- `_on_udp_readable` for a datagram that the socket of the path returned. `is_ack` says whether a
  -- payload is JSON of the type "handshake_ack".
  unfoldable pub on_udp_readable :
      Aead
      → RsCodec
      → (is_ack : Bytes → Bool) (now : Float) (t4 path_id : ℕ) → Bytes
      → TunnelClient Float Ident
      → Result (Effect Float Ident)
  on_udp_readable aead codec is_ack now t4 path_id bytes c = elim (deserialize bytes) [
    | raise e ↦ ok (quiet c)
    | ok pkt ↦
        if is_keepalive pkt
        then (handle_keepalive_response now t4 path_id pkt c >>= λ c'. ok (quiet c'))
        else if is_control pkt
        then ok (
            quiet (
              if is_ack pkt.payload
              then record c { connected_paths = add_elem path_id c.connected_paths }
              else c))
        else receive_known aead codec now path_id pkt (note_arrival now path_id (length bytes) c)
  ]
