-- ===== src/Tunnel/Server/Tests.antt =====
-- Runs of the server at concrete inputs.
use ratan_engine.Prelude.{
  ℕ, ◌≡◌, refl, inl, inr, none, some, true, false, List, [], ◌∷◌, arith, replicate, All,
  if◌then◌else◌, ok, Option,
}
use ratan_engine.Prelude.Bytes.{Bytes, be_bytes, le_bytes, le_value, from_bytes}
use ratan_engine.Prelude.Thousandths.{thousandths}
use ratan_engine.Crypto.{PacketCrypto, encrypt, derive_nonce}
use ratan_engine.Packet.Struct.{struct_pack, struct_unpack}
use ratan_engine.Crypto.Marking.{marking}
use ratan_engine.Fec.Engine.{FecMetadata, auto, new_engine}
use ratan_engine.Fec.Rs.{RsCodec}
use ratan_engine.Packet.{
  HyperAggPacket, header_bytes, deserialize, from_fields, create_keepalive, is_keepalive, serialize,
  is_fec_parity, create_data, create_fec_parity,
}
use ratan_engine.Reorder.{
  new_buffer, insert, is_duplicate, mark_seen, at_least, store, deliver, deliver_in_order,
  deliver_loop, count_delivered,
}
use ratan_engine.Prelude.Dict
use ratan_engine.Prelude.Dict.{Dict, lookup, elem, add_elem}
use ratan_engine.Reorder.Valid.{new_buffer-IsValid}
use ratan_engine.Reorder.Gap.{AnyPayload}
use ratan_engine.Tunnel.Frames.{build_packet, seal_packet, open_payload}
use ratan_engine.Tunnel.Server.{
  TunnelServer, Effect, Addr, knows, set_path_addr, touch_session, get_or_create_session,
  session_of,
}
use ratan_engine.Tunnel.Server.Arrive.{
  echo, handle_keepalive, on_udp_readable, receive_data, receive_known, receive_opened,
  receive_payload, decode_payload, deliver_payload,
}
use ratan_engine.Tunnel.Server.Answer.{return_packet, send_results, send_to_all}
use ratan_engine.Tunnel.Server.Sessions.{path_addr, is_slot}
use ratan_engine.Tunnel.Server.Addresses.{moved_path, path_addr_lem}
use ratan_engine.Tunnel.Server.Receive.{Arrival, Misses, receive_all, receive_all-Stalled}
use ratan_engine.Tunnel.Server.Return.{
  Returned, SealedUnder, send_results-Returned, return_nonce_shared,
}

abbrev crypto : PacketCrypto
crypto = record { key = replicate 32 1 }

abbrev server : Option PacketCrypto → TunnelServer ℕ
server c = record {
  crypto = c;
  fec = new_engine thousandths auto 4 3 1 500;
  reorder = new_buffer 1024 10 500 100;
  sessions = [];
  known_addrs = [];
  tun_open = true;
  return_global_seq = 5;
  return_path_seq = 5;
  packets_received = 0;
  packets_sent = 0;
  fec_recoveries = 0;
  duplicates_dropped = 0;
}

abbrev client : Addr
client = record { ip = 9; port = 4000 }

abbrev codec : RsCodec
codec = record {
  encode_column = λ nsym column. ok column;
  decode_column = λ nsym received erased. ok received;
}

-- The keepalive of path 1 with the number 90, and its echo with the times 5 and 6
abbrev keepalive : Bytes
keepalive =
    72 ∷ 65 ∷ 71 ∷ 71 ∷ 1 ∷ 4 ∷ 0 ∷ 1 ∷ 0 ∷ 0 ∷ 0 ∷ 90 ∷ 0 ∷ 0 ∷ 0 ∷ 0 ∷ 0 ∷ 0 ∷ 0 ∷ 0 ∷ 0 ∷ 0 ∷ 0
    ∷ 0 ∷ 0 ∷ 0 ∷ 0 ∷ 77 ∷ []

abbrev echoed : Bytes
echoed =
    72 ∷ 65 ∷ 71 ∷ 71 ∷ 1 ∷ 4 ∷ 0 ∷ 1 ∷ 0 ∷ 0 ∷ 0 ∷ 90 ∷ 0 ∷ 0 ∷ 0 ∷ 0 ∷ 0 ∷ 0 ∷ 0 ∷ 0 ∷ 0 ∷ 0 ∷ 0
    ∷ 8 ∷ 0 ∷ 0 ∷ 0 ∷ 77 ∷ 0 ∷ 0 ∷ 0 ∷ 5 ∷ 0 ∷ 0 ∷ 0 ∷ 6 ∷ []

abbrev keepalive_packet : HyperAggPacket
keepalive_packet = create_keepalive 77 1 90

abbrev answered : Effect ℕ
answered = record {
  written = [];
  sent = (echoed, client) ∷ [];
  server = set_path_addr 3 client 1 (server none);
}

keepalive_parsed : deserialize keepalive ≡ ok keepalive_packet
unfolding deserialize struct_unpack from_fields from_bytes le_value create_keepalive
keepalive_parsed = refl

keepalive-answered :
    on_udp_readable marking codec (λ b. true) (λ c m p. []) 3 88 5 6 keepalive client (server none)
    ≡ ok answered
unfolding on_udp_readable handle_keepalive echo deserialize struct_unpack from_fields from_bytes
    le_value create_keepalive serialize header_bytes struct_pack be_bytes le_bytes is_keepalive
keepalive-answered = refl

path_addr_lem_example :
    path_addr 9 1 answered.server
    ≡ (elim (moved_path {Float = ℕ}
        (λ b. true)
        (λ c m p. [])
        keepalive_packet
        client
        (server none)) [
          | none ↦ path_addr 9 1 (server none)
          | some path_id ↦
              if is_slot 9 path_id 9 1 then some client else path_addr 9 1 (server none)
        ])
path_addr_lem_example =
    path_addr_lem (λ b. true) (λ c m p. []) marking codec 3 88 5 6 9 1 keepalive keepalive_packet
      client (server none) answered keepalive_parsed keepalive-answered

abbrev plain : FecMetadata
plain = record {
  fec_group_id = 0;
  fec_index = 0;
  fec_group_size = 0;
  is_parity = false;
  replicated = false;
}

-- Parity takes the number 0, so the data packets 1 and 2 wait.
abbrev arrivals : List (Arrival ℕ)
arrivals =
    record {
      now = 1;
      addr = client;
      packet = build_packet 10 (65 ∷ []) (record plain { is_parity = true }) 1 0 0;
    }
    ∷ record { now = 2; addr = client; packet = build_packet 20 (66 ∷ []) plain 1 1 1 }
    ∷ record { now = 3; addr = client; packet = build_packet 30 (67 ∷ []) plain 1 2 2 }
    ∷ []

abbrev waiting : TunnelServer ℕ
waiting = record (server none) {
  reorder = record (new_buffer 1024 10 500 100) {
    buffer = (1, 66 ∷ []) ∷ (2, 67 ∷ []) ∷ [];
    timestamps = (1, 2) ∷ (2, 3) ∷ [];
    seen = 1 ∷ 2 ∷ [];
  };
  sessions =
      (9, record { path_addrs = (1, client) ∷ []; last_seen = 3; packets_received = 3 }) ∷ [];
  known_addrs = client ∷ [];
}

run : receive_all marking codec arrivals (server none) ≡ ok ([], waiting)
unfolding receive_all receive_data touch_session get_or_create_session session_of knows
    receive_known receive_opened receive_payload decode_payload deliver_payload open_payload
    is_fec_parity build_packet create_data create_fec_parity insert is_duplicate mark_seen at_least
    store deliver deliver_in_order deliver_loop count_delivered lookup elem add_elem Dict.insert
run = refl

arrivals_miss : All (Misses 0) arrivals
unfolding is_fec_parity build_packet create_fec_parity create_data
arrivals_miss = (inl refl, (inr (omega arith), (inr (omega arith), tt)))

receive_all-Stalled_example :
    (waiting.packets_received ≡ (server none).packets_received)
    × (waiting.reorder.next_seq ≡ (server none).reorder.next_seq)
receive_all-Stalled_example =
    receive_all-Stalled marking codec arrivals (server none) waiting []
      (new_buffer-IsValid AnyPayload 1024 10 500 100) arrivals_miss run

-- A result of error correction outside every group, sealed on path 0
abbrev sent_packet : HyperAggPacket
sent_packet = record {
  magic = 0x48414747;
  version = 1;
  flags = 0;
  path_id = 0;
  seq = 5;
  global_seq = 5;
  fec_group_id = 0;
  fec_index = 0;
  fec_group_size = 0;
  payload_len = 17;
  timestamp_us = 77;
  payload = 65 ∷ replicate 16 7;
}

sealed_return : return_packet marking 77 (65 ∷ [], plain) (server (some crypto)) ≡ ok sent_packet
unfolding return_packet seal_packet build_packet create_data header_bytes struct_pack be_bytes
    le_bytes encrypt derive_nonce
sealed_return = refl

sealed_client :
    seal_packet marking (some crypto) (build_packet 77 (66 ∷ []) plain 0 5 5)
    ≡ ok (record sent_packet { payload = 66 ∷ replicate 16 7 })
unfolding seal_packet build_packet create_data header_bytes struct_pack be_bytes le_bytes encrypt
    derive_nonce
sealed_client = refl

return_nonce_shared_example :
    (nonce : Bytes) × SealedUnder marking crypto nonce (65 ∷ []) sent_packet
    × SealedUnder marking crypto nonce
        (66 ∷ [])
        (record sent_packet { payload = 66 ∷ replicate 16 7 })
return_nonce_shared_example =
    return_nonce_shared marking crypto (server (some crypto)) 77 77 5 (65 ∷ []) (66 ∷ []) plain
      plain sent_packet (record sent_packet { payload = 66 ∷ replicate 16 7 }) refl sealed_return
      sealed_client

abbrev addrs : Dict Addr
addrs = (0, client) ∷ (1, record { ip = 9; port = 4001 }) ∷ []

abbrev wire : Bytes
wire =
    72 ∷ 65 ∷ 71 ∷ 71 ∷ 1 ∷ 0 ∷ 0 ∷ 0 ∷ 0 ∷ 0 ∷ 0 ∷ 5 ∷ 0 ∷ 0 ∷ 0 ∷ 5 ∷ 0 ∷ 0 ∷ 0 ∷ 0 ∷ 0 ∷ 0 ∷ 0
    ∷ 17 ∷ 0 ∷ 0 ∷ 0 ∷ 77 ∷ sent_packet.payload

-- The socket takes the datagram for the second address only.
abbrev returned : Effect ℕ
returned = record {
  written = [];
  sent = (wire, record { ip = 9; port = 4001 }) ∷ [];
  server = record (server (some crypto)) {
    packets_sent = 1;
    return_global_seq = 6;
    return_path_seq = 6;
  };
}

sent_once :
    send_results marking 77 addrs ((65 ∷ [], plain) ∷ []) (false ∷ true ∷ []) (server (some crypto))
    ≡ ok returned
unfolding send_results send_to_all serialize return_packet seal_packet build_packet create_data
    header_bytes struct_pack be_bytes le_bytes encrypt derive_nonce
sent_once = refl

send_results-Returned_example :
    Returned marking 77 addrs
      ((65 ∷ [], plain) ∷ [])
      (false ∷ true ∷ [])
      (server (some crypto))
      returned
send_results-Returned_example =
    send_results-Returned marking 77 addrs ((65 ∷ [], plain) ∷ []) (false ∷ true ∷ [])
      (server (some crypto)) returned sent_once
