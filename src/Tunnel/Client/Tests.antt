-- ===== src/Tunnel/Client/Tests.antt =====
-- Runs of the client at concrete inputs.
use ratan_engine.Prelude.{
  ℕ, ◌+◌, ◌≡◌, refl, none, true, false, List, [], ◌∷◌, ok, raise, value_error,
}
use ratan_engine.Prelude.Bytes.{Bytes, be_bytes, le_bytes}
use ratan_engine.Prelude.Dict
use ratan_engine.Prelude.Dict.{Dict, lookup, elem}
use ratan_engine.Prelude.Thousandths.{thousandths, thousandths_math}
use ratan_engine.Crypto.Marking.{marking}
use ratan_engine.Fec.Engine.{FecMetadata, Tier}
use ratan_engine.Pacer.{refill, can_send, consume}
use ratan_engine.Packet.{serialize, deserialize, create_data, create_keepalive, header_bytes}
use ratan_engine.Packet.Struct.{struct_pack}
use ratan_engine.Scheduler.Congestion.{reset_window}
use ratan_engine.Scheduler.Models.{PathAssignment}
use ratan_engine.Scheduler.Monitor.{record_loss, get_all_path_states, all_states}
use ratan_engine.Scheduler.PathScheduler.{
  schedule, schedule_now, update_predictions, rebuild_schedule_table, alive_of, predict_all,
  best_path_of, schedule_as, schedule_round_robin, round_robin_mode,
}
use ratan_engine.Tunnel.Frames.{build_packet, seal_packet}
use ratan_engine.Tunnel.Client.{TunnelClient, Readings}
use ratan_engine.Tunnel.Client.Sample.{monitor, client}
use ratan_engine.Tunnel.Client.Counters.{Numbered, send_results-Numbered}
use ratan_engine.Tunnel.Client.Failover.{Renumbers, send_on_path-Renumbers}
use ratan_engine.Tunnel.Client.Probes.{
  accepting, refusing, record_losses, first_of, keepalive_round_lem, handshake_with_retry-raises,
}
use ratan_engine.Tunnel.Client.Rounds.{keepalive_round, handshake_with_retry}
use ratan_engine.Tunnel.Client.Send.{
  Sending, next_outcome, find_alternative, choose_path, note_sent, note_statistics, transmit,
  send_wire, over_budget, send_on_path, send_assignment, send_assignments, save_session,
  reset_tiers, finish_result, send_results,
}

abbrev readings : Readings ℕ
readings = record { now = 1000; stamp = 77; wall = 5; written = true; saved_at = 1000 }

abbrev plain : FecMetadata
plain = record {
  fec_group_id = 0;
  fec_index = 0;
  fec_group_size = 0;
  is_parity = false;
  replicated = false;
}

abbrev both : List PathAssignment
both =
    record { path_id = 0; send = true; is_fec_parity = false }
    ∷ record { path_id = 1; send = true; is_fec_parity = false }
    ∷ []

-- The packet for path 0 with its number 40
abbrev wire : Bytes
wire =
    72 ∷ 65 ∷ 71 ∷ 71 ∷ 1 ∷ 0 ∷ 0 ∷ 0 ∷ 0 ∷ 0 ∷ 0 ∷ 40 ∷ 0 ∷ 0 ∷ 0 ∷ 7 ∷ 0 ∷ 0 ∷ 0 ∷ 0 ∷ 0 ∷ 0 ∷ 0
    ∷ 1 ∷ 0 ∷ 0 ∷ 0 ∷ 77 ∷ 65 ∷ []

abbrev sending : Sending ℕ ℕ
unfolding note_statistics note_sent
sending = record {
  sent = (1, wire) ∷ [];
  outcomes = [];
  client =
      note_statistics thousandths 1000 Tier.realtime 1 29 1 false false
        (note_sent thousandths 1000 1 40 29 client);
}

failover :
    send_on_path thousandths marking readings Tier.realtime (65 ∷ [], plain) both 0 [] client
    ≡ ok sending
unfolding send_on_path over_budget send_wire choose_path find_alternative transmit next_outcome
    can_send refill lookup elem build_packet seal_packet create_data serialize header_bytes
    struct_pack be_bytes le_bytes note_statistics note_sent
failover = refl

send_on_path-Renumbers_example : Renumbers ((0, 40) ∷ (1, 90) ∷ []) 40 sending
unfolding lookup
send_on_path-Renumbers_example =
    send_on_path-Renumbers thousandths marking readings Tier.realtime (65 ∷ []) plain both 0 []
      client sending failover

-- Path 1 now has the number after that of path 0.
failover_numbers : sending.client.path_seqs ≡ (0, 40) ∷ (1, 41) ∷ []
unfolding note_statistics note_sent Dict.insert
failover_numbers = refl

-- The keepalive of path 1
abbrev keepalive : Bytes
keepalive =
    72 ∷ 65 ∷ 71 ∷ 71 ∷ 1 ∷ 4 ∷ 0 ∷ 1 ∷ 0 ∷ 0 ∷ 0 ∷ 90 ∷ 0 ∷ 0 ∷ 0 ∷ 0 ∷ 0 ∷ 0 ∷ 0 ∷ 0 ∷ 0 ∷ 0 ∷ 0
    ∷ 0 ∷ 0 ∷ 0 ∷ 0 ∷ 77 ∷ []

one_refused :
    keepalive_round thousandths 1000 77 (0 ∷ 1 ∷ []) (false ∷ true ∷ []) client
    ≡ ok ((1, keepalive) ∷ [], record client { monitor = record_loss thousandths 1000 0 monitor })
unfolding keepalive_round lookup create_keepalive serialize header_bytes struct_pack be_bytes
    le_bytes
one_refused = refl

keepalive_round_lem_example :
    (first_of ((1, keepalive) ∷ []) ≡ accepting (0 ∷ 1 ∷ []) (false ∷ true ∷ []))
    × (record client { monitor = record_loss thousandths 1000 0 monitor } ≡ record client {
      monitor = record_losses thousandths 1000 (refusing (0 ∷ 1 ∷ []) (false ∷ true ∷ [])) monitor;
    })
keepalive_round_lem_example =
    keepalive_round_lem thousandths 1000 77 (0 ∷ 1 ∷ []) (false ∷ true ∷ []) client
      (record client { monitor = record_loss thousandths 1000 0 monitor }) ((1, keepalive) ∷ [])
      one_refused

too_short : deserialize (1 ∷ 2 ∷ []) ≡ raise value_error
unfolding deserialize
too_short = refl

handshake_with_retry-raises_example :
    handshake_with_retry (λ b. ok true) (((1, 1 ∷ 2 ∷ []) ∷ (0, []) ∷ []) ∷ [] ∷ []) client
    ≡ raise value_error
handshake_with_retry-raises_example =
    handshake_with_retry-raises (λ b. ok true) [] ((0, []) ∷ []) 1 (1 ∷ 2 ∷ []) value_error
      ([] ∷ []) client tt too_short

-- No path is known to be alive: the packet is skipped, and its number is used up.
abbrev nothing_sent : Sending ℕ ℕ
nothing_sent = record {
  sent = [];
  outcomes = [];
  client = record client {
    global_seq = 8;
    scheduler = record client.scheduler { last_update = 1000 };
    tier_reset_time = 1000;
  };
}

skipped :
    send_results thousandths thousandths_math none marking readings Tier.realtime
      ((65 ∷ [], plain) ∷ [])
      []
      client
    ≡ ok nothing_sent
unfolding send_results send_assignments schedule schedule_now update_predictions
    rebuild_schedule_table alive_of get_all_path_states all_states finish_result reset_tiers
    save_session predict_all best_path_of reset_window
skipped = refl

-- Two results go out on path 1, the only one that is alive.
abbrev one_alive : TunnelClient ℕ ℕ
one_alive = record client {
  scheduler = record client.scheduler {
    mode = round_robin_mode;
    alive_paths = 1 ∷ [];
    last_update = 1000;
  };
}

-- A turn of the loop with the path's number `seq`
abbrev turn : ℕ → TunnelClient ℕ ℕ → TunnelClient ℕ ℕ
turn seq c = finish_result thousandths readings (
    note_statistics thousandths 1000 Tier.realtime 1 29 1 false false (
      note_sent thousandths 1000 1 seq 29
        (record c { scheduler = record c.scheduler { rr_counter = c.scheduler.rr_counter + 1 } })))

-- The packet for path 1 with its number and the global number
abbrev wire_on_1 : (seq global_seq text : ℕ) → Bytes
wire_on_1 seq global_seq text =
    72 ∷ 65 ∷ 71 ∷ 71 ∷ 1 ∷ 0 ∷ 0 ∷ 1 ∷ 0 ∷ 0 ∷ 0 ∷ seq ∷ 0 ∷ 0 ∷ 0 ∷ global_seq ∷ 0 ∷ 0 ∷ 0 ∷ 0 ∷ 0
    ∷ 0 ∷ 0 ∷ 1 ∷ 0 ∷ 0 ∷ 0 ∷ 77 ∷ text ∷ []

abbrev both_sent : Sending ℕ ℕ
both_sent = record {
  sent = (1, wire_on_1 90 7 65) ∷ (1, wire_on_1 91 8 66) ∷ [];
  outcomes = [];
  client = turn 91 (turn 90 one_alive);
}

sent_in_turn :
    send_results thousandths thousandths_math none marking readings Tier.realtime
      ((65 ∷ [], plain) ∷ (66 ∷ [], plain) ∷ [])
      []
      one_alive
    ≡ ok both_sent
unfolding send_results send_assignments send_assignment send_on_path over_budget send_wire
    choose_path find_alternative transmit next_outcome can_send refill lookup elem build_packet
    seal_packet create_data serialize header_bytes struct_pack be_bytes le_bytes note_statistics
    note_sent schedule schedule_now schedule_as schedule_round_robin finish_result reset_tiers
    save_session Dict.insert consume
sent_in_turn = refl

send_results-Numbered_example :
    Numbered thousandths marking 77 ((65 ∷ [], plain) ∷ (66 ∷ [], plain) ∷ []) one_alive both_sent
send_results-Numbered_example =
    send_results-Numbered thousandths thousandths_math none marking readings Tier.realtime
      ((65 ∷ [], plain) ∷ (66 ∷ [], plain) ∷ []) [] one_alive both_sent sent_in_turn
