-- ===== src/Tunnel/Client/Send.antt =====
-- `_send_packet` of hyperagg/tunnel/client.py: one packet from the TUN device goes through error
-- correction, the scheduler, encryption, the tier's budget and the pacer to the sockets.
use ratan_engine.Prelude.{
  ℕ, ◌+◌, ◌%◌, Bool, true, false, not, ◌&&◌, Option, none, some, List, [], ◌∷◌, ◌++◌, ltb, ◌==◌,
  if◌then◌else◌, length, Result, ok, ◌>>=◌,
}
use ratan_engine.Prelude.Bytes.{Bytes}
use ratan_engine.Prelude.Dict.{Dict, insert, elem, get_default}
use ratan_engine.Prelude.Floats.{FloatOps, FloatMath, float_le}
use ratan_engine.Packet.{serialize}
use ratan_engine.Crypto.{Aead}
use ratan_engine.Fec.Rs.{RsCodec}
use ratan_engine.Fec.Engine.{FecMetadata, Tier, realtime, streaming, bulk, encode_packet}
use ratan_engine.Metrics.{record_sent}
use ratan_engine.Pacer.{TokenBucketPacer, can_send, consume}
use ratan_engine.Scheduler.Bandwidth.{record_ack}
use ratan_engine.Scheduler.Congestion.{tier_can_send, record_send, reset_window}
use ratan_engine.Scheduler.Models.{PathAssignment, PathState}
use ratan_engine.Scheduler.Monitor.{record_throughput, get_all_path_states}
use ratan_engine.Scheduler.PathScheduler.{schedule}
use ratan_engine.SendQueue.{Outcome, taken, blocked, failed}
use ratan_engine.Session.{update}
use ratan_engine.Tunnel.Frames.{build_packet, seal_packet}
use ratan_engine.Tunnel.Client.{TunnelClient, Readings}

-- The next outcome of `sendto`; calls beyond the list succeed.
unfoldable pub next_outcome : List Outcome → Outcome × List Outcome
next_outcome [] = (taken, [])
next_outcome (o ∷ os) = (o, os)

-- The histories that are saved with the session
unfoldable pub rtt_histories : {Float : Type 0} → Dict (PathState Float) → Dict (List Float)
rtt_histories [] = []
rtt_histories ((path_id, s) ∷ rest) = (path_id, s.rtt_history) ∷ rtt_histories rest

-- `tier != "realtime"`
abbrev pub is_budgeted : Tier → Bool
is_budgeted realtime = false
is_budgeted streaming = true
is_budgeted bulk = true

-- What `_send_packet` does: the datagrams that a socket took, with the path of the socket, the
-- outcomes that are left, and the client.
pub record Sending (Float Ident : Type 0) : Type 0 where
  pub sent : List (ℕ × Bytes)
  pub outcomes : List Outcome
  pub client : TunnelClient Float Ident

module _ {Float : Type 0} (fl : FloatOps Float) where
  -- The loop over the other assignments, for a path whose bucket has enough
  unfoldable pub find_alternative :
      Float
      → (path_id size : ℕ) (sockets : List ℕ) → List PathAssignment
      → TokenBucketPacer Float
      → Option ℕ × TokenBucketPacer Float
  find_alternative now path_id size sockets [] p = (none, p)
  find_alternative now path_id size sockets (a ∷ rest) p =
      let (enough, p') = can_send fl now a.path_id size p in
      let usable = not (a.path_id == path_id) && a.send && elem a.path_id sockets in
      let try_next = find_alternative now path_id size sockets rest (if usable then p' else p) in
      if usable && enough then (some a.path_id, p') else try_next

  -- The path on which the datagram is sent, `none` where it is skipped
  unfoldable pub choose_path :
      Float
      → (path_id size : ℕ) (sockets : List ℕ) → List PathAssignment
      → TokenBucketPacer Float
      → Option ℕ × TokenBucketPacer Float
  choose_path now path_id size sockets assignments p =
      let (enough, p') = can_send fl now path_id size p in
      let (alternative, p'') = find_alternative now path_id size sockets assignments p' in
      let (again, p3) = can_send fl now path_id size p'' in
      if enough then (some path_id, p') else elim alternative [
        | some k ↦ (some k, p'')
        | none ↦ (if again then some path_id else none, p3)
      ]

  module _ {Ident : Type 0} where
    -- The counters after `sendto` on the path `pid`; `path_seq` is the number in the packet.
    unfoldable pub note_sent :
        Float → (pid path_seq size : ℕ) → TunnelClient Float Ident → TunnelClient Float Ident
    note_sent now pid path_seq size c = record c {
      pacer = (consume fl now pid size c.pacer).1;
      path_seqs = insert pid (path_seq + 1) c.path_seqs;
    }

    -- The statistics after a `sendto` that succeeded at once
    unfoldable pub note_statistics :
        Float
        → Tier
        → (pid size text_size : ℕ) (is_parity is_duplicate : Bool) → TunnelClient Float Ident
        → TunnelClient Float Ident
    note_statistics now tier pid size text_size is_parity is_duplicate c = record c {
      packets_sent_per_path =
          insert pid (get_default pid 0 c.packets_sent_per_path + 1) c.packets_sent_per_path;
      monitor = record_throughput fl now pid size c.monitor;
      bw_estimator = record_ack fl now pid size c.bw_estimator;
      tier_mgr = record_send tier text_size c.tier_mgr;
      throughput = record_sent now size is_parity is_duplicate c.throughput;
    }

    -- The `try` around `sendto`: after BlockingIOError it is called once more, and a packet that is
    -- taken then is not counted in the statistics.
    unfoldable pub transmit :
        Float
        → Tier
        → (pid path_seq : ℕ) (wire : Bytes) (text_size : ℕ) (is_parity is_duplicate : Bool)
        → List Outcome
        → TunnelClient Float Ident
        → Sending Float Ident
    transmit now tier pid path_seq wire text_size is_parity is_duplicate outcomes c =
        let (first, left) = next_outcome outcomes in
        let (second, left') = next_outcome left in
        let c' = note_sent now pid path_seq (length wire) c in
        elim first [
          | taken ↦ record {
            sent = (pid, wire) ∷ [];
            outcomes = left;
            client = note_statistics now tier pid (length wire) text_size is_parity is_duplicate c';
          }
          | failed ↦ record { sent = []; outcomes = left; client = c }
          | blocked ↦ elim second [
            | taken ↦ record { sent = (pid, wire) ∷ []; outcomes = left'; client = c' }
            | blocked ↦ record { sent = []; outcomes = left'; client = c }
            | failed ↦ record { sent = []; outcomes = left'; client = c }
          ]
        ]

    -- From the choice of the path on
    unfoldable pub send_wire :
        Float
        → Tier
        → (pid path_seq : ℕ) (wire : Bytes) (text_size : ℕ) (meta : FecMetadata)
        → List PathAssignment
        → List Outcome
        → TunnelClient Float Ident
        → Sending Float Ident
    send_wire now tier pid path_seq wire text_size meta assignments outcomes c =
        let (chosen, p) = choose_path now pid (length wire) c.sockets assignments c.pacer in
        let c' : TunnelClient Float Ident = record c { pacer = p } in
        elim chosen [
          | none ↦ record { sent = []; outcomes = outcomes; client = c' }
          | some k ↦
              transmit now tier k path_seq wire text_size meta.is_parity
                (meta.replicated && ltb 1 (length assignments)) outcomes c'
        ]

    -- `tier != "realtime" and not self._tier_mgr.can_send(tier, len(fec_payload))`
    unfoldable pub over_budget : Tier → ℕ → TunnelClient Float Ident → Bool
    over_budget tier text_size c =
        is_budgeted tier && not (tier_can_send fl tier text_size c.tier_mgr)

    -- A turn of the loop over the assignments, for one on an open path
    unfoldable pub send_on_path :
        Aead
        → Readings Float
        → Tier
        → Bytes × FecMetadata
        → List PathAssignment
        → ℕ
        → List Outcome
        → TunnelClient Float Ident
        → Result (Sending Float Ident)
    send_on_path aead r tier (text, meta) assignments pid outcomes c = do
      let path_seq = get_default pid 0 c.path_seqs
      pkt ← seal_packet aead c.crypto (build_packet r.stamp text meta pid path_seq c.global_seq)
      (if over_budget tier (length text) c
          then ok (record { sent = []; outcomes = outcomes; client = c })
          else (do
            wire ← serialize pkt
            ok (send_wire r.now tier pid path_seq wire (length text) meta assignments outcomes c)))

    unfoldable pub send_assignment :
        Aead
        → Readings Float
        → Tier
        → Bytes × FecMetadata
        → List PathAssignment
        → PathAssignment
        → List Outcome
        → TunnelClient Float Ident
        → Result (Sending Float Ident)
    send_assignment aead r tier result assignments a outcomes c =
        if a.send && elem a.path_id c.sockets
        then send_on_path aead r tier result assignments a.path_id outcomes c
        else ok (record { sent = []; outcomes = outcomes; client = c })

    -- The loop over the assignments of a decision
    unfoldable pub send_assignments :
        Aead
        → Readings Float
        → Tier
        → Bytes × FecMetadata
        → List PathAssignment
        → List PathAssignment
        → List Outcome
        → TunnelClient Float Ident
        → Result (Sending Float Ident)
    send_assignments aead r tier result assignments [] outcomes c =
        ok (record { sent = []; outcomes = outcomes; client = c })
    send_assignments aead r tier result assignments (a ∷ rest) outcomes c = do
      one ← send_assignment aead r tier result assignments a outcomes c
      others ← send_assignments aead r tier result assignments rest one.outcomes one.client
      ok (record others { sent = one.sent ++ others.sent })

    -- Every hundred packets the session's state is saved.
    unfoldable pub save_session :
        Readings Float → TunnelClient Float Ident → TunnelClient Float Ident
    save_session r c =
        let (states, monitor) = get_all_path_states fl r.now c.monitor in
        if c.global_seq % 100 == 0
        then record c {
          monitor = monitor;
          session_mgr =
              update fl r.now r.wall r.written r.saved_at c.global_seq c.path_seqs 0
                (some c.scheduler.mode) (rtt_histories states) c.session_mgr;
        }
        else c

    -- Every second the tiers' usage is reset.
    unfoldable pub reset_tiers : Float → TunnelClient Float Ident → TunnelClient Float Ident
    reset_tiers now c =
        if float_le fl (fl.of_ℕ 1) (fl.sub now c.tier_reset_time)
        then record c { tier_mgr = reset_window c.tier_mgr; tier_reset_time = now }
        else c

    -- The end of a turn of the loop over the results
    unfoldable pub finish_result :
        Readings Float → TunnelClient Float Ident → TunnelClient Float Ident
    finish_result r c =
        let c' = reset_tiers r.now (save_session r c) in
        record c' { global_seq = c'.global_seq + 1 }

    module _ (fm : FloatMath Float) (scipy_cdf : Option (Float → Float → Float → Float)) where
      -- The loop over the results of error correction
      unfoldable pub send_results :
          Aead
          → Readings Float
          → Tier
          → List (Bytes × FecMetadata)
          → List Outcome
          → TunnelClient Float Ident
          → Result (Sending Float Ident)
      send_results aead r tier [] outcomes c =
          ok (record { sent = []; outcomes = outcomes; client = c })
      send_results aead r tier (x ∷ xs) outcomes c =
          let (decision, scheduler, monitor, predictor) =
            schedule fl fm scipy_cdf r.now c.global_seq tier c.monitor c.predictor c.scheduler in
          let c' : TunnelClient Float Ident = record c {
            scheduler = scheduler;
            monitor = monitor;
            predictor = predictor;
          } in
          do
            one ←
                send_assignments aead r tier x decision.assignments decision.assignments outcomes c'
            others ← send_results aead r tier xs one.outcomes (finish_result r one.client)
            ok (record others { sent = one.sent ++ others.sent })

      -- `_send_packet` for a packet of the tier that `_classify_traffic` returns
      unfoldable pub send_packet :
          Aead
          → RsCodec
          → Readings Float
          → Tier
          → Bytes
          → List Outcome
          → TunnelClient Float Ident
          → Result (Sending Float Ident)
      send_packet aead codec r tier payload outcomes c = do
        encoded ← encode_packet codec payload tier c.fec
        send_results aead r tier encoded.0 outcomes (record c { fec = encoded.1 })
