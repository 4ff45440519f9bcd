-- ===== src/Tunnel/Client/Rounds.antt =====
-- The start and the periodic work of hyperagg/tunnel/client.py: the session, the handshake, the
-- keepalives, and the round of timeouts and estimates.
use ratan_engine.Prelude.{
  ℕ, ◌+◌, Bool, true, false, none, some, List, [], ◌∷◌, leb, if◌then◌else◌, length, Result, ok,
  ◌>>=◌,
}
use ratan_engine.Prelude.Bytes.{Bytes}
use ratan_engine.Prelude.Dict.{Dict, insert, get_default, add_elem}
use ratan_engine.Prelude.Floats.{FloatOps, FloatMath}
use ratan_engine.Packet.{serialize, create_keepalive, deserialize, is_control}
use ratan_engine.Fec.Engine.{expire_groups}
use ratan_engine.Fec.Engine.Modes.{update_mode}
use ratan_engine.Pacer.{set_rate}
use ratan_engine.Reorder.{check_timeouts, update_timeout}
use ratan_engine.Scheduler.Bandwidth.{get_estimated_bw}
use ratan_engine.Scheduler.Congestion.{AimdController, update_estimated_bw, update_capacity}
use ratan_engine.Scheduler.Delay.{rounded_downs}
use ratan_engine.Scheduler.Models.{PathState}
use ratan_engine.Scheduler.Monitor.{record_loss, get_all_path_states}
use ratan_engine.Scheduler.PathScheduler.{SchedulerMode}
use ratan_engine.Session.{File, int_keys, create_session, try_resume, get_resume_data}
use ratan_engine.Tunnel.Client.{TunnelClient, Readings}
use ratan_engine.Tunnel.Client.Arrive.{Effect, to_tun}

-- What the sockets hold while the client waits for the acknowledgement: the datagrams that are read
-- in turn, each with its path.
abbrev pub Inbox : Type 0
Inbox = List (ℕ × Bytes)

-- `[(pid, s.loss_pct) for ...]` and the two dicts of the alive paths
unfoldable pub path_losses : {Float : Type 0} → Dict (PathState Float) → Dict Float
path_losses [] = []
path_losses ((path_id, s) ∷ rest) = (path_id, s.loss_pct) ∷ path_losses rest

unfoldable pub alive_values :
    {Float : Type 0} → (PathState Float → Float) → Dict (PathState Float) → Dict Float
alive_values f [] = []
alive_values f ((path_id, s) ∷ rest) =
    let others = alive_values f rest in if s.is_alive then (path_id, f s) ∷ others else others

module _ {Float Ident : Type 0} where
  -- A round of `_keepalive_loop` over the open paths; the outcome is true where `sendto` succeeded.
  -- Beyond the list of outcomes it does.
  unfoldable pub keepalive_round :
      FloatOps Float
      → (now : Float) (stamp : ℕ) → List ℕ
      → List Bool
      → TunnelClient Float Ident
      → Result (List (ℕ × Bytes) × TunnelClient Float Ident)
  keepalive_round fl now stamp [] outcomes c = ok ([], c)
  keepalive_round fl now stamp (path_id ∷ rest) [] c = do
    wire ← serialize (create_keepalive stamp path_id (get_default path_id 0 c.path_seqs))
    others ← keepalive_round fl now stamp rest [] c
    ok ((path_id, wire) ∷ others.0, others.1)
  keepalive_round fl now stamp (path_id ∷ rest) (true ∷ outcomes) c = do
    wire ← serialize (create_keepalive stamp path_id (get_default path_id 0 c.path_seqs))
    others ← keepalive_round fl now stamp rest outcomes c
    ok ((path_id, wire) ∷ others.0, others.1)
  keepalive_round fl now stamp (path_id ∷ rest) (false ∷ outcomes) c = do
    wire ← serialize (create_keepalive stamp path_id (get_default path_id 0 c.path_seqs))
    keepalive_round fl now stamp rest outcomes
        (record c { monitor = record_loss fl now path_id c.monitor })

  -- The part of `start` for the session. `file` is what the file of an identifier holds, and `fresh`
  -- is the identifier for a new session.
  unfoldable pub start_session :
      FloatOps Float
      → SchedulerMode
      → (file : Ident → File Float Ident SchedulerMode) (fresh : Ident) → Readings Float
      → TunnelClient Float Ident
      → TunnelClient Float Ident
  start_session fl default_mode file fresh r c =
      let created = record c {
        session_mgr =
            create_session fl fresh default_mode r.wall r.wall r.written r.saved_at c.session_mgr;
      } in
      elim (get_resume_data c.session_mgr) [
        | none ↦ created
        | some (session_id, last_seq) ↦
            let (resumed, manager) = try_resume (file session_id) last_seq c.session_mgr in
            elim resumed [
              | none ↦ record c {
                session_mgr =
                    create_session fl fresh default_mode r.wall r.wall r.written r.saved_at manager;
              }
              | some s ↦ record c {
                session_mgr = manager;
                global_seq = s.global_seq;
                path_seqs = elim s.path_seqs [
                  | [] ↦ c.path_seqs
                  | entry ∷ rest ↦ int_keys (entry ∷ rest)
                ];
              }
            ]
      ]

  -- `_wait_for_ack` over the datagrams that come before the deadline: one that is no packet ends the
  -- wait with an exception. `is_ack` is what the text of a control packet says: `ok false` where it is
  -- no JSON, and an exception where it is JSON without `get`, which the source does not catch.
  unfoldable pub wait_for_ack :
      (is_ack : Bytes → Result Bool)
      → Inbox
      → TunnelClient Float Ident
      → Result (Bool × TunnelClient Float Ident)
  wait_for_ack is_ack [] c = ok (false, c)
  wait_for_ack is_ack ((path_id, bytes) ∷ rest) c =
      let next = wait_for_ack is_ack rest c in
      do
        pkt ← deserialize bytes
        let acknowledged : Result (Bool × TunnelClient Float Ident) = is_ack pkt.payload >>= λ yes.
            if yes
            then ok (true, record c { connected_paths = add_elem path_id c.connected_paths })
            else next
        (if is_control pkt then acknowledged else next)

  -- `_handshake_with_retry`: an attempt for each of the waits, until one brings the acknowledgement.
  -- The handshakes that it sends are output.
  unfoldable pub handshake_with_retry :
      (is_ack : Bytes → Result Bool)
      → List Inbox
      → TunnelClient Float Ident
      → Result (Bool × TunnelClient Float Ident)
  handshake_with_retry is_ack [] c = ok (false, c)
  handshake_with_retry is_ack (inbox ∷ rest) c = do
    waited ← wait_for_ack is_ack inbox c
    (let retry = handshake_with_retry is_ack rest waited.1 in
        if waited.0 then ok (true, waited.1) else retry)

module _ {Float Ident : Type 0} (fl : FloatOps Float) (fm : FloatMath Float) where
  -- The two updates of the reorder buffer's timeout
  unfoldable pub adapt_timeout :
      Dict (PathState Float) → TunnelClient Float Ident → TunnelClient Float Ident
  adapt_timeout states c =
      let rtts = alive_values (λ s. s.avg_rtt_ms) states in
      let jitters = alive_values (λ s. s.jitter_ms) states in
      let downs = rounded_downs fl fm c.owd.owd_down in
      if leb 2 (length downs)
      then record c { reorder = (update_timeout fl downs jitters c.reorder).1 }
      else elim rtts [
        | [] ↦ c
        | x ∷ xs ↦ record c { reorder = (update_timeout fl (x ∷ xs) jitters c.reorder).1 }
      ]

  -- `for pid in states: ... self._pacer.set_rate(pid, bw)`
  unfoldable pub pace_paths :
      Float → Dict (PathState Float) → TunnelClient Float Ident → TunnelClient Float Ident
  pace_paths now [] c = c
  pace_paths now ((path_id, s) ∷ rest) c =
      let (bw, estimator) = get_estimated_bw fl now path_id c.bw_estimator in
      let c' : TunnelClient Float Ident = record c { bw_estimator = estimator } in
      pace_paths now rest (
        if fl.lt (fl.of_ℕ 0) bw
        then record c' { pacer = set_rate fl now path_id bw c'.pacer }
        else c')

  -- `for pid, cc in self._congestion.items(): ...`
  unfoldable pub update_controllers :
      Float → Dict (AimdController Float) → TunnelClient Float Ident → TunnelClient Float Ident
  update_controllers now [] c = c
  update_controllers now ((path_id, a) ∷ rest) c =
      let (bw, estimator) = get_estimated_bw fl now path_id c.bw_estimator in
      let c' : TunnelClient Float Ident = record c { bw_estimator = estimator } in
      update_controllers now rest (
        if fl.lt (fl.of_ℕ 0) bw
        then record c' { congestion = insert path_id (update_estimated_bw fl bw a) c'.congestion }
        else c')

  -- The sum of the estimates, from the left
  unfoldable pub total_bandwidth :
      Float
      → Float
      → Dict (PathState Float)
      → TunnelClient Float Ident
      → Float × TunnelClient Float Ident
  total_bandwidth now acc [] c = (acc, c)
  total_bandwidth now acc ((path_id, s) ∷ rest) c =
      let (bw, estimator) = get_estimated_bw fl now path_id c.bw_estimator in
      total_bandwidth now (fl.add acc bw) rest (record c { bw_estimator = estimator })

  -- The modules' updates in a round, after the buffer and the groups are checked
  unfoldable pub update_modules :
      Float → Dict (PathState Float) → TunnelClient Float Ident → TunnelClient Float Ident
  update_modules now states c =
      let paced =
        pace_paths now states
          (adapt_timeout states (record c { fec = update_mode fl (path_losses states) c.fec })) in
      let (total, c') =
        total_bandwidth now (fl.of_ℕ 0) states (update_controllers now paced.congestion paced) in
      if fl.lt (fl.of_ℕ 0) total
      then record c' { tier_mgr = update_capacity fl total c'.tier_mgr }
      else c'

  -- A round of `_reorder_timeout_loop`
  unfoldable pub timeout_round : Float → TunnelClient Float Ident → Effect Float Ident
  timeout_round now c =
      let (delivered, reorder) = check_timeouts fl now c.reorder in
      let (states, monitor) = get_all_path_states fl now c.monitor in
      record {
        written = to_tun c delivered;
        client = update_modules now states (record c {
          reorder = reorder;
          packets_received = c.packets_received + length delivered;
          fec = expire_groups fl now c.fec;
          monitor = monitor;
        });
      }
