-- ===== src/Tunnel/Client/Failover.antt =====
-- The number of a path in hyperagg/tunnel/client.py when a packet goes out on another path than the
-- one it was built for, and the numbers with which a client starts.
use ratan_engine.Prelude.{
  ℕ, ◌+◌, ◌≡◌, refl, ap, ◌∙◌, ◌⊎◌, inl, inr, Bool, ◌&&◌, Option, none, some, List, [], ◌∷◌, length,
  ok, >>=-eq-ok, ok-injective, Bool-cases, Option-cases, if◌then◌else◌, ◌==◌, ltb,
}
use ratan_engine.Prelude.Bytes.{Bytes}
use ratan_engine.Prelude.Dict.{Dict, insert, get_default, lookup-insert}
use ratan_engine.Prelude.Floats.{FloatOps}
use ratan_engine.Crypto.{Aead}
use ratan_engine.Fec.Engine.{FecMetadata, Tier}
use ratan_engine.Packet.{serialize}
use ratan_engine.Scheduler.Models.{PathAssignment}
use ratan_engine.Scheduler.PathScheduler.{SchedulerMode}
use ratan_engine.SendQueue.{Outcome, taken, blocked, failed}
use ratan_engine.Session.{File, active, create_session, get_resume_data, save}
use ratan_engine.Tunnel.Frames.{build_packet, seal_packet}
use ratan_engine.Tunnel.Client.{TunnelClient, Readings}
use ratan_engine.Tunnel.Client.Rounds.{start_session}
use ratan_engine.Tunnel.Client.Send.{
  Sending, next_outcome, choose_path, note_sent, note_statistics, transmit, send_wire, over_budget,
  send_on_path,
}

-- What one datagram does to the numbers `old` of the paths. `path_seq` is the number in the packet.
abbrev pub Renumbers : {Float Ident : Type 0} → Dict ℕ → ℕ → Sending Float Ident → Type 0
Renumbers old path_seq e =
    ((e.sent ≡ []) × (e.client.path_seqs ≡ old))
    ⊎ ((k : ℕ) × (wire : Bytes) × (e.sent ≡ (k, wire) ∷ [])
        × ((j : ℕ)
            → get_default j 0 e.client.path_seqs
              ≡ (if k == j then path_seq + 1 else get_default j 0 old)))

get_default-insert :
    (k j v : ℕ) (d : Dict ℕ)
    → get_default j 0 (insert k v d) ≡ (if k == j then v else get_default j 0 d)
get_default-insert k j v d =
    ap (λ (o : Option ℕ). elim o [ none ↦ 0 | some w ↦ w ]) (lookup-insert k j v d)
    ∙ elim (Bool-cases (k == j)) [ inl same ↦ rw same refl | inr other ↦ rw other refl ]

module _ {Float Ident : Type 0} (fl : FloatOps Float) where
  transmit-Renumbers :
      (now : Float) (tier : Tier) (pid path_seq : ℕ) (wire : Bytes) (text_size : ℕ)
      (is_parity is_duplicate : Bool) (outcomes : List Outcome) (c : TunnelClient Float Ident)
      → Renumbers c.path_seqs path_seq
          (transmit fl now tier pid path_seq wire text_size is_parity is_duplicate outcomes c)
  unfolding transmit next_outcome note_sent note_statistics
  transmit-Renumbers now tier pid path_seq wire text_size is_parity is_duplicate [] c =
      inr (pid, wire, refl, λ j. get_default-insert pid j (path_seq + 1) c.path_seqs)
  transmit-Renumbers now tier pid path_seq wire text_size is_parity is_duplicate (taken ∷ os) c =
      inr (pid, wire, refl, λ j. get_default-insert pid j (path_seq + 1) c.path_seqs)
  transmit-Renumbers now tier pid path_seq wire text_size is_parity is_duplicate (failed ∷ os) c =
      inl (refl, refl)
  transmit-Renumbers now tier pid path_seq wire text_size is_parity is_duplicate (blocked ∷ []) c =
      inr (pid, wire, refl, λ j. get_default-insert pid j (path_seq + 1) c.path_seqs)
  transmit-Renumbers now tier pid path_seq wire text_size is_parity is_duplicate
        (blocked ∷ taken ∷ os) c =
      inr (pid, wire, refl, λ j. get_default-insert pid j (path_seq + 1) c.path_seqs)
  transmit-Renumbers now tier pid path_seq wire text_size is_parity is_duplicate
        (blocked ∷ blocked ∷ os) c =
      inl (refl, refl)
  transmit-Renumbers now tier pid path_seq wire text_size is_parity is_duplicate
        (blocked ∷ failed ∷ os) c =
      inl (refl, refl)

  send_wire-Renumbers :
      (now : Float) (tier : Tier) (pid path_seq : ℕ) (wire : Bytes) (text_size : ℕ)
      (meta : FecMetadata) (xs : List PathAssignment) (outcomes : List Outcome)
      (c : TunnelClient Float Ident)
      → Renumbers c.path_seqs path_seq
          (send_wire fl now tier pid path_seq wire text_size meta xs outcomes c)
  unfolding send_wire
  send_wire-Renumbers now tier pid path_seq wire text_size meta xs outcomes c =
      let chosen = choose_path fl now pid (length wire) c.sockets xs c.pacer in
      elim (Option-cases chosen.0) [
        | inl skipped ↦ rw (skipped, send_wire) (inl (refl, refl))
        | inr (k, found) ↦
            rw (found, send_wire)
              (transmit-Renumbers now tier k path_seq wire text_size meta.is_parity
                (meta.replicated && ltb 1 (length xs)) outcomes (record c { pacer = chosen.1 }))
      ]

  -- Sending a packet for the path `pid`, with the next number of `pid` in it: if no datagram goes
  -- out, no number changes. If one goes out, on whichever path `k` the pacer allows, the number of `k`
  -- becomes one above the number of `pid`, and no other number changes. So a packet of `pid` that goes
  -- out on another path puts the sequence of that path off, and the next packet of `pid` has the
  -- number that this one had.
  pub send_on_path-Renumbers :
      (aead : Aead) (r : Readings Float) (tier : Tier) (text : Bytes) (meta : FecMetadata)
      (xs : List PathAssignment) (pid : ℕ) (outcomes : List Outcome) (c : TunnelClient Float Ident)
      (e : Sending Float Ident)
      → send_on_path fl aead r tier (text, meta) xs pid outcomes c ≡ ok e
      → Renumbers c.path_seqs (get_default pid 0 c.path_seqs) e
  unfolding send_on_path
  send_on_path-Renumbers aead r tier text meta xs pid outcomes c e h =
      let p = build_packet r.stamp text meta pid (get_default pid 0 c.path_seqs) c.global_seq in
      let (pkt, s, h1) = >>=-eq-ok (seal_packet aead c.crypto p) _ {final = e} h in
      elim (Bool-cases (over_budget fl tier (length text) c)) [
        | inl over ↦ rw (← ok-injective (rw over at h1)) (inl (refl, refl))
        | inr within ↦
            let (wire, w, h2) = >>=-eq-ok (serialize pkt) _ {final = e} (rw within at h1) in
            rw (← ok-injective h2) (
              send_wire-Renumbers r.now tier pid (get_default pid 0 c.path_seqs) wire (length text)
                meta xs outcomes c)
      ]

  -- A client whose session manager holds no state, as in every process that has just begun, does
  -- not resume, whatever sessions are on disk: it creates a session, and its global number and the
  -- numbers of its paths stay what they are, 0 in a new client.
  pub start_session-fresh :
      (mode : SchedulerMode) (file : Ident → File Float Ident SchedulerMode) (fresh_id : Ident)
      (r : Readings Float) (c : TunnelClient Float Ident)
      → c.session_mgr.state ≡ none
      → let c' = start_session fl mode file fresh_id r c in
        (c'.global_seq ≡ c.global_seq)
        × (c'.path_seqs ≡ c.path_seqs)
        × (c'.session_mgr.status ≡ active)
  unfolding start_session get_resume_data create_session save
  start_session-fresh mode file fresh_id r c h = rw h (refl, refl, refl)
