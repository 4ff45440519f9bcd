-- ===== src/Tunnel/Client/Sockets.antt =====
-- The sockets on which hyperagg/tunnel/client.py sends a packet.
use ratan_engine.Prelude.{
  ℕ, ◌≡◌, refl, ◌∙◌, Bool, true, false, not, ◌&&◌, Option, none, some, List, [], ◌∷◌, ◌++◌, arith,
  length, All, ok, >>=-eq-ok, ok-injective, Bool-cases, Option-cases, inl, inr, if◌then◌else◌, ◌==◌,
  ltb, some-injective, subst,
}
use ratan_engine.Prelude.Bytes.{Bytes}
use ratan_engine.Prelude.Dict.{elem, get_default}
use ratan_engine.Prelude.Floats.{FloatOps}
use ratan_engine.Crypto.{Aead, PacketCrypto}
use ratan_engine.Fec.Engine.{FecMetadata, Tier}
use ratan_engine.Pacer.{TokenBucketPacer, can_send}
use ratan_engine.Packet.{HyperAggPacket, serialize}
use ratan_engine.Scheduler.Models.{PathAssignment}
use ratan_engine.SendQueue.{Outcome, taken, blocked, failed}
use ratan_engine.Scheduler.PathScheduler.Table.{All-append}
use ratan_engine.Tunnel.Frames.{build_packet, seal_packet}
use ratan_engine.Tunnel.Client.{TunnelClient, Readings}
use ratan_engine.Tunnel.Client.Send.{
  Sending, next_outcome, find_alternative, choose_path, note_sent, note_statistics, transmit,
  send_wire, over_budget, send_on_path, send_assignment, send_assignments,
}

-- Datagrams stand on open paths.
abbrev pub OnOpen : List ℕ → List (ℕ × Bytes) → Type 0
OnOpen sockets = All (λ d. elem d.0 sockets ≡ true)

-- The bytes of the packet for a result of error correction under a global number, on some path
abbrev pub IsPacketOf :
    Aead
    → Option PacketCrypto
    → (stamp : ℕ) → Bytes × FecMetadata
    → (global_seq : ℕ) → Bytes
    → Type 0
IsPacketOf aead crypto stamp x global_seq bytes =
    (path_id : ℕ) × (seq : ℕ) × (pkt : HyperAggPacket) × (seal_packet aead crypto
        (build_packet stamp x.0 x.1 path_id seq global_seq)
      ≡ ok pkt)
    × (serialize pkt ≡ ok bytes)

-- A part of `_send_packet` that gives out no number, and sends only such bytes.
pub record SentOn {Float Ident : Type 0} (P : Bytes → Type 0) (c : TunnelClient Float Ident)
    (e : Sending Float Ident) : Type 0 where
  pub made : All (λ d. P d.1) e.sent
  pub crypto_same : e.client.crypto ≡ c.crypto
  pub on_open : OnOpen c.sockets e.sent
  pub sockets_same : e.client.sockets ≡ c.sockets
  pub seq_same : e.client.global_seq ≡ c.global_seq

usable_open :
    (other send there enough : Bool) → ((other && send && there) && enough) ≡ true → there ≡ true
usable_open other send there enough h = ground arith

choose_other-open :
    {Float : Type 0} (k pid : ℕ) (again : Bool × TokenBucketPacer Float)
    (other : Option ℕ × TokenBucketPacer Float) (sockets : List ℕ)
    → elem pid sockets ≡ true
    → ((j : ℕ) → other.0 ≡ some j → elem j sockets ≡ true)
    → (let r : Option ℕ × TokenBucketPacer Float = elim other.0 [
      | some j ↦ (some j, other.1)
      | none ↦ (if again.0 then some pid else none, again.1)
    ] in
        r).0
      ≡ some k
    → elem k sockets ≡ true
choose_other-open k pid (true, p) (none, q) sockets there alt h =
    subst (λ (j : ℕ). elem j sockets ≡ true) (some-injective h) there
choose_other-open k pid (false, p) (none, q) sockets there alt h = cc
choose_other-open k pid (again, p) (some j, q) sockets there alt h = alt k h

module _ {Float : Type 0} (fl : FloatOps Float) where
  find_alternative-open :
      (now : Float) (pid size : ℕ) (sockets : List ℕ) (xs : List PathAssignment)
      (p : TokenBucketPacer Float) (k : ℕ)
      → (find_alternative fl now pid size sockets xs p).0 ≡ some k
      → elem k sockets ≡ true
  unfolding find_alternative
  find_alternative-open now pid size sockets [] p k h = cc
  find_alternative-open now pid size sockets (a ∷ xs) p k h =
      let usable : Bool = not (a.path_id == pid) && a.send && elem a.path_id sockets in
      let sent = can_send fl now a.path_id size p in
      elim (Bool-cases (usable && sent.0)) [
        | inl chosen ↦
            subst (λ (j : ℕ). elem j sockets ≡ true) (some-injective (rw chosen at h))
              (usable_open (not (a.path_id == pid)) a.send (elem a.path_id sockets) sent.0 chosen)
        | inr passed ↦
            find_alternative-open now pid size sockets xs (if usable then sent.1 else p) k
              (rw passed at h)
      ]

  choose_path-open :
      (now : Float) (pid size : ℕ) (sockets : List ℕ) (xs : List PathAssignment)
      (p : TokenBucketPacer Float) (k : ℕ)
      → elem pid sockets ≡ true
      → (choose_path fl now pid size sockets xs p).0 ≡ some k
      → elem k sockets ≡ true
  unfolding choose_path
  choose_path-open now pid size sockets xs p k there h =
      let first = can_send fl now pid size p in
      let other = find_alternative fl now pid size sockets xs first.1 in
      elim (Bool-cases first.0) [
        | inl enough ↦
            subst (λ (j : ℕ). elem j sockets ≡ true) (some-injective (rw enough at h)) there
        | inr short ↦
            choose_other-open k pid (can_send fl now pid size other.1) other sockets there
              (λ j e. find_alternative-open now pid size sockets xs first.1 j e) (rw short at h)
      ]

  module _ {Ident : Type 0} where
    transmit-SentOn :
        (P : Bytes → Type 0) (now : Float) (tier : Tier) (pid path_seq : ℕ) (wire : Bytes)
        (text_size : ℕ) (is_parity is_duplicate : Bool) (outcomes : List Outcome)
        (c : TunnelClient Float Ident)
        → P wire
        → elem pid c.sockets ≡ true
        → SentOn P c
            (transmit fl now tier pid path_seq wire text_size is_parity is_duplicate outcomes c)
    unfolding transmit next_outcome note_sent note_statistics
    transmit-SentOn P now tier pid path_seq wire text_size is_parity is_duplicate [] c w h =
        record {
          made = (w, tt);
          crypto_same = refl;
          on_open = (h, tt);
          sockets_same = refl;
          seq_same = refl;
        }
    transmit-SentOn P now tier pid path_seq wire text_size is_parity is_duplicate (taken ∷ os) c w
          h =
        record {
          made = (w, tt);
          crypto_same = refl;
          on_open = (h, tt);
          sockets_same = refl;
          seq_same = refl;
        }
    transmit-SentOn P now tier pid path_seq wire text_size is_parity is_duplicate (failed ∷ os) c w
          h =
        record { made = tt; crypto_same = refl; on_open = tt; sockets_same = refl; seq_same = refl }
    transmit-SentOn P now tier pid path_seq wire text_size is_parity is_duplicate (blocked ∷ []) c w
          h =
        record {
          made = (w, tt);
          crypto_same = refl;
          on_open = (h, tt);
          sockets_same = refl;
          seq_same = refl;
        }
    transmit-SentOn P now tier pid path_seq wire text_size is_parity is_duplicate
          (blocked ∷ taken ∷ os) c w h =
        record {
          made = (w, tt);
          crypto_same = refl;
          on_open = (h, tt);
          sockets_same = refl;
          seq_same = refl;
        }
    transmit-SentOn P now tier pid path_seq wire text_size is_parity is_duplicate
          (blocked ∷ blocked ∷ os) c w h =
        record { made = tt; crypto_same = refl; on_open = tt; sockets_same = refl; seq_same = refl }
    transmit-SentOn P now tier pid path_seq wire text_size is_parity is_duplicate
          (blocked ∷ failed ∷ os) c w h =
        record { made = tt; crypto_same = refl; on_open = tt; sockets_same = refl; seq_same = refl }

    send_wire-SentOn :
        (P : Bytes → Type 0) (now : Float) (tier : Tier) (pid path_seq : ℕ) (wire : Bytes)
        (text_size : ℕ) (meta : FecMetadata) (xs : List PathAssignment) (outcomes : List Outcome)
        (c : TunnelClient Float Ident)
        → P wire
        → elem pid c.sockets ≡ true
        → SentOn P c (send_wire fl now tier pid path_seq wire text_size meta xs outcomes c)
    unfolding send_wire
    send_wire-SentOn P now tier pid path_seq wire text_size meta xs outcomes c w h =
        let chosen = choose_path fl now pid (length wire) c.sockets xs c.pacer in
        elim (Option-cases chosen.0) [
          | inl skipped ↦
              rw (skipped, send_wire)
                (record {
                  made = tt;
                  crypto_same = refl;
                  on_open = tt;
                  sockets_same = refl;
                  seq_same = refl;
                })
          | inr (k, found) ↦
              let t =
                transmit-SentOn P now tier k path_seq wire text_size meta.is_parity
                  (meta.replicated && ltb 1 (length xs)) outcomes (record c { pacer = chosen.1 }) w
                  (choose_path-open now pid (length wire) c.sockets xs c.pacer k h found) in
              rw (found, send_wire)
                (record {
                  made = t.made;
                  crypto_same = t.crypto_same;
                  on_open = t.on_open;
                  sockets_same = t.sockets_same;
                  seq_same = t.seq_same;
                })
        ]

    nothing-SentOn :
        (P : Bytes → Type 0) (outcomes : List Outcome) (c : TunnelClient Float Ident)
        → SentOn P c (record { sent = []; outcomes = outcomes; client = c })
    nothing-SentOn P outcomes c = record {
      made = tt;
      crypto_same = refl;
      on_open = tt;
      sockets_same = refl;
      seq_same = refl;
    }

    send_on_path-SentOn :
        (aead : Aead) (r : Readings Float) (tier : Tier) (text : Bytes) (meta : FecMetadata)
        (xs : List PathAssignment) (pid : ℕ) (outcomes : List Outcome)
        (c : TunnelClient Float Ident) (e : Sending Float Ident)
        → elem pid c.sockets ≡ true
        → send_on_path fl aead r tier (text, meta) xs pid outcomes c ≡ ok e
        → SentOn (IsPacketOf aead c.crypto r.stamp (text, meta) c.global_seq) c e
    unfolding send_on_path
    send_on_path-SentOn aead r tier text meta xs pid outcomes c e there h =
        let p = build_packet r.stamp text meta pid (get_default pid 0 c.path_seqs) c.global_seq in
        let (pkt, s, h1) = >>=-eq-ok (seal_packet aead c.crypto p) _ {final = e} h in
        elim (Bool-cases (over_budget fl tier (length text) c)) [
          | inl over ↦ rw (← ok-injective (rw over at h1)) (
              nothing-SentOn (IsPacketOf aead c.crypto r.stamp (text, meta) c.global_seq) outcomes
                c)
          | inr within ↦
              let (wire, w, h2) = >>=-eq-ok (serialize pkt) _ {final = e} (rw within at h1) in
              rw (← ok-injective h2) (
                send_wire-SentOn (IsPacketOf aead c.crypto r.stamp (text, meta) c.global_seq) r.now
                  tier pid (get_default pid 0 c.path_seqs) wire (length text) meta xs outcomes c
                  (pid, get_default pid 0 c.path_seqs, pkt, s, w) there)
        ]

    send_assignment-SentOn :
        (aead : Aead) (r : Readings Float) (tier : Tier) (x : Bytes × FecMetadata)
        (xs : List PathAssignment) (a : PathAssignment) (outcomes : List Outcome)
        (c : TunnelClient Float Ident) (e : Sending Float Ident)
        → send_assignment fl aead r tier x xs a outcomes c ≡ ok e
        → SentOn (IsPacketOf aead c.crypto r.stamp x c.global_seq) c e
    unfolding send_assignment
    send_assignment-SentOn aead r tier (text, meta) xs a outcomes c e h =
        elim (Bool-cases (a.send && elem a.path_id c.sockets)) [
          | inl goes ↦
              send_on_path-SentOn aead r tier text meta xs a.path_id outcomes c e
                (ground (arith, goes)) (rw goes at h)
          | inr stays ↦ rw (← ok-injective (rw stays at h)) (
              nothing-SentOn (IsPacketOf aead c.crypto r.stamp (text, meta) c.global_seq) outcomes
                c)
        ]

    SentOn-append :
        (P : Bytes → Type 0) (c : TunnelClient Float Ident) (one others : Sending Float Ident)
        → SentOn P c one
        → SentOn P one.client others
        → SentOn P c (record others { sent = one.sent ++ others.sent })
    SentOn-append P c one others s t = record {
      made = All-append (λ d. P d.1) one.sent others.sent s.made t.made;
      crypto_same = t.crypto_same ∙ s.crypto_same;
      on_open =
          All-append (λ d. elem d.0 c.sockets ≡ true) one.sent others.sent s.on_open
            (rw s.sockets_same at t.on_open);
      sockets_same = t.sockets_same ∙ s.sockets_same;
      seq_same = t.seq_same ∙ s.seq_same;
    }

    pub send_assignments-SentOn :
        (aead : Aead) (r : Readings Float) (tier : Tier) (x : Bytes × FecMetadata)
        (xs rest : List PathAssignment) (outcomes : List Outcome) (c : TunnelClient Float Ident)
        (e : Sending Float Ident)
        → send_assignments fl aead r tier x xs rest outcomes c ≡ ok e
        → SentOn (IsPacketOf aead c.crypto r.stamp x c.global_seq) c e
    unfolding send_assignments
    send_assignments-SentOn aead r tier x xs [] outcomes c e h =
        rw (← ok-injective h)
          (nothing-SentOn (IsPacketOf aead c.crypto r.stamp x c.global_seq) outcomes c)
    send_assignments-SentOn aead r tier x xs (a ∷ rest) outcomes c e h =
        let (one, p, h1) =
          >>=-eq-ok (send_assignment fl aead r tier x xs a outcomes c) _ {final = e} h in
        let (others, q, h2) =
          >>=-eq-ok (send_assignments fl aead r tier x xs rest one.outcomes one.client) _
            {final = e} h1 in
        let s = send_assignment-SentOn aead r tier x xs a outcomes c one p in
        let t = send_assignments-SentOn aead r tier x xs rest one.outcomes one.client others q in
        rw (← ok-injective h2) (
          SentOn-append (IsPacketOf aead c.crypto r.stamp x c.global_seq) c one others s
            (rw (s.crypto_same, s.seq_same) at t))
