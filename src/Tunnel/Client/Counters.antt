-- ===== src/Tunnel/Client/Counters.antt =====
-- The numbers and the paths of what hyperagg/tunnel/client.py sends.
use ratan_engine.Prelude.{
  ℕ, ◌+◌, ◌≡◌, refl, ◌∙◌, true, Option, List, [], ◌∷◌, ◌++◌, All, arith, length, ok, >>=-eq-ok,
  ok-injective,
}
use ratan_engine.Prelude.Bytes.{Bytes}
use ratan_engine.Prelude.Dict.{elem}
use ratan_engine.Prelude.Floats.{FloatOps, FloatMath}
use ratan_engine.Crypto.{Aead, PacketCrypto}
use ratan_engine.Fec.Engine.{FecMetadata, Tier}
use ratan_engine.Scheduler.PathScheduler.{schedule}
use ratan_engine.SendQueue.{Outcome}
use ratan_engine.Scheduler.PathScheduler.Table.{All-append}
use ratan_engine.Tunnel.Client.{TunnelClient, Readings}
use ratan_engine.Tunnel.Client.Send.{
  Sending, send_assignments, save_session, reset_tiers, finish_result, send_results,
}
use ratan_engine.Tunnel.Client.Sockets.{OnOpen, IsPacketOf, send_assignments-SentOn}

-- The datagrams for the results of error correction: those of each, on however many paths, carry the
-- result under its global number, the next one for the next result.
abbrev pub IsNumbered :
    Aead
    → Option PacketCrypto
    → (stamp : ℕ) → List (Bytes × FecMetadata)
    → (global_seq : ℕ) → List (ℕ × Bytes)
    → Type 0
IsNumbered aead crypto stamp [] global_seq sent = sent ≡ []
IsNumbered aead crypto stamp (x ∷ xs) global_seq sent =
    (first : List (ℕ × Bytes)) × (rest : List (ℕ × Bytes)) × (sent ≡ first ++ rest)
    × All (λ d. IsPacketOf aead crypto stamp x global_seq d.1) first
    × IsNumbered aead crypto stamp xs (global_seq + 1) rest

module _ {Float : Type 0} (fl : FloatOps Float) where
  module _ {Ident : Type 0} where
    finish_result_fields :
        (r : Readings Float) (c : TunnelClient Float Ident)
        → let c' = finish_result fl r c in
          (c'.sockets ≡ c.sockets) × (c'.global_seq ≡ c.global_seq + 1) × (c'.crypto ≡ c.crypto)
    unfolding finish_result save_session reset_tiers
    finish_result_fields r c = ground arith

    -- What sending the results of error correction does to the numbers.
    pub record Numbered (aead : Aead) (stamp : ℕ) (results : List (Bytes × FecMetadata))
        (c : TunnelClient Float Ident) (e : Sending Float Ident) : Type 0 where
      pub datagrams : IsNumbered aead c.crypto stamp results c.global_seq e.sent
      pub on_open : OnOpen c.sockets e.sent
      pub sockets_same : e.client.sockets ≡ c.sockets
      pub numbered : e.client.global_seq ≡ c.global_seq + length results
      pub crypto_same : e.client.crypto ≡ c.crypto

    module _ (fm : FloatMath Float) (scipy_cdf : Option (Float → Float → Float → Float)) where
      -- Whatever the scheduler decides, the pacer and the budgets refuse, and the sockets answer: each
      -- result of error correction takes the next global number, data and parity alike, whether it is
      -- sent or not, and the datagrams that are sent for it are packets (sealed, with encryption on)
      -- with that number, so that no two results share one; and every datagram goes out on an open
      -- path.
      pub send_results-Numbered :
          (aead : Aead) (r : Readings Float) (tier : Tier) (results : List (Bytes × FecMetadata))
          (outcomes : List Outcome) (c : TunnelClient Float Ident) (e : Sending Float Ident)
          → send_results fl fm scipy_cdf aead r tier results outcomes c ≡ ok e
          → Numbered aead r.stamp results c e
      unfolding send_results
      send_results-Numbered aead r tier [] outcomes c e h = rw (← ok-injective h) (record {
        datagrams = refl;
        on_open = tt;
        sockets_same = refl;
        numbered = omega arith;
        crypto_same = refl;
      })
      send_results-Numbered aead r tier (x ∷ xs) outcomes c e h =
          let d =
            schedule fl fm scipy_cdf r.now c.global_seq tier c.monitor c.predictor c.scheduler in
          let c' : TunnelClient Float Ident = record c {
            scheduler = d.1;
            monitor = d.2;
            predictor = d.3;
          } in
          let (one, p, h1) =
            >>=-eq-ok
              (send_assignments fl aead r tier x d.0.assignments d.0.assignments outcomes c') _
              {final = e} h in
          let (others, q, h2) =
            >>=-eq-ok
              (send_results fl fm scipy_cdf aead r tier xs one.outcomes
                (finish_result fl r one.client))
              _ {final = e} h1 in
          let s =
            send_assignments-SentOn fl aead r tier x d.0.assignments d.0.assignments outcomes c' one
              p in
          let f = finish_result_fields r one.client in
          let t =
            send_results-Numbered aead r tier xs one.outcomes (finish_result fl r one.client) others
              q in
          rw (← ok-injective h2) (record {
            datagrams = (
              one.sent,
              others.sent,
              refl,
              s.made,
              rw (f.1, f.2, s.seq_same, s.crypto_same) at t.datagrams,
            );
            on_open =
                All-append (λ d. elem d.0 c.sockets ≡ true) one.sent others.sent s.on_open
                  (rw (f.0, s.sockets_same) at t.on_open);
            sockets_same = t.sockets_same ∙ f.0 ∙ s.sockets_same;
            numbered = omega (arith, t.numbered, f.1, s.seq_same);
            crypto_same = t.crypto_same ∙ f.2 ∙ s.crypto_same;
          })
