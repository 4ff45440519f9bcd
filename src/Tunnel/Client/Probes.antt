-- ===== src/Tunnel/Client/Probes.antt =====
-- Handshake and keepalives of hyperagg/tunnel/client.py: what a probe measures, and what it does not
-- notice.
use ratan_engine.Prelude.{
  ℕ, ◌+◌, ◌-◌, ◌%◌, ◌^◌, ◌<◌, ◌≡◌, refl, sym, ap, ◌∙◌, Bool, true, false, List, [], ◌∷◌, ◌++◌,
  arith, All, Error, Result, ok, raise, ◌>>=◌, >>=-eq-ok, ok-injective, if◌then◌else◌, ltb, map,
}
use ratan_engine.Prelude.Bytes.{Bytes}
use ratan_engine.Prelude.Dict.{get_default}
use ratan_engine.Prelude.Floats.{FloatOps}
use ratan_engine.Packet.{HyperAggPacket, serialize, deserialize, create_keepalive, is_control}
use ratan_engine.Scheduler.Monitor.{PathMonitor, record_loss}
use ratan_engine.Tunnel.Client.{TunnelClient}
use ratan_engine.Tunnel.Client.Arrive.{rtt_us}
use ratan_engine.Tunnel.Client.Rounds.{Inbox, keepalive_round, wait_for_ack, handshake_with_retry}

-- Readings of the clock that are d microseconds apart, less than 2 ^ 32: the round trip is d where
-- the clock has not wrapped in between, and d - 1 where it has.
pub rtt_us_lem :
    (t1 d : ℕ)
    → t1 < 2 ^ 32
    → d < 2 ^ 32
    → rtt_us t1 ((t1 + d) % 2 ^ 32) ≡ (if ltb (t1 + d) (2 ^ 32) then d else d - 1)
unfolding rtt_us
rtt_us_lem t1 d h h' = ground arith

-- The paths whose sockets take, or refuse, a keepalive.
abbrev pub accepting : List ℕ → List Bool → List ℕ
accepting [] outcomes = []
accepting (k ∷ ks) [] = k ∷ accepting ks []
accepting (k ∷ ks) (true ∷ os) = k ∷ accepting ks os
accepting (k ∷ ks) (false ∷ os) = accepting ks os

abbrev pub refusing : List ℕ → List Bool → List ℕ
refusing [] outcomes = []
refusing (k ∷ ks) [] = refusing ks []
refusing (k ∷ ks) (true ∷ os) = refusing ks os
refusing (k ∷ ks) (false ∷ os) = k ∷ refusing ks os

-- A loss on each path, in turn
abbrev pub record_losses :
    {Float : Type 0} → FloatOps Float → Float → List ℕ → PathMonitor Float → PathMonitor Float
record_losses fl now [] m = m
record_losses fl now (k ∷ ks) m = record_losses fl now ks (record_loss fl now k m)

abbrev pub first_of : List (ℕ × Bytes) → List ℕ
first_of = map (λ d. d.0)

module _ {Float Ident : Type 0} (fl : FloatOps Float) where
  abbrev cons_sent :
      ℕ
      → Bytes
      → List (ℕ × Bytes) × TunnelClient Float Ident
      → List (ℕ × Bytes) × TunnelClient Float Ident
  cons_sent k wire (others, c) = ((k, wire) ∷ others, c)

  cons_ok :
      (k : ℕ) (packed : Result Bytes) (round : Result (List (ℕ × Bytes) × TunnelClient Float Ident))
      (sent : List (ℕ × Bytes)) (c' : TunnelClient Float Ident)
      → (packed >>= λ wire. round >>= λ others. ok (cons_sent k wire others)) ≡ ok (sent, c')
      → (others : List (ℕ × Bytes) × TunnelClient Float Ident) × (round ≡ ok others)
        × (first_of sent ≡ k ∷ first_of others.0)
        × (c' ≡ others.1)
  cons_ok k packed round sent c' h =
      let (wire, w, h1) = >>=-eq-ok packed _ {final = (sent, c')} h in
      let (others, o, h2) = >>=-eq-ok round _ {final = (sent, c')} h1 in
      let e = ok-injective h2 in
      (
        others,
        o,
        ap (λ (r : List (ℕ × Bytes) × TunnelClient Float Ident). first_of r.0) (sym e),
        ap (λ (r : List (ℕ × Bytes) × TunnelClient Float Ident). r.1) (sym e),
      )

  -- A round of keepalives sends one on every path whose socket takes it, in the order of the paths,
  -- and changes nothing in the client but the monitor, which books a loss for each path whose socket
  -- refuses. A keepalive that is sent and never answered leaves no trace.
  pub keepalive_round_lem :
      (now : Float) (stamp : ℕ) (paths : List ℕ) (outcomes : List Bool)
      (c c' : TunnelClient Float Ident) (sent : List (ℕ × Bytes))
      → keepalive_round fl now stamp paths outcomes c ≡ ok (sent, c')
      → (first_of sent ≡ accepting paths outcomes)
        × (c' ≡ record c { monitor = record_losses fl now (refusing paths outcomes) c.monitor })
  unfolding keepalive_round
  keepalive_round_lem now stamp [] outcomes c c' sent h =
      let e = ok-injective h in
      (
        ap (λ (r : List (ℕ × Bytes) × TunnelClient Float Ident). first_of r.0) (sym e),
        ap (λ (r : List (ℕ × Bytes) × TunnelClient Float Ident). r.1) (sym e),
      )
  keepalive_round_lem now stamp (k ∷ ks) [] c c' sent h =
      let (others, o, sent_first, same) =
        cons_ok k (serialize (create_keepalive stamp k (get_default k 0 c.path_seqs)))
          (keepalive_round fl now stamp ks [] c) sent c' h in
      let ih = keepalive_round_lem now stamp ks [] c others.1 others.0 o in
      (sent_first ∙ ap (λ (l : List ℕ). k ∷ l) ih.0, same ∙ ih.1)
  keepalive_round_lem now stamp (k ∷ ks) (true ∷ os) c c' sent h =
      let (others, o, sent_first, same) =
        cons_ok k (serialize (create_keepalive stamp k (get_default k 0 c.path_seqs)))
          (keepalive_round fl now stamp ks os c) sent c' h in
      let ih = keepalive_round_lem now stamp ks os c others.1 others.0 o in
      (sent_first ∙ ap (λ (l : List ℕ). k ∷ l) ih.0, same ∙ ih.1)
  keepalive_round_lem now stamp (k ∷ ks) (false ∷ os) c c' sent h =
      let (wire, w, h1) =
        >>=-eq-ok (serialize (create_keepalive stamp k (get_default k 0 c.path_seqs))) _
          {final = (sent, c')} h in
      keepalive_round_lem now stamp ks os (record c { monitor = record_loss fl now k c.monitor }) c'
        sent h1

-- A datagram that is a packet but not the acknowledgement
abbrev pub IsOther : (Bytes → Result Bool) → ℕ × Bytes → Type 0
IsOther is_ack d =
    (p : HyperAggPacket) × (deserialize d.1 ≡ ok p)
    × ((if is_control p then is_ack p.payload else ok false) ≡ ok false)

module _ {Float Ident : Type 0} where
  wait_for_ack-raises :
      (is_ack : Bytes → Result Bool) (before after : Inbox) (k : ℕ) (bytes : Bytes) (error : Error)
      (c : TunnelClient Float Ident)
      → All (IsOther is_ack) before
      → deserialize bytes ≡ raise error
      → wait_for_ack is_ack (before ++ (k, bytes) ∷ after) c ≡ raise error
  unfolding wait_for_ack
  wait_for_ack-raises is_ack [] after k bytes error c others h = rw h refl
  wait_for_ack-raises is_ack ((j, b) ∷ before) after k bytes error c (one, others) h =
      rw one.1
        (ground (arith, one.2, wait_for_ack-raises is_ack before after k bytes error c others h))

  -- A datagram that cannot be parsed, and that comes after packets only that are no acknowledgement
  -- (and raise no exception in the look at their text), ends the handshake with its exception, however
  -- many attempts are left and whatever would have come after it.
  pub handshake_with_retry-raises :
      (is_ack : Bytes → Result Bool) (before after : Inbox) (k : ℕ) (bytes : Bytes) (error : Error)
      (more : List Inbox) (c : TunnelClient Float Ident)
      → All (IsOther is_ack) before
      → deserialize bytes ≡ raise error
      → handshake_with_retry is_ack ((before ++ (k, bytes) ∷ after) ∷ more) c ≡ raise error
  unfolding handshake_with_retry
  handshake_with_retry-raises is_ack before after k bytes error more c others h =
      rw (wait_for_ack-raises is_ack before after k bytes error c others h) refl
