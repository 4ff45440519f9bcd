-- ===== src/Tunnel/Server/Receive.antt =====
-- What the receiver of hyperagg/tunnel/server.py delivers: parity packets take a number of their own
-- and are not put in order.
use ratan_engine.Prelude.{
  ℕ, ◌≡◌, ◌≢◌, ◌⊎◌, inl, inr, refl, ap, ◌∙◌, true, Option, none, some, List, [], ◌∷◌, ◌++◌, arith,
  Result, ok, ◌>>=◌, >>=-eq-ok, ok-injective, All, Bool-cases,
}
use ratan_engine.Prelude.Bytes.{Bytes}
use ratan_engine.Packet.{HyperAggPacket, is_fec_parity}
use ratan_engine.Crypto.{Aead}
use ratan_engine.Fec.Rs.{RsCodec}
use ratan_engine.Fec.Engine.{FecEngine}
use ratan_engine.Reorder.{AdaptiveReorderBuffer, is_duplicate}
use ratan_engine.Reorder.Valid.{IsValid}
use ratan_engine.Reorder.Gap.{AnyPayload, insert-gap}
use ratan_engine.Tunnel.Frames.{open_payload}
use ratan_engine.Tunnel.Server.{TunnelServer, Effect, Addr, touch_session, get_or_create_session}
use ratan_engine.Tunnel.Server.Arrive.{
  decode_payload, deliver_payload, receive_payload, receive_data, receive_opened, receive_known,
}

-- An arriving data or parity packet, with the time and the address
pub record Arrival (Float : Type 0) : Type 0 where
  pub now : Float
  pub addr : Addr
  pub packet : HyperAggPacket

module _ {Float : Type 0} where
  -- What no packet changes while the next number is missing.
  pub record Stalled (s s' : TunnelServer Float) : Type 0 where
    pub delivered_same : s'.packets_received ≡ s.packets_received
    pub next_same : s'.reorder.next_seq ≡ s.reorder.next_seq
    pub valid : IsValid AnyPayload s'.reorder

  touch-reorder :
      (now : Float) (addr : Addr) (path_id : ℕ) (s : TunnelServer Float)
      → ((touch_session now addr path_id s).reorder ≡ s.reorder)
        × ((touch_session now addr path_id s).packets_received ≡ s.packets_received)
  unfolding touch_session get_or_create_session
  touch-reorder now addr path_id s = ground arith

  deliver_payload-Stalled :
      (now : Float) (p : HyperAggPacket) (payload : Bytes) (recovered : List (ℕ × Bytes))
      (fec : FecEngine Float) (s : TunnelServer Float)
      → IsValid AnyPayload s.reorder
      → (is_fec_parity p ≡ true) ⊎ (p.global_seq ≢ s.reorder.next_seq)
      → Stalled s (deliver_payload now p payload recovered fec s).server
  unfolding deliver_payload
  deliver_payload-Stalled now p payload recovered fec s v other =
      elim (Bool-cases (is_fec_parity p)) [
        | inl parity ↦ rw parity (record { delivered_same = refl; next_same = refl; valid = v })
        | inr plain ↦
            let gap : p.global_seq ≢ s.reorder.next_seq = elim other [
              | inl parity ↦ absurd (ground (arith, parity, plain))
              | inr h ↦ h
            ] in
            let (out, same, v') = insert-gap now p.global_seq payload s.reorder gap v in
            rw plain
              (record { delivered_same = rw out (omega arith); next_same = same; valid = v' })
      ]

  receive_payload-Stalled :
      (codec : RsCodec) (now : Float) (p : HyperAggPacket) (payload : Bytes)
      (s : TunnelServer Float) (e : Effect Float)
      → IsValid AnyPayload s.reorder
      → (is_fec_parity p ≡ true) ⊎ (p.global_seq ≢ s.reorder.next_seq)
      → receive_payload codec now p payload s ≡ ok e
      → Stalled s e.server
  unfolding receive_payload
  receive_payload-Stalled codec now p payload s e v other h =
      let (decoded, d, f) =
        >>=-eq-ok (decode_payload codec now p payload s)
          (λ r. ok (deliver_payload now p payload r.0 r.1 s)) {final = e} h in
      rw (← ok-injective f) (deliver_payload-Stalled now p payload decoded.0 decoded.1 s v other)

  receive_opened-Stalled :
      (codec : RsCodec) (now : Float) (p : HyperAggPacket) (opened : Option Bytes)
      (s : TunnelServer Float) (e : Effect Float)
      → IsValid AnyPayload s.reorder
      → (is_fec_parity p ≡ true) ⊎ (p.global_seq ≢ s.reorder.next_seq)
      → receive_opened codec now p opened s ≡ ok e
      → Stalled s e.server
  unfolding receive_opened
  receive_opened-Stalled codec now p none s e v other h =
      rw (← ok-injective h) (record { delivered_same = refl; next_same = refl; valid = v })
  receive_opened-Stalled codec now p (some payload) s e v other h =
      receive_payload-Stalled codec now p payload s e v other h

  receive_known-Stalled :
      (aead : Aead) (codec : RsCodec) (now : Float) (p : HyperAggPacket) (s : TunnelServer Float)
      (e : Effect Float)
      → IsValid AnyPayload s.reorder
      → (is_fec_parity p ≡ true) ⊎ (p.global_seq ≢ s.reorder.next_seq)
      → receive_known aead codec now p s ≡ ok e
      → Stalled s e.server
  unfolding receive_known
  receive_known-Stalled aead codec now p s e v other h =
      elim (Bool-cases (is_duplicate p.global_seq s.reorder)) [
        | inl again ↦
            rw (← ok-injective (rw again at h))
              (record { delivered_same = refl; next_same = refl; valid = v })
        | inr fresh ↦
            receive_opened-Stalled codec now p (open_payload aead s.crypto p) s e v other
              (rw fresh at h)
      ]

  receive_data-Stalled :
      (aead : Aead) (codec : RsCodec) (now : Float) (p : HyperAggPacket) (addr : Addr)
      (s : TunnelServer Float) (e : Effect Float)
      → IsValid AnyPayload s.reorder
      → (is_fec_parity p ≡ true) ⊎ (p.global_seq ≢ s.reorder.next_seq)
      → receive_data aead codec now p addr s ≡ ok e
      → Stalled s e.server
  unfolding receive_data
  receive_data-Stalled aead codec now p addr s e v other h =
      let s' : TunnelServer Float = touch_session now addr p.path_id s in
      let (r, n) = touch-reorder now addr p.path_id s in
      let t = receive_known-Stalled aead codec now p s' e (rw r v) (rw r other) h in
      record {
        delivered_same = t.delivered_same ∙ n;
        next_same = t.next_same ∙ ap (λ (b : AdaptiveReorderBuffer Float). b.next_seq) r;
        valid = t.valid;
      }

  -- The packets one after the other, with what is written to the TUN device
  unfoldable pub receive_all :
      Aead
      → RsCodec
      → List (Arrival Float)
      → TunnelServer Float
      → Result (List Bytes × TunnelServer Float)
  receive_all aead codec [] s = ok ([], s)
  receive_all aead codec (a ∷ xs) s = do
    e ← receive_data aead codec a.now a.packet a.addr s
    rest ← receive_all aead codec xs e.server
    ok (e.written ++ rest.0, rest.1)

  -- A parity packet, or one whose number is not `n`
  abbrev pub Misses : ℕ → Arrival Float → Type 0
  Misses n a = (is_fec_parity a.packet ≡ true) ⊎ (a.packet.global_seq ≢ n)

  -- While the next number of the reorder buffer is missing, nothing is delivered in order, however
  -- many packets arrive: parity packets, also one with that very number, and data packets with other
  -- numbers leave the count of delivered packets and the next number as they are.
  pub receive_all-Stalled :
      (aead : Aead) (codec : RsCodec) (xs : List (Arrival Float)) (s s' : TunnelServer Float)
      (written : List Bytes)
      → IsValid AnyPayload s.reorder
      → All (Misses s.reorder.next_seq) xs
      → receive_all aead codec xs s ≡ ok (written, s')
      → (s'.packets_received ≡ s.packets_received) × (s'.reorder.next_seq ≡ s.reorder.next_seq)
  unfolding receive_all
  receive_all-Stalled aead codec [] s s' written v m h =
      ground (arith, ap (λ (r : List Bytes × TunnelServer Float). r.1) (ok-injective h))
  receive_all-Stalled aead codec (a ∷ xs) s s' written v m h =
      let (e, d, f) =
        >>=-eq-ok (receive_data aead codec a.now a.packet a.addr s)
          (λ e. receive_all aead codec xs e.server >>= λ rest. ok (e.written ++ rest.0, rest.1))
          {final = (written, s')} h in
      let (rest, g, k) =
        >>=-eq-ok (receive_all aead codec xs e.server) (λ rest. ok (e.written ++ rest.0, rest.1))
          {final = (written, s')} f in
      let t = receive_data-Stalled aead codec a.now a.packet a.addr s e v m.0 d in
      let ih =
        receive_all-Stalled aead codec xs e.server rest.1 rest.0 t.valid (rw t.next_same m.1) g in
      let same : rest.1 ≡ s' = ap (λ (r : List Bytes × TunnelServer Float). r.1) (ok-injective k) in
      rw (← same) (ih.0 ∙ t.delivered_same, ih.1 ∙ t.next_same)
