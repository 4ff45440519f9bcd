-- ===== src/Fec/Xor/Decoder/Delivery.antt =====
-- Streams of packets through an `XORFecDecoder` (hyperagg/fec/xor_fec.py): any interleaving of any
-- groups, with losses, repeats and late arrivals.
use ratan_engine.Prelude.{
  ℕ, ◌≡◌, ◌≢◌, ◌⊎◌, refl, Bool, true, false, Option, none, some, List, [], ◌∷◌, length, Result, ok,
  ◌>>=◌, All, Bool-cases, inl, inr,
}
use ratan_engine.Prelude.Bytes.{Bytes}
use ratan_engine.Prelude.Dict.{elem, keys, contains, get_default}
use ratan_engine.Fec.Xor.{missing_indices}
use ratan_engine.Fec.Xor.Decoder.{XorFecDecoder, receive_packet}
use ratan_engine.Fec.Xor.Decoder.Valid.{IsValid}
use ratan_engine.Fec.Xor.Decoder.Receive.{Outcome, receive_packet-Returns, receive_packet_delivered}
use ratan_engine.Fec.Xor.Decoder.Recover.{
  Sent, genuine, IsSent, IsCorrect, IsSent-Arrival, Recovered-IsOriginal,
}

module _ {n : ℕ} {Float : Type 0} (sent : ℕ → Sent n) where
  correct :
      (g : ℕ) (out : Option (ℕ × Bytes)) (d' : XorFecDecoder Float)
      → Outcome (genuine sent) g out d'
      → IsCorrect sent g out
  correct g none d' o = tt
  correct g (some (m, recovered)) d' o = Recovered-IsOriginal sent g m recovered o

  -- Where nothing came back although the group is not delivered, recovery was not possible: the
  -- parity is not there, or the packets that are do not lack exactly one.
  abbrev pub IsWaiting : ℕ → XorFecDecoder Float → Type 0
  IsWaiting g d' =
      (contains g d'.parities ≡ false)
      ⊎ (length (missing_indices n (keys (get_default g [] d'.groups))) ≢ 1)

  abbrev pub IsComplete : ℕ → Option (ℕ × Bytes) → XorFecDecoder Float → Type 0
  IsComplete g none d' = IsWaiting g d'
  IsComplete g (some r) d' = Unit

  complete :
      (g : ℕ) (out : Option (ℕ × Bytes)) (d' : XorFecDecoder Float)
      → Outcome (genuine sent) g out d'
      → IsComplete g out d'
  complete g none d' o = o
  complete g (some r) d' o = tt

  -- A decoder that holds only what was sent, given one more packet of the sender's: no exception,
  -- it still holds only what was sent, and a payload that it recovers is the packet that was sent
  -- under that index, padded with zeros. If the group was not delivered before, nothing is
  -- recovered only where recovery is impossible.
  receive_packet_recovers :
      (now : Float) (g i : ℕ) (is_parity : Bool) (payload : Bytes) (len : ℕ)
      (d : XorFecDecoder Float)
      → IsValid (genuine sent) d
      → IsSent sent g i is_parity payload
      → (out : Option (ℕ × Bytes)) × (d' : XorFecDecoder Float) × (receive_packet now g i is_parity
            payload len d
          ≡ ok (out, d'))
        × IsValid (genuine sent) d'
        × IsCorrect sent g out
        × ((elem g d.delivered ≡ true) ⊎ IsComplete g out d')
  receive_packet_recovers now g i is_parity payload len d v h =
      elim (Bool-cases (elem g d.delivered)) [
        | inl old ↦
            (none, d, receive_packet_delivered now g i is_parity payload len d old, v, tt, inl old)
        | inr fresh ↦
            let (out, d', e, w, o) =
              receive_packet-Returns (genuine sent) now g i is_parity payload len d v fresh
                (IsSent-Arrival sent g i is_parity payload h) in
            (out, d', e, w, correct g out d' o, inr (complete g out d' o))
      ]

-- A packet as `receive_packet` gets it.
pub record Arrived (Float : Type 0) : Type 0 where
  pub now : Float
  pub group : ℕ
  pub index : ℕ
  pub is_parity : Bool
  pub payload : Bytes
  pub original_len : ℕ

-- A receiver's loop: what each arrival recovers, under its group.
unfoldable pub receive_all :
    {Float : Type 0}
    → List (Arrived Float)
    → XorFecDecoder Float
    → Result (List (ℕ × Option (ℕ × Bytes)) × XorFecDecoder Float)
receive_all [] d = ok ([], d)
receive_all (a ∷ rest) d = do
  (out, d') ← receive_packet a.now a.group a.index a.is_parity a.payload a.original_len d
  (outs, d'') ← receive_all rest d'
  ok ((a.group, out) ∷ outs, d'')

-- Whatever arrives of what was sent, in whatever order and however often, nothing is raised and
-- every recovered payload is the packet that was sent under its group and index, padded with zeros.
pub receive_all_recovers :
    {n : ℕ} {Float : Type 0} (sent : ℕ → Sent n) (arrivals : List (Arrived Float))
    (d : XorFecDecoder Float)
    → IsValid (genuine sent) d
    → All (λ a. IsSent sent a.group a.index a.is_parity a.payload) arrivals
    → (outs : List (ℕ × Option (ℕ × Bytes))) × (d' : XorFecDecoder Float) × (receive_all arrivals d
        ≡ ok (outs, d'))
      × All (λ o. IsCorrect sent o.0 o.1) outs
      × IsValid (genuine sent) d'
unfolding receive_all
receive_all_recovers sent [] d v h = ([], d, refl, tt, v)
receive_all_recovers sent (a ∷ rest) d v h =
    let (out, d', e, w, right, done) =
      receive_packet_recovers sent a.now a.group a.index a.is_parity a.payload a.original_len d v
        h.0 in
    let (outs, d'', e', rights, w') = receive_all_recovers sent rest d' w h.1 in
    ((a.group, out) ∷ outs, d'', rw (e, e'), (right, rights), w')
