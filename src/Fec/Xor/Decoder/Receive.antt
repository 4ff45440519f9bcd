-- ===== src/Fec/Xor/Decoder/Receive.antt =====
-- `receive_packet` and `_try_recover` of hyperagg/fec/xor_fec.py: no exception, and the invariant.
use ratan_engine.Prelude.{
  ℕ, ◌+◌, ◌≡◌, refl, sym, ap, Bool, true, false, Option, none, some, List, [], ◌∷◌, arith, ◌⊎◌, ◌≢◌,
  length, Result, ok, Bool-cases, Option-cases, inl, inr,
}
use ratan_engine.Prelude.Bytes.{Bytes, IsBytes}
use ratan_engine.Prelude.Dict.{
  Dict, elem, keys, lookup, insert, contains, get_default, lookup-insert, All-values-insert,
  insert-Distinct,
}
use ratan_engine.Fec.Xor.{missing_indices, can_recover, decode_recover}
use ratan_engine.Fec.Xor.Parity.{xor_fold, others, decode_recover-eq-xor_fold}
use ratan_engine.Fec.Xor.Decoder.{
  XorFecDecoder, cleanup_group, mark_delivered, recover_missing, try_recover, stamp_group,
  store_parity, open_group, store_packet, receive_packet,
}
use ratan_engine.Fec.Xor.Decoder.Valid.{
  Contents, bytes_only, IsValid, stamp_group-IsValid, store_parity-IsValid, open_group-IsValid,
  store_data-IsValid, finish_group-IsValid,
}

module _ (c : Contents) where
  -- What a recovery was made from: stored packets that lack one index, and the parity.
  pub record Recovered (g m : ℕ) (bytes : Bytes) : Type 0 where
    pub received : Dict Bytes
    pub parity : Bytes
    pub holds : c.Holds g received
    pub parity_holds : c.Parity g parity
    pub one_missing : missing_indices c.size (keys received) ≡ m ∷ []
    pub decoded : decode_recover received parity m ≡ ok bytes

  -- An arrival that may be stored.
  abbrev pub Arrival : ℕ → ℕ → Bool → Bytes → Type 0
  Arrival g i true payload = c.Parity g payload
  Arrival g i false payload = (r : Dict Bytes) → c.Holds g r → c.Holds g (insert i payload r)

module _ {Float : Type 0} (c : Contents) where
  abbrev Valid : XorFecDecoder Float → Type 0
  Valid = IsValid c

  -- A call for group `g` returned `out` and the state `d'`. With nothing recovered the group lacks
  -- its parity, or does not lack exactly one packet.
  abbrev pub Outcome : ℕ → Option (ℕ × Bytes) → XorFecDecoder Float → Type 0
  Outcome g none d' =
      (contains g d'.parities ≡ false)
      ⊎ (length (missing_indices c.size (keys (get_default g [] d'.groups))) ≢ 1)
  Outcome g (some (m, bytes)) d' = Recovered c g m bytes

  group_default-Holds :
      (g : ℕ) (d : XorFecDecoder Float) → Valid d → c.Holds g (get_default g [] d.groups)
  group_default-Holds g d v = elim (Option-cases (lookup g d.groups)) [
    | inl absent ↦ rw (absent, get_default) (c.holds_empty g)
    | inr (r, found) ↦ rw (found, get_default) (v.group_ok g r found)
  ]

  recover_missing_lem :
      (g : ℕ) (received : Dict Bytes) (parity : Bytes) (missing : List ℕ) (d : XorFecDecoder Float)
      → Valid d
      → c.Holds g received
      → c.Parity g parity
      → missing_indices c.size (keys received) ≡ missing
      → length missing ≡ 1
      → (m : ℕ) × (bytes : Bytes) × (d' : XorFecDecoder Float) × (recover_missing g received parity
            missing d
          ≡ ok (some (m, bytes), d'))
        × Valid d'
        × Recovered c g m bytes
  unfolding recover_missing
  recover_missing_lem g received parity [] d v r hp e one = absurd (omega arith)
  recover_missing_lem g received parity (m ∷ x ∷ rest) d v r hp e one = absurd (omega arith)
  recover_missing_lem g received parity (m ∷ []) d v r hp e one =
      let counted = record d { recoveries = d.recoveries + 1 } in
      let decoded =
        decode_recover-eq-xor_fold received parity m (c.bytes_of g parity hp)
          (c.group_of g received r).bytes in
      (
        m,
        xor_fold parity (others m received),
        cleanup_group g (mark_delivered g counted),
        rw decoded,
        finish_group-IsValid c g counted (record {
          size_ok = v.size_ok;
          stamps_distinct = v.stamps_distinct;
          lens_match = v.lens_match;
          stamped_groups = v.stamped_groups;
          stamped_parities = v.stamped_parities;
          closed = v.closed;
          positive = v.positive;
          bounded = v.bounded;
          group_ok = v.group_ok;
          parity_ok = v.parity_ok;
        }),
        record {
          received = received;
          parity = parity;
          holds = r;
          parity_holds = hp;
          one_missing = e;
          decoded = decoded;
        },
      )

  -- A result that is returned, with a state that keeps the invariant.
  abbrev pub Returns : ℕ → Result (Option (ℕ × Bytes) × XorFecDecoder Float) → Type 0
  Returns g r =
      (out : Option (ℕ × Bytes)) × (d' : XorFecDecoder Float) × (r ≡ ok (out, d'))
      × Valid d'
      × Outcome g out d'

  try_recover-Returns : (g : ℕ) (d : XorFecDecoder Float) → Valid d → Returns g (try_recover g d)
  unfolding try_recover
  try_recover-Returns g d v = elim (Option-cases (lookup g d.parities)) [
    | inl absent ↦ (none, d, ground (arith, absent), v, inl (ground (arith, absent)))
    | inr (parity, found) ↦
        let received = get_default g [] d.groups in
        let missing = missing_indices d.group_size (keys received) in
        elim (Bool-cases (can_recover d.group_size (keys received) true)) [
          | inl can ↦
              let one : length missing ≡ 1 = unfold can_recover in ground (arith, can) in
              let sized : missing_indices c.size (keys received) ≡ missing =
                ap (λ (n : ℕ). missing_indices n (keys received)) (sym v.size_ok) in
              let (m, bytes, d', e, w, rec) =
                recover_missing_lem g received parity missing d v (group_default-Holds g d v)
                  (v.parity_ok g parity found) sized one in
              (some (m, bytes), d', ground (arith, found, can, e), w, rec)
          | inr cannot ↦ (
            none,
            d,
            ground (arith, found, cannot),
            v,
            inr (λ one. absurd (unfold can_recover in ground (arith, cannot, one, v.size_ok))),
          )
        ]
  ]

  store_packet-Valid :
      (g i : ℕ) (is_parity : Bool) (payload : Bytes) (len : ℕ) (d : XorFecDecoder Float)
      → Valid d
      → contains g d.timestamps ≡ true
      → Arrival c g i is_parity payload
      → (d' : XorFecDecoder Float) × (store_packet g i is_parity payload len d ≡ ok d') × Valid d'
  unfolding store_packet
  store_packet-Valid g i true payload len d v stamped hp =
      (store_parity g payload d, refl, store_parity-IsValid c g payload d v stamped hp)
  store_packet-Valid g i false payload len d v stamped hp =
      let (w, opened) = open_group-IsValid c g d v stamped in
      let (d', e, w', same) =
        store_data-IsValid c g i payload len (open_group g d) w
          (unfold open_group in ground (arith, stamped)) opened hp in
      (d', e, w')

  -- For a group that is not delivered yet.
  pub receive_packet-Returns :
      (now : Float) (g i : ℕ) (is_parity : Bool) (payload : Bytes) (len : ℕ)
      (d : XorFecDecoder Float)
      → Valid d
      → elem g d.delivered ≡ false
      → Arrival c g i is_parity payload
      → Returns g (receive_packet now g i is_parity payload len d)
  unfolding receive_packet
  receive_packet-Returns now g i is_parity payload len d v fresh hp =
      let (d', e, w) =
        store_packet-Valid g i is_parity payload len (stamp_group g now d)
          (stamp_group-IsValid c g now d v fresh)
          (unfold stamp_group in ground (arith, lookup-insert g g now d.timestamps)) hp in
      rw (fresh, e) (try_recover-Returns g d' w)

module _ {Float : Type 0} where
  pub receive_packet_delivered :
      (now : Float) (g i : ℕ) (is_parity : Bool) (payload : Bytes) (len : ℕ)
      (d : XorFecDecoder Float)
      → elem g d.delivered ≡ true
      → receive_packet now g i is_parity payload len d ≡ ok (none, d)
  unfolding receive_packet
  receive_packet_delivered now g i is_parity payload len d old = rw old

bytes_Arrival :
    (n g i : ℕ) (is_parity : Bool) (payload : Bytes)
    → IsBytes payload
    → Arrival (bytes_only n) g i is_parity payload
bytes_Arrival n g i true payload hp = hp
bytes_Arrival n g i false payload hp = λ r h. record {
  bytes = All-values-insert IsBytes i payload r hp h.bytes;
  distinct = insert-Distinct i payload r h.distinct;
}

-- Receiving a byte string never raises, and keeps the invariant: whatever arrives in whatever
-- order, the bookkeeping of groups, lengths, parities and timestamps stays consistent, `_delivered`
-- stays within its bound and nothing is kept of a delivered group.
pub receive_packet-IsValid :
    {Float : Type 0} (n : ℕ) (now : Float) (g i : ℕ) (is_parity : Bool) (payload : Bytes) (len : ℕ)
    (d : XorFecDecoder Float)
    → IsValid (bytes_only n) d
    → IsBytes payload
    → (out : Option (ℕ × Bytes)) × (d' : XorFecDecoder Float) × (receive_packet now g i is_parity
          payload len d
        ≡ ok (out, d'))
      × IsValid (bytes_only n) d'
receive_packet-IsValid n now g i is_parity payload len d v hp =
    elim (Bool-cases (elem g d.delivered)) [
      | inl old ↦ (none, d, receive_packet_delivered now g i is_parity payload len d old, v)
      | inr fresh ↦
          let (out, d', e, w, o) =
            receive_packet-Returns (bytes_only n) now g i is_parity payload len d v fresh
              (bytes_Arrival n g i is_parity payload hp) in
          (out, d', e, w)
    ]
