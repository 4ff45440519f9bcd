-- ===== src/Fec/Xor/Decoder/Recover.antt =====
-- What `XORFecDecoder` (hyperagg/fec/xor_fec.py) recovers when the packets of a group are the sender's.
use mathlib.Core.List.Perm
use mathlib.Core.List.{Perm}
use mathlib.Core.Path.{subst₂}
use ratan_engine.Prelude.{
  ℕ, zero, suc, ◌+◌, ◌-◌, ◌<◌, ◌≡◌, refl, sym, ap, ap₂, ◌∙◌, subst, Bool, true, false, Option, none,
  some, List, [], ◌∷◌, ◌++◌, map, arith, ltb, leb, ◌==◌, ok-injective, ◌&&◌, if◌then◌else◌, length,
  All, Bool-cases, inl, inr, get_elem?, get_or, range_from, replicate,
}
use ratan_engine.Prelude.Bytes.{Bytes, IsBytes}
use ratan_engine.Prelude.Dict.{
  Dict, elem, keys, values, insert, elem-minus, Distinct, All-values-insert, insert-Distinct,
}
use ratan_engine.Prelude.Distinct.{
  perm_of_elem, elem-range_from, range_from-Distinct, map-get_or-range_from,
}
use ratan_engine.Fec.Xor.{missing_indices}
use ratan_engine.Fec.Xor.Parity.{IsParity, others, decode_recover-IsParity}
use ratan_engine.Fec.Xor.Decoder.Valid.{IsGroup, Contents}
use ratan_engine.Fec.Xor.Decoder.Receive.{Recovered, Arrival}

-- The received packets are the sender's, each under its index.
abbrev pub Honest : List Bytes → Dict Bytes → Type 0
Honest packets [] = Unit
Honest packets ((i, p) ∷ received) = (get_elem? packets i ≡ some p) × Honest packets received

get_or-get_elem? :
    (packets : List Bytes) (i : ℕ) (p : Bytes)
    → get_elem? packets i ≡ some p
    → get_or packets i [] ≡ p
get_or-get_elem? [] i p h = cc
get_or-get_elem? (q ∷ packets) zero p h = cc
get_or-get_elem? (q ∷ packets) (suc i) p h = get_or-get_elem? packets i p h

get_elem?-lt :
    (packets : List Bytes) (i : ℕ) (p : Bytes) → get_elem? packets i ≡ some p → i < length packets
get_elem?-lt [] i p h = cc
get_elem?-lt (q ∷ packets) zero p h = omega arith
get_elem?-lt (q ∷ packets) (suc i) p h = omega (arith, get_elem?-lt packets i p h)

get_elem?_of_lt :
    (packets : List Bytes) (i : ℕ)
    → i < length packets
    → get_elem? packets i ≡ some (get_or packets i [])
get_elem?_of_lt [] i h = absurd (omega arith)
get_elem?_of_lt (q ∷ packets) zero h = refl
get_elem?_of_lt (q ∷ packets) (suc i) h = get_elem?_of_lt packets i (omega arith)

map-Honest :
    (packets : List Bytes) (received : Dict Bytes)
    → Honest packets received
    → map (λ i. get_or packets i []) (keys received) ≡ values received
map-Honest packets [] h = refl
map-Honest packets ((i, p) ∷ received) h =
    ap₂ ◌∷◌ (get_or-get_elem? packets i p h.0) (map-Honest packets received h.1)

Honest-lt :
    (packets : List Bytes) (received : Dict Bytes) (k : ℕ)
    → Honest packets received
    → elem k (keys received) ≡ true
    → k < length packets
unfolding elem
Honest-lt packets [] k h e = absurd (ground (arith, e))
Honest-lt packets ((i, p) ∷ received) k h e =
    ground (arith, e, get_elem?-lt packets i p h.0, Honest-lt packets received k h.1)

others_absent :
    (m : ℕ) (received : Dict Bytes)
    → elem m (keys received) ≡ false
    → others m received ≡ values received
unfolding elem
others_absent m [] h = refl
others_absent m ((i, p) ∷ received) h = ground (arith, h, others_absent m received)

-- An index is missing if it is below the group's size and was not received.
missing_fact :
    (n m : ℕ) (received : List ℕ) (k : ℕ)
    → missing_indices n received ≡ m ∷ []
    → (if elem k received then false else (leb 0 k && ltb k (0 + n)))
      ≡ (if m == k then true else false)
missing_fact n m received k e =
    ap (λ (b : Bool). if elem k received then false else b) (sym (elem-range_from k 0 n))
    ∙ sym (elem-minus k (range_from 0 n) received)
    ∙ ap (elem k) e
    ∙ unfold elem in refl

missing_absent :
    (n m : ℕ) (received : List ℕ)
    → missing_indices n received ≡ m ∷ []
    → (elem m received ≡ false) × (m < n)
missing_absent n m received e = ground (arith, missing_fact n m received m e)

all_but_one :
    (packets : List Bytes) (m : ℕ) (received : Dict Bytes)
    → Honest packets received
    → missing_indices (length packets) (keys received) ≡ m ∷ []
    → (k : ℕ) → elem k (m ∷ keys received) ≡ elem k (range_from 0 (length packets))
all_but_one packets m received h e k = rw elem-range_from (
    unfold elem in
    ground (
      arith,
      missing_fact (length packets) m (keys received) k e,
      missing_absent (length packets) m (keys received) e,
      Honest-lt packets received k h,
    ))

-- With the one that is missing, the received packets are the group.
recovered_perm :
    (packets : List Bytes) (m : ℕ) (received : Dict Bytes)
    → Honest packets received
    → Distinct (keys received)
    → missing_indices (length packets) (keys received) ≡ m ∷ []
    → Perm (get_or packets m [] ∷ others m received) packets
recovered_perm packets m received h distinct e =
    let absent = missing_absent (length packets) m (keys received) e in
    let indices : Perm (m ∷ keys received) (range_from 0 (length packets)) =
      perm_of_elem (m ∷ keys received) (range_from 0 (length packets)) (absent.0, distinct)
        (range_from-Distinct 0 (length packets)) (all_but_one packets m received h e) in
    subst₂ Perm
      (ap (◌∷◌ (get_or packets m []))
        (map-Honest packets received h ∙ sym (others_absent m received absent.0)))
      (map-get_or-range_from [] packets) (Perm.map (λ i. get_or packets i []) indices)

Honest-insert :
    (packets : List Bytes) (i : ℕ) (p : Bytes) (received : Dict Bytes)
    → get_elem? packets i ≡ some p
    → Honest packets received
    → Honest packets (insert i p received)
unfolding insert
Honest-insert packets i p [] e h = (e, tt)
Honest-insert packets i p ((j, q) ∷ received) e h = elim (Bool-cases (j == i)) [
  | inl same ↦
      let k : i ≡ j = ground (arith, same) in
      rw same (subst (λ (x : ℕ). get_elem? packets x ≡ some p) k e, h.1)
  | inr other ↦ rw other (h.0, Honest-insert packets i p received e h.1)
]

-- What the sender made of a group.
pub record Sent (n : ℕ) : Type 0 where
  pub packets : List Bytes
  pub parity : Bytes
  pub sized : length packets ≡ n
  pub bytes : All IsBytes packets
  pub is_parity : IsParity packets parity

get_elem?-IsBytes :
    (packets : List Bytes) (i : ℕ) (p : Bytes)
    → All IsBytes packets
    → get_elem? packets i ≡ some p
    → IsBytes p
get_elem?-IsBytes [] i p h e = cc
get_elem?-IsBytes (q ∷ packets) zero p h e = let k : q ≡ p = cc in subst IsBytes k h.0
get_elem?-IsBytes (q ∷ packets) (suc i) p h e = get_elem?-IsBytes packets i p h.1 e

module _ {n : ℕ} (sent : ℕ → Sent n) where
  -- The decoder holds nothing but what was sent.
  abbrev pub genuine : Contents
  genuine = record {
    size = n;
    Holds = λ g r. IsGroup r × Honest (sent g).packets r;
    Parity = λ g p. p ≡ (sent g).parity;
    holds_empty = λ g. (record { bytes = tt; distinct = tt }, tt);
    group_of = λ g r h. h.0;
    bytes_of = λ g p e. subst IsBytes (sym e) (sent g).is_parity.bytes;
  }

  -- A packet of the sender's, as it arrives.
  abbrev pub IsSent : ℕ → ℕ → Bool → Bytes → Type 0
  IsSent g i true payload = payload ≡ (sent g).parity
  IsSent g i false payload = get_elem? (sent g).packets i ≡ some payload

  -- A recovered payload is the packet that was sent under its index, padded with zeros to the
  -- length of the group's longest.
  pub record IsOriginal (g m : ℕ) (recovered : Bytes) : Type 0 where
    pub original : Bytes
    pub was_sent : get_elem? (sent g).packets m ≡ some original
    pub padded : recovered ≡ original ++ replicate (length (sent g).parity - length original) 0

  abbrev pub IsCorrect : ℕ → Option (ℕ × Bytes) → Type 0
  IsCorrect g none = Unit
  IsCorrect g (some (m, recovered)) = IsOriginal g m recovered

  pub IsSent-Arrival :
      (g i : ℕ) (is_parity : Bool) (payload : Bytes)
      → IsSent g i is_parity payload
      → Arrival genuine g i is_parity payload
  IsSent-Arrival g i true payload h = h
  IsSent-Arrival g i false payload h = λ r (was, honest). (
    record {
      bytes =
          All-values-insert IsBytes i payload r
            (get_elem?-IsBytes (sent g).packets i payload (sent g).bytes h) was.bytes;
      distinct = insert-Distinct i payload r was.distinct;
    },
    Honest-insert (sent g).packets i payload r h honest,
  )

  pub Recovered-IsOriginal :
      (g m : ℕ) (recovered : Bytes) → Recovered genuine g m recovered → IsOriginal g m recovered
  Recovered-IsOriginal g m recovered r =
      let s = sent g in
      let missing : missing_indices (length s.packets) (keys r.received) ≡ m ∷ [] =
        ap (λ (k : ℕ). missing_indices k (keys r.received)) s.sized ∙ r.one_missing in
      let original = get_or s.packets m [] in
      let here : IsParity s.packets r.parity =
        subst (IsParity s.packets) (sym r.parity_holds) s.is_parity in
      record {
        original = original;
        was_sent =
            get_elem?_of_lt s.packets m
              (missing_absent (length s.packets) m (keys r.received) missing).1;
        padded =
            ok-injective (
              sym r.decoded
              ∙ decode_recover-IsParity s.packets r.received m original r.parity here
                  r.holds.0.bytes
                  (recovered_perm s.packets m r.received r.holds.1 r.holds.0.distinct missing))
            ∙ ap (λ (q : Bytes). original ++ replicate (length q - length original) 0)
                r.parity_holds;
      }
