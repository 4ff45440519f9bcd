-- ===== src/Fec/Xor/Tests.antt =====
-- Runs of the XOR encoder and decoder at concrete inputs.
use mathlib.Core.List.Perm
use ratan_engine.Prelude.{
  ℕ, ◌+◌, ◌-◌, ◌*◌, ◌/◌, ◌^◌, ◌≡◌, refl, Bool, true, false, Option, none, some, List, [], ◌∷◌, ◌++◌,
  arith, ltb, length, replicate, ok, raise, value_error, index_error, All, subst,
}
use ratan_engine.Prelude.Bytes.{Bytes, IsBytes, from_bytes, to_bytes, be_bytes, le_bytes, le_value}
use ratan_engine.Prelude.Dict.{elem, insert, lookup, remove, add_elem, minus}
use ratan_engine.Prelude.Floats.{FloatOps}
use ratan_engine.Fec.Xor.{xor_bytes, encode_group, decode_recover, can_recover}
use ratan_engine.Fec.Xor.Bytewise.{xor_pad, xor_bytes-eq-xor_pad}
use ratan_engine.Fec.Xor.Parity.{IsParity, xor_fold, xor_group-IsParity, decode_recover-IsParity}
use ratan_engine.Fec.Xor.Encoder.{XorFecEncoder, Added}
use ratan_engine.Fec.Xor.Encoder.Stream.{IsOpen, position, Numbered, feed, feed-Numbered}
use ratan_engine.Fec.Xor.Decoder.{
  XorFecDecoder, new_decoder, receive_packet, try_recover, store_packet, stamp_group, cleanup_group,
  mark_delivered, expire_groups,
}
use ratan_engine.Fec.Xor.Decoder.Valid.{IsGroup, bytes_only, IsValid, new_decoder-IsValid}
use ratan_engine.Fec.Xor.Decoder.Receive.{receive_packet-IsValid}
use ratan_engine.Fec.Xor.Decoder.Recover.{Sent, genuine, IsCorrect}
use ratan_engine.Fec.Xor.Decoder.Delivery.{Arrived, receive_all, receive_all_recovers}
use ratan_engine.Fec.Xor.Decoder.Expire.{unless, is_stale, expire_groups_lem}

-- Whole numbers in place of floats.
abbrev clock : FloatOps ℕ
clock = record {
  of_ℕ = λ n. n;
  decimal = λ n k. n / 10 ^ k;
  add = λ a b. a + b;
  sub = λ a b. a - b;
  mul = λ a b. a * b;
  div = λ a b. a / b;
  lt = ltb;
}

abbrev first : Bytes
first = 1 ∷ 2 ∷ []

abbrev second : Bytes
second = 3 ∷ []

abbrev group : List Bytes
group = first ∷ second ∷ []

abbrev parity_bytes : Bytes
parity_bytes = 2 ∷ 2 ∷ []

group-IsBytes : All IsBytes group
group-IsBytes = omega arith

group-IsParity : IsParity group (xor_fold first (second ∷ []))
group-IsParity = (xor_group-IsParity first (second ∷ []) group-IsBytes).1

abbrev sent_group : Sent 2
sent_group = record {
  packets = group;
  parity = xor_fold first (second ∷ []);
  sized = refl;
  bytes = group-IsBytes;
  is_parity = group-IsParity;
}

abbrev sent : ℕ → Sent 2
sent g = sent_group

encode-group : encode_group 2 group ≡ ok parity_bytes
unfolding encode_group xor_bytes to_bytes from_bytes be_bytes le_bytes le_value
encode-group = refl

encode_group_errors :
    (encode_group 3 group ≡ raise value_error) × (encode_group 0 [] ≡ raise index_error)
unfolding encode_group
encode_group_errors = (refl, refl)

abbrev arrivals : List (Arrived ℕ)
arrivals =
    record { now = 5; group = 0; index = 1; is_parity = false; payload = second; original_len = 0 }
    ∷ record {
      now = 6;
      group = 0;
      index = 2;
      is_parity = true;
      payload = xor_fold first (second ∷ []);
      original_len = 0;
    }
    ∷ []

-- The packet that is missing comes out of the second arrival.
receive-arrivals :
    elim (receive_all arrivals (new_decoder 2 500)) [ ok r ↦ r.0 | raise e ↦ [] ]
    ≡ (0, none) ∷ (0, some (0, first)) ∷ []
unfolding receive_all receive_packet try_recover store_packet stamp_group cleanup_group
    mark_delivered can_recover decode_recover xor_bytes to_bytes from_bytes be_bytes le_bytes
    le_value lookup insert remove elem minus add_elem xor_pad
receive-arrivals = refl

xor_bytes-eq-xor_pad_example : xor_bytes first second ≡ ok parity_bytes
unfolding xor_pad
xor_bytes-eq-xor_pad_example = xor_bytes-eq-xor_pad first second (omega arith) (omega arith)

decode_recover-IsParity_example :
    decode_recover ((0, first) ∷ []) (xor_fold first (second ∷ [])) 1
    ≡ ok (second ++ replicate (length (xor_fold first (second ∷ [])) - 1) 0)
decode_recover-IsParity_example =
    decode_recover-IsParity group ((0, first) ∷ []) 1 second (xor_fold first (second ∷ []))
      group-IsParity (omega arith) (Perm.swap first second [])

abbrev encoder : XorFecEncoder
encoder = record { group_size = 2; current_group = first ∷ []; group_id = 4 }

encoder-IsOpen : IsOpen encoder
encoder-IsOpen = omega arith

feed-Numbered_example :
    (added : List Added) × (e' : XorFecEncoder) × (feed group encoder ≡ ok (added, e'))
    × Numbered 2 (position encoder) added
    × IsOpen e'
    × (position e' ≡ position encoder + 2)
feed-Numbered_example = feed-Numbered group encoder encoder-IsOpen group-IsBytes

receive_packet-IsValid_example :
    (out : Option (ℕ × Bytes)) × (d' : XorFecDecoder ℕ) × (receive_packet 5 0 1 false second 0
        (new_decoder 2 500)
      ≡ ok (out, d'))
    × IsValid (bytes_only 2) d'
receive_packet-IsValid_example =
    receive_packet-IsValid 2 5 0 1 false second 0 (new_decoder 2 500)
      (new_decoder-IsValid (bytes_only 2) 500) (omega arith)

receive_all_recovers_example :
    (outs : List (ℕ × Option (ℕ × Bytes))) × (d' : XorFecDecoder ℕ) × (receive_all arrivals
        (new_decoder 2 500)
      ≡ ok (outs, d'))
    × All (λ o. IsCorrect sent o.0 o.1) outs
    × IsValid (genuine sent) d'
receive_all_recovers_example =
    receive_all_recovers sent arrivals (new_decoder 2 500) (new_decoder-IsValid (genuine sent) 500)
      (refl, (refl, tt))

-- One packet of group 0, which arrived at time 5.
abbrev holding : XorFecDecoder ℕ
holding = record {
  group_size = 2;
  timeout_ms = 500000;
  groups = (0, (1, second) ∷ []) ∷ [];
  parities = [];
  timestamps = (0, 5) ∷ [];
  payload_lens = (0, (1, 1) ∷ []) ∷ [];
  delivered = 7 ∷ [];
  max_active_groups = 256;
  recoveries = 1;
}

second-IsGroup : IsGroup ((1, second) ∷ [])
unfolding elem
second-IsGroup = record { bytes = omega arith; distinct = (refl, tt) }

holding-IsValid : IsValid (bytes_only 2) holding
unfolding lookup elem
holding-IsValid = record {
  size_ok = refl;
  stamps_distinct = (refl, tt);
  lens_match = λ g. ground arith;
  stamped_groups = λ g h. ground (arith, h);
  stamped_parities = λ g h. absurd (ground (arith, h));
  closed = λ g h. ground (arith, h);
  positive = omega arith;
  bounded = omega arith;
  group_ok =
      λ g r h. let e : (1, second) ∷ [] ≡ r = ground (arith, h) in subst IsGroup e second-IsGroup;
  parity_ok = λ g p h. absurd (ground (arith, h));
}

abbrev before_400 : ℕ → Bool
before_400 ts = ltb ts (900 - 500000 / 1000)

expire_groups_lem_example :
    let (expired, d') = expire_groups clock 900 holding in
    IsValid (bytes_only 2) d'
    × (d'.delivered ≡ 7 ∷ [])
    × ((g : ℕ)
        → (elem g expired ≡ is_stale before_400 g holding.timestamps)
          × (lookup g d'.groups
              ≡ unless (is_stale before_400 g holding.timestamps) (lookup g holding.groups))
          × (lookup g d'.parities ≡ unless (is_stale before_400 g holding.timestamps) (lookup g []))
          × (lookup g d'.timestamps
              ≡ unless (is_stale before_400 g holding.timestamps) (lookup g holding.timestamps))
          × (lookup g d'.payload_lens
              ≡ unless (is_stale before_400 g holding.timestamps) (lookup g holding.payload_lens)))
expire_groups_lem_example = expire_groups_lem clock (bytes_only 2) 900 holding holding-IsValid
