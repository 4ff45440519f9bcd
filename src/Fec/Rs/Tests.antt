-- ===== src/Fec/Rs/Tests.antt =====
-- Runs of the Reed-Solomon functions with the simplest codec: one data byte and its copy.
use ratan_engine.Prelude.{
  ℕ, ◌≤◌, ◌≡◌, refl, false, true, List, [], ◌∷◌, ◌++◌, length, get_or, map, ok, raise,
  reed_solomon_error, arith, ap, if◌then◌else◌, ok-injective, Bool-cases, inl, inr,
}
use ratan_engine.Prelude.Bytes.{Bytes}
use ratan_engine.Prelude.Dict.{Dict, elem, lookup, minus, insert, remove, add_elem}
use ratan_engine.Fec.Rs.{
  RsCodec, ReedSolomonFec, encode, decode, encode_columns, decode_columns, codeword_byte,
  erasure_positions, longest, pad_to, can_recover,
}
use ratan_engine.Fec.Rs.Codec.{IsCodec}
use ratan_engine.Fec.Rs.Decode.{IsPart, decode-encode}
use ratan_engine.Fec.Rs.Encoder.{RsFecEncoder, new_encoder}
use ratan_engine.Fec.Rs.Decoder.{
  data_present, new_decoder, cleanup_group, finish_group, deliver_missing, try_recover, stamp_group,
  store_shard, receive_shard,
}
use ratan_engine.Fec.Rs.Decoder.Recover.{Group}

-- The copy, and the data from the byte that is not erased.
abbrev copy : RsCodec
copy = record {
  encode_column = λ nsym column. ok (column ++ column);
  decode_column = λ nsym received erased.
      ok ((if elem 0 erased then get_or received 1 0 else get_or received 0 0) ∷ []);
}

abbrev pair : ReedSolomonFec
pair = record { data_shards = 1; parity_shards = 1 }

abbrev packet : Bytes
packet = 7 ∷ 9 ∷ []

encode-packet : encode copy pair (packet ∷ []) ≡ ok (packet ∷ [])
unfolding encode encode_columns
encode-packet = refl

decode-packet : decode copy pair ((1, packet) ∷ []) ≡ ok (packet ∷ [])
unfolding decode decode_columns codeword_byte erasure_positions lookup minus elem
decode-packet = refl

decode_errors : decode copy pair [] ≡ raise reed_solomon_error
unfolding decode
decode_errors = refl

other_kept : (erased : List ℕ) → length erased ≤ 1 → elem 0 erased ≡ true → elem 1 erased ≡ false
unfolding elem
other_kept [] few h = refl
other_kept (x ∷ []) few h = ground (arith, h)
other_kept (x ∷ y ∷ erased) few h = absurd (omega arith)

copy_corrects :
    (column check received : Bytes) (erased : List ℕ)
    → length column ≡ 1
    → copy.encode_column 1 column ≡ ok (column ++ check)
    → length erased ≤ 1
    → ((i : ℕ) → elem i erased ≡ false → get_or received i 0 ≡ get_or (column ++ check) i 0)
    → copy.decode_column 1 received erased ≡ ok column
copy_corrects [] check received erased size e few same = absurd (omega arith)
copy_corrects (a ∷ b ∷ column) check received erased size e few same = absurd (omega arith)
copy_corrects (a ∷ []) check received erased size e few same =
    let twice : a ∷ a ∷ [] ≡ a ∷ check = ok-injective e in
    let second : a ≡ get_or (a ∷ check) 1 0 = ap (λ (c : Bytes). get_or c 1 0) twice in
    elim (Bool-cases (elem 0 erased)) [
      | inl gone ↦ ground (arith, gone, same 1 (other_kept erased few gone), second)
      | inr kept ↦ ground (arith, kept, same 0 kept)
    ]

copy-IsCodec : IsCodec copy 1 1
copy-IsCodec = record {
  encodes = λ column bytes size. (column, refl, size);
  corrects = λ column check received erased size e total distinct few same.
      copy_corrects column check received erased size e few same;
}

decode-encode_example :
    (parities : List Bytes) × (encode copy pair (packet ∷ []) ≡ ok parities)
    × (length parities ≡ 1)
    × ((shards : Dict Bytes)
        → IsPart pair (packet ∷ []) parities shards
        → decode copy pair shards ≡ ok (map (pad_to (longest (packet ∷ []))) (packet ∷ [])))
decode-encode_example =
    decode-encode copy pair (packet ∷ []) copy-IsCodec (omega arith) refl (omega arith)

abbrev encoder : RsFecEncoder
encoder = new_encoder 1 1

abbrev sent_group : Group copy pair
sent_group = record {
  blocks = packet ∷ [];
  parities = packet ∷ [];
  full = refl;
  encoded = record { count = refl; sizes = (refl, tt); codewords = λ col h. refl };
}

abbrev sent : ℕ → Group copy pair
sent g = sent_group

-- The parity alone gives the packet back.
receive-parity :
    (receive_shard {Float = ℕ} copy 5 3 1 packet (new_decoder {Float = ℕ} pair 500)).0
    ≡ (0, packet) ∷ []
unfolding receive_shard try_recover deliver_missing finish_group cleanup_group stamp_group
    store_shard can_recover decode decode_columns codeword_byte erasure_positions data_present
    lookup insert remove minus elem add_elem
receive-parity = refl
