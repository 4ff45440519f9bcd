-- ===== src/Fec/Engine/Dispatch.antt =====
-- Which decoder of hyperagg/fec/fec_engine.py gets the packets of which encoder.
use ratan_engine.Prelude.{
  ℕ, suc, ◌+◌, ◌≤◌, ◌<◌, ◌≡◌, ◌≢◌, refl, Bool, none, some, List, [], ◌∷◌, ◌==◌, ok, >>=-eq-ok,
  length, ok-injective, arith, All, ap, sym, subst, ◌∙◌, Bool-cases, inl, inr,
}
use ratan_engine.Prelude.Bytes.{Bytes}
use ratan_engine.Fec.Rs.{RsCodec}
use ratan_engine.Fec.Rs.Encoder as RsEnc
use ratan_engine.Fec.Rs.Decoder as RsDec
use ratan_engine.Fec.Xor.Encoder as XorEnc
use ratan_engine.Fec.Xor.Decoder as XorDec
use ratan_engine.Fec.Mode.{Mode, xor, reed_solomon_heavy, reed_solomon}
use ratan_engine.Fec.Engine.{
  FecEngine, FecMetadata, heavy_data, encode_rs, encode_as, encode_as, number_parities,
  choose_decoder, light, decode_rs, decode_xor, decode_packet,
}

-- All packets have one group size.
abbrev pub OfSize : ℕ → List (Bytes × FecMetadata) → Type 0
OfSize size packets = All (λ p. p.1.fec_group_size ≡ size) packets

number_parities-OfSize :
    (g index size : ℕ) (ps : List Bytes) → OfSize size (number_parities g index size ps)
unfolding number_parities
number_parities-OfSize g index size [] = tt
number_parities-OfSize g index size (p ∷ ps) = (refl, number_parities-OfSize g (suc index) size ps)

encode_rs-OfSize :
    (codec : RsCodec) (payload : Bytes) (enc : RsEnc.RsFecEncoder)
    {packets : List (Bytes × FecMetadata)} {enc' : RsEnc.RsFecEncoder}
    → encode_rs codec payload enc ≡ ok (packets, enc')
    → OfSize (enc.fec.data_shards + enc.fec.parity_shards) packets
unfolding encode_rs
encode_rs-OfSize codec payload enc h =
    let (r, e1, e2) = >>=-eq-ok (RsEnc.add_packet codec payload enc) _ h in
    let parities : List Bytes = elim r.0.parity [ none ↦ [] | some parity_list ↦ parity_list ] in
    let size = enc.fec.data_shards + enc.fec.parity_shards in
    subst (λ (r : List (Bytes × FecMetadata) × RsEnc.RsFecEncoder). OfSize size r.0)
      (ok-injective e2)
      (refl, number_parities-OfSize r.0.fec_group_id enc.fec.data_shards size parities)

All-map-OfSize :
    {P : Bytes × FecMetadata → Type 0} (size : ℕ) (packets : List (Bytes × FecMetadata))
    → OfSize size packets
    → ((p : Bytes × FecMetadata) → p.1.fec_group_size ≡ size → P p)
    → All P packets
All-map-OfSize size [] h f = tt
All-map-OfSize size (p ∷ ps) h f = (f p h.0, All-map-OfSize size ps h.1 f)

module _ {Float : Type 0} where
  decode_xor_keeps :
      (now : Float) (g i : ℕ) (is_parity : Bool) (payload : Bytes) (e : FecEngine Float)
      {out : List (ℕ × Bytes)} {e' : FecEngine Float}
      → decode_xor now g i is_parity payload e ≡ ok (out, e')
      → e'.rs_heavy_decoder ≡ e.rs_heavy_decoder
  unfolding decode_xor
  decode_xor_keeps now g i is_parity payload e h =
      let (r, e1, e2) =
        >>=-eq-ok (XorDec.receive_packet now g i is_parity payload 0 e.xor_decoder) _ h in
      ap (λ (r : List (ℕ × Bytes) × FecEngine Float). r.1.rs_heavy_decoder) (sym (ok-injective e2))

  -- The encoders have the parameters of the configuration.
  pub record IsSetUp (e : FecEngine Float) : Type 0 where
    pub rs_data_is : e.rs_encoder.fec.data_shards ≡ e.rs_data
    pub rs_parity_is : e.rs_encoder.fec.parity_shards ≡ e.rs_parity
    pub heavy_data_is : e.rs_heavy_encoder.fec.data_shards ≡ heavy_data e.rs_data
    pub heavy_parity_is : e.rs_heavy_encoder.fec.parity_shards ≡ e.rs_parity + 2

  -- The group sizes of the three codes differ.
  pub record IsSeparate (e : FecEngine Float) : Type 0 where
    pub xor_light : e.xor_group_size + 1 ≢ e.rs_data + e.rs_parity
    pub xor_heavy : e.xor_group_size + 1 ≢ heavy_data e.rs_data + e.rs_parity + 2
    pub some_data : 0 < e.rs_data
    pub few_data : e.rs_data < 6

  module _ (codec : RsCodec) where
    -- A packet that was encoded in a mode goes to the decoder of this mode.
    abbrev pub RoutesBack : FecEngine Float → Mode → Bytes × FecMetadata → Type 0
    RoutesBack e xor p =
        (now : Float)
        → decode_packet codec now p.1.fec_group_id p.1.fec_index p.1.fec_group_size p.1.is_parity
            p.0 e
          ≡ decode_xor now p.1.fec_group_id p.1.fec_index p.1.is_parity p.0 e
    RoutesBack e reed_solomon p =
        (now : Float)
        → decode_packet codec now p.1.fec_group_id p.1.fec_index p.1.fec_group_size p.1.is_parity
            p.0 e
          ≡ (let (results, decoder) =
                RsDec.receive_shard codec now p.1.fec_group_id p.1.fec_index p.0 e.rs_decoder in
              ok (
                results,
                record e {
                  rs_decoder = decoder;
                  total_recoveries = e.total_recoveries + length results;
                },
              ))
    RoutesBack e reed_solomon_heavy p =
        (now : Float)
        → decode_packet codec now p.1.fec_group_id p.1.fec_index p.1.fec_group_size p.1.is_parity
            p.0 e
          ≡ (let (results, decoder) =
                RsDec.receive_shard codec now p.1.fec_group_id p.1.fec_index p.0
                  e.rs_heavy_decoder in
              ok (
                results,
                record e {
                  rs_heavy_decoder = decoder;
                  total_recoveries = e.total_recoveries + length results;
                },
              ))
    RoutesBack e _ p =
        (now : Float)
        → decode_packet codec now p.1.fec_group_id p.1.fec_index p.1.fec_group_size p.1.is_parity
            p.0 e
          ≡ ok ([], e)

    decode_rs_keeps :
        (e : FecEngine Float) (now : Float) (g i size : ℕ) (payload : Bytes)
        → 6 ≤ e.rs_data
        → (decode_rs codec now g i size payload e).1.rs_heavy_decoder ≡ e.rs_heavy_decoder
    unfolding decode_rs choose_decoder
    decode_rs_keeps e now g i size payload six =
        elim (Bool-cases (size == e.rs_data + e.rs_parity)) [
          | inl same ↦ ground (arith, same)
          | inr other ↦ ground (arith, other, six)
        ]

    kept_by :
        (e e' : FecEngine Float) (out : List (ℕ × Bytes)) (r : List (ℕ × Bytes) × FecEngine Float)
        → ok r ≡ ok (out, e')
        → r.1.rs_heavy_decoder ≡ e.rs_heavy_decoder
        → e'.rs_heavy_decoder ≡ e.rs_heavy_decoder
    kept_by e e' out r h same =
        ap (λ (r : List (ℕ × Bytes) × FecEngine Float). r.1.rs_heavy_decoder) (sym (ok-injective h))
        ∙ same

    decode_packet_keeps :
        (e : FecEngine Float) (now : Float) (g i size : ℕ) (is_parity : Bool) (payload : Bytes)
        (out : List (ℕ × Bytes)) (e' : FecEngine Float)
        → 6 ≤ e.rs_data
        → decode_packet codec now g i size is_parity payload e ≡ ok (out, e')
        → e'.rs_heavy_decoder ≡ e.rs_heavy_decoder
    unfolding decode_packet
    decode_packet_keeps e now g i size is_parity payload out e' six h =
        elim (Bool-cases (size == 0)) [
          | inl zero_size ↦ kept_by e e' out ([], e) (ground (arith, h, zero_size)) refl
          | inr some_size ↦ elim (Bool-cases (size == e.xor_group_size + 1)) [
            | inl to_xor ↦
                let by_xor : decode_xor now g i is_parity payload e ≡ ok (out, e') =
                  ground (arith, h, some_size, to_xor) in
                decode_xor_keeps now g i is_parity payload e by_xor
            | inr to_rs ↦
                kept_by e e' out (decode_rs codec now g i size payload e)
                  (ground (arith, h, some_size, to_rs)) (decode_rs_keeps e now g i size payload six)
          ]
        ]

    -- From six data shards on, and so with the default of eight, the heavy code has the group size of
    -- the light one: `decode_packet` never changes the heavy decoder, and for a packet of the heavy
    -- encoder the light decoder is chosen.
    pub heavy_decoder_idle :
        (e : FecEngine Float)
        → IsSetUp e
        → 6 ≤ e.rs_data
        → ((now : Float) (g i size : ℕ) (is_parity : Bool) (payload : Bytes)
              (out : List (ℕ × Bytes)) (e' : FecEngine Float)
            → decode_packet codec now g i size is_parity payload e ≡ ok (out, e')
            → e'.rs_heavy_decoder ≡ e.rs_heavy_decoder)
          × ((payload : Bytes) (packets : List (Bytes × FecMetadata)) (enc' : RsEnc.RsFecEncoder)
              → encode_rs codec payload e.rs_heavy_encoder ≡ ok (packets, enc')
              → All (λ p. choose_decoder p.1.fec_group_size e ≡ light) packets)
    heavy_decoder_idle e u six = (
      λ now g i size is_parity payload out e' r.
          decode_packet_keeps e now g i size is_parity payload out e' six r,
      λ payload packets enc' r.
          All-map-OfSize (e.rs_heavy_encoder.fec.data_shards + e.rs_heavy_encoder.fec.parity_shards)
            packets (encode_rs-OfSize codec payload e.rs_heavy_encoder r)
            (λ p size.
              unfold choose_decoder in
              ground (arith, size, u.heavy_data_is, u.heavy_parity_is, six)),
    )
