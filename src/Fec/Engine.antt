-- ===== src/Fec/Engine.antt =====
-- `FecEngine` of hyperagg/fec/fec_engine.py: it chooses the code for each packet and hands arriving
-- packets to the decoder that their group size names. The choice of the mode from the loss is in
-- Modes.
pub mod Dispatch
pub mod Modes
mod Tests
use ratan_engine.Prelude.{
  ℕ, suc, ◌+◌, ◌-◌, max, Bool, true, false, Option, none, some, List, [], ◌∷◌, ◌++◌, ◌==◌,
  if◌then◌else◌, length, Result, ok, ◌>>=◌,
}
use ratan_engine.Prelude.Bytes.{Bytes}
use ratan_engine.Prelude.Floats.{FloatOps}
use ratan_engine.Fec.Xor.Encoder as XorEnc
use ratan_engine.Fec.Xor.Decoder as XorDec
use ratan_engine.Fec.Mode.{
  Mode, no_fec, xor, reed_solomon, reed_solomon_heavy, replicate, other_mode,
}
use ratan_engine.Fec.Adaptive.{AdaptiveFecSizer, new_sizer}
use ratan_engine.Fec.Rs.{RsCodec}
use ratan_engine.Fec.Rs.Encoder as RsEnc
use ratan_engine.Fec.Rs.Decoder as RsDec

-- The configured mode.
pub data Setting : Type 0 where
  auto : Setting
  fixed : Mode → Setting

-- The tier of the traffic; `bulk` is any other string.
pub data Tier : Type 0 where
  realtime streaming bulk : Tier

-- The metadata of an encoded packet.
pub record FecMetadata : Type 0 where
  pub fec_group_id : ℕ
  pub fec_index : ℕ
  pub fec_group_size : ℕ
  pub is_parity : Bool
  pub replicated : Bool

pub record FecEngine (Float : Type 0) : Type 0 where
  pub mode_setting : Setting
  pub xor_group_size : ℕ
  pub rs_data : ℕ
  pub rs_parity : ℕ
  pub xor_max_loss : Float
  pub rs_max_loss : Float
  pub rs_heavy_max : Float
  pub current_mode : Mode
  pub xor_encoder : XorEnc.XorFecEncoder
  pub rs_encoder : RsEnc.RsFecEncoder
  pub rs_heavy_encoder : RsEnc.RsFecEncoder
  pub xor_decoder : XorDec.XorFecDecoder Float
  pub rs_decoder : RsDec.RsFecDecoder Float
  pub rs_heavy_decoder : RsDec.RsFecDecoder Float
  pub adaptive_sizer : AdaptiveFecSizer
  pub total_recoveries : ℕ
  pub mode_changes : ℕ

-- `max(4, self._rs_data - 2)`: a difference below 0 is as good as 0.
abbrev pub heavy_data : ℕ → ℕ
heavy_data rs_data = max 4 (rs_data - 2)

module _ {Float : Type 0} where
  -- `_resolve_mode`
  unfoldable pub resolve_mode : FloatOps Float → FecEngine Float → Setting → Float → Mode
  resolve_mode fl e (fixed mode) avg_loss = mode
  resolve_mode fl e auto avg_loss =
      if fl.lt avg_loss e.xor_max_loss
      then xor
      else if fl.lt avg_loss e.rs_max_loss
      then reed_solomon
      else if fl.lt avg_loss e.rs_heavy_max
      then reed_solomon_heavy
      else replicate

  -- `__init__`, with the values of the configuration
  unfoldable pub new_engine :
      FloatOps Float
      → Setting
      → (xor_group_size rs_data rs_parity : ℕ) → (group_timeout_ms : Float) → FecEngine Float
  new_engine fl setting xor_group_size rs_data rs_parity group_timeout_ms =
      let e : FecEngine Float = record {
        mode_setting = setting;
        xor_group_size = xor_group_size;
        rs_data = rs_data;
        rs_parity = rs_parity;
        xor_max_loss = fl.decimal 2 2;
        rs_max_loss = fl.decimal 10 2;
        rs_heavy_max = fl.decimal 15 2;
        current_mode = no_fec;
        xor_encoder = XorEnc.new_encoder xor_group_size;
        rs_encoder = RsEnc.new_encoder rs_data rs_parity;
        rs_heavy_encoder = RsEnc.new_encoder (heavy_data rs_data) (rs_parity + 2);
        xor_decoder = XorDec.new_decoder xor_group_size group_timeout_ms;
        rs_decoder =
            RsDec.new_decoder (record { data_shards = rs_data; parity_shards = rs_parity })
              group_timeout_ms;
        rs_heavy_decoder =
            RsDec.new_decoder
              (record { data_shards = heavy_data rs_data; parity_shards = rs_parity + 2 })
              group_timeout_ms;
        adaptive_sizer = new_sizer;
        total_recoveries = 0;
        mode_changes = 0;
      } in
      record e { current_mode = resolve_mode fl e setting (fl.of_ℕ 0) }

-- The mode for a packet of a tier.
unfoldable pub tier_mode : Tier → Mode → Mode
tier_mode realtime mode = replicate
tier_mode streaming xor = reed_solomon
tier_mode streaming mode = mode
tier_mode bulk mode = mode

abbrev pub unprotected : Bytes → Bool → List (Bytes × FecMetadata)
unprotected payload replicated =
    (
      payload,
      record {
        fec_group_id = 0;
        fec_index = 0;
        fec_group_size = 0;
        is_parity = false;
        replicated = replicated;
      },
    )
    ∷ []

-- A packet of a group, with its place in it.
abbrev pub in_group : (group_id index size : ℕ) → Bool → Bytes → Bytes × FecMetadata
in_group group_id index size is_parity payload = (
  payload,
  record {
    fec_group_id = group_id;
    fec_index = index;
    fec_group_size = size;
    is_parity = is_parity;
    replicated = false;
  },
)

-- `for p_idx, parity in enumerate(parity_list)`, from the index `index` on
unfoldable pub number_parities : (group_id index size : ℕ) → List Bytes → List (Bytes × FecMetadata)
number_parities group_id index size [] = []
number_parities group_id index size (parity ∷ rest) =
    in_group group_id index size true parity ∷ number_parities group_id (suc index) size rest

-- `_encode_rs`, with the encoder's new state
unfoldable pub encode_rs :
    RsCodec → Bytes → RsEnc.RsFecEncoder → Result (List (Bytes × FecMetadata) × RsEnc.RsFecEncoder)
encode_rs codec payload encoder = do
  let total = encoder.fec.data_shards + encoder.fec.parity_shards
  (added, encoder') ← RsEnc.add_packet codec payload encoder
  let parities : List Bytes = elim added.parity [ none ↦ [] | some parity_list ↦ parity_list ]
  ok (
    in_group added.fec_group_id added.fec_index total false payload
        ∷ number_parities added.fec_group_id encoder.fec.data_shards total parities,
    encoder',
  )

-- The decoder that `_decode_rs` takes for a group size.
pub data RsChoice : Type 0 where
  light heavy unknown : RsChoice

module _ {Float : Type 0} where
  unfoldable pub encode_xor :
      Bytes → FecEngine Float → Result (List (Bytes × FecMetadata) × FecEngine Float)
  encode_xor payload e = do
    (added, encoder') ← XorEnc.add_packet payload e.xor_encoder
    let group_size = e.xor_group_size + 1
    let parities : List (Bytes × FecMetadata) = elim added.parity [
      | none ↦ []
      | some parity ↦ in_group added.fec_group_id e.xor_group_size group_size true parity ∷ []
    ]
    ok (
      in_group added.fec_group_id added.fec_index group_size false payload ∷ parities,
      record e { xor_encoder = encoder' },
    )

  -- The branches of `encode_packet`, one for each mode.
  unfoldable pub encode_as :
      RsCodec
      → Bytes
      → FecEngine Float
      → Mode
      → Result (List (Bytes × FecMetadata) × FecEngine Float)
  encode_as codec payload e no_fec = ok (unprotected payload false, e)
  encode_as codec payload e replicate = ok (unprotected payload true, e)
  encode_as codec payload e xor = encode_xor payload e
  encode_as codec payload e reed_solomon = do
    (packets, encoder') ← encode_rs codec payload e.rs_encoder
    ok (packets, record e { rs_encoder = encoder' })
  encode_as codec payload e reed_solomon_heavy = do
    (packets, encoder') ← encode_rs codec payload e.rs_heavy_encoder
    ok (packets, record e { rs_heavy_encoder = encoder' })
  encode_as codec payload e other_mode = ok (unprotected payload false, e)

  unfoldable pub encode_packet :
      RsCodec
      → Bytes
      → Tier
      → FecEngine Float
      → Result (List (Bytes × FecMetadata) × FecEngine Float)
  encode_packet codec payload tier e = encode_as codec payload e (tier_mode tier e.current_mode)

  unfoldable pub decode_xor :
      Float → ℕ → ℕ → Bool → Bytes → FecEngine Float → Result (List (ℕ × Bytes) × FecEngine Float)
  decode_xor now group_id fec_index is_parity payload e = do
    (result, decoder') ←
        XorDec.receive_packet now group_id fec_index is_parity payload 0 e.xor_decoder
    let recovered : List (ℕ × Bytes) = elim result [ none ↦ [] | some packet ↦ packet ∷ [] ]
    ok (
      recovered,
      record e { xor_decoder = decoder'; total_recoveries = e.total_recoveries + length recovered },
    )

  unfoldable pub choose_decoder : ℕ → FecEngine Float → RsChoice
  choose_decoder group_size e =
      if group_size == e.rs_data + e.rs_parity
      then light
      else if group_size == heavy_data e.rs_data + e.rs_parity + 2
      then heavy
      else unknown

  unfoldable pub decode_rs :
      RsCodec → Float → ℕ → ℕ → ℕ → Bytes → FecEngine Float → List (ℕ × Bytes) × FecEngine Float
  decode_rs codec now group_id shard_index group_size payload e =
      elim (choose_decoder group_size e) [
        | light ↦
            let (results, decoder') =
              RsDec.receive_shard codec now group_id shard_index payload e.rs_decoder in
            (
              results,
              record e {
                rs_decoder = decoder';
                total_recoveries = e.total_recoveries + length results;
              },
            )
        | heavy ↦
            let (results, decoder') =
              RsDec.receive_shard codec now group_id shard_index payload e.rs_heavy_decoder in
            (
              results,
              record e {
                rs_heavy_decoder = decoder';
                total_recoveries = e.total_recoveries + length results;
              },
            )
        | unknown ↦ ([], e)
      ]

  unfoldable pub decode_packet :
      RsCodec
      → Float
      → (fec_group_id fec_index fec_group_size : ℕ) → Bool
      → Bytes
      → FecEngine Float
      → Result (List (ℕ × Bytes) × FecEngine Float)
  decode_packet codec now group_id fec_index group_size is_parity payload e =
      if group_size == 0
      then ok ([], e)
      else if group_size == e.xor_group_size + 1
      then decode_xor now group_id fec_index is_parity payload e
      else ok (decode_rs codec now group_id fec_index group_size payload e)

  unfoldable pub expire_groups : FloatOps Float → Float → FecEngine Float → FecEngine Float
  expire_groups fl now e = record e {
    xor_decoder = (XorDec.expire_groups fl now e.xor_decoder).1;
    rs_decoder = (RsDec.expire_groups fl now e.rs_decoder).1;
    rs_heavy_decoder = (RsDec.expire_groups fl now e.rs_heavy_decoder).1;
  }
