-- ===== src/Fec/Rs/Decoder/Recover.antt =====
-- What `receive_shard` of hyperagg/fec/rs_fec.py gives back.
use ratan_engine.Prelude.{
  ℕ, ◌<◌, ◌≡◌, refl, true, some, List, [], ◌++◌, ltb, if◌then◌else◌, length, map, get_or,
  range_from, arith,
}
use ratan_engine.Prelude.Bytes.{Bytes}
use ratan_engine.Prelude.Dict.{
  Dict, minus, keys, lookup, insert, remove, contains, get_default, Distinct,
}
use ratan_engine.Fec.Rs.{RsCodec, ReedSolomonFec, total_shards, longest, pad_to}
use ratan_engine.Fec.Rs.Encode.{IsEncoded}
use ratan_engine.Fec.Rs.Decoder.{RsFecDecoder, data_present, new_decoder, finish_group}

-- A group as the encoder sends it.
pub record Group (codec : RsCodec) (f : ReedSolomonFec) : Type 0 where
  pub blocks : List Bytes
  pub parities : List Bytes
  pub full : length blocks ≡ f.data_shards
  pub encoded : IsEncoded codec f blocks parities

module _ (codec : RsCodec) (f : ReedSolomonFec) where
  -- The missing data packets, once there are enough shards.
  unfoldable pub recovered_from : Group codec f → Dict Bytes → List (ℕ × Bytes)
  recovered_from grp shards =
      if ltb (length shards) f.data_shards
      then []
      else map (λ idx. (idx, pad_to (longest grp.blocks) (get_or grp.blocks idx [])))
          (minus (range_from 0 f.data_shards) (data_present f.data_shards (keys shards)))

  -- Shards of a group, each once and under its index.
  pub record IsStored (grp : Group codec f) (shards : Dict Bytes) : Type 0 where
    pub distinct : Distinct (keys shards)
    pub inside : (i : ℕ) → contains i shards ≡ true → i < total_shards f
    pub from_group :
        (i : ℕ) (b : Bytes)
        → lookup i shards ≡ some b
        → b ≡ get_or (grp.blocks ++ grp.parities) i []

  module _ {Float : Type 0} (sent : ℕ → Group codec f) where
    -- Every group that is stored consists of shards that were sent.
    pub record IsValid (d : RsFecDecoder Float) : Type 0 where
      pub fec_is : d.fec ≡ f
      pub groups_ok :
          (g : ℕ) (shards : Dict Bytes) → lookup g d.groups ≡ some shards → IsStored (sent g) shards

    pub new_decoder-IsValid : (timeout_ms : Float) → IsValid (new_decoder f timeout_ms)
    unfolding lookup
    new_decoder-IsValid timeout_ms = record {
      fec_is = refl;
      groups_ok = λ g shards h. absurd (ground (arith, h));
    }

    -- The shards of a group once one more has come.
    abbrev pub with_shard : ℕ → ℕ → RsFecDecoder Float → Dict Bytes
    with_shard g i d =
        insert i (get_or ((sent g).blocks ++ (sent g).parities) i []) (get_default g [] d.groups)

    -- What becomes of the group: it stays as it is while shards are missing, and is closed then.
    abbrev pub IsSettled : ℕ → Dict Bytes → RsFecDecoder Float → RsFecDecoder Float → Type 0
    IsSettled g shards d d' =
        (d'.groups ≡ (if ltb (length shards) f.data_shards then d.groups else remove g d.groups))
        × (d'.delivered ≡ (
            if ltb (length shards) f.data_shards
            then d.delivered
            else (finish_group g d).delivered))

    abbrev Recovers :
        ℕ → Dict Bytes → RsFecDecoder Float → List (ℕ × Bytes) × RsFecDecoder Float → Type 0
    Recovers g shards d r =
        IsValid r.1 × (r.0 ≡ recovered_from (sent g) shards) × IsSettled g shards d r.1

    -- The groups and the delivered set after a shard that is new to them.
    abbrev pub IsUpdated : ℕ → Dict Bytes → RsFecDecoder Float → RsFecDecoder Float → Type 0
    IsUpdated g shards d d' =
        (d'.groups ≡ (
          if ltb (length shards) f.data_shards
          then insert g shards d.groups
          else remove g d.groups))
        × (d'.delivered ≡ (
            if ltb (length shards) f.data_shards
            then d.delivered
            else (finish_group g d).delivered))
