-- ===== src/Fec/Rs/Decoder.antt =====
-- `RSFecDecoder` of hyperagg/fec/rs_fec.py: the receiving side, which stores shards by group and
-- recovers the missing data packets once there are enough.
pub mod Recover
use ratan_engine.Prelude.{
  ℕ, ◌+◌, ◌-◌, ◌/◌, Bool, true, false, not, List, [], ◌∷◌, ltb, ◌==◌, if◌then◌else◌, length, map,
  get_or, take, range_from, Result, ok, raise,
}
use ratan_engine.Prelude.Bytes.{Bytes}
use ratan_engine.Prelude.Dict.{
  Dict, elem, add_elem, minus, keys, insert, remove, contains, get_default,
}
use ratan_engine.Prelude.Floats.{FloatOps}
use ratan_engine.Prelude.Sort.{sorted}
use ratan_engine.Fec.Rs.{RsCodec, ReedSolomonFec, decode, can_recover}

pub record RsFecDecoder (Float : Type 0) : Type 0 where
  pub fec : ReedSolomonFec
  pub timeout_ms : Float
  pub groups : Dict (Dict Bytes)
  pub timestamps : Dict Float
  pub delivered : List ℕ
  pub recoveries : ℕ

-- `{i for i in shards if i < data_shards}`
unfoldable pub data_present : ℕ → List ℕ → List ℕ
data_present data_shards [] = []
data_present data_shards (i ∷ is) =
    let rest = data_present data_shards is in if ltb i data_shards then i ∷ rest else rest

module _ {Float : Type 0} where
  -- `__init__`
  abbrev pub new_decoder : ReedSolomonFec → Float → RsFecDecoder Float
  new_decoder fec timeout_ms = record {
    fec = fec;
    timeout_ms = timeout_ms;
    groups = [];
    timestamps = [];
    delivered = [];
    recoveries = 0;
  }

  unfoldable pub cleanup_group : ℕ → RsFecDecoder Float → RsFecDecoder Float
  cleanup_group group_id d = record d {
    groups = remove group_id d.groups;
    timestamps = remove group_id d.timestamps;
    delivered =
        if ltb 10000 (length d.delivered)
        then minus d.delivered (take 5000 (sorted d.delivered))
        else d.delivered;
  }

  -- `self._delivered.add(group_id)` and the cleanup
  unfoldable pub finish_group : ℕ → RsFecDecoder Float → RsFecDecoder Float
  finish_group group_id d =
      cleanup_group group_id (record d { delivered = add_elem group_id d.delivered })

  -- The part behind `decode`. All exceptions of `decode` are caught.
  unfoldable pub deliver_missing :
      ℕ → List ℕ → Result (List Bytes) → RsFecDecoder Float → List (ℕ × Bytes) × RsFecDecoder Float
  deliver_missing group_id present (raise e) d = ([], d)
  deliver_missing group_id present (ok recovered) d =
      let missing = minus (range_from 0 d.fec.data_shards) present in
      (
        map (λ idx. (idx, get_or recovered idx [])) missing,
        finish_group group_id (record d { recoveries = d.recoveries + length missing }),
      )

  unfoldable pub try_recover :
      RsCodec → ℕ → RsFecDecoder Float → List (ℕ × Bytes) × RsFecDecoder Float
  try_recover codec group_id d =
      let shards = get_default group_id [] d.groups in
      let present = data_present d.fec.data_shards (keys shards) in
      if not (can_recover d.fec (length shards))
      then ([], d)
      else if length present == d.fec.data_shards
      then ([], finish_group group_id d)
      else deliver_missing group_id present (decode codec d.fec shards) d

  unfoldable pub stamp_group : ℕ → Float → RsFecDecoder Float → RsFecDecoder Float
  stamp_group group_id now d =
      if contains group_id d.timestamps
      then d
      else record d { timestamps = insert group_id now d.timestamps }

  -- A group that is not there is opened, and the shard is stored.
  unfoldable pub store_shard : ℕ → ℕ → Bytes → RsFecDecoder Float → RsFecDecoder Float
  store_shard group_id shard_index payload d = record d {
    groups =
        insert group_id (insert shard_index payload (get_default group_id [] d.groups)) d.groups;
  }

  unfoldable pub receive_shard :
      RsCodec
      → (now : Float) (fec_group_id shard_index : ℕ) (payload : Bytes) → RsFecDecoder Float
      → List (ℕ × Bytes) × RsFecDecoder Float
  receive_shard codec now group_id shard_index payload d =
      if elem group_id d.delivered
      then ([], d)
      else try_recover codec group_id
          (store_shard group_id shard_index payload (stamp_group group_id now d))

  unfoldable pub expire_from :
      (before_cutoff : Float → Bool) → Dict Float → RsFecDecoder Float → List ℕ × RsFecDecoder Float
  expire_from before_cutoff [] d = ([], d)
  expire_from before_cutoff ((group_id, ts) ∷ rest) d =
      let (expired, d') =
        expire_from before_cutoff rest (if before_cutoff ts then cleanup_group group_id d else d) in
      (if before_cutoff ts then group_id ∷ expired else expired, d')

  unfoldable pub expire_groups :
      FloatOps Float → Float → RsFecDecoder Float → List ℕ × RsFecDecoder Float
  expire_groups fl now d =
      let cutoff = fl.sub now (fl.div d.timeout_ms (fl.of_ℕ 1000)) in
      expire_from (λ ts. fl.lt ts cutoff) d.timestamps d
