-- ===== src/Fec/Xor/Decoder.antt =====
-- `XORFecDecoder` of hyperagg/fec/xor_fec.py: the receiving side, which stores packets by group and
-- recovers the one that is missing. A method takes the clock's reading and returns the new state.
pub mod Valid
pub mod Receive
pub mod Recover
pub mod Delivery
pub mod Expire
use ratan_engine.Prelude.{
  ℕ, ◌+◌, ◌-◌, ◌/◌, Bool, true, false, Option, none, some, List, [], ◌∷◌, ltb, ◌==◌, if◌then◌else◌,
  length, drop, Result, ok, raise, key_error, ◌>>=◌,
}
use ratan_engine.Prelude.Bytes.{Bytes}
use ratan_engine.Prelude.Dict.{
  Dict, elem, add_elem, keys, lookup, insert, remove, contains, get_item, get_default,
}
use ratan_engine.Prelude.Floats.{FloatOps}
use ratan_engine.Prelude.Sort.{sorted}
use ratan_engine.Fec.Xor.{missing_indices, can_recover, decode_recover}

pub record XorFecDecoder (Float : Type 0) : Type 0 where
  pub group_size : ℕ
  pub timeout_ms : Float
  pub groups : Dict (Dict Bytes)
  pub parities : Dict Bytes
  pub timestamps : Dict Float
  pub payload_lens : Dict (Dict ℕ)
  pub delivered : List ℕ
  pub max_active_groups : ℕ
  pub recoveries : ℕ

module _ {Float : Type 0} where
  -- `__init__`
  abbrev pub new_decoder : ℕ → Float → XorFecDecoder Float
  new_decoder group_size timeout_ms = record {
    group_size = group_size;
    timeout_ms = timeout_ms;
    groups = [];
    parities = [];
    timestamps = [];
    payload_lens = [];
    delivered = [];
    max_active_groups = 256;
    recoveries = 0;
  }

  unfoldable pub cleanup_group : ℕ → XorFecDecoder Float → XorFecDecoder Float
  cleanup_group group_id d = record d {
    groups = remove group_id d.groups;
    parities = remove group_id d.parities;
    timestamps = remove group_id d.timestamps;
    payload_lens = remove group_id d.payload_lens;
  }

  -- `self._delivered.add(group_id)`, then the older half is dropped if the set is too large.
  unfoldable pub mark_delivered : ℕ → XorFecDecoder Float → XorFecDecoder Float
  mark_delivered group_id d =
      let marked = add_elem group_id d.delivered in
      record d {
        delivered =
            if ltb d.max_active_groups (length marked)
            then drop (length (sorted marked) / 2) (sorted marked)
            else marked;
      }

  -- The recovery of `_try_recover`, for the set of missing indices; `pop` of an empty set raises.
  unfoldable pub recover_missing :
      ℕ
      → Dict Bytes
      → Bytes
      → List ℕ
      → XorFecDecoder Float
      → Result (Option (ℕ × Bytes) × XorFecDecoder Float)
  recover_missing group_id received parity [] d = raise key_error
  recover_missing group_id received parity (missing_index ∷ rest) d = do
    recovered ← decode_recover received parity missing_index
    ok (
      some (missing_index, recovered),
      cleanup_group group_id (mark_delivered group_id (record d { recoveries = d.recoveries + 1 })),
    )

  -- `can_recover` fails where there is no parity.
  unfoldable pub try_recover :
      ℕ → XorFecDecoder Float → Result (Option (ℕ × Bytes) × XorFecDecoder Float)
  unfolding recover_missing
  try_recover group_id d =
      let received = get_default group_id [] d.groups in
      elim (lookup group_id d.parities) [
        | none ↦ ok (none, d)
        | some parity ↦
            if can_recover d.group_size (keys received) true
            then recover_missing group_id received parity
                (missing_indices d.group_size (keys received)) d
            else ok (none, d)
      ]

  unfoldable pub stamp_group : ℕ → Float → XorFecDecoder Float → XorFecDecoder Float
  stamp_group group_id now d =
      if contains group_id d.timestamps
      then d
      else record d { timestamps = insert group_id now d.timestamps }

  unfoldable pub store_parity : ℕ → Bytes → XorFecDecoder Float → XorFecDecoder Float
  store_parity group_id payload d = record d { parities = insert group_id payload d.parities }

  unfoldable pub open_group : ℕ → XorFecDecoder Float → XorFecDecoder Float
  open_group group_id d = if contains group_id d.groups then d else record d {
    groups = insert group_id [] d.groups;
    payload_lens = insert group_id [] d.payload_lens;
  }

  -- `original_len or len(payload)`
  unfoldable pub store_data : ℕ → ℕ → Bytes → ℕ → XorFecDecoder Float → Result (XorFecDecoder Float)
  store_data group_id index payload original_len d = do
    let len = if original_len == 0 then length payload else original_len
    group ← get_item group_id d.groups
    lens ← get_item group_id d.payload_lens
    ok (record d {
      groups = insert group_id (insert index payload group) d.groups;
      payload_lens = insert group_id (insert index len lens) d.payload_lens;
    })

  unfoldable pub store_packet :
      ℕ → ℕ → Bool → Bytes → ℕ → XorFecDecoder Float → Result (XorFecDecoder Float)
  unfolding store_parity open_group store_data
  store_packet group_id index is_parity payload original_len d =
      if is_parity
      then ok (store_parity group_id payload d)
      else store_data group_id index payload original_len (open_group group_id d)

  unfoldable pub receive_packet :
      (now : Float) (fec_group_id fec_index : ℕ) (is_parity : Bool) (payload : Bytes)
      (original_len : ℕ)
      → XorFecDecoder Float
      → Result (Option (ℕ × Bytes) × XorFecDecoder Float)
  receive_packet now group_id index is_parity payload original_len d =
      if elem group_id d.delivered then ok (none, d) else do
        d' ← store_packet group_id index is_parity payload original_len (stamp_group group_id now d)
        try_recover group_id d'

  -- The loop of `expire_groups` over a copy of the timestamps.
  unfoldable pub expire_from :
      (before_cutoff : Float → Bool)
      → Dict Float
      → XorFecDecoder Float
      → List ℕ × XorFecDecoder Float
  expire_from before_cutoff [] d = ([], d)
  expire_from before_cutoff ((group_id, ts) ∷ rest) d =
      let (expired, d') =
        expire_from before_cutoff rest (if before_cutoff ts then cleanup_group group_id d else d) in
      (if before_cutoff ts then group_id ∷ expired else expired, d')

  -- `cutoff = now - (self.timeout_ms / 1000.0)`
  unfoldable pub expire_groups :
      FloatOps Float → Float → XorFecDecoder Float → List ℕ × XorFecDecoder Float
  unfolding expire_from
  expire_groups fl now d =
      let cutoff = fl.sub now (fl.div d.timeout_ms (fl.of_ℕ 1000)) in
      expire_from (λ ts. fl.lt ts cutoff) d.timestamps d
