-- ===== src/Fec/Rs/Encoder.antt =====
-- `RSFecEncoder` of hyperagg/fec/rs_fec.py: the sending side, which gathers packets into groups and
-- emits the parities of each.
use ratan_engine.Prelude.{
  ℕ, zero, suc, ◌+◌, ◌-◌, ◌<◌, ◌≡◌, refl, Option, none, some, List, [], ◌∷◌, ◌++◌, ◌==◌,
  if◌then◌else◌, length, length-append, Result, ok, ◌>>=◌, All, All-append, arith, ◌⊎◌, inl, inr,
  Bool-cases,
}
use ratan_engine.Prelude.Bytes.{Bytes, IsBytes}
use ratan_engine.Fec.Rs.{RsCodec, ReedSolomonFec, encode}
use ratan_engine.Fec.Rs.Codec.{IsCodec}
use ratan_engine.Fec.Rs.Encode.{IsEncoded, encode-parities_of, parities_of}

pub record RsFecEncoder : Type 0 where
  pub fec : ReedSolomonFec
  pub current_group : List Bytes
  pub group_id : ℕ

-- `__init__`
abbrev pub new_encoder : ℕ → ℕ → RsFecEncoder
new_encoder data_shards parity_shards = record {
  fec = record { data_shards = data_shards; parity_shards = parity_shards };
  current_group = [];
  group_id = 0;
}

-- `(fec_group_id, fec_index, parity_list_or_none)`
pub record Added : Type 0 where
  pub fec_group_id : ℕ
  pub fec_index : ℕ
  pub parity : Option (List Bytes)

module _ (codec : RsCodec) where
  unfoldable pub close_group :
      RsFecEncoder → List Bytes → Result (Option (List Bytes) × RsFecEncoder)
  close_group e group =
      if length group == e.fec.data_shards
      then (do
        parity ← encode codec e.fec group
        ok (some parity, record e { current_group = []; group_id = e.group_id + 1 }))
      else ok (none, record e { current_group = group })

  unfoldable pub add_packet : Bytes → RsFecEncoder → Result (Added × RsFecEncoder)
  add_packet payload e = do
    (parity, e') ← close_group e (e.current_group ++ payload ∷ [])
    ok (
      record { fec_group_id = e.group_id; fec_index = length e.current_group; parity = parity },
      e',
    )

-- `while len(group) < data_shards: group.append(b"")`, with the rounds that are left.
unfoldable pub pad_group : ℕ → List Bytes → List Bytes
pad_group zero group = group
pad_group (suc left) group = pad_group left (group ++ [] ∷ [])

unfoldable pub flush : RsCodec → RsFecEncoder → Result (Option (ℕ × List Bytes) × RsFecEncoder)
flush codec e = if length e.current_group == 0 then ok (none, e) else do
  let group = pad_group (e.fec.data_shards - length e.current_group) e.current_group
  parity ← encode codec e.fec group
  ok (some (e.group_id, parity), record e { current_group = []; group_id = e.group_id + 1 })

unfoldable pub pending_count : RsFecEncoder → ℕ
pending_count e = length e.current_group

-- Fewer packets than a group has, all of them byte strings.
pub record IsOpen (e : RsFecEncoder) : Type 0 where
  pub room : length e.current_group < e.fec.data_shards
  pub bytes : All IsBytes e.current_group

-- For a codec as documented, `add_packet` never raises, numbers the packet by the group and its
-- place in it, and either keeps the group open with the packet appended, or, where the packet fills
-- the group, emits its parities and opens the next group.
pub add_packet-IsEncoded :
    (codec : RsCodec) (payload : Bytes) (e : RsFecEncoder)
    → IsCodec codec e.fec.data_shards e.fec.parity_shards
    → IsOpen e
    → IsBytes payload
    → let group = e.current_group ++ payload ∷ [] in
      (added : Added) × (e' : RsFecEncoder) × (add_packet codec payload e ≡ ok (added, e'))
      × IsOpen e'
      × (added.fec_group_id ≡ e.group_id)
      × (added.fec_index ≡ length e.current_group)
      × (((added.parity ≡ none) × (e' ≡ record e { current_group = group }))
          ⊎ ((parities : List Bytes) × (added.parity ≡ some parities)
              × IsEncoded codec e.fec group parities
              × (e' ≡ record e { current_group = []; group_id = e.group_id + 1 })))
unfolding add_packet close_group
add_packet-IsEncoded codec payload e c o h =
    let group : List Bytes = e.current_group ++ payload ∷ [] in
    let size : length group ≡ length e.current_group + 1 =
      omega (arith, length-append e.current_group (payload ∷ [])) in
    let bytes : All IsBytes group =
      All-append IsBytes e.current_group (payload ∷ []) o.bytes (h, tt) in
    elim (Bool-cases (length group == e.fec.data_shards)) [
      | inl closes ↦
          let full : length group ≡ e.fec.data_shards = ground (arith, closes) in
          let (enc, is) =
            encode-parities_of codec e.fec c group bytes full (omega (arith, o.room)) in
          (
            record {
              fec_group_id = e.group_id;
              fec_index = length e.current_group;
              parity = some (parities_of codec e.fec c group bytes full);
            },
            record e { current_group = []; group_id = e.group_id + 1 },
            ground (arith, closes, enc),
            record { room = omega (arith, o.room); bytes = tt },
            refl,
            refl,
            inr (parities_of codec e.fec c group bytes full, refl, is, refl),
          )
      | inr stays ↦ (
        record { fec_group_id = e.group_id; fec_index = length e.current_group; parity = none },
        record e { current_group = group },
        ground (arith, stays),
        record { room = ground (arith, stays, size, o.room); bytes = bytes },
        refl,
        refl,
        inl (refl, refl),
      )
    ]
