-- ===== src/Fec/Rs.antt =====
-- `ReedSolomonFec` of hyperagg/fec/rs_fec.py: Reed-Solomon coding of packets, column by column. The
-- code itself is the library reedsolo, which is a parameter here.
pub mod Codec
pub mod Columns
pub mod Encode
pub mod Decode
pub mod Encoder
pub mod Decoder
mod Tests
use ratan_engine.Prelude.{
  ℕ, zero, suc, ◌+◌, ◌-◌, max, not, List, [], ◌∷◌, ◌++◌, map, ltb, ◌==◌, Option, none, some, Bool,
  true, false, length, replicate, get_or, drop, range_from, Result, ok, raise, raise_if, ◌>>=◌,
  ◌>>◌, value_error, index_error, reed_solomon_error,
}
use ratan_engine.Prelude.Bytes.{Bytes}
use ratan_engine.Prelude.Dict.{Dict, keys, values, lookup, minus}

-- `RSCodec(nsym)`: `encode`, and the data of `decode` with `erase_pos`.
pub record RsCodec : Type 0 where
  pub encode_column : (nsym : ℕ) → Bytes → Result Bytes
  pub decode_column : (nsym : ℕ) → Bytes → List ℕ → Result Bytes

pub record ReedSolomonFec : Type 0 where
  pub data_shards : ℕ
  pub parity_shards : ℕ

abbrev pub total_shards : ReedSolomonFec → ℕ
total_shards f = f.data_shards + f.parity_shards

-- `max(len(b) for b in blocks)`
abbrev pub longest : List Bytes → ℕ
longest [] = 0
longest (b ∷ bs) = max (length b) (longest bs)

-- `b + b"\x00" * (max_len - len(b))`
abbrev pub pad_to : ℕ → Bytes → Bytes
pad_to max_len b = b ++ replicate (max_len - length b) 0

-- The byte at a position of each block.
abbrev pub pick : ℕ → List Bytes → Bytes
pick i blocks = map (λ b. get_or b i 0) blocks

-- `codeword[idx]`, with 0 for what is missing
unfoldable pub codeword_byte : ℕ → Dict Bytes → ℕ → ℕ → ℕ
codeword_byte max_len shards col idx = elim (lookup idx shards) [
  | none ↦ 0
  | some block ↦ get_or (pad_to max_len block) col 0
]

-- `sorted(all_indices - present_indices)`
unfoldable pub erasure_positions : ReedSolomonFec → Dict Bytes → List ℕ
erasure_positions f shards = minus (range_from 0 (total_shards f)) (keys shards)

unfoldable pub can_recover : ReedSolomonFec → ℕ → Bool
can_recover f received_count = not (ltb received_count f.data_shards)

module _ (codec : RsCodec) (f : ReedSolomonFec) where
  -- The parity bytes of each column.
  unfoldable pub encode_columns : List Bytes → List ℕ → Result (List Bytes)
  encode_columns padded [] = ok []
  encode_columns padded (col ∷ cols) = do
    encoded ← codec.encode_column f.parity_shards (pick col padded)
    let parity_bytes = drop f.data_shards encoded
    raise_if (ltb (length parity_bytes) f.parity_shards) index_error
    rest ← encode_columns padded cols
    ok (parity_bytes ∷ rest)

  unfoldable pub encode : List Bytes → Result (List Bytes)
  encode data_blocks = do
    raise_if (not (length data_blocks == f.data_shards)) value_error
    raise_if (length data_blocks == 0) value_error
    let max_len = longest data_blocks
    columns ← encode_columns (map (pad_to max_len) data_blocks) (range_from 0 max_len)
    ok (map (λ p. pick p columns) (range_from 0 f.parity_shards))

  -- The data bytes of each column.
  unfoldable pub decode_columns : ℕ → Dict Bytes → List ℕ → Result (List Bytes)
  decode_columns max_len shards [] = ok []
  decode_columns max_len shards (col ∷ cols) = do
    data_col ←
        codec.decode_column f.parity_shards
          (map (codeword_byte max_len shards col) (range_from 0 (total_shards f)))
          (erasure_positions f shards)
    raise_if (ltb (length data_col) f.data_shards) index_error
    rest ← decode_columns max_len shards cols
    ok (data_col ∷ rest)

  unfoldable pub decode : Dict Bytes → Result (List Bytes)
  decode shards = do
    raise_if (ltb (length shards) f.data_shards) reed_solomon_error
    raise_if (length shards == 0) value_error
    let max_len = longest (values shards)
    columns ← decode_columns max_len shards (range_from 0 max_len)
    ok (map (λ row. pick row columns) (range_from 0 f.data_shards))
