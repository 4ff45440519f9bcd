-- ===== src/Fec/Rs/Codec.antt =====
-- What hyperagg/fec/rs_fec.py relies on in the library reedsolo, as its documentation states it for
-- codewords of at most 255 bytes: encoding appends the parity bytes, and up to as many erasures at
-- known positions are corrected. `k` is the number of data bytes.
use ratan_engine.Prelude.{ℕ, ◌+◌, ◌≤◌, ◌≡◌, false, List, ◌++◌, length, get_or, ok}
use ratan_engine.Prelude.Bytes.{Bytes, IsBytes}
use ratan_engine.Prelude.Dict.{elem, Distinct}
use ratan_engine.Fec.Rs.{RsCodec}

pub record IsCodec (codec : RsCodec) (k parity : ℕ) : Type 0 where
  pub encodes :
      (column : Bytes)
      → IsBytes column
      → length column ≡ k
      → (check : Bytes) × (codec.encode_column parity column ≡ ok (column ++ check))
        × (length check ≡ parity)
  pub corrects :
      (column check received : Bytes) (erased : List ℕ)
      → length column ≡ k
      → codec.encode_column parity column ≡ ok (column ++ check)
      → length received ≡ k + parity
      → Distinct erased
      → length erased ≤ parity
      → ((i : ℕ) → elem i erased ≡ false → get_or received i 0 ≡ get_or (column ++ check) i 0)
      → codec.decode_column parity received erased ≡ ok column
