-- ===== src/Fec/Rs/Encode.antt =====
-- `ReedSolomonFec.encode` of hyperagg/fec/rs_fec.py: each column of data and parity packets together
-- is a codeword.
use ratan_engine.Prelude.{
  ℕ, ◌<◌, ◌≡◌, refl, List, [], ◌∷◌, ◌++◌, map, length, length-map, drop, drop-append, get_or,
  range_from, ok, arith, sym, ap, ◌∙◌, All,
}
use ratan_engine.Prelude.Bytes.{Bytes, IsBytes}
use ratan_engine.Fec.Rs.{RsCodec, ReedSolomonFec, longest, pad_to, pick, encode_columns, encode}
use ratan_engine.Fec.Rs.Codec.{IsCodec}
use ratan_engine.Fec.Rs.Columns.{pick-pad_to, pick-IsBytes, length-range_from, pick-rows}

module _ (codec : RsCodec) (f : ReedSolomonFec) where
  -- The parities of a group: each column of data and parities is a codeword.
  pub record IsEncoded (blocks parities : List Bytes) : Type 0 where
    pub count : length parities ≡ f.parity_shards
    pub sizes : All (λ p. length p ≡ longest blocks) parities
    pub codewords :
        (col : ℕ)
        → col < longest blocks
        → codec.encode_column f.parity_shards (pick col blocks)
          ≡ ok (pick col blocks ++ pick col parities)

  module _ (c : IsCodec codec f.data_shards f.parity_shards) (blocks : List Bytes)
      (bytes : All IsBytes blocks) (full : length blocks ≡ f.data_shards) where
    -- The parity bytes of a column.
    abbrev check_of : ℕ → Bytes
    check_of col =
        (c.encodes (pick col blocks) (pick-IsBytes col blocks bytes)
          (length-map blocks (λ b. get_or b col 0) ∙ full)).0

    check_of-codeword :
        (col : ℕ)
        → (codec.encode_column f.parity_shards (pick col blocks)
            ≡ ok (pick col blocks ++ check_of col))
          × (length (check_of col) ≡ f.parity_shards)
    check_of-codeword col =
        let (check, e, l) =
          c.encodes (pick col blocks) (pick-IsBytes col blocks bytes)
            (length-map blocks (λ b. get_or b col 0) ∙ full) in
        (e, l)

    encode_columns-check_of :
        (n : ℕ) (cols : List ℕ)
        → encode_columns codec f (map (pad_to n) blocks) cols ≡ ok (map check_of cols)
    unfolding encode_columns
    encode_columns-check_of n [] = refl
    encode_columns-check_of n (col ∷ cols) =
        let (e, l) = check_of-codeword col in
        let size : length (pick col blocks) ≡ f.data_shards =
          length-map blocks (λ b. get_or b col 0) ∙ full in
        let tail : drop f.data_shards (pick col blocks ++ check_of col) ≡ check_of col =
          ap (λ (k : ℕ). drop k (pick col blocks ++ check_of col)) (sym size)
          ∙ drop-append (pick col blocks) (check_of col) in
        ground (arith, pick-pad_to n col blocks, e, tail, l, encode_columns-check_of n cols)

    abbrev pub parities_of : List Bytes
    parities_of =
        map (λ p. pick p (map check_of (range_from 0 (longest blocks))))
          (range_from 0 f.parity_shards)

    sizes_of :
        (ps : List ℕ)
        → All
            (λ p. length p ≡ longest blocks)
            (map (λ p. pick p (map check_of (range_from 0 (longest blocks)))) ps)
    sizes_of [] = tt
    sizes_of (p ∷ ps) = (
      length-map (map check_of (range_from 0 (longest blocks))) (λ b. get_or b p 0)
          ∙ length-map (range_from 0 (longest blocks)) check_of
          ∙ length-range_from 0 (longest blocks),
      sizes_of ps,
    )

    pub encode-parities_of :
        0 < f.data_shards → (encode codec f blocks ≡ ok parities_of) × IsEncoded blocks parities_of
    unfolding encode
    encode-parities_of some = (
      ground (
        arith,
        full,
        some,
        encode_columns-check_of (longest blocks) (range_from 0 (longest blocks)),
      ),
      record {
        count =
            length-map (range_from 0 f.parity_shards)
              (λ p. pick p (map check_of (range_from 0 (longest blocks))))
            ∙ length-range_from 0 f.parity_shards;
        sizes = sizes_of (range_from 0 f.parity_shards);
        codewords = λ col h.
            let (e, l) = check_of-codeword col in
            e
            ∙ ap (λ (check : Bytes). ok (pick col blocks ++ check))
                (sym (pick-rows check_of (longest blocks) f.parity_shards col h l));
      },
    )
