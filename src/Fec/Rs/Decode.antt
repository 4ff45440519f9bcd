-- ===== src/Fec/Rs/Decode.antt =====
-- `ReedSolomonFec.decode` of hyperagg/fec/rs_fec.py: any `data_shards` of the shards of a group give
-- all of its data packets back.
use ratan_engine.Prelude.{
  ℕ, zero, suc, ◌+◌, ◌-◌, ◌≤◌, ◌<◌, ◌≡◌, refl, true, false, List, [], ◌∷◌, ◌++◌, map, ltb, length,
  length-map, length-append, get_or, range_from, ok, arith, sym, ap, ◌∙◌, All, some,
  get_or-append-replicate, Bool-cases, ltb→lt, ◌⊎◌, inl, inr,
}
use ratan_engine.Prelude.Bytes.{Bytes, IsBytes}
use ratan_engine.Prelude.Dict.{
  Dict, keys, values, lookup, elem, contains, Distinct, elem-minus, elem-keys, contains-some,
}
use ratan_engine.Prelude.Distinct.{elem-range_from, range_from-Distinct, minus-Distinct}
use ratan_engine.Fec.Rs.{
  RsCodec, ReedSolomonFec, total_shards, longest, pad_to, pick, codeword_byte, erasure_positions,
  decode_columns, decode, encode,
}
use ratan_engine.Fec.Rs.Codec.{IsCodec}
use ratan_engine.Fec.Rs.Columns.{
  pick-append, get_or-pick, get_or-table, get_or-beyond, length-range_from, length-minus,
  rows-columns, length-get_or-le, get_or-append-left, get_or-append-right, All-get_or, elem_full,
}
use ratan_engine.Fec.Rs.Encode.{IsEncoded, encode-parities_of, parities_of}

length-keys : {V : Type 0} (d : Dict V) → length (keys d) ≡ length d
length-keys [] = refl
length-keys ((k, v) ∷ d) = ap suc (length-keys d)

-- Either a key is `k` or above, or all keys are below.
keys-split :
    (k : ℕ) (xs : List ℕ)
    → ((i : ℕ) × (elem i xs ≡ true) × (k ≤ i)) ⊎ ((i : ℕ) → elem i xs ≡ true → i < k)
unfolding elem
keys-split k [] = inr (λ i h. absurd (ground (arith, h)))
keys-split k (x ∷ xs) = elim (keys-split k xs) [
  | inl (i, there, above) ↦ inl (i, ground (arith, there), above)
  | inr below ↦ elim (Bool-cases (ltb x k)) [
    | inl small ↦ inr (λ i h. ground (arith, h, below i, small))
    | inr big ↦ inl (x, ground arith, ground (arith, big))
  ]
]

longest-ge :
    (i : ℕ) (b : Bytes) (d : Dict Bytes) → lookup i d ≡ some b → length b ≤ longest (values d)
unfolding lookup
longest-ge i b [] h = absurd (ground (arith, h))
longest-ge i b ((k, w) ∷ d) h = ground (arith, h, longest-ge i b d)

longest-le :
    (n : ℕ) (d : Dict Bytes)
    → Distinct (keys d)
    → ((i : ℕ) (b : Bytes) → lookup i d ≡ some b → length b ≤ n)
    → longest (values d) ≤ n
longest-le n [] distinct h = omega arith
longest-le n ((k, w) ∷ d) distinct h =
    let here : length w ≤ n = h k w (unfold lookup in ground arith) in
    let rest : longest (values d) ≤ n =
      longest-le n d distinct.1
        (λ i b e. h i b (unfold lookup in ground (arith, e, distinct.0, elem-keys i d))) in
    omega arith

longest-blocks :
    (m : ℕ) (blocks : List Bytes)
    → ((row : ℕ) → row < length blocks → length (get_or blocks row []) ≤ m)
    → longest blocks ≤ m
longest-blocks m [] h = omega arith
longest-blocks m (b ∷ bs) h =
    let rest = longest-blocks m bs (λ row l. h (suc row) (omega arith)) in
    omega (arith, h 0 (omega arith))

codeword_byte-some :
    (n : ℕ) (shards : Dict Bytes) (col i : ℕ) (b : Bytes)
    → lookup i shards ≡ some b
    → codeword_byte n shards col i ≡ get_or b col 0
unfolding codeword_byte
codeword_byte-some n shards col i b e =
    ground (arith, e, get_or-append-replicate 0 b (n - length b) col)

kept-contains :
    (f : ReedSolomonFec) (shards : Dict Bytes) (i : ℕ)
    → elem i (erasure_positions f shards) ≡ false
    → i < total_shards f
    → contains i shards ≡ true
unfolding erasure_positions
kept-contains f shards i h inside = ground (
  arith,
  h,
  elem-minus i (range_from 0 (total_shards f)) (keys shards),
  elem-range_from i 0 (total_shards f),
  elem-keys i shards,
)

All-range_from-within : (i k n : ℕ) → i + k ≤ n → All (λ col. col < n) (range_from i k)
All-range_from-within i zero n h = tt
All-range_from-within i (suc k) n h = (omega arith, All-range_from-within (suc i) k n (omega arith))

All-range_from : (n : ℕ) → All (λ col. col < n) (range_from 0 n)
All-range_from n = All-range_from-within 0 n n (omega arith)

module _ (f : ReedSolomonFec) (blocks parities : List Bytes) where
  -- Enough of the shards of a group, each under its index.
  pub record IsPart (shards : Dict Bytes) : Type 0 where
    pub distinct : Distinct (keys shards)
    pub inside : (i : ℕ) → contains i shards ≡ true → i < total_shards f
    pub from_group :
        (i : ℕ) (b : Bytes) → lookup i shards ≡ some b → b ≡ get_or (blocks ++ parities) i []
    pub enough : f.data_shards ≤ length shards

module _ (codec : RsCodec) (f : ReedSolomonFec) (blocks parities : List Bytes) where
  module _ (encoded : IsEncoded codec f blocks parities)
      (full : length blocks ≡ f.data_shards) where
    get_or-parities :
        (i : ℕ)
        → length blocks ≤ i
        → i < total_shards f
        → length (get_or (blocks ++ parities) i []) ≡ longest blocks
    get_or-parities i lo hi =
        let j : ℕ = i - length blocks in
        let e : length blocks + j ≡ i = omega arith in
        ap (λ (k : ℕ). length (get_or (blocks ++ parities) k [])) (sym e)
        ∙ ap length (get_or-append-right [] blocks parities j)
        ∙ All-get_or (λ q. length q ≡ longest blocks) [] parities j encoded.sizes
            (omega (arith, encoded.count, full))

    length-shard :
        (i : ℕ) → i < total_shards f → length (get_or (blocks ++ parities) i []) ≤ longest blocks
    length-shard i hi = elim (Bool-cases (ltb i (length blocks))) [
      | inl left ↦ omega (
        arith,
        ap length (get_or-append-left [] blocks parities i (ltb→lt i (length blocks) left)),
        length-get_or-le blocks i,
      )
      | inr right ↦ omega (arith, get_or-parities i (ground (arith, right)) hi)
    ]

    -- The longest shard that is there is as long as the longest packet.
    longest-shards :
        (shards : Dict Bytes)
        → IsPart f blocks parities shards
        → longest (values shards) ≡ longest blocks
    longest-shards shards p =
        let above : longest (values shards) ≤ longest blocks =
          longest-le (longest blocks) shards p.distinct (λ i b e.
            let there : contains i shards ≡ true = ground (arith, e) in
            omega (arith, ap length (p.from_group i b e), length-shard i (p.inside i there))) in
        let below : longest blocks ≤ longest (values shards) =
          elim (keys-split f.data_shards (keys shards)) [
            | inl (i, there, above) ↦
                let here : contains i shards ≡ true = sym (elem-keys i shards) ∙ there in
                let (b, e) = contains-some i shards here in
                omega (
                  arith,
                  longest-ge i b shards e,
                  ap length (p.from_group i b e),
                  get_or-parities i (omega (arith, full)) (p.inside i here),
                )
            | inr all_data ↦ longest-blocks (longest (values shards)) blocks (λ row l.
                let there : contains row shards ≡ true =
                  sym (elem-keys row shards)
                  ∙ elem_full f.data_shards row (keys shards) p.distinct all_data
                      (omega (arith, length-keys shards, p.enough)) (omega (arith, full)) in
                let (b, e) = contains-some row shards there in
                omega (
                  arith,
                  longest-ge row b shards e,
                  ap length (p.from_group row b e),
                  ap length (get_or-append-left [] blocks parities row l),
                ))
          ] in
        omega arith

    module _ (shards : Dict Bytes) (p : IsPart f blocks parities shards) where
      length-erasure_positions : length (erasure_positions f shards) ≤ f.parity_shards
      unfolding erasure_positions
      length-erasure_positions = omega (
        arith,
        length-minus (total_shards f) (keys shards) p.distinct
            (λ k h. p.inside k (sym (elem-keys k shards) ∙ h)),
        length-keys shards,
        p.enough,
      )

      -- The codeword of a column, up to the erasures.
      abbrev codeword : ℕ → Bytes
      codeword col =
          map (codeword_byte (longest (values shards)) shards col) (range_from 0 (total_shards f))

      get_or-codeword :
          (col i : ℕ)
          → elem i (erasure_positions f shards) ≡ false
          → get_or (codeword col) i 0 ≡ get_or (pick col blocks ++ pick col parities) i 0
      get_or-codeword col i h = elim (Bool-cases (ltb i (total_shards f))) [
        | inl inside ↦
            let there : contains i shards ≡ true =
              kept-contains f shards i h (ltb→lt i (total_shards f) inside) in
            let (b, e) = contains-some i shards there in
            get_or-table (codeword_byte (longest (values shards)) shards col) 0 (total_shards f) i
              (ltb→lt i (total_shards f) inside)
            ∙ codeword_byte-some (longest (values shards)) shards col i b e
            ∙ ap (λ (c : Bytes). get_or c col 0) (p.from_group i b e)
            ∙ sym (get_or-pick (blocks ++ parities) col i)
            ∙ ap (λ (c : Bytes). get_or c i 0) (pick-append col blocks parities)
        | inr outside ↦
            get_or-beyond 0 (codeword col) i (
              ground (
                arith,
                outside,
                length-map (range_from 0 (total_shards f))
                    (codeword_byte (longest (values shards)) shards col),
                length-range_from 0 (total_shards f),
              ))
            ∙ sym (
                get_or-beyond 0 (pick col blocks ++ pick col parities) i (
                  ground (
                    arith,
                    outside,
                    length-append (pick col blocks) (pick col parities),
                    length-map blocks (λ b. get_or b col 0),
                    length-map parities (λ b. get_or b col 0),
                    encoded.count,
                    full,
                  )))
      ]

      decode_columns-pick :
          (c : IsCodec codec f.data_shards f.parity_shards) (cols : List ℕ)
          → All (λ col. col < longest blocks) cols
          → decode_columns codec f (longest (values shards)) shards cols
            ≡ ok (map (λ col. pick col blocks) cols)
      unfolding decode_columns
      decode_columns-pick c [] h = refl
      decode_columns-pick c (col ∷ cols) h =
          let size : length (pick col blocks) ≡ f.data_shards =
            length-map blocks (λ b. get_or b col 0) ∙ full in
          let e : codec.decode_column f.parity_shards (codeword col) (erasure_positions f shards)
              ≡ ok (pick col blocks) =
            c.corrects (pick col blocks) (pick col parities) (codeword col)
              (erasure_positions f shards) size (encoded.codewords col h.0)
              (length-map (range_from 0 (total_shards f))
                  (codeword_byte (longest (values shards)) shards col)
                ∙ length-range_from 0 (total_shards f))
              (unfold erasure_positions in
                minus-Distinct (range_from 0 (total_shards f)) (keys shards)
                  (range_from-Distinct 0 (total_shards f)))
              length-erasure_positions (get_or-codeword col) in
          ground (arith, e, size, decode_columns-pick c cols h.1)

      pub decode-part :
          (c : IsCodec codec f.data_shards f.parity_shards)
          → 0 < f.data_shards
          → decode codec f shards ≡ ok (map (pad_to (longest blocks)) blocks)
      unfolding decode
      decode-part c some_data =
          let n = longest blocks in
          let same = longest-shards shards p in
          let columns : decode_columns codec f (longest (values shards)) shards
                (range_from 0 (longest (values shards)))
              ≡ ok (map (λ col. pick col blocks) (range_from 0 n)) =
            ap (λ (m : ℕ). decode_columns codec f (longest (values shards)) shards (range_from 0 m))
              same
            ∙ decode_columns-pick c (range_from 0 n) (All-range_from n) in
          let rows : map (λ row. pick row (map (λ col. pick col blocks) (range_from 0 n)))
                (range_from 0 f.data_shards)
              ≡ map (pad_to n) blocks =
            ap
              (λ (k : ℕ).
                map (λ row. pick row (map (λ col. pick col blocks) (range_from 0 n)))
                  (range_from 0 k))
              (sym full)
            ∙ rows-columns n blocks (omega arith) in
          ground (arith, p.enough, some_data, columns, rows)

-- For a codec as documented: a group of `data_shards` packets, at least one, is encoded, and any
-- `data_shards` or more of the data and parity packets, each under its index, decode to all of the
-- group's data packets, each padded with zeros to the longest.
pub decode-encode :
    (codec : RsCodec) (f : ReedSolomonFec) (blocks : List Bytes)
    → IsCodec codec f.data_shards f.parity_shards
    → 0 < f.data_shards
    → length blocks ≡ f.data_shards
    → All IsBytes blocks
    → (parities : List Bytes) × (encode codec f blocks ≡ ok parities)
      × (length parities ≡ f.parity_shards)
      × ((shards : Dict Bytes)
          → IsPart f blocks parities shards
          → decode codec f shards ≡ ok (map (pad_to (longest blocks)) blocks))
decode-encode codec f blocks c positive full bytes =
    let parities = parities_of codec f c blocks bytes full in
    let (e, encoded) = encode-parities_of codec f c blocks bytes full positive in
    (
      parities,
      e,
      encoded.count,
      λ shards p. decode-part codec f blocks parities encoded full shards p c positive,
    )
