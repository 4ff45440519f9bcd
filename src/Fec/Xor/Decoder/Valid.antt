-- ===== src/Fec/Xor/Decoder/Valid.antt =====
-- The invariant of `XORFecDecoder` (hyperagg/fec/xor_fec.py), and that every step of a method keeps it.
use mathlib.Core.Path.{subst₂}
use ratan_engine.Prelude.{
  ℕ, ◌/◌, ◌≤◌, ◌<◌, ◌≡◌, refl, sym, ◌∙◌, subst, true, false, some, [], ◌∷◌, ◌++◌, ◌⊎◌, arith, ◌==◌,
  if◌then◌else◌, length, ok, All, Bool-cases, inl, inr, length-drop, length-append,
}
use ratan_engine.Prelude.Bytes.{Bytes, IsBytes}
use ratan_engine.Prelude.Dict.{
  Dict, elem, add_elem, keys, values, lookup, insert, remove, contains, lookup-insert,
  lookup-remove, elem-add_elem, Distinct, insert-Distinct, remove-Distinct, contains-some,
}
use ratan_engine.Prelude.Sort.{sorted, length-sorted, elem-sorted, elem-drop}
use ratan_engine.Fec.Xor.Decoder.{
  new_decoder, XorFecDecoder, cleanup_group, mark_delivered, stamp_group, store_parity, open_group,
  store_data,
}

-- The data packets that are stored for one group.
pub record IsGroup (r : Dict Bytes) : Type 0 where
  pub bytes : All IsBytes (values r)
  pub distinct : Distinct (keys r)

-- What is left of a dict that lacks one key.
kept :
    {A : Type 0} (g j : ℕ) (m : Dict A)
    → contains j (remove g m) ≡ (if g == j then false else contains j m)
kept g j m = ground (arith, lookup-remove g j m)

-- What may be stored: `Holds g r` of the data packets `r` of group `g`, `Parity g p` of its parity.
pub record Contents : Type 1 where
  pub size : ℕ
  pub Holds : ℕ → Dict Bytes → Type 0
  pub Parity : ℕ → Bytes → Type 0
  pub holds_empty : (g : ℕ) → Holds g []
  pub group_of : (g : ℕ) (r : Dict Bytes) → Holds g r → IsGroup r
  pub bytes_of : (g : ℕ) (p : Bytes) → Parity g p → IsBytes p

-- Byte strings, and nothing more.
abbrev pub bytes_only : ℕ → Contents
bytes_only n = record {
  size = n;
  Holds = λ g r. IsGroup r;
  Parity = λ g p. IsBytes p;
  holds_empty = λ g. record { bytes = tt; distinct = tt };
  group_of = λ g r h. h;
  bytes_of = λ g p h. h;
}

module _ {Float : Type 0} (c : Contents) where
  pub record IsValid (d : XorFecDecoder Float) : Type 0 where
    pub size_ok : d.group_size ≡ c.size
    pub stamps_distinct : Distinct (keys d.timestamps)
    -- `_groups` and `_payload_lens` have the same keys
    pub lens_match : (g : ℕ) → contains g d.groups ≡ contains g d.payload_lens
    -- every stored group and parity has a timestamp, so that it can expire
    pub stamped_groups : (g : ℕ) → contains g d.groups ≡ true → contains g d.timestamps ≡ true
    pub stamped_parities : (g : ℕ) → contains g d.parities ≡ true → contains g d.timestamps ≡ true
    -- nothing is kept of a delivered group
    pub closed : (g : ℕ) → elem g d.delivered ≡ true → contains g d.timestamps ≡ false
    pub positive : 0 < d.max_active_groups
    pub bounded : length d.delivered ≤ d.max_active_groups
    pub group_ok : (g : ℕ) (r : Dict Bytes) → lookup g d.groups ≡ some r → c.Holds g r
    pub parity_ok : (g : ℕ) (p : Bytes) → lookup g d.parities ≡ some p → c.Parity g p

  -- A new decoder holds nothing.
  pub new_decoder-IsValid : (timeout_ms : Float) → IsValid (new_decoder c.size timeout_ms)
  unfolding lookup elem
  new_decoder-IsValid timeout_ms = record {
    size_ok = refl;
    stamps_distinct = tt;
    lens_match = λ g. refl;
    stamped_groups = λ g h. absurd (ground (arith, h));
    stamped_parities = λ g h. absurd (ground (arith, h));
    closed = λ g h. refl;
    positive = omega arith;
    bounded = omega arith;
    group_ok = λ g r h. absurd (ground (arith, h));
    parity_ok = λ g p h. absurd (ground (arith, h));
  }

  pub stamp_group-IsValid :
      (g : ℕ) (now : Float) (d : XorFecDecoder Float)
      → IsValid d
      → elem g d.delivered ≡ false
      → IsValid (stamp_group g now d)
  unfolding stamp_group
  stamp_group-IsValid g now d v fresh = elim (Bool-cases (contains g d.timestamps)) [
    | inl old ↦ rw old v
    | inr new ↦ rw new (record {
      size_ok = v.size_ok;
      stamps_distinct = insert-Distinct g now d.timestamps v.stamps_distinct;
      lens_match = v.lens_match;
      stamped_groups =
          λ j h. ground (arith, lookup-insert g j now d.timestamps, v.stamped_groups j);
      stamped_parities =
          λ j h. ground (arith, lookup-insert g j now d.timestamps, v.stamped_parities j);
      closed = λ j h. ground (arith, lookup-insert g j now d.timestamps, v.closed j);
      positive = v.positive;
      bounded = v.bounded;
      group_ok = v.group_ok;
      parity_ok = v.parity_ok;
    })
  ]

  pub store_parity-IsValid :
      (g : ℕ) (payload : Bytes) (d : XorFecDecoder Float)
      → IsValid d
      → contains g d.timestamps ≡ true
      → c.Parity g payload
      → IsValid (store_parity g payload d)
  unfolding store_parity
  store_parity-IsValid g payload d v stamped hp = record {
    size_ok = v.size_ok;
    stamps_distinct = v.stamps_distinct;
    lens_match = v.lens_match;
    stamped_groups = v.stamped_groups;
    stamped_parities =
        λ j h. ground (arith, lookup-insert g j payload d.parities, v.stamped_parities j, stamped);
    closed = v.closed;
    positive = v.positive;
    bounded = v.bounded;
    group_ok = v.group_ok;
    parity_ok = λ j p h. elim (Bool-cases (g == j)) [
      | inl same ↦
          let k : g ≡ j = ground (arith, same) in
          let e : payload ≡ p = ground (arith, same, h, lookup-insert g j payload d.parities) in
          subst₂ c.Parity k e hp
      | inr other ↦ v.parity_ok j p (ground (arith, other, h, lookup-insert g j payload d.parities))
    ];
  }

  -- The group once it is opened: both of its dicts are there.
  pub store_data-IsValid :
      (g i : ℕ) (payload : Bytes) (len : ℕ) (d : XorFecDecoder Float)
      → IsValid d
      → contains g d.timestamps ≡ true
      → contains g d.groups ≡ true
      → ((r : Dict Bytes) → c.Holds g r → c.Holds g (insert i payload r))
      → (d' : XorFecDecoder Float) × (store_data g i payload len d ≡ ok d')
        × IsValid d'
        × (d'.delivered ≡ d.delivered)
  unfolding store_data
  store_data-IsValid g i payload len d v stamped opened hp =
      let (group, found) = contains-some g d.groups opened in
      let (lens, found') = contains-some g d.payload_lens (sym (v.lens_match g) ∙ opened) in
      let group' = insert i payload group in
      let lens' = insert i (if len == 0 then length payload else len) lens in
      let was = v.group_ok g group found in
      let stored : c.Holds g group' = hp group was in
      (
        record d {
          groups = insert g group' d.groups;
          payload_lens = insert g lens' d.payload_lens;
        },
        ground (arith, found, found'),
        record {
          size_ok = v.size_ok;
          stamps_distinct = v.stamps_distinct;
          lens_match = λ j. ground (
            arith,
            lookup-insert g j group' d.groups,
            lookup-insert g j lens' d.payload_lens,
            v.lens_match j,
          );
          stamped_groups =
              λ j h. ground (arith, lookup-insert g j group' d.groups, v.stamped_groups j, stamped);
          stamped_parities = v.stamped_parities;
          closed = v.closed;
          positive = v.positive;
          bounded = v.bounded;
          group_ok = λ j r h. elim (Bool-cases (g == j)) [
            | inl same ↦
                let k : g ≡ j = ground (arith, same) in
                let e : group' ≡ r = ground (arith, same, h, lookup-insert g j group' d.groups) in
                subst₂ c.Holds k e stored
            | inr other ↦
                v.group_ok j r (ground (arith, other, h, lookup-insert g j group' d.groups))
          ];
          parity_ok = v.parity_ok;
        },
        refl,
      )

  pub open_group-IsValid :
      (g : ℕ) (d : XorFecDecoder Float)
      → IsValid d
      → contains g d.timestamps ≡ true
      → IsValid (open_group g d) × (contains g (open_group g d).groups ≡ true)
  unfolding open_group
  open_group-IsValid g d v stamped = elim (Bool-cases (contains g d.groups)) [
    | inl old ↦ rw old (v, old)
    | inr new ↦ rw new (
      record {
        size_ok = v.size_ok;
        stamps_distinct = v.stamps_distinct;
        lens_match = λ j. ground (
          arith,
          lookup-insert g j [] d.groups,
          lookup-insert g j [] d.payload_lens,
          v.lens_match j,
        );
        stamped_groups =
            λ j h. ground (arith, lookup-insert g j [] d.groups, v.stamped_groups j, stamped);
        stamped_parities = v.stamped_parities;
        closed = v.closed;
        positive = v.positive;
        bounded = v.bounded;
        group_ok = λ j r h. elim (Bool-cases (g == j)) [
          | inl same ↦
              let e : [] ≡ r = ground (arith, same, h, lookup-insert g j [] d.groups) in
              subst (c.Holds j) e (c.holds_empty j)
          | inr other ↦ v.group_ok j r (ground (arith, other, h, lookup-insert g j [] d.groups))
        ];
        parity_ok = v.parity_ok;
      },
      ground (arith, lookup-insert g g [] d.groups),
    )
  ]

  mark_delivered_bounded :
      (g : ℕ) (d : XorFecDecoder Float)
      → IsValid d
      → length (mark_delivered g d).delivered ≤ d.max_active_groups
  unfolding mark_delivered add_elem
  mark_delivered_bounded g d v = ground (
    arith,
    v.bounded,
    v.positive,
    length-append d.delivered (g ∷ []),
    length-sorted (d.delivered ++ g ∷ []),
    length-sorted d.delivered,
    length-drop (length (sorted (d.delivered ++ g ∷ [])) / 2) (sorted (d.delivered ++ g ∷ [])),
  )

  -- Only the group itself is new among the delivered ones.
  elem-mark_delivered :
      (g j : ℕ) (d : XorFecDecoder Float)
      → elem j (mark_delivered g d).delivered ≡ true
      → (g ≡ j) ⊎ (elem j d.delivered ≡ true)
  unfolding mark_delivered
  elem-mark_delivered g j d h = ground (
    arith,
    h,
    elem-add_elem g j d.delivered,
    elem-drop j (length (sorted (add_elem g d.delivered)) / 2) (sorted (add_elem g d.delivered)),
    elem-sorted j (add_elem g d.delivered),
  )

  pub cleanup_group-IsValid :
      (g : ℕ) (d : XorFecDecoder Float) → IsValid d → IsValid (cleanup_group g d)
  unfolding cleanup_group
  cleanup_group-IsValid g d v = record {
    size_ok = v.size_ok;
    stamps_distinct = remove-Distinct g d.timestamps v.stamps_distinct;
    lens_match = λ j. ground (arith, kept g j d.groups, kept g j d.payload_lens, v.lens_match j);
    stamped_groups =
        λ j h. ground (arith, h, kept g j d.groups, kept g j d.timestamps, v.stamped_groups j);
    stamped_parities =
        λ j h. ground (arith, h, kept g j d.parities, kept g j d.timestamps, v.stamped_parities j);
    closed = λ j h. ground (arith, h, kept g j d.timestamps, v.closed j);
    positive = v.positive;
    bounded = v.bounded;
    group_ok = λ j r h. v.group_ok j r (ground (arith, h, lookup-remove g j d.groups));
    parity_ok = λ j p h. v.parity_ok j p (ground (arith, h, lookup-remove g j d.parities));
  }

  -- A recovered group is marked and forgotten.
  pub finish_group-IsValid :
      (g : ℕ) (d : XorFecDecoder Float) → IsValid d → IsValid (cleanup_group g (mark_delivered g d))
  unfolding cleanup_group mark_delivered
  finish_group-IsValid g d v =
      let w = cleanup_group-IsValid g d v in
      record {
        size_ok = v.size_ok;
        stamps_distinct = w.stamps_distinct;
        lens_match = w.lens_match;
        stamped_groups = w.stamped_groups;
        stamped_parities = w.stamped_parities;
        closed =
            λ j h. ground (arith, elem-mark_delivered g j d h, kept g j d.timestamps, v.closed j);
        positive = v.positive;
        bounded = mark_delivered_bounded g d v;
        group_ok = w.group_ok;
        parity_ok = w.parity_ok;
      }
