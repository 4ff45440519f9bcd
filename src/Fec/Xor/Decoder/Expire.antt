-- ===== src/Fec/Xor/Decoder/Expire.antt =====
-- `expire_groups` of hyperagg/fec/xor_fec.py.
use ratan_engine.Prelude.{
  ℕ, ◌≡◌, refl, ap, ◌∙◌, Bool, false, Option, none, some, List, [], ◌∷◌, arith, if◌then◌else◌,
  Bool-cases, inl, inr,
}
use ratan_engine.Prelude.Dict.{Dict, elem, keys, lookup, lookup-remove, Distinct}
use ratan_engine.Prelude.Floats.{FloatOps}
use ratan_engine.Fec.Xor.Decoder.{XorFecDecoder, cleanup_group, expire_from, expire_groups}
use ratan_engine.Fec.Xor.Decoder.Valid.{Contents, IsValid, cleanup_group-IsValid}

module _ {Float : Type 0} (stale : Float → Bool) where
  -- The groups of a list of timestamps that are stale.
  abbrev pub stale_groups : Dict Float → List ℕ
  stale_groups [] = []
  stale_groups ((g, ts) ∷ rest) = if stale ts then g ∷ stale_groups rest else stale_groups rest

  expired-eq-stale_groups :
      (m : Dict Float) (d : XorFecDecoder Float) → (expire_from stale m d).0 ≡ stale_groups m
  unfolding expire_from
  expired-eq-stale_groups [] d = refl
  expired-eq-stale_groups ((g, ts) ∷ rest) d =
      ground (arith, expired-eq-stale_groups rest (if stale ts then cleanup_group g d else d))

  -- What is left of each group.
  record Left (m : Dict Float) (d d' : XorFecDecoder Float) : Type 0 where
    groups :
        (g : ℕ) → lookup g d'.groups ≡ (if elem g (stale_groups m) then none else lookup g d.groups)
    parities :
        (g : ℕ)
        → lookup g d'.parities ≡ (if elem g (stale_groups m) then none else lookup g d.parities)
    timestamps :
        (g : ℕ)
        → lookup g d'.timestamps ≡ (if elem g (stale_groups m) then none else lookup g d.timestamps)
    payload_lens :
        (g : ℕ)
        → lookup g d'.payload_lens
          ≡ (if elem g (stale_groups m) then none else lookup g d.payload_lens)
    delivered : d'.delivered ≡ d.delivered
    recoveries : d'.recoveries ≡ d.recoveries

  Left-expire_from : (m : Dict Float) (d : XorFecDecoder Float) → Left m d (expire_from stale m d).1
  unfolding expire_from cleanup_group elem
  Left-expire_from [] d = record {
    groups = λ g. refl;
    parities = λ g. refl;
    timestamps = λ g. refl;
    payload_lens = λ g. refl;
    delivered = refl;
    recoveries = refl;
  }
  Left-expire_from ((k, ts) ∷ rest) d = elim (Bool-cases (stale ts)) [
    | inr fresh ↦
        let l = Left-expire_from rest d in
        rw fresh (record {
          groups = λ g. ground (arith, fresh, l.groups g);
          parities = λ g. ground (arith, fresh, l.parities g);
          timestamps = λ g. ground (arith, fresh, l.timestamps g);
          payload_lens = λ g. ground (arith, fresh, l.payload_lens g);
          delivered = l.delivered;
          recoveries = l.recoveries;
        })
    | inl old ↦
        let l = Left-expire_from rest (cleanup_group k d) in
        rw old (record {
          groups = λ g. ground (arith, old, l.groups g, lookup-remove k g d.groups);
          parities = λ g. ground (arith, old, l.parities g, lookup-remove k g d.parities);
          timestamps = λ g. ground (arith, old, l.timestamps g, lookup-remove k g d.timestamps);
          payload_lens =
              λ g. ground (arith, old, l.payload_lens g, lookup-remove k g d.payload_lens);
          delivered = l.delivered;
          recoveries = l.recoveries;
        })
  ]

  abbrev pub is_stale : ℕ → Dict Float → Bool
  is_stale g m = elim (lookup g m) [ none ↦ false | some ts ↦ stale ts ]

  stale_groups_absent :
      (g : ℕ) (m : Dict Float) → elem g (keys m) ≡ false → elem g (stale_groups m) ≡ false
  unfolding elem
  stale_groups_absent g [] h = refl
  stale_groups_absent g ((k, ts) ∷ rest) h = ground (arith, h, stale_groups_absent g rest)

  elem-stale_groups :
      (g : ℕ) (m : Dict Float) → Distinct (keys m) → elem g (stale_groups m) ≡ is_stale g m
  unfolding elem lookup
  elem-stale_groups g [] h = refl
  elem-stale_groups g ((k, ts) ∷ rest) h =
      ground (arith, h, stale_groups_absent k rest, elem-stale_groups g rest)

  expire_from-IsValid :
      (c : Contents) (m : Dict Float) (d : XorFecDecoder Float)
      → IsValid c d
      → IsValid c (expire_from stale m d).1
  unfolding expire_from
  expire_from-IsValid c [] d v = v
  expire_from-IsValid c ((k, ts) ∷ rest) d v = elim (Bool-cases (stale ts)) [
    | inr fresh ↦ rw fresh (expire_from-IsValid c rest d v)
    | inl old ↦
        rw old (expire_from-IsValid c rest (cleanup_group k d) (cleanup_group-IsValid c k d v))
  ]

-- The entry of a group, once the stale ones are dropped.
abbrev pub unless {ℓ} : {A : Type ℓ} → Bool → Option A → Option A
unless b o = if b then none else o

-- With `cutoff` = now - timeout_ms / 1000, `expire_groups` on a valid decoder returns exactly the
-- groups whose timestamp is below the cutoff, drops all that is stored of those and nothing of any
-- other, leaves the delivered groups alone, and keeps the decoder valid.
pub expire_groups_lem :
    {Float : Type 0} (fl : FloatOps Float) (c : Contents) (now : Float) (d : XorFecDecoder Float)
    → IsValid c d
    → let (expired, d') = expire_groups fl now d in
      let stale = λ (ts : Float). fl.lt ts (fl.sub now (fl.div d.timeout_ms (fl.of_ℕ 1000))) in
      IsValid c d'
      × (d'.delivered ≡ d.delivered)
      × ((g : ℕ)
          → (elem g expired ≡ is_stale stale g d.timestamps)
            × (lookup g d'.groups ≡ unless (is_stale stale g d.timestamps) (lookup g d.groups))
            × (lookup g d'.parities ≡ unless (is_stale stale g d.timestamps) (lookup g d.parities))
            × (lookup g d'.timestamps
                ≡ unless (is_stale stale g d.timestamps) (lookup g d.timestamps))
            × (lookup g d'.payload_lens
                ≡ unless (is_stale stale g d.timestamps) (lookup g d.payload_lens)))
unfolding expire_groups
expire_groups_lem fl c now d v =
    let stale = λ (ts : _). fl.lt ts (fl.sub now (fl.div d.timeout_ms (fl.of_ℕ 1000))) in
    let l = Left-expire_from stale d.timestamps d in
    (
      expire_from-IsValid stale c d.timestamps d v,
      l.delivered,
      λ g.
          let e = elem-stale_groups stale g d.timestamps v.stamps_distinct in
          (
            ap (elem g) (expired-eq-stale_groups stale d.timestamps d) ∙ e,
            l.groups g ∙ ap (λ (b : Bool). unless b (lookup g d.groups)) e,
            l.parities g ∙ ap (λ (b : Bool). unless b (lookup g d.parities)) e,
            l.timestamps g ∙ ap (λ (b : Bool). unless b (lookup g d.timestamps)) e,
            l.payload_lens g ∙ ap (λ (b : Bool). unless b (lookup g d.payload_lens)) e,
          ),
    )
