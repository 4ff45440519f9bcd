-- ===== src/Fec/Adaptive/Sizing.antt =====
-- The burst statistics and the parameters of hyperagg/fec/adaptive_fec.py.
use ratan_engine.Prelude.{
  ℕ, ◌+◌, ◌-◌, ◌*◌, ◌/◌, ◌≤◌, ◌<◌, ◌≡◌, refl, min, true, false, List, [], ◌∷◌, ◌++◌, ltb, leb, ◌==◌,
  length, length-append, length-drop, get_or, arith, sym, ◌∙◌, ◌⊎◌, inl, inr, Bool-cases,
}
use ratan_engine.Prelude.Dict.{elem, elem-append}
use ratan_engine.Prelude.Sort.{
  sorted, length-sorted, elem-sorted, elem-drop, elem-get_or, count_where, get_or-sorted,
}
use ratan_engine.Fec.Mode.{reed_solomon, replicate}
use ratan_engine.Fec.Adaptive.{
  BurstDetector, record_received, record_lost, append_last, p95_of, p95_burst_length,
  AdaptiveFecSizer, choose, same_mode, update_sizer,
}

no_cons : (b : ℕ) (bs : List ℕ) → b ∷ bs ≡ [] → ⊥
no_cons b bs h = cc

-- The percentile of the bursts: one of them, with more than 95 of a hundred bursts not longer, and at
-- most 95 of a hundred shorter; and 0 where there are none.
pub record IsPercentile (p95 : ℕ) (bursts : List ℕ) : Type 0 where
  pub is_burst : (bursts ≡ []) ⊎ (elem p95 bursts ≡ true)
  pub not_longer : (bursts ≡ []) ⊎ (95 * length bursts < 100 * count_where (λ k. leb k p95) bursts)
  pub shorter : 100 * count_where (λ k. ltb k p95) bursts ≤ 95 * length bursts
  pub without : bursts ≡ [] → p95 ≡ 0

p95_of-IsPercentile : (bursts : List ℕ) → IsPercentile (p95_of bursts) bursts
unfolding p95_of
p95_of-IsPercentile [] = record {
  is_burst = inl refl;
  not_longer = inl refl;
  shorter = unfold count_where in omega arith;
  without = λ h. refl;
}
p95_of-IsPercentile (b ∷ bs) =
    let n : ℕ = length (b ∷ bs) in
    let i : ℕ = min (n * 95 / 100) (n - 1) in
    let inside : i < n = omega arith in
    let v : ℕ = get_or (sorted (b ∷ bs)) i 0 in
    let ranks = get_or-sorted (b ∷ bs) i inside in
    record {
      is_burst = inr (
          sym (elem-sorted v (b ∷ bs))
          ∙ elem-get_or (sorted (b ∷ bs)) i (omega (arith, length-sorted (b ∷ bs))));
      not_longer = inr (omega (arith, ranks));
      shorter = omega (arith, ranks);
      without = λ h. absurd (no_cons b bs h);
    }

-- The deques are within their limits, and bursts have a length.
pub record IsValid (d : BurstDetector) : Type 0 where
  pub events_bound : length d.events ≤ d.window
  pub bursts_bound : length d.burst_lengths ≤ 200
  pub positive : (k : ℕ) → elem k d.burst_lengths ≡ true → 0 < k

length-append_last :
    {A : Type 0} (maxlen : ℕ) (x : A) (q : List A) → length (append_last maxlen x q) ≤ maxlen
unfolding append_last
length-append_last maxlen x q =
    omega (arith, length-drop (length q + 1 - maxlen) (q ++ x ∷ []), length-append q (x ∷ []))

positive-append_last :
    (x : ℕ) (q : List ℕ)
    → 0 < x
    → ((k : ℕ) → elem k q ≡ true → 0 < k)
    → (k : ℕ) → elem k (append_last 200 x q) ≡ true
    → 0 < k
unfolding append_last elem
positive-append_last x q h hq k there =
    ground (
      arith,
      elem-drop k (length q + 1 - 200) (q ++ x ∷ []) there,
      elem-append k q (x ∷ []),
      hq k,
      h,
    )

pub record_received-IsValid : (d : BurstDetector) → IsValid d → IsValid (record_received d)
unfolding record_received
record_received-IsValid d v = record {
  events_bound = length-append_last d.window true d.events;
  bursts_bound =
      ground (arith, length-append_last 200 d.current_burst d.burst_lengths, v.bursts_bound);
  positive = λ k there. elim (Bool-cases (ltb 0 d.current_burst)) [
    | inl burst ↦
        positive-append_last d.current_burst d.burst_lengths (ground (arith, burst)) v.positive k
          (ground (arith, burst, there))
    | inr quiet ↦ v.positive k (ground (arith, quiet, there))
  ];
}

pub record_lost-IsValid : (d : BurstDetector) → IsValid d → IsValid (record_lost d)
unfolding record_lost
record_lost-IsValid d v = record {
  events_bound = length-append_last d.window false d.events;
  bursts_bound = v.bursts_bound;
  positive = v.positive;
}

-- What `update` chooses for a percentile of the burst lengths.
pub record Chosen (p95 : ℕ) (s s' : AdaptiveFecSizer) : Type 0 where
  pub covers :
      ((s'.current_mode ≡ replicate) × (5 ≤ p95))
      ⊎ ((p95 ≤ s'.current_parity_shards) × (p95 ≤ 4) × (0 < s'.current_data_shards))
  pub interleaves : s'.interleave_enabled ≡ same_mode s'.current_mode reed_solomon
  pub depth_is : s'.interleave_enabled ≡ true → s'.interleave_depth ≡ p95
  pub detector_same : s'.detector ≡ s.detector

choose-Chosen : (p95 : ℕ) (s : AdaptiveFecSizer) → Chosen p95 s (choose p95 s)
unfolding choose same_mode
choose-Chosen p95 s = elim (Bool-cases (leb p95 1)) [
  | inl one ↦
      rw (one, choose)
        (record {
          covers = inr (ground (arith, one), ground (arith, one), omega arith);
          interleaves = refl;
          depth_is = λ h. absurd (ground (arith, h));
          detector_same = refl;
        })
  | inr more ↦ elim (Bool-cases (p95 == 2)) [
    | inl two ↦
        rw (more, two, choose)
          (record {
            covers = inr (ground (arith, two), ground (arith, two), omega arith);
            interleaves = refl;
            depth_is = λ h. ground (arith, two);
            detector_same = refl;
          })
    | inr other ↦ elim (Bool-cases (leb p95 4)) [
      | inl four ↦
          rw (more, other, four, choose)
            (record {
              covers = inr (ground (arith, four), ground (arith, four), omega arith);
              interleaves = refl;
              depth_is = λ h. refl;
              detector_same = refl;
            })
      | inr long ↦
          rw (more, other, long, choose)
            (record {
              covers = inl (refl, ground (arith, long));
              interleaves = refl;
              depth_is = λ h. absurd (ground (arith, h));
              detector_same = refl;
            })
    ]
  ]
]

-- Whatever bursts were seen: the percentile is 0 where there are none, and otherwise the length of
-- one of the bursts, which more than 95 of a hundred bursts do not exceed, and than which at most 95
-- of a hundred are shorter; `update` chooses a code with at least as many parity shards as it is
-- long, or, from 5 on, replication; packets are interleaved exactly in the Reed-Solomon mode, with
-- this length as the depth; and the statistics stay.
pub update_sizer-Chosen :
    (s : AdaptiveFecSizer)
    → let p95 = p95_burst_length s.detector in
      IsPercentile p95 s.detector.burst_lengths × Chosen p95 s (update_sizer s).1
unfolding update_sizer
update_sizer-Chosen s =
    (p95_of-IsPercentile s.detector.burst_lengths, choose-Chosen (p95_burst_length s.detector) s)
