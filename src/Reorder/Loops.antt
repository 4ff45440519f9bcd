-- ===== src/Reorder/Loops.antt =====
-- The two loops of hyperagg/tunnel/reorder_buffer.py, that of `_deliver_in_order` and that of
-- `check_timeouts`: what they change, and that their fuel is enough.
use ratan_engine.Prelude.{
  ℕ, zero, suc, ◌+◌, ◌≤◌, ◌<◌, ◌≡◌, refl, true, false, some, List, [], ◌∷◌, ◌==◌, length,
  length-append, arith, ◌⊎◌, inl, inr, Option-cases, Bool-cases, List-cases, sym, ap, ◌∙◌,
}
use ratan_engine.Prelude.Bytes.{Bytes}
use ratan_engine.Prelude.Dict.{
  Dict, elem, add_elem, discard, keys, lookup, remove, contains, lookup-remove, elem-keys,
  elem-discard, elem-add_elem,
}
use ratan_engine.Prelude.Floats.{FloatOps}
use ratan_engine.Reorder.{
  AdaptiveReorderBuffer, pop_next, deliver_loop, deliver_in_order, skip_next, skip_loop, skip_fuel,
  is_overdue, min_of, trim_flushed,
}

-- The payloads are those under `n`, `n + 1` and so on.
abbrev pub Consecutive : Dict Bytes → ℕ → List Bytes → Type 0
Consecutive d n [] = Unit
Consecutive d n (p ∷ ps) = (lookup n d ≡ some p) × Consecutive d (n + 1) ps

Consecutive-remove :
    (d : Dict Bytes) (k n : ℕ) (ps : List Bytes)
    → k < n
    → Consecutive (remove k d) n ps
    → Consecutive d n ps
Consecutive-remove d k n [] h c = tt
Consecutive-remove d k n (p ∷ ps) h c =
    (ground (arith, lookup-remove k n d, c), Consecutive-remove d k (n + 1) ps (omega arith) c.1)

length-remove-le : {V : Type 0} (k : ℕ) (d : Dict V) → length (remove k d) ≤ length d
unfolding remove
length-remove-le k [] = omega arith
length-remove-le k ((j, w) ∷ d) = ground (arith, length-remove-le k d)

length-remove-lt :
    {V : Type 0} (k : ℕ) (v : V) (d : Dict V) → lookup k d ≡ some v → length (remove k d) < length d
unfolding remove lookup
length-remove-lt k v [] h = absurd (ground (arith, h))
length-remove-lt k v ((j, w) ∷ d) h = elim (Bool-cases (j == k)) [
  | inl same ↦ ground (arith, length-remove-le k d)
  | inr other ↦
      let rest : lookup k d ≡ some v = ground (arith, h, other) in
      ground (arith, length-remove-lt k v d rest)
]

contains-empty : {V : Type 0} (k : ℕ) (d : Dict V) → length d ≤ 0 → contains k d ≡ false
unfolding lookup
contains-empty k [] h = refl
contains-empty k ((j, w) ∷ d) h = absurd (omega arith)

module _ {Float : Type 0} where
  -- The loop of `_deliver_in_order` took the consecutive payloads out and stopped at a gap.
  pub record Delivered (b : AdaptiveReorderBuffer Float) (ps : List Bytes)
      (b' : AdaptiveReorderBuffer Float) : Type 0 where
    pub payloads : Consecutive b.buffer b.next_seq ps
    pub next : b'.next_seq ≡ b.next_seq + length ps
    pub at_gap : contains b'.next_seq b'.buffer ≡ false
    pub kept : (j : ℕ) → b'.next_seq ≤ j → lookup j b'.buffer ≡ lookup j b.buffer
    pub none_new : (j : ℕ) → contains j b'.buffer ≡ true → contains j b.buffer ≡ true
    pub taken : (j : ℕ) → contains j b'.buffer ≡ true → (j < b.next_seq) ⊎ (b'.next_seq ≤ j)
    pub seen_same : b'.seen ≡ b.seen
    pub flushed_same : b'.flushed_seqs ≡ b.flushed_seqs
    pub recent_same : b'.recent_deliveries ≡ b.recent_deliveries
    pub window_same : b'.window ≡ b.window

  Delivered-none :
      (b : AdaptiveReorderBuffer Float) → contains b.next_seq b.buffer ≡ false → Delivered b [] b
  Delivered-none b gap = record {
    payloads = tt;
    next = omega arith;
    at_gap = gap;
    kept = λ j h. refl;
    none_new = λ j h. h;
    taken = λ j h. ground arith;
    seen_same = refl;
    flushed_same = refl;
    recent_same = refl;
    window_same = refl;
  }

  Delivered-pop_next :
      (b b' : AdaptiveReorderBuffer Float) (p : Bytes) (ps : List Bytes)
      → lookup b.next_seq b.buffer ≡ some p
      → Delivered (pop_next b) ps b'
      → Delivered b (p ∷ ps) b'
  unfolding pop_next
  Delivered-pop_next b b' p ps found d = record {
    payloads = (
      found,
      Consecutive-remove b.buffer b.next_seq (b.next_seq + 1) ps (omega arith) d.payloads,
    );
    next = omega (arith, d.next);
    at_gap = d.at_gap;
    kept = λ j h. ground (arith, d.kept j h, d.next, lookup-remove b.next_seq j b.buffer);
    none_new = λ j h. ground (arith, d.none_new j h, lookup-remove b.next_seq j b.buffer);
    taken = λ j h. ground (arith, d.taken j h, d.none_new j h, lookup-remove b.next_seq j b.buffer);
    seen_same = d.seen_same;
    flushed_same = d.flushed_same;
    recent_same = d.recent_same;
    window_same = d.window_same;
  }

  deliver_loop-Delivered :
      (fuel : ℕ) (b : AdaptiveReorderBuffer Float)
      → length b.buffer ≤ fuel
      → let (ps, b') = deliver_loop fuel b in Delivered b ps b'
  unfolding deliver_loop
  deliver_loop-Delivered zero b h = Delivered-none b (contains-empty b.next_seq b.buffer h)
  deliver_loop-Delivered (suc fuel) b h = elim (Option-cases (lookup b.next_seq b.buffer)) [
    | inl gap ↦ rw (gap, deliver_loop) (Delivered-none b (ground (arith, gap)))
    | inr (p, found) ↦
        rw (found, deliver_loop)
          (Delivered-pop_next b _ p _ found (
            deliver_loop-Delivered fuel (pop_next b)
              unfold pop_next in omega (arith, length-remove-lt b.next_seq p b.buffer found)))
  ]

pub deliver_in_order-Delivered :
    {Float : Type 0} (b : AdaptiveReorderBuffer Float)
    → let (ps, b') = deliver_in_order b in Delivered b ps b'
unfolding deliver_in_order
deliver_in_order-Delivered b = deliver_loop-Delivered (length b.buffer) b (omega arith)

elem-min_of : (x : ℕ) (xs : List ℕ) → elem (min_of x xs) (x ∷ xs) ≡ true
unfolding min_of elem
elem-min_of x [] = ground arith
elem-min_of x (y ∷ ys) = ground (arith, elem-min_of x ys, elem-min_of y ys)

pub min_of-le : (x : ℕ) (xs : List ℕ) (k : ℕ) → elem k (x ∷ xs) ≡ true → min_of x xs ≤ k
unfolding min_of elem
min_of-le x [] k h = ground (arith, h)
min_of-le x (y ∷ ys) k h =
    ground (arith, h, min_of-le x ys k, min_of-le y ys k, min_of-le x ys x, min_of-le y ys y)

length-discard-le : (k : ℕ) (xs : List ℕ) → length (discard k xs) ≤ length xs
unfolding discard
length-discard-le k [] = omega arith
length-discard-le k (x ∷ xs) = ground (arith, length-discard-le k xs)

length-discard-lt : (k : ℕ) (xs : List ℕ) → elem k xs ≡ true → length (discard k xs) < length xs
unfolding discard elem
length-discard-lt k [] h = absurd (ground (arith, h))
length-discard-lt k (x ∷ xs) h = ground (arith, length-discard-le k xs, length-discard-lt k xs)

length-add_elem : (k : ℕ) (s : List ℕ) → length (add_elem k s) ≤ length s + 1
unfolding add_elem
length-add_elem k s = ground (arith, length-append s (k ∷ []))

-- A set that is one too large is cut back to the window.
pub length-trim_flushed :
    (window : ℕ) (s : List ℕ) → length s ≤ window + 1 → length (trim_flushed window s) ≤ window
unfolding trim_flushed
length-trim_flushed window [] h = omega arith
length-trim_flushed window (x ∷ xs) h =
    ground (arith, length-discard-lt (min_of x xs) (x ∷ xs) (elem-min_of x xs))

pub elem-trim_flushed :
    (window k : ℕ) (s : List ℕ) → elem k (trim_flushed window s) ≡ true → elem k s ≡ true
unfolding trim_flushed
elem-trim_flushed window k [] h = h
elem-trim_flushed window k (x ∷ xs) h = ground (arith, h, elem-discard (min_of x xs) k (x ∷ xs))

pub contains-min_of :
    {V : Type 0} (d : Dict V) (k : ℕ) (ks : List ℕ)
    → keys d ≡ k ∷ ks
    → contains (min_of k ks) d ≡ true
contains-min_of d k ks e =
    sym (elem-keys (min_of k ks) d) ∙ ap (elem (min_of k ks)) e ∙ elem-min_of k ks

later_than :
    {Float : Type 0} (b : AdaptiveReorderBuffer Float)
    → ((j : ℕ) → contains j b.buffer ≡ true → b.next_seq ≤ j)
    → contains b.next_seq b.buffer ≡ false
    → (j : ℕ) → contains j b.buffer ≡ true
    → b.next_seq + 1 ≤ j
later_than b ahead gap j h = elim (Bool-cases (j == b.next_seq)) [
  | inl same ↦ let e : j ≡ b.next_seq = ground (arith, same) in absurd (ground (arith, e, h, gap))
  | inr other ↦ ground (arith, other, ahead j h)
]

module _ {Float : Type 0} (fl : FloatOps Float) where
  -- The loop of `check_timeouts` moved on to a number that is there, or that must not be skipped yet.
  pub record Skipped (now cutoff : Float) (b : AdaptiveReorderBuffer Float)
      (b' : AdaptiveReorderBuffer Float) : Type 0 where
    pub advance : b.next_seq ≤ b'.next_seq
    pub stopped : is_overdue fl now cutoff b' ≡ false
    pub none_skipped : (j : ℕ) → b.next_seq ≤ j → j < b'.next_seq → contains j b.buffer ≡ false
    pub skipped_due : (b'.next_seq ≡ b.next_seq) ⊎ (is_overdue fl now cutoff b ≡ true)
    pub flushed_bound : length b.flushed_seqs ≤ b.window → length b'.flushed_seqs ≤ b.window
    pub flushed_below :
        (j : ℕ) → elem j b'.flushed_seqs ≡ true → (elem j b.flushed_seqs ≡ true) ⊎ (j < b'.next_seq)
    pub rest_same : b' ≡ record b { next_seq = b'.next_seq; flushed_seqs = b'.flushed_seqs }

  Skipped-none :
      (now cutoff : Float) (b : AdaptiveReorderBuffer Float)
      → is_overdue fl now cutoff b ≡ false
      → Skipped now cutoff b b
  Skipped-none now cutoff b stop = record {
    advance = omega arith;
    stopped = stop;
    none_skipped = λ j h h'. absurd (omega arith);
    skipped_due = inl refl;
    flushed_bound = λ h. h;
    flushed_below = λ j h. inl h;
    rest_same = refl;
  }

  Skipped-skip_next :
      (now cutoff : Float) (b b' : AdaptiveReorderBuffer Float)
      → is_overdue fl now cutoff b ≡ true
      → contains b.next_seq b.buffer ≡ false
      → Skipped now cutoff (skip_next b) b'
      → Skipped now cutoff b b'
  unfolding skip_next
  Skipped-skip_next now cutoff b b' overdue gap s =
      let marked = add_elem b.next_seq b.flushed_seqs in
      record {
        advance = omega (arith, s.advance);
        stopped = s.stopped;
        none_skipped = λ j h h'. ground (arith, gap, s.none_skipped j, h, h');
        skipped_due = inr overdue;
        flushed_bound = λ h. s.flushed_bound (
            length-trim_flushed b.window marked
              (omega (arith, length-add_elem b.next_seq b.flushed_seqs, h)));
        flushed_below = λ j h. ground (
          arith,
          s.flushed_below j h,
          s.advance,
          elem-trim_flushed b.window j marked,
          elem-add_elem b.next_seq j b.flushed_seqs,
        );
        rest_same = s.rest_same;
      }

  -- A loop that goes on has not come to the smallest number yet.
  skip_fuel-skip_next :
      (now cutoff : Float) (b : AdaptiveReorderBuffer Float)
      → ((j : ℕ) → contains j b.buffer ≡ true → b.next_seq ≤ j)
      → is_overdue fl now cutoff b ≡ true
      → (contains b.next_seq b.buffer ≡ false)
        × ((skip_fuel (skip_next b) < skip_fuel b)
            × ((j : ℕ) → contains j b.buffer ≡ true → b.next_seq + 1 ≤ j))
  unfolding is_overdue skip_fuel skip_next
  skip_fuel-skip_next now cutoff b ahead overdue =
      elim (Bool-cases (contains b.next_seq b.buffer)) [
        | inl there ↦ absurd (ground (arith, there, overdue))
        | inr gap ↦ elim (List-cases (keys b.buffer)) [
          | inl empty ↦ absurd (ground (arith, gap, empty, overdue))
          | inr (k, ks, e) ↦
              let later : (j : ℕ) → contains j b.buffer ≡ true → b.next_seq + 1 ≤ j =
                λ j h. later_than b ahead gap j h in
              (
                gap,
                (
                  rw (e, skip_fuel)
                      (omega (arith, later (min_of k ks) (contains-min_of b.buffer k ks e))),
                  later,
                ),
              )
        ]
      ]

  pub skip_loop-Skipped :
      (fuel : ℕ) (now cutoff : Float) (b : AdaptiveReorderBuffer Float)
      → ((j : ℕ) → contains j b.buffer ≡ true → b.next_seq ≤ j)
      → skip_fuel b ≤ fuel
      → Skipped now cutoff b (skip_loop fl fuel now cutoff b)
  unfolding skip_loop
  skip_loop-Skipped zero now cutoff b ahead h = elim (Bool-cases (is_overdue fl now cutoff b)) [
    | inl on ↦ absurd (omega (arith, (skip_fuel-skip_next now cutoff b ahead on).1.0))
    | inr stop ↦ Skipped-none now cutoff b stop
  ]
  skip_loop-Skipped (suc fuel) now cutoff b ahead h =
      elim (Bool-cases (is_overdue fl now cutoff b)) [
        | inl on ↦
            let (gap, (less, later)) = skip_fuel-skip_next now cutoff b ahead on in
            rw (on, skip_loop)
              (Skipped-skip_next now cutoff b _ on gap (
                skip_loop-Skipped fuel now cutoff (skip_next b) (unfold skip_next in later)
                  (omega arith)))
        | inr stop ↦ rw (stop, skip_loop) (Skipped-none now cutoff b stop)
      ]
