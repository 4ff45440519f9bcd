-- ===== src/Reorder/Insert.antt =====
-- `insert` and `is_duplicate` of hyperagg/tunnel/reorder_buffer.py.
use ratan_engine.Prelude.{
  ℕ, ◌+◌, ◌≤◌, ◌≡◌, refl, Bool, true, false, some, List, [], ◌∷◌, ltb, ◌==◌, if◌then◌else◌, length,
  arith, inl, inr, sym, ◌∙◌, subst, some-injective, Bool-cases,
}
use ratan_engine.Prelude.Bytes.{Bytes}
use ratan_engine.Prelude.Dict.{
  elem, add_elem, insert as put, lookup, contains, lookup-insert, elem-add_elem,
}
use ratan_engine.Reorder.{
  AdaptiveReorderBuffer, deliver, is_duplicate, mark_seen, store, insert, note_late, at_least,
}
use ratan_engine.Reorder.Valid.{AllFrom, IsOpen, IsValid, deliver-Delivery, length-append_recent}

elem-at_least : (cutoff j : ℕ) (s : List ℕ) → cutoff ≤ j → elem j (at_least cutoff s) ≡ elem j s
unfolding elem at_least
elem-at_least cutoff j [] h = refl
elem-at_least cutoff j (x ∷ xs) h = ground (arith, elem-at_least cutoff j xs h)

module _ {Float : Type 0} where
  -- The number has come, or has been skipped.
  unfoldable pub is_known : ℕ → AdaptiveReorderBuffer Float → Bool
  is_known j b = if ltb j b.next_seq then true else contains j b.buffer

  not_known-le : (s : ℕ) (b : AdaptiveReorderBuffer Float) → is_known s b ≡ false → b.next_seq ≤ s
  unfolding is_known
  not_known-le s b h = ground (arith, h)

  module _ (Q : ℕ → Bytes → Type 0) where
    pub is_duplicate-is_known :
        (j : ℕ) (b : AdaptiveReorderBuffer Float) → IsValid Q b → is_duplicate j b ≡ is_known j b
    unfolding is_duplicate is_known
    is_duplicate-is_known j b v = ground (arith, v.is_open.seen_buffered j)

    -- An arrival of number `s`, which gives the payloads `ps` out.
    pub record Inserted (s : ℕ) (b : AdaptiveReorderBuffer Float) (ps : List Bytes)
        (b' : AdaptiveReorderBuffer Float) : Type 0 where
      pub valid : IsValid Q b'
      pub payloads : AllFrom Q b.next_seq ps
      pub next : b'.next_seq ≡ b.next_seq + length ps
      pub known : (j : ℕ) → is_known j b' ≡ (if s == j then true else is_known j b)

    note_late-IsValid :
        (s : ℕ) (b : AdaptiveReorderBuffer Float) → IsValid Q b → IsValid Q (note_late s b)
    unfolding note_late
    note_late-IsValid s b v = elim (Bool-cases (elem s b.flushed_seqs)) [
      | inl late ↦ rw late (record {
        is_open = record {
          ahead = v.is_open.ahead;
          seen_buffered = v.is_open.seen_buffered;
          payload_ok = v.is_open.payload_ok;
          flushed_bound = v.is_open.flushed_bound;
          flushed_below = v.is_open.flushed_below;
          recent_bound = length-append_recent false b.recent_deliveries;
        };
        at_gap = v.at_gap;
      })
      | inr other ↦ rw other v
    ]

    note_late-Inserted :
        (s : ℕ) (b : AdaptiveReorderBuffer Float)
        → IsValid Q b
        → is_known s b ≡ true
        → Inserted s b [] (note_late s b)
    note_late-Inserted s b v h =
        let next_same : (note_late s b).next_seq ≡ b.next_seq = unfold note_late in ground arith in
        let buffer_same : (note_late s b).buffer ≡ b.buffer = unfold note_late in ground arith in
        record {
          valid = note_late-IsValid s b v;
          payloads = tt;
          next = omega (arith, next_same);
          known = λ j. unfold is_known in ground (arith, next_same, buffer_same, h);
        }

    store-IsOpen :
        (now : Float) (s : ℕ) (p : Bytes) (b : AdaptiveReorderBuffer Float)
        → IsValid Q b
        → Q s p
        → b.next_seq ≤ s
        → IsOpen Q (store now s p (mark_seen s b))
    unfolding store mark_seen
    store-IsOpen now s p b v q h = record {
      ahead = λ j there. ground (arith, there, lookup-insert s j p b.buffer, v.is_open.ahead j);
      seen_buffered = λ j le. ground (
        arith,
        elem-at_least b.next_seq j (add_elem s b.seen) le,
        elem-add_elem s j b.seen,
        lookup-insert s j p b.buffer,
        v.is_open.seen_buffered j le,
      );
      payload_ok = λ j p' found.
          let lookup_at : lookup j (put s p b.buffer)
              ≡ (if s == j then some p else lookup j b.buffer) =
            lookup-insert s j p b.buffer in
          elim (Bool-cases (s == j)) [
            | inl same ↦
                let e : s ≡ j = ground (arith, same) in
                let e' : p ≡ p' = some-injective (sym (rw same at lookup_at) ∙ found) in
                subst (λ (k : ℕ). Q k p') e (subst (Q s) e' q)
            | inr other ↦ v.is_open.payload_ok j p' (sym (rw other at lookup_at) ∙ found)
          ];
      flushed_bound = v.is_open.flushed_bound;
      flushed_below = v.is_open.flushed_below;
      recent_bound = v.is_open.recent_bound;
    }

    Inserted-fresh :
        (now : Float) (s : ℕ) (b : AdaptiveReorderBuffer Float) (p : Bytes)
        → IsValid Q b
        → Q s p
        → is_known s b ≡ false
        → let (ps, b') = deliver (store now s p (mark_seen s b)) in Inserted s b ps b'
    Inserted-fresh now s b p v q fresh =
        let stored = store now s p (mark_seen s b) in
        let next_same : stored.next_seq ≡ b.next_seq = unfold store mark_seen in refl in
        let there : (j : ℕ)
            → contains j stored.buffer ≡ (if s == j then true else contains j b.buffer) =
          λ j. unfold store mark_seen in ground (arith, lookup-insert s j p b.buffer) in
        let after : b.next_seq ≤ s = not_known-le s b fresh in
        let d = deliver-Delivery Q stored (store-IsOpen now s p b v q after) in
        record {
          valid = d.valid;
          payloads = subst (λ (n : ℕ). AllFrom Q n (deliver stored).0) next_same d.payloads;
          next = omega (arith, next_same, d.next);
          known = λ j.
              unfold is_known in
              ground (arith, next_same, there j, d.next, d.delivered_there j, d.kept j, after);
        }

    -- For every arrival: the state stays well formed, the payloads that come out are those of the
    -- numbers from the next one on, and exactly the number that arrived becomes known.
    pub insert_lem :
        (now : Float) (s : ℕ) (p : Bytes) (b : AdaptiveReorderBuffer Float)
        → IsValid Q b
        → Q s p
        → let (ps, b') = insert now s p b in Inserted s b ps b'
    unfolding insert
    insert_lem now s p b v q = elim (Bool-cases (is_duplicate s b)) [
      | inl again ↦
          rw (again, insert) (note_late-Inserted s b v (sym (is_duplicate-is_known s b v) ∙ again))
      | inr fresh ↦
          rw (fresh, insert)
            (Inserted-fresh now s b p v q (sym (is_duplicate-is_known s b v) ∙ fresh))
    ]
