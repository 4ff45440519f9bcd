-- ===== src/Reorder/Valid.antt =====
-- The well-formed reorder buffers of hyperagg/tunnel/reorder_buffer.py, and what one delivery does.
use ratan_engine.Prelude.{
  ℕ, ◌+◌, ◌-◌, ◌≤◌, ◌<◌, ◌≡◌, refl, Bool, true, false, some, List, [], ◌∷◌, ◌++◌, ◌==◌, length,
  arith, inl, inr, length-append, length-drop, sym, ap, ◌∙◌, Bool-cases,
}
use ratan_engine.Prelude.Bytes.{Bytes}
use ratan_engine.Prelude.Dict.{elem, lookup, contains}
use ratan_engine.Reorder.{
  AdaptiveReorderBuffer, deliver_in_order, deliver, count_delivered, append_recent, new_buffer,
}
use ratan_engine.Reorder.Loops.{Consecutive, Delivered, deliver_in_order-Delivered}

-- Every payload has the property `Q` of its number.
abbrev pub AllFrom : (ℕ → Bytes → Type 0) → ℕ → List Bytes → Type 0
AllFrom Q n [] = Unit
AllFrom Q n (p ∷ ps) = Q n p × AllFrom Q (n + 1) ps

module _ {Float : Type 0} (Q : ℕ → Bytes → Type 0) where
  -- What holds between the parts of a method.
  pub record IsOpen (b : AdaptiveReorderBuffer Float) : Type 0 where
    pub ahead : (j : ℕ) → contains j b.buffer ≡ true → b.next_seq ≤ j
    pub seen_buffered : (j : ℕ) → b.next_seq ≤ j → elem j b.seen ≡ contains j b.buffer
    pub payload_ok : (j : ℕ) (p : Bytes) → lookup j b.buffer ≡ some p → Q j p
    pub flushed_bound : length b.flushed_seqs ≤ b.window
    pub flushed_below : (j : ℕ) → elem j b.flushed_seqs ≡ true → j < b.next_seq
    pub recent_bound : length b.recent_deliveries ≤ 100

  -- What holds between the methods: moreover the next packet is missing.
  pub record IsValid (b : AdaptiveReorderBuffer Float) : Type 0 where
    pub is_open : IsOpen b
    pub at_gap : contains b.next_seq b.buffer ≡ false

  -- A delivery from `b` to `b'`: the payloads from the next number on, up to a gap.
  pub record Delivery (b : AdaptiveReorderBuffer Float) (ps : List Bytes)
      (b' : AdaptiveReorderBuffer Float) : Type 0 where
    pub valid : IsValid b'
    pub payloads : AllFrom Q b.next_seq ps
    pub next : b'.next_seq ≡ b.next_seq + length ps
    pub delivered_there : (j : ℕ) → b.next_seq ≤ j → j < b'.next_seq → contains j b.buffer ≡ true
    pub kept : (j : ℕ) → b'.next_seq ≤ j → contains j b'.buffer ≡ contains j b.buffer

  pub new_buffer-IsValid :
      (window : ℕ) (lo hi initial : Float) → IsValid (new_buffer window lo hi initial)
  unfolding lookup elem
  new_buffer-IsValid window lo hi initial = record {
    is_open = record {
      ahead = λ j h. absurd (ground (arith, h));
      seen_buffered = λ j h. refl;
      payload_ok = λ j p h. absurd (ground (arith, h));
      flushed_bound = omega arith;
      flushed_below = λ j h. absurd (ground (arith, h));
      recent_bound = omega arith;
    };
    at_gap = refl;
  }

pub length-append_recent : (x : Bool) (q : List Bool) → length (append_recent x q) ≤ 100
unfolding append_recent
length-append_recent x q =
    omega (arith, length-drop (length q + 1 - 100) (q ++ x ∷ []), length-append q (x ∷ []))

module _ {Float : Type 0} where
  -- Counting changes the statistics only.
  pub record Counted (b b' : AdaptiveReorderBuffer Float) : Type 0 where
    pub same : b' ≡ record b {
      recent_deliveries = b'.recent_deliveries;
      total_delivered = b'.total_delivered;
    }
    pub recent_bound : length b.recent_deliveries ≤ 100 → length b'.recent_deliveries ≤ 100

  count_delivered-Counted :
      (ps : List Bytes) (b : AdaptiveReorderBuffer Float) → Counted b (count_delivered ps b)
  unfolding count_delivered
  count_delivered-Counted [] b = record { same = refl; recent_bound = λ h. h }
  count_delivered-Counted (p ∷ ps) b =
      let counted = record b {
        recent_deliveries = append_recent true b.recent_deliveries;
        total_delivered = b.total_delivered + 1;
      } in
      let rest = count_delivered-Counted ps counted in
      record {
        same = rest.same;
        recent_bound = λ h. rest.recent_bound (length-append_recent true b.recent_deliveries);
      }

  pub total-count_delivered :
      (ps : List Bytes) (b : AdaptiveReorderBuffer Float)
      → (count_delivered ps b).total_delivered ≡ b.total_delivered + length ps
  unfolding count_delivered
  total-count_delivered [] b = omega arith
  total-count_delivered (p ∷ ps) b = omega (
    arith,
    total-count_delivered ps (record b {
      recent_deliveries = append_recent true b.recent_deliveries;
      total_delivered = b.total_delivered + 1;
    }),
  )

  module _ (Q : ℕ → Bytes → Type 0) where
    Counted-IsValid :
        (b b' : AdaptiveReorderBuffer Float) → Counted b b' → IsValid Q b → IsValid Q b'
    Counted-IsValid b b' c v = rw c.same (record {
      is_open = record {
        ahead = v.is_open.ahead;
        seen_buffered = v.is_open.seen_buffered;
        payload_ok = v.is_open.payload_ok;
        flushed_bound = v.is_open.flushed_bound;
        flushed_below = v.is_open.flushed_below;
        recent_bound = c.recent_bound v.is_open.recent_bound;
      };
      at_gap = v.at_gap;
    })

    AllFrom-Consecutive :
        (b : AdaptiveReorderBuffer Float) (n : ℕ) (ps : List Bytes)
        → IsOpen Q b
        → Consecutive b.buffer n ps
        → AllFrom Q n ps
    AllFrom-Consecutive b n [] o c = tt
    AllFrom-Consecutive b n (p ∷ ps) o c =
        (o.payload_ok n p c.0, AllFrom-Consecutive b (n + 1) ps o c.1)

    pub Consecutive-contains :
        (b : AdaptiveReorderBuffer Float) (n j : ℕ) (ps : List Bytes)
        → Consecutive b.buffer n ps
        → n ≤ j
        → j < n + length ps
        → contains j b.buffer ≡ true
    Consecutive-contains b n j [] c h h' = absurd (omega arith)
    Consecutive-contains b n j (p ∷ ps) c h h' = elim (Bool-cases (n == j)) [
      | inl same ↦ let e : n ≡ j = ground (arith, same) in ground (arith, sym e, c)
      | inr other ↦ Consecutive-contains b (n + 1) j ps c.1 (ground (arith, other)) (omega arith)
    ]

    Delivered-IsValid :
        (b b' : AdaptiveReorderBuffer Float) (ps : List Bytes)
        → IsOpen Q b
        → Delivered b ps b'
        → IsValid Q b'
    Delivered-IsValid b b' ps o d = record {
      is_open = record {
        ahead = λ j h. ground (arith, d.taken j h, o.ahead j (d.none_new j h));
        seen_buffered = λ j h.
            ground
              (arith, d.seen_same, d.next, d.kept j h, o.seen_buffered j (omega (arith, d.next)));
        payload_ok = λ j p h.
            let here : contains j b'.buffer ≡ true = ground (arith, h) in
            let after : b'.next_seq ≤ j =
              ground (arith, d.taken j here, o.ahead j (d.none_new j here)) in
            o.payload_ok j p (sym (d.kept j after) ∙ h);
        flushed_bound = rw (d.flushed_same, d.window_same) o.flushed_bound;
        flushed_below = λ j h. ground (arith, d.flushed_same, o.flushed_below j, d.next, h);
        recent_bound = rw d.recent_same o.recent_bound;
      };
      at_gap = d.at_gap;
    }

    pub deliver-Delivery :
        (b : AdaptiveReorderBuffer Float)
        → IsOpen Q b
        → let (ps, b') = deliver b in Delivery Q b ps b'
    unfolding deliver
    deliver-Delivery b o =
        let (ps, b') = deliver_in_order b in
        let d = deliver_in_order-Delivered b in
        let c = count_delivered-Counted ps b' in
        let next_same : (count_delivered ps b').next_seq ≡ b'.next_seq =
          ap (λ (r : AdaptiveReorderBuffer Float). r.next_seq) c.same in
        let buffer_same : (count_delivered ps b').buffer ≡ b'.buffer =
          ap (λ (r : AdaptiveReorderBuffer Float). r.buffer) c.same in
        record {
          valid = Counted-IsValid b' (count_delivered ps b') c (Delivered-IsValid b b' ps o d);
          payloads = AllFrom-Consecutive b b.next_seq ps o d.payloads;
          next = omega (arith, next_same, d.next);
          delivered_there = λ j h h'.
              Consecutive-contains b b.next_seq j ps d.payloads h
                (omega (arith, next_same, d.next));
          kept = λ j h. ground (arith, buffer_same, d.kept j (omega (arith, next_same)));
        }
