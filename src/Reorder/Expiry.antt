-- ===== src/Reorder/Expiry.antt =====
-- `check_timeouts` of hyperagg/tunnel/reorder_buffer.py.
use ratan_engine.Prelude.{
  ℕ, ◌+◌, ◌≤◌, ◌<◌, ◌≡◌, true, false, List, ◌∷◌, length, arith, inl, inr, ◌⊎◌, List-cases, ap, ◌∙◌,
  subst, Bool-cases,
}
use ratan_engine.Prelude.Bytes.{Bytes}
use ratan_engine.Prelude.Dict.{elem, contains, keys, get_default, elem-keys}
use ratan_engine.Prelude.Floats.{FloatOps}
use ratan_engine.Reorder.{
  AdaptiveReorderBuffer, deliver, skip_loop, skip_fuel, check_timeouts, is_overdue, min_of,
}
use ratan_engine.Reorder.Loops.{Skipped, skip_loop-Skipped, min_of-le}
use ratan_engine.Reorder.Valid.{AllFrom, IsOpen, IsValid, deliver-Delivery}

module _ {Float : Type 0} (fl : FloatOps Float) (Q : ℕ → Bytes → Type 0) where
  -- The deadline: what was stored at or before it has waited for the timeout.
  abbrev pub cutoff_of : Float → AdaptiveReorderBuffer Float → Float
  cutoff_of now b = fl.sub now (fl.div b.timeout_ms (fl.of_ℕ 1000))

  -- The smallest number in the buffer has waited for the timeout.
  abbrev pub IsDue : Float → AdaptiveReorderBuffer Float → Type 0
  IsDue now b =
      (k : ℕ) × (ks : List ℕ) × (keys b.buffer ≡ k ∷ ks)
      × (fl.lt (cutoff_of now b) (get_default (min_of k ks) now b.timestamps) ≡ false)

  -- A call of `check_timeouts`, which gives the payloads `ps` out, from the number `first` on.
  pub record Expired (now : Float) (b : AdaptiveReorderBuffer Float) (ps : List Bytes)
      (b' : AdaptiveReorderBuffer Float) : Type 0 where
    pub first : ℕ
    pub valid : IsValid Q b'
    pub after : b.next_seq ≤ first
    pub payloads : AllFrom Q first ps
    pub next : b'.next_seq ≡ first + length ps
    -- Only numbers that had not come were skipped.
    pub none_lost : (j : ℕ) → contains j b.buffer ≡ true → first ≤ j
    pub came : (j : ℕ) → first ≤ j → j < b'.next_seq → contains j b.buffer ≡ true
    pub kept : (j : ℕ) → b'.next_seq ≤ j → contains j b'.buffer ≡ contains j b.buffer
    -- Before the smallest number in the buffer has waited for the timeout, nothing is skipped, and
    -- nothing comes out.
    pub patient : ((b'.next_seq ≡ b.next_seq) × (length ps ≡ 0)) ⊎ IsDue now b
    -- The smallest number comes out once it has.
    pub prompt :
        (k : ℕ) (ks : List ℕ)
        → keys b.buffer ≡ k ∷ ks
        → fl.lt (cutoff_of now b) (get_default (min_of k ks) now b.timestamps) ≡ false
        → min_of k ks < b'.next_seq

  Skipped-IsOpen :
      (now cutoff : Float) (b b' : AdaptiveReorderBuffer Float)
      → IsValid Q b
      → Skipped fl now cutoff b b'
      → IsOpen Q b'
  Skipped-IsOpen now cutoff b b' v s = rw s.rest_same (record {
    ahead = λ j h. ground (arith, s.none_skipped j, v.is_open.ahead j h, h);
    seen_buffered = λ j h. v.is_open.seen_buffered j (omega (arith, s.advance));
    payload_ok = v.is_open.payload_ok;
    flushed_bound = s.flushed_bound v.is_open.flushed_bound;
    flushed_below =
        λ j h. ground (arith, s.flushed_below j h, v.is_open.flushed_below j, s.advance);
    recent_bound = v.is_open.recent_bound;
  })

  not_overdue-contains :
      (now cutoff : Float) (b : AdaptiveReorderBuffer Float) (k : ℕ) (ks : List ℕ)
      → keys b.buffer ≡ k ∷ ks
      → is_overdue fl now cutoff b ≡ false
      → fl.lt cutoff (get_default (min_of k ks) now b.timestamps) ≡ false
      → contains b.next_seq b.buffer ≡ true
  unfolding is_overdue
  not_overdue-contains now cutoff b k ks e stop due =
      elim (Bool-cases (contains b.next_seq b.buffer)) [
        | inl there ↦ there
        | inr gap ↦ absurd (ground (arith, gap, e, due, stop))
      ]

  is_overdue-IsDue :
      (now : Float) (b : AdaptiveReorderBuffer Float)
      → is_overdue fl now (cutoff_of now b) b ≡ true
      → IsDue now b
  unfolding is_overdue
  is_overdue-IsDue now b overdue = elim (Bool-cases (contains b.next_seq b.buffer)) [
    | inl there ↦ absurd (ground (arith, there, overdue))
    | inr gap ↦ elim (List-cases (keys b.buffer)) [
      | inl empty ↦ absurd (ground (arith, gap, empty, overdue))
      | inr (k, ks, e) ↦ (k, ks, e, ground (arith, gap, e, overdue))
    ]
  ]

  -- For every call: the state stays well formed, only numbers that have not come are skipped, what
  -- comes out are packets that had come, in order, and the packet with the smallest number in the
  -- buffer comes out if it has waited for the timeout; while it has not, nothing is skipped and
  -- nothing comes out.
  pub check_timeouts_lem :
      (now : Float) (b : AdaptiveReorderBuffer Float)
      → IsValid Q b
      → let (ps, b') = check_timeouts fl now b in Expired now b ps b'
  unfolding check_timeouts
  check_timeouts_lem now b v =
      let b1 = skip_loop fl (skip_fuel b) now (cutoff_of now b) b in
      let s =
        skip_loop-Skipped fl (skip_fuel b) now (cutoff_of now b) b v.is_open.ahead (omega arith) in
      let d = deliver-Delivery Q b1 (Skipped-IsOpen now (cutoff_of now b) b b1 v s) in
      let buffer_same : b1.buffer ≡ b.buffer =
        ap (λ (r : AdaptiveReorderBuffer Float). r.buffer) s.rest_same in
      let times_same : b1.timestamps ≡ b.timestamps =
        ap (λ (r : AdaptiveReorderBuffer Float). r.timestamps) s.rest_same in
      record {
        first = b1.next_seq;
        valid = d.valid;
        after = s.advance;
        payloads = d.payloads;
        next = d.next;
        none_lost = λ j h. ground (arith, s.none_skipped j, v.is_open.ahead j h, h);
        came = λ j h h'. ground (arith, d.delivered_there j h h', buffer_same);
        kept = λ j h. ground (arith, d.kept j h, buffer_same);
        patient = elim s.skipped_due [
          | inl stays ↦
              let none : length (deliver b1).0 ≡ 0 =
                ground
                  (arith, stays, d.next, d.delivered_there b.next_seq, buffer_same, v.at_gap) in
              inl (omega (arith, none, stays, d.next), none)
          | inr overdue ↦ inr (is_overdue-IsDue now b overdue)
        ];
        prompt = λ k ks e due.
            let there =
              not_overdue-contains now (cutoff_of now b) b1 k ks (ap keys buffer_same ∙ e) s.stopped
                (rw times_same due) in
            let least = min_of-le k ks b1.next_seq (
              subst (λ (l : List ℕ). elem b1.next_seq l ≡ true) (ap keys buffer_same ∙ e)
                (elem-keys b1.next_seq b1.buffer ∙ there)) in
            ground (arith, d.valid.at_gap, d.kept (deliver b1).1.next_seq, d.next, there, least);
      }
