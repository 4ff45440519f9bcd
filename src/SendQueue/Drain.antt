-- ===== src/SendQueue/Drain.antt =====
-- `drain` of hyperagg/tunnel/send_queue.py.
use ratan_engine.Prelude.{
  ℕ, suc, ◌+◌, ◌≡◌, refl, Bool, false, List, [], ◌∷◌, ◌==◌, length, drop, take, arith, ◌⊎◌, inl,
  inr, All, sym, subst, Bool-cases, List-cases,
}
use ratan_engine.Prelude.Dict.{insert, get_default, lookup-insert}
use ratan_engine.Prelude.Floats.{FloatOps}
use ratan_engine.SendQueue.{
  Outcome, taken, blocked, failed, Entry, SendQueue, Drained, drain_loop, drain,
}
use ratan_engine.SendQueue.Bounded.{queue_of, no_entries}

-- The first list is the second with elements left out.
pub data Sublist {A : Type 0} : List A → List A → Type 0 where
  nil : Sublist [] []
  skip : {x : A} {xs ys : List A} → Sublist xs ys → Sublist xs (x ∷ ys)
  keep : {x : A} {xs ys : List A} → Sublist xs ys → Sublist (x ∷ xs) (x ∷ ys)

Outcome-cases : (o : Outcome) → (o ≡ taken) ⊎ ((o ≡ blocked) ⊎ (o ≡ failed))
Outcome-cases taken = inl refl
Outcome-cases blocked = inr (inl refl)
Outcome-cases failed = inr (inr refl)

module _ {Float Addr : Type 0} where
  -- The loop has taken a prefix of the queue apart, in order, and had a reason to stop.
  pub record Split (too_old : Float → Bool) (attempt : ℕ → Outcome) (q : List (Entry Float Addr))
      (d : Drained Float Addr) : Type 0 where
    pub in_order : Sublist d.sent (take (length d.sent + d.lost) q)
    pub rest_is : d.rest ≡ drop (length d.sent + d.lost) q
    pub total : length q ≡ length d.sent + d.lost + length d.rest
    pub in_time : All (λ e. too_old e.enqueued_at ≡ false) d.sent
    pub stopped :
        (d.rest ≡ [])
        ⊎ ((e : Entry Float Addr) × (r : List (Entry Float Addr)) × (k : ℕ) × (d.rest ≡ e ∷ r)
            × (too_old e.enqueued_at ≡ false)
            × (attempt k ≡ blocked))

  module _ (too_old : Float → Bool) (attempt : ℕ → Outcome) where
    Split-lose :
        (e : Entry Float Addr) (q : List (Entry Float Addr)) (d : Drained Float Addr)
        → Split too_old attempt q d
        → Split too_old attempt (e ∷ q) (record d { lost = d.lost + 1 })
    Split-lose e q d s =
        let count : length d.sent + (d.lost + 1) ≡ suc (length d.sent + d.lost) = omega arith in
        record {
          in_order = rw count (skip s.in_order);
          rest_is = rw count s.rest_is;
          total = omega (arith, s.total);
          in_time = s.in_time;
          stopped = s.stopped;
        }

    Split-take :
        (e : Entry Float Addr) (q : List (Entry Float Addr)) (d : Drained Float Addr)
        → too_old e.enqueued_at ≡ false
        → Split too_old attempt q d
        → Split too_old attempt (e ∷ q) (record d { sent = e ∷ d.sent })
    Split-take e q d fresh s =
        let count : suc (length d.sent) + d.lost ≡ suc (length d.sent + d.lost) = omega arith in
        record {
          in_order = rw count (keep s.in_order);
          rest_is = rw count s.rest_is;
          total = omega (arith, s.total);
          in_time = (fresh, s.in_time);
          stopped = s.stopped;
        }

  pub drain_loop-Split :
      (too_old : Float → Bool) (attempt : ℕ → Outcome) (k : ℕ) (q : List (Entry Float Addr))
      → Split too_old attempt q (drain_loop too_old attempt k q)
  unfolding drain_loop
  drain_loop-Split too_old attempt k [] = record {
    in_order = nil;
    rest_is = refl;
    total = omega arith;
    in_time = tt;
    stopped = inl refl;
  }
  drain_loop-Split too_old attempt k (e ∷ q) = elim (Bool-cases (too_old e.enqueued_at)) [
    | inl old ↦
        rw (old, drain_loop)
          (Split-lose too_old attempt e q _ (drain_loop-Split too_old attempt k q))
    | inr fresh ↦ elim (Outcome-cases (attempt k)) [
      | inl t ↦
          rw (fresh, t, drain_loop)
            (Split-take too_old attempt e q _ fresh (drain_loop-Split too_old attempt (suc k) q))
      | inr (inl b) ↦
          rw (fresh, b, drain_loop)
            (record {
              in_order = nil;
              rest_is = refl;
              total = omega arith;
              in_time = tt;
              stopped = inr (e, q, k, refl, fresh, b);
            })
      | inr (inr f) ↦
          rw (fresh, f, drain_loop)
            (Split-lose too_old attempt e q _ (drain_loop-Split too_old attempt (suc k) q))
    ]
  ]

  -- Past the deadline for a retry.
  abbrev pub is_old : FloatOps Float → Float → SendQueue Float Addr → Float → Bool
  is_old fl now s t = fl.lt t (fl.sub now (fl.div s.max_retry_ms (fl.of_ℕ 1000)))

  -- For every path and every behaviour of the socket, `drain` hands the queue's packets to it in
  -- their order, none of them past the deadline, and takes a prefix out of the queue: the packets
  -- sent and the packets dropped, all of which are counted. It stops only if nothing is left or the
  -- socket has refused the first packet left, which is in time. The other paths keep their queues.
  pub drain_lem :
      (fl : FloatOps Float) (attempt : ℕ → Outcome) (now : Float) (path_id : ℕ)
      (s : SendQueue Float Addr)
      → let (sent, s') = drain fl attempt now path_id s in
        (lost : ℕ) × Split
          (is_old fl now s)
          attempt
          (queue_of path_id s)
          (record { sent = sent; lost = lost; rest = queue_of path_id s' })
        × ((other : ℕ) → (other == path_id) ≡ false → queue_of other s' ≡ queue_of other s)
        × (s'.dropped ≡ s.dropped + lost)
        × (s'.retried ≡ s.retried + length sent)
        × (s'.total_sent ≡ s.total_sent + length sent)
  unfolding drain
  drain_lem fl attempt now path_id s = elim (List-cases (queue_of path_id s)) [
    | inl empty ↦
        rw (empty, drain)
          (
            0,
            record {
              in_order = nil;
              rest_is = empty;
              total = ground (arith, empty);
              in_time = tt;
              stopped = inl empty;
            },
            λ other h. refl,
            omega arith,
            omega arith,
            omega arith,
          )
    | inr (e, q, full) ↦
        let d = drain_loop (is_old fl now s) attempt 0 (e ∷ q) in
        let left : get_default path_id no_entries (insert path_id d.rest s.queues) ≡ d.rest =
          ground (arith, lookup-insert path_id path_id d.rest s.queues) in
        rw (full, drain)
          (
            d.lost,
            subst
                (λ (r : List (Entry Float Addr)).
                  Split (is_old fl now s) attempt (e ∷ q)
                    (record { sent = d.sent; lost = d.lost; rest = r }))
                (sym left) (drain_loop-Split (is_old fl now s) attempt 0 (e ∷ q)),
            λ other h. ground (arith, lookup-insert path_id other d.rest s.queues, h),
            refl,
            refl,
            refl,
          )
  ]
