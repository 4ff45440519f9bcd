-- ===== src/SendQueue/Account.antt =====
-- Runs of the send queue of hyperagg/tunnel/send_queue.py: any sequence of `try_send` and `drain`
-- over all paths, whatever the sockets do.
use ratan_engine.Prelude.{
  ℕ, suc, ◌+◌, ◌≤◌, ◌<◌, ◌≡◌, refl, Bool, true, false, List, [], ◌∷◌, ◌==◌, leb, if◌then◌else◌,
  length, drop, length-drop, length-append, arith, inl, inr, Result, ok, ◌>>=◌, Bool-cases,
  List-cases, Option-cases, ap, subst,
}
use ratan_engine.Prelude.Bytes.{Bytes}
use ratan_engine.Prelude.Dict.{Dict, lookup, insert, get_default}
use ratan_engine.Prelude.Floats.{FloatOps}
use ratan_engine.SendQueue.{
  Outcome, taken, blocked, failed, Entry, SendQueue, open_path, try_send, drain, drain_loop,
  sum_lengths, total_pending,
}
use ratan_engine.SendQueue.Bounded.{
  queue_of, no_entries, IsValid, enqueued, pushed, open_path-others, enqueue-enqueued,
  enqueued-IsValid,
}
use ratan_engine.SendQueue.Drain.{is_old, drain_lem, drain_loop-Split}

pub data Op (Float Addr : Type 0) : Type 0 where
  send :
      (outcome : Outcome) (now : Float) (path_id : ℕ) (wire : Bytes) (addr : Addr) → Op Float Addr
  drain_path : (attempt : ℕ → Outcome) (now : Float) (path_id : ℕ) → Op Float Addr

module _ {Float Addr : Type 0} where
  sum_lengths-insert :
      (k : ℕ) (v : List (Entry Float Addr)) (d : Dict (List (Entry Float Addr)))
      → sum_lengths (insert k v d) + length (get_default k no_entries d) ≡ sum_lengths d + length v
  unfolding sum_lengths insert lookup
  sum_lengths-insert k v [] = omega arith
  sum_lengths-insert k v ((j, w) ∷ d) = ground (arith, sum_lengths-insert k v d)

  -- All packets that are in the books.
  abbrev pub accounted : SendQueue Float Addr → ℕ
  accounted s = s.total_sent + s.dropped + total_pending s

  sum_lengths-open_path :
      (path_id : ℕ) (s : SendQueue Float Addr)
      → sum_lengths (open_path path_id s).queues ≡ sum_lengths s.queues
  unfolding open_path
  sum_lengths-open_path path_id s = elim (Option-cases (lookup path_id s.queues)) [
    | inl missing ↦ ground (arith, missing, sum_lengths-insert path_id no_entries s.queues)
    | inr (q, found) ↦ ground (arith, found)
  ]

  length-pushed :
      (max_size : ℕ) (q : List (Entry Float Addr)) (e : Entry Float Addr)
      → 0 < max_size
      → length (pushed max_size q e) + (if leb max_size (length q) then 1 else 0) ≡ length q + 1
  length-pushed max_size q e h =
      let lost : ℕ = if leb max_size (length q) then 1 else 0 in
      ground (arith, length-append (drop lost q) (e ∷ []), length-drop lost q)

  accounted-enqueued :
      (path_id : ℕ) (e : Entry Float Addr) (s : SendQueue Float Addr)
      → IsValid s
      → accounted (enqueued path_id e s) ≡ accounted s + 1
  accounted-enqueued path_id e s v =
      let q = queue_of path_id s in
      let s' = open_path path_id s in
      let sent_same : s'.total_sent ≡ s.total_sent = unfold open_path in ground arith in
      let dropped_same : s'.dropped ≡ s.dropped = unfold open_path in ground arith in
      let queue_same : length (queue_of path_id s') ≡ length q =
        ap length (open_path-others path_id path_id s) in
      let inserted = sum_lengths-insert path_id (pushed s.max_size q e) s'.queues in
      omega (
        arith,
        sent_same,
        dropped_same,
        queue_same,
        inserted,
        sum_lengths-open_path path_id s,
        length-pushed s.max_size q e v.positive,
      )

  accounted-drain :
      (fl : FloatOps Float) (attempt : ℕ → Outcome) (now : Float) (path_id : ℕ)
      (s : SendQueue Float Addr)
      → accounted (drain fl attempt now path_id s).1 ≡ accounted s
  unfolding drain
  accounted-drain fl attempt now path_id s = elim (List-cases (queue_of path_id s)) [
    | inl empty ↦ rw (empty, drain) refl
    | inr (e, q, full) ↦
        let d = drain_loop (is_old fl now s) attempt 0 (e ∷ q) in
        let split = drain_loop-Split (is_old fl now s) attempt 0 (e ∷ q) in
        let size : length (queue_of path_id s) ≡ suc (length q) = ap length full in
        rw (full, drain)
          (omega (arith, split.total, size, sum_lengths-insert path_id d.rest s.queues))
  ]

  max_size-drain :
      (fl : FloatOps Float) (attempt : ℕ → Outcome) (now : Float) (path_id : ℕ)
      (s : SendQueue Float Addr)
      → (drain fl attempt now path_id s).1.max_size ≡ s.max_size
  unfolding drain
  max_size-drain fl attempt now path_id s = elim (List-cases (queue_of path_id s)) [
    | inl empty ↦ rw (empty, drain) refl
    | inr (e, q, full) ↦ rw (full, drain) refl
  ]

  drain-IsValid :
      (fl : FloatOps Float) (attempt : ℕ → Outcome) (now : Float) (path_id : ℕ)
      (s : SendQueue Float Addr)
      → IsValid s
      → IsValid (drain fl attempt now path_id s).1
  drain-IsValid fl attempt now path_id s v =
      let (lost, split, others, d, r, t) = drain_lem fl attempt now path_id s in
      record {
        positive = omega (arith, max_size-drain fl attempt now path_id s, v.positive);
        bounded = λ p. elim (Bool-cases (p == path_id)) [
          | inl same ↦
              let e : path_id ≡ p = ground (arith, same) in
              subst
                (λ (k : ℕ).
                  length (queue_of k (drain fl attempt now path_id s).1)
                  ≤ (drain fl attempt now path_id s).1.max_size)
                e
                (omega
                  (arith, split.total, v.bounded path_id, max_size-drain fl attempt now path_id s))
          | inr other ↦
              let kept = ap length (others p other) in
              omega (arith, kept, v.bounded p, max_size-drain fl attempt now path_id s)
        ];
      }

  -- A call with its result, where `drain` accepts no packet.
  unfoldable pub perform :
      FloatOps Float → Op Float Addr → SendQueue Float Addr → Result (Bool × SendQueue Float Addr)
  perform fl (send outcome now path_id wire addr) s = try_send outcome now path_id wire addr s
  perform fl (drain_path attempt now path_id) s = ok (false, (drain fl attempt now path_id s).1)

  -- The number of calls of `try_send` that returned True, and the last state.
  unfoldable pub run :
      FloatOps Float
      → List (Op Float Addr)
      → SendQueue Float Addr
      → Result (ℕ × SendQueue Float Addr)
  run fl [] s = ok (0, s)
  run fl (op ∷ ops) s = do
    (accepted, s') ← perform fl op s
    (count, s'') ← run fl ops s'
    ok ((if accepted then count + 1 else count), s'')

  -- One call keeps the state well formed, does not raise, and books what it accepts.
  record Booked (fl : FloatOps Float) (op : Op Float Addr) (s : SendQueue Float Addr)
      (accepted : Bool) (s' : SendQueue Float Addr) : Type 0 where
    returns : perform fl op s ≡ ok (accepted, s')
    valid : IsValid s'
    booked : accounted s' ≡ (if accepted then accounted s + 1 else accounted s)

  perform-Booked :
      (fl : FloatOps Float) (op : Op Float Addr) (s : SendQueue Float Addr)
      → IsValid s
      → (accepted : Bool) × (s' : SendQueue Float Addr) × Booked fl op s accepted s'
  unfolding perform try_send
  perform-Booked fl (send taken now path_id wire addr) s v = (
    true,
    record s { total_sent = s.total_sent + 1 },
    record {
      returns = refl;
      valid = record { positive = v.positive; bounded = v.bounded };
      booked = omega arith;
    },
  )
  perform-Booked fl (send blocked now path_id wire addr) s v =
      let e : Entry Float Addr = record { wire = wire; addr = addr; enqueued_at = now } in
      (
        true,
        enqueued path_id e s,
        record {
          returns = enqueue-enqueued now path_id wire addr s v;
          valid = enqueued-IsValid path_id e s v;
          booked = accounted-enqueued path_id e s v;
        },
      )
  perform-Booked fl (send failed now path_id wire addr) s v =
      (false, s, record { returns = refl; valid = v; booked = refl })
  perform-Booked fl (drain_path attempt now path_id) s v = (
    false,
    (drain fl attempt now path_id s).1,
    record {
      returns = refl;
      valid = drain-IsValid fl attempt now path_id s v;
      booked = accounted-drain fl attempt now path_id s;
    },
  )

  -- Over any sequence of sends and drains on all paths, whatever the sockets do: nothing raises, no
  -- queue goes above its limit, and every packet for which `try_send` returned True is booked
  -- exactly once, as sent, as dropped or as pending.
  pub run_accounts :
      (fl : FloatOps Float) (ops : List (Op Float Addr)) (s : SendQueue Float Addr)
      → IsValid s
      → (count : ℕ) × (s' : SendQueue Float Addr) × (run fl ops s ≡ ok (count, s'))
        × IsValid s'
        × (s'.total_sent + s'.dropped + total_pending s'
            ≡ s.total_sent + s.dropped + total_pending s + count)
  unfolding run
  run_accounts fl [] s v = (0, s, refl, v, omega arith)
  run_accounts fl (op ∷ ops) s v =
      let (accepted, s', b) = perform-Booked fl op s v in
      let (count, s'', e, v', total) = run_accounts fl ops s' b.valid in
      (
        (if accepted then count + 1 else count),
        s'',
        ground (arith, b.returns, e),
        v',
        ground (arith, b.booked, total),
      )
