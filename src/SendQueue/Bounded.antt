-- ===== src/SendQueue/Bounded.antt =====
-- `try_send` and `_enqueue` of hyperagg/tunnel/send_queue.py: the bound on each queue, and which
-- packet a full queue loses.
use ratan_engine.Prelude.{
  ℕ, ◌+◌, ◌-◌, ◌≤◌, ◌<◌, ◌≡◌, true, false, none, some, List, [], ◌∷◌, ◌++◌, leb, ◌==◌,
  if◌then◌else◌, length, length-append, length-drop, drop, ok, arith, inl, inr, subst, ap,
  Option-cases,
}
use ratan_engine.Prelude.Bytes.{Bytes}
use ratan_engine.Prelude.Dict.{lookup, insert, get_default, lookup-insert}
use ratan_engine.SendQueue.{
  Entry, SendQueue, append_bounded, open_path, make_room, enqueue, pending_count,
}

drop-zero {ℓ} : {A : Type ℓ} (n : ℕ) (xs : List A) → n ≡ 0 → drop n xs ≡ xs
drop-zero n xs h = ap (λ (k : ℕ). drop k xs) h

module _ {Float Addr : Type 0} where
  -- The queue of a path.
  abbrev pub queue_of : ℕ → SendQueue Float Addr → List (Entry Float Addr)
  queue_of path_id s = get_default path_id [] s.queues

  abbrev pub no_entries : List (Entry Float Addr)
  no_entries = []

  -- Queues are possible and none is above the limit.
  pub record IsValid (s : SendQueue Float Addr) : Type 0 where
    pub positive : 0 < s.max_size
    pub bounded : (path_id : ℕ) → length (queue_of path_id s) ≤ s.max_size

  -- The oldest packet goes if the queue is full, and the new one comes last.
  abbrev pub pushed : ℕ → List (Entry Float Addr) → Entry Float Addr → List (Entry Float Addr)
  pushed max_size q e = drop (if leb max_size (length q) then 1 else 0) q ++ e ∷ []

  make_room_lem :
      (max_size : ℕ) (q : List (Entry Float Addr))
      → 0 < max_size
      → make_room max_size q
        ≡ ok (
          (if leb max_size (length q) then 1 else 0),
          drop (if leb max_size (length q) then 1 else 0) q,
        )
  unfolding make_room
  make_room_lem max_size [] h = ground arith
  make_room_lem max_size (x ∷ q) h = ground arith

  append_bounded_lem :
      (max_size : ℕ) (q : List (Entry Float Addr)) (e : Entry Float Addr)
      → length q < max_size
      → append_bounded max_size q e ≡ q ++ e ∷ []
  unfolding append_bounded
  append_bounded_lem max_size q e h =
      drop-zero (length q + 1 - max_size) (q ++ e ∷ []) (omega arith)

  length-room :
      (max_size : ℕ) (q : List (Entry Float Addr))
      → 0 < max_size
      → length q ≤ max_size
      → length (drop (if leb max_size (length q) then 1 else 0) q) < max_size
  length-room max_size q h h' = ground (arith, length-drop 1 q, length-drop 0 q)

  open_path-lookup :
      (path_id : ℕ) (s : SendQueue Float Addr)
      → lookup path_id (open_path path_id s).queues ≡ some (queue_of path_id s)
  unfolding open_path
  open_path-lookup path_id s = elim (Option-cases (lookup path_id s.queues)) [
    | inl missing ↦ ground (arith, missing, lookup-insert path_id path_id no_entries s.queues)
    | inr (q, found) ↦ ground (arith, found)
  ]

  missing_other :
      (path_id other : ℕ) (s : SendQueue Float Addr)
      → lookup path_id s.queues ≡ none
      → (path_id == other) ≡ true
      → lookup other s.queues ≡ none
  missing_other path_id other s h same =
      let e : path_id ≡ other = ground (arith, same) in
      subst (λ (k : ℕ). lookup k s.queues ≡ none) e h

  pub open_path-others :
      (path_id other : ℕ) (s : SendQueue Float Addr)
      → queue_of other (open_path path_id s) ≡ queue_of other s
  unfolding open_path
  open_path-others path_id other s = elim (Option-cases (lookup path_id s.queues)) [
    | inl missing ↦ ground (
      arith,
      missing,
      missing_other path_id other s missing,
      lookup-insert path_id other no_entries s.queues,
    )
    | inr (q, found) ↦ ground (arith, found)
  ]

  -- What `_enqueue` leaves.
  abbrev pub enqueued : ℕ → Entry Float Addr → SendQueue Float Addr → SendQueue Float Addr
  enqueued path_id e s =
      let s' = open_path path_id s in
      record s' {
        queues = insert path_id (pushed s.max_size (queue_of path_id s) e) s'.queues;
        dropped = s'.dropped + (if leb s.max_size (pending_count path_id s) then 1 else 0);
      }

  enqueued_queue :
      (path_id p : ℕ) (e : Entry Float Addr) (s : SendQueue Float Addr)
      → queue_of p (enqueued path_id e s)
        ≡ (if path_id == p then pushed s.max_size (queue_of path_id s) e else queue_of p s)
  enqueued_queue path_id p e s =
      let q = pushed s.max_size (queue_of path_id s) e in
      ground (
        arith,
        lookup-insert path_id p q (open_path path_id s).queues,
        open_path-others path_id p s,
      )

  length-pushed :
      (max_size : ℕ) (q : List (Entry Float Addr)) (e : Entry Float Addr)
      → 0 < max_size
      → length q ≤ max_size
      → length (pushed max_size q e) ≤ max_size
  length-pushed max_size q e h h' = omega (
    arith,
    length-room max_size q h h',
    length-append (drop (if leb max_size (length q) then 1 else 0) q) (e ∷ []),
  )

  pub enqueue-enqueued :
      (now : Float) (path_id : ℕ) (wire : Bytes) (addr : Addr) (s : SendQueue Float Addr)
      → IsValid s
      → enqueue now path_id wire addr s
        ≡ ok (true, enqueued path_id (record { wire = wire; addr = addr; enqueued_at = now }) s)
  unfolding enqueue
  enqueue-enqueued now path_id wire addr s v =
      let e : Entry Float Addr = record { wire = wire; addr = addr; enqueued_at = now } in
      let q = queue_of path_id s in
      let lost : ℕ = if leb s.max_size (length q) then 1 else 0 in
      let same_size : (open_path path_id s).max_size ≡ s.max_size =
        unfold open_path in ground arith in
      ground (
        arith,
        open_path-lookup path_id s,
        same_size,
        make_room_lem s.max_size q v.positive,
        append_bounded_lem s.max_size (drop lost q) e
            (length-room s.max_size q v.positive (v.bounded path_id)),
      )

  pub enqueued-IsValid :
      (path_id : ℕ) (e : Entry Float Addr) (s : SendQueue Float Addr)
      → IsValid s
      → IsValid (enqueued path_id e s)
  enqueued-IsValid path_id e s v =
      let same_size : (open_path path_id s).max_size ≡ s.max_size =
        unfold open_path in ground arith in
      record {
        positive = omega (arith, same_size, v.positive);
        bounded = λ p. ground (
          arith,
          same_size,
          enqueued_queue path_id p e s,
          length-pushed s.max_size (queue_of path_id s) e v.positive (v.bounded path_id),
          v.bounded p,
        );
      }

  -- `_enqueue` never reports a full queue: it returns True on every well-formed state, the packet
  -- is the last of its path's queue, and where the queue was full the oldest packet was dropped for
  -- it and counted. The other paths keep their queues.
  pub enqueue_lem :
      (now : Float) (path_id : ℕ) (wire : Bytes) (addr : Addr) (s : SendQueue Float Addr)
      → IsValid s
      → let full = leb s.max_size (pending_count path_id s) in
        (s' : SendQueue Float Addr) × (enqueue now path_id wire addr s ≡ ok (true, s'))
        × IsValid s'
        × (queue_of path_id s'
            ≡ pushed s.max_size
                (queue_of path_id s)
                (record { wire = wire; addr = addr; enqueued_at = now }))
        × ((other : ℕ) → (other == path_id) ≡ false → queue_of other s' ≡ queue_of other s)
        × (s'.dropped ≡ s.dropped + (if full then 1 else 0))
        × (s'.total_sent ≡ s.total_sent)
  unfolding enqueue
  enqueue_lem now path_id wire addr s v =
      let e : Entry Float Addr = record { wire = wire; addr = addr; enqueued_at = now } in
      (
        enqueued path_id e s,
        enqueue-enqueued now path_id wire addr s v,
        enqueued-IsValid path_id e s v,
        ground (arith, enqueued_queue path_id path_id e s),
        λ other h. ground (arith, enqueued_queue path_id other e s, h),
        unfold open_path in ground arith,
        unfold open_path in ground arith,
      )
