-- ===== src/SendQueue.antt =====
-- `SendQueue` of hyperagg/tunnel/send_queue.py: what a full socket does not take waits in a bounded
-- queue per path. The socket is outside: each call of `sendto` has an outcome, which is an argument,
-- and the datagrams that the socket took are part of the result.
pub mod Bounded
pub mod Drain
pub mod Account
mod Tests
use ratan_engine.Prelude.{
  ℕ, zero, suc, ◌+◌, ◌-◌, Bool, true, false, List, [], ◌∷◌, ◌++◌, ltb, leb, ◌==◌, if◌then◌else◌,
  length, drop, Result, ok, raise, index_error, ◌>>=◌,
}
use ratan_engine.Prelude.Bytes.{Bytes}
use ratan_engine.Prelude.Dict.{Dict, lookup, insert, contains, get_item, get_default}
use ratan_engine.Prelude.Floats.{FloatOps}

-- How a call of `sock.sendto` ends: normally, in BlockingIOError, or in another OSError.
pub data Outcome : Type 0 where
  taken blocked failed : Outcome

-- `(wire, addr, enqueued_at)`
pub record Entry (Float Addr : Type 0) : Type 0 where
  pub wire : Bytes
  pub addr : Addr
  pub enqueued_at : Float

pub record SendQueue (Float Addr : Type 0) : Type 0 where
  pub queues : Dict (List (Entry Float Addr))
  pub max_size : ℕ
  pub max_retry_ms : Float
  pub dropped : ℕ
  pub retried : ℕ
  pub total_sent : ℕ

-- `deque.append` with `maxlen`
unfoldable pub append_bounded {ℓ} : {A : Type ℓ} → ℕ → List A → A → List A
append_bounded maxlen q x = drop (length q + 1 - maxlen) (q ++ x ∷ [])

-- What the loop of `drain` did: the datagrams that the socket took, the number of those dropped, and
-- the rest of the queue.
pub record Drained (Float Addr : Type 0) : Type 0 where
  pub sent : List (Entry Float Addr)
  pub lost : ℕ
  pub rest : List (Entry Float Addr)

module _ {Float Addr : Type 0} where
  -- `__init__`
  abbrev pub new_queue : ℕ → Float → SendQueue Float Addr
  new_queue max_queue_size max_retry_ms = record {
    queues = [];
    max_size = max_queue_size;
    max_retry_ms = max_retry_ms;
    dropped = 0;
    retried = 0;
    total_sent = 0;
  }

  unfoldable pub open_path : ℕ → SendQueue Float Addr → SendQueue Float Addr
  open_path path_id s =
      if contains path_id s.queues then s else record s { queues = insert path_id [] s.queues }

  -- `q.popleft()` if the queue is full, and whether it was
  unfoldable pub make_room : ℕ → List (Entry Float Addr) → Result (ℕ × List (Entry Float Addr))
  make_room max_size [] = if leb max_size 0 then raise index_error else ok (0, [])
  make_room max_size (x ∷ q) = if leb max_size (length (x ∷ q)) then ok (1, q) else ok (0, x ∷ q)

  unfoldable pub enqueue :
      Float → ℕ → Bytes → Addr → SendQueue Float Addr → Result (Bool × SendQueue Float Addr)
  enqueue now path_id wire addr s = do
    let s' = open_path path_id s
    q ← get_item path_id s'.queues
    (lost, q') ← make_room s'.max_size q
    let entry : Entry Float Addr = record { wire = wire; addr = addr; enqueued_at = now }
    ok (
      true,
      record s' {
        queues = insert path_id (append_bounded s'.max_size q' entry) s'.queues;
        dropped = s'.dropped + lost;
      },
    )

  unfoldable pub try_send :
      Outcome
      → Float
      → ℕ
      → Bytes
      → Addr
      → SendQueue Float Addr
      → Result (Bool × SendQueue Float Addr)
  try_send taken now path_id wire addr s = ok (true, record s { total_sent = s.total_sent + 1 })
  try_send blocked now path_id wire addr s = enqueue now path_id wire addr s
  try_send failed now path_id wire addr s = ok (false, s)

  -- The loop of `drain`: `attempt k` is the outcome of call number `k` of `sendto`.
  unfoldable pub drain_loop :
      (too_old : Float → Bool)
      → (attempt : ℕ → Outcome) → ℕ
      → List (Entry Float Addr)
      → Drained Float Addr
  drain_loop too_old attempt k [] = record { sent = []; lost = 0; rest = [] }
  drain_loop too_old attempt k (e ∷ q) =
      let skipped = drain_loop too_old attempt k q in
      let later = drain_loop too_old attempt (suc k) q in
      if too_old e.enqueued_at
      then record skipped { lost = skipped.lost + 1 }
      else elim (attempt k) [
        | taken ↦ record later { sent = e ∷ later.sent }
        | blocked ↦ record { sent = []; lost = 0; rest = e ∷ q }
        | failed ↦ record later { lost = later.lost + 1 }
      ]

  unfoldable pub drain :
      FloatOps Float
      → (attempt : ℕ → Outcome) → Float
      → ℕ
      → SendQueue Float Addr
      → List (Entry Float Addr) × SendQueue Float Addr
  drain fl attempt now path_id s =
      let cutoff = fl.sub now (fl.div s.max_retry_ms (fl.of_ℕ 1000)) in
      elim (get_default path_id [] s.queues) [
        | [] ↦ ([], s)
        | e ∷ q ↦
            let d = drain_loop (λ t. fl.lt t cutoff) attempt 0 (e ∷ q) in
            (
              d.sent,
              record s {
                queues = insert path_id d.rest s.queues;
                dropped = s.dropped + d.lost;
                retried = s.retried + length d.sent;
                total_sent = s.total_sent + length d.sent;
              },
            )
      ]

  abbrev pub pending_count : ℕ → SendQueue Float Addr → ℕ
  pending_count path_id s = length (get_default path_id [] s.queues)

  unfoldable pub sum_lengths : Dict (List (Entry Float Addr)) → ℕ
  sum_lengths [] = 0
  sum_lengths ((path_id, q) ∷ d) = length q + sum_lengths d

  abbrev pub total_pending : SendQueue Float Addr → ℕ
  total_pending s = sum_lengths s.queues
