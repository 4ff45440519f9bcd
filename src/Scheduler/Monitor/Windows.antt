-- ===== src/Scheduler/Monitor/Windows.antt =====
-- Runs of probes on one path of hyperagg/scheduler/path_monitor.py: when the path counts as alive,
-- and how much history is kept.
use ratan_engine.Prelude.{
  ℕ, ◌+◌, ◌-◌, ◌≤◌, ◌≡◌, refl, true, false, some, List, [], ◌∷◌, ◌++◌, arith, length, length-append,
  length-drop, ltb, Bool-cases, inl, inr,
}
use ratan_engine.Prelude.Dict.{Dict, lookup, insert, lookup-insert}
use ratan_engine.Prelude.Floats.{FloatOps}
use ratan_engine.Scheduler.Models.{PathState, append_last}
use ratan_engine.Scheduler.Monitor.{
  PathHistory, PathMonitor, register_path, record_rtt, record_loss, note_rtt, note_loss,
  flush_throughput, state_of, is_alive_of, get_path_state, new_history, history_of,
}

-- How a probe ends, with the time of the report.
pub data Probe (Float : Type 0) : Type 0 where
  answered : (now rtt_ms : Float) → Probe Float
  unanswered : (now : Float) → Probe Float

-- The failures in a row after a run of probes, from `k` on.
unfoldable pub failures_after : {Float : Type 0} → ℕ → List (Probe Float) → ℕ
failures_after k [] = k
failures_after k (answered now rtt_ms ∷ es) = failures_after 0 es
failures_after k (unanswered now ∷ es) = failures_after (k + 1) es

pub length-append_last {ℓ} :
    {A : Type ℓ} (n : ℕ) (x : A) (q : List A) → length (append_last n x q) ≤ n
unfolding append_last
length-append_last n x q =
    omega (arith, length-drop (length q + 1 - n) (q ++ x ∷ []), length-append q (x ∷ []))

-- What a history keeps, with `n` entries at most, after `k` failures in a row.
pub record Tracked {Float : Type 0} (n k : ℕ) (h : PathHistory Float) : Type 0 where
  pub rtt_bound : length h.rtt_history ≤ n
  pub loss_bound : length h.loss_history ≤ n
  pub throughput_bound : length h.throughput_history ≤ n
  pub failures : h.consecutive_failures ≡ k

module _ {Float : Type 0} (fl : FloatOps Float) (path_id : ℕ) where
  pub run : List (Probe Float) → PathMonitor Float → PathMonitor Float
  run [] m = m
  run (answered now rtt_ms ∷ es) m = run es (record_rtt fl now path_id rtt_ms m)
  run (unanswered now ∷ es) m = run es (record_loss fl now path_id m)

  note_rtt-Tracked :
      (alpha : Float) (n k : ℕ) (now rtt_ms : Float) (h : PathHistory Float)
      → Tracked n k h
      → Tracked n 0 (note_rtt fl alpha n now rtt_ms h)
  unfolding note_rtt
  note_rtt-Tracked alpha n k now rtt_ms h t = record {
    rtt_bound = length-append_last n rtt_ms h.rtt_history;
    loss_bound = length-append_last n false h.loss_history;
    throughput_bound = t.throughput_bound;
    failures = refl;
  }

  note_loss-Tracked :
      (n k : ℕ) (h : PathHistory Float) → Tracked n k h → Tracked n (k + 1) (note_loss fl n h)
  unfolding note_loss
  note_loss-Tracked n k h t = record {
    rtt_bound = t.rtt_bound;
    loss_bound = length-append_last n true h.loss_history;
    throughput_bound = t.throughput_bound;
    failures = omega (arith, t.failures);
  }

  flush-Tracked :
      (n k : ℕ) (now : Float) (h : PathHistory Float)
      → Tracked n k h
      → Tracked n k (flush_throughput fl n now h)
  unfolding flush_throughput
  flush-Tracked n k now h t =
      elim (Bool-cases (fl.lt (fl.decimal 1 2) (fl.sub now h.throughput_last_time))) [
        | inl due ↦ rw due (record {
          rtt_bound = t.rtt_bound;
          loss_bound = t.loss_bound;
          throughput_bound = length-append_last n _ h.throughput_history;
          failures = t.failures;
        })
        | inr early ↦ rw early t
      ]

  flush_same :
      (n k : ℕ) (now : Float) (h : PathHistory Float) (n' : ℕ)
      → n' ≡ n
      → Tracked n k h
      → Tracked n k (flush_throughput fl n' now h)
  flush_same n k now h n' e t = rw e (flush-Tracked n k now h t)

  -- The settings do not change, and the path's history follows the probes.
  record RunsTo (window count : ℕ) (m' : PathMonitor Float) (k : ℕ) : Type 0 where
    window_same : m'.history_window ≡ window
    count_same : m'.keepalive_timeout_count ≡ count
    history : PathHistory Float
    there : lookup path_id m'.paths ≡ some history
    tracked : Tracked window k history

  lookup_inserted :
      (h : PathHistory Float) (d : Dict (PathHistory Float))
      → lookup path_id (insert path_id h d) ≡ some h
  lookup_inserted h d = ground (arith, lookup-insert path_id path_id h d)

  history_of_found :
      (now : Float) (m : PathMonitor Float) (h : PathHistory Float)
      → lookup path_id m.paths ≡ some h
      → history_of fl now path_id m ≡ h
  unfolding history_of
  history_of_found now m h there = rw (there, history_of)

  run-RunsTo :
      (es : List (Probe Float)) (m : PathMonitor Float) (k : ℕ) (h : PathHistory Float)
      → lookup path_id m.paths ≡ some h
      → Tracked m.history_window k h
      → RunsTo m.history_window m.keepalive_timeout_count (run es m) (failures_after k es)
  unfolding run failures_after record_rtt record_loss
  run-RunsTo [] m k h there t = record {
    window_same = refl;
    count_same = refl;
    history = h;
    there = there;
    tracked = t;
  }
  run-RunsTo (answered now rtt_ms ∷ es) m k h there t =
      let h' = note_rtt fl m.ewma_alpha m.history_window now rtt_ms h in
      rw (history_of_found now m h there) (
        run-RunsTo es (record m { paths = insert path_id h' m.paths }) 0 h'
          (lookup_inserted h' m.paths)
          (note_rtt-Tracked m.ewma_alpha m.history_window k now rtt_ms h t))
  run-RunsTo (unanswered now ∷ es) m k h there t =
      let h' = note_loss fl m.history_window h in
      rw (history_of_found now m h there) (
        run-RunsTo es (record m { paths = insert path_id h' m.paths }) (k + 1) h'
          (lookup_inserted h' m.paths) (note_loss-Tracked m.history_window k h t))

  -- What `get_path_state` reports of a path after `k` failures in a row.
  pub record Reported (m : PathMonitor Float) (k : ℕ) (s : PathState Float) : Type 0 where
    pub alive : s.is_alive ≡ ltb k m.keepalive_timeout_count
    pub dead_score : s.is_alive ≡ false → s.quality_score ≡ fl.of_ℕ 0
    pub rtt_bound : length s.rtt_history ≤ m.history_window
    pub loss_bound : length s.loss_history ≤ m.history_window

  state_of-Reported :
      (m m' : PathMonitor Float) (k : ℕ) (h : PathHistory Float)
      → m'.keepalive_timeout_count ≡ m.keepalive_timeout_count
      → Tracked m.history_window k h
      → Reported m k (state_of fl m' path_id h)
  unfolding state_of is_alive_of
  state_of-Reported m m' k h e t = record {
    alive = rw (t.failures, e);
    dead_score = λ dead. rw dead;
    rtt_bound = t.rtt_bound;
    loss_bound = t.loss_bound;
  }

  Reported-found :
      (m m' : PathMonitor Float) (now : Float) (k : ℕ)
      → RunsTo m.history_window m.keepalive_timeout_count m' k
      → Reported m k (get_path_state fl now path_id m').0
  unfolding get_path_state
  Reported-found m m' now k r =
      rw (r.there, get_path_state)
        (state_of-Reported m m' k (flush_throughput fl m'.history_window now r.history) r.count_same
          (flush_same m.history_window k now r.history m'.history_window r.window_same r.tracked))

  -- After any run of probes on a newly registered path, the path is reported alive if and only if
  -- fewer probes in a row have failed than the timeout count, since the last answer; a dead path has
  -- the quality score 0, and the histories stay within the window.
  pub run-Reported :
      (m : PathMonitor Float) (start now : Float) (es : List (Probe Float))
      → Reported m
          (failures_after 0 es)
          (get_path_state fl now path_id (run es (register_path fl start path_id m))).0
  unfolding register_path get_path_state
  run-Reported m start now es =
      let h = new_history fl start in
      let m' : PathMonitor Float = record m { paths = insert path_id h m.paths } in
      let r = run-RunsTo es m' 0 h (lookup_inserted h m.paths) (record {
        rtt_bound = omega arith;
        loss_bound = omega arith;
        throughput_bound = omega arith;
        failures = refl;
      }) in
      Reported-found m (run es m') now (failures_after 0 es) r
