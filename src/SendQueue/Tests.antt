-- ===== src/SendQueue/Tests.antt =====
-- Runs of the send queue at concrete inputs.
use ratan_engine.Prelude.{
  ℕ, ◌+◌, ◌-◌, ◌*◌, ◌/◌, ◌^◌, ◌≡◌, refl, true, List, [], ◌∷◌, ◌==◌, ltb, if◌then◌else◌, arith, ok,
  raise, index_error,
}
use ratan_engine.Prelude.Dict.{lookup, insert}
use ratan_engine.Prelude.Floats.{FloatOps}
use ratan_engine.SendQueue.{
  taken, blocked, failed, Entry, SendQueue, enqueue, try_send, drain, drain_loop, append_bounded,
  make_room, open_path, total_pending,
}
use ratan_engine.SendQueue.Bounded.{IsValid}
use ratan_engine.SendQueue.Account.{Op, send, drain_path, run, run_accounts}

-- Whole numbers in place of floats.
abbrev clock : FloatOps ℕ
clock = record {
  of_ℕ = λ n. n;
  decimal = λ n k. n / 10 ^ k;
  add = λ a b. a + b;
  sub = λ a b. a - b;
  mul = λ a b. a * b;
  div = λ a b. a / b;
  lt = ltb;
}

abbrev entry : ℕ → Entry ℕ ℕ
entry n = record { wire = n ∷ []; addr = 9; enqueued_at = n }

-- Two packets wait for path 1, which is full.
abbrev waiting : SendQueue ℕ ℕ
waiting = record {
  queues = (1, entry 5 ∷ entry 6 ∷ []) ∷ [];
  max_size = 2;
  max_retry_ms = 50000;
  dropped = 0;
  retried = 0;
  total_sent = 3;
}

waiting-IsValid : IsValid waiting
unfolding lookup
waiting-IsValid = record { positive = omega arith; bounded = λ p. ground arith }

-- The oldest packet makes room, and the call returns True.
enqueue-waiting :
    enqueue 7 1 (7 ∷ []) 9 waiting
    ≡ ok (true, record waiting { queues = (1, entry 6 ∷ entry 7 ∷ []) ∷ []; dropped = 1 })
unfolding enqueue open_path make_room append_bounded lookup insert
enqueue-waiting = refl

no_room_at_all :
    try_send blocked 7 1 (7 ∷ []) 9 (record waiting { queues = []; max_size = 0 })
    ≡ raise index_error
unfolding try_send enqueue open_path make_room append_bounded lookup insert
no_room_at_all = refl

-- The first packet is past the deadline, the second is sent.
drain-waiting : (drain clock (λ k. if k == 0 then taken else blocked) 56 1 waiting).0 ≡ entry 6 ∷ []
unfolding drain drain_loop lookup insert
drain-waiting = refl

abbrev ops : List (Op ℕ ℕ)
ops = send blocked 7 1 (7 ∷ []) 9 ∷ drain_path (λ k. taken) 56 1 ∷ send failed 60 1 (8 ∷ []) 9 ∷ []

run_accounts_example :
    (count : ℕ) × (s' : SendQueue ℕ ℕ) × (run clock ops waiting ≡ ok (count, s'))
    × IsValid s'
    × (s'.total_sent + s'.dropped + total_pending s' ≡ 3 + 0 + total_pending waiting + count)
run_accounts_example = run_accounts clock ops waiting waiting-IsValid
