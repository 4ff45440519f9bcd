-- ===== src/Reorder/Tests.antt =====
-- Runs of the reorder buffer at concrete inputs.
use ratan_engine.Prelude.{
  ℕ, ◌+◌, ◌-◌, ◌*◌, ◌/◌, ◌^◌, ◌<◌, ◌≡◌, refl, true, false, List, [], ◌∷◌, arith, ltb, map,
  range_from, length,
}
use ratan_engine.Prelude.Bytes.{Bytes}
use ratan_engine.Prelude.Dict.{Dict, elem, lookup, insert as put, remove, add_elem}
use ratan_engine.Prelude.Floats.{FloatOps}
use ratan_engine.Reorder.{
  AdaptiveReorderBuffer, new_buffer, insert, check_timeouts, update_timeout, is_duplicate,
  mark_seen, store, deliver, deliver_in_order, deliver_loop, pop_next, count_delivered,
  append_recent, skip_loop, skip_fuel, skip_next, is_overdue, min_of, trim_flushed, note_late,
  at_least, adaptive_timeout, positive_only, late_delivery_pct, jitter_margin, float_max, float_min,
}
use ratan_engine.Reorder.Valid.{IsValid, new_buffer-IsValid}
use ratan_engine.Reorder.Insert.{Inserted, insert_lem}
use ratan_engine.Reorder.Expiry.{Expired, check_timeouts_lem}
use ratan_engine.Reorder.Stream.{Event, arrival, timeout_check, step, run, InOrder, run-InOrder}
use ratan_engine.Reorder.Complete.{insert_all, insert_all_in_order}
use ratan_engine.Reorder.Fuel.{loops_end}
use ratan_engine.Reorder.Timeout.{IsOrder}

-- Whole numbers in place of floats.
abbrev clock : FloatOps ℕ
clock = record {
  of_ℕ = λ n. n;
  decimal = λ n k. n / 10 ^ k;
  add = λ a b. a + b;
  sub = λ a b. a - b;
  mul = λ a b. a * b;
  div = λ a b. a / b;
  lt = ltb;
}

clock-IsOrder : IsOrder clock
clock-IsOrder = record { irrefl = λ x. ground arith; asym = λ x y h. ground (arith, h) }

abbrev sent : ℕ → Bytes
sent s = (s + 100) ∷ []

abbrev IsSent : ℕ → Bytes → Type 0
IsSent s p = p ≡ sent s

abbrev empty : AdaptiveReorderBuffer ℕ
empty = new_buffer 1024 10 500 2000

empty-IsValid : IsValid IsSent empty
empty-IsValid = new_buffer-IsValid IsSent 1024 10 500 2000

-- Packets 1, 0, 1 again, 3; then the timeout of 2 passes; then 2 comes late.
abbrev events : List (Event ℕ)
events =
    arrival 5 1 (sent 1)
    ∷ arrival 6 0 (sent 0)
    ∷ arrival 7 1 (sent 1)
    ∷ arrival 8 3 (sent 3)
    ∷ timeout_check 20
    ∷ arrival 21 2 (sent 2)
    ∷ []

run-events : (run clock events empty).0 ≡ sent 0 ∷ sent 1 ∷ sent 3 ∷ []
unfolding run step insert check_timeouts is_duplicate mark_seen store deliver deliver_in_order
    deliver_loop pop_next count_delivered append_recent skip_loop skip_fuel skip_next is_overdue
    min_of trim_flushed note_late at_least elem lookup put remove add_elem
run-events = refl

run-InOrder_example : let (ps, b') = run clock events empty in InOrder clock IsSent empty ps b'
run-InOrder_example =
    run-InOrder clock IsSent events empty (refl, (refl, (refl, (refl, (tt, (refl, tt))))))
      empty-IsValid

insert_lem_example : let (ps, b') = insert 5 1 (sent 1) empty in Inserted IsSent 1 empty ps b'
insert_lem_example = insert_lem IsSent 5 1 (sent 1) empty empty-IsValid refl

-- Packet 1 has waited since 5.
abbrev waiting : AdaptiveReorderBuffer ℕ
waiting = (insert 5 1 (sent 1) empty).1

waiting-IsValid : IsValid IsSent waiting
waiting-IsValid = (insert_lem IsSent 5 1 (sent 1) empty empty-IsValid refl).valid

check_timeouts_lem_example :
    let (ps, b') = check_timeouts clock 20 waiting in Expired clock IsSent 20 waiting ps b'
check_timeouts_lem_example = check_timeouts_lem clock IsSent 20 waiting waiting-IsValid

insert_all_in_order_example :
    let (delivered, b') = insert_all sent ((5, 1) ∷ (6, 0) ∷ (7, 3) ∷ []) empty in
    (delivered ≡ map sent (range_from 0 b'.next_seq))
    × (elem b'.next_seq (1 ∷ 0 ∷ 3 ∷ []) ≡ false)
    × ((j : ℕ) → j < b'.next_seq → elem j (1 ∷ 0 ∷ 3 ∷ []) ≡ true)
insert_all_in_order_example =
    insert_all_in_order sent 1024 10 500 2000 ((5, 1) ∷ (6, 0) ∷ (7, 3) ∷ [])

abbrev rtts : Dict ℕ
rtts = (1, 40) ∷ (2, 90) ∷ []

abbrev jitters : Dict ℕ
jitters = (1, 3) ∷ (2, 4) ∷ []

update-timeout : (update_timeout clock rtts jitters empty).0 ≡ 58
unfolding update_timeout adaptive_timeout positive_only late_delivery_pct jitter_margin float_max
    float_min
update-timeout = refl

loops_end_example :
    (deliver_loop (length waiting.buffer + 3) waiting ≡ deliver_in_order waiting)
    × (skip_loop clock (skip_fuel waiting + 3) 20 10 waiting
        ≡ skip_loop clock (skip_fuel waiting) 20 10 waiting)
loops_end_example = loops_end clock IsSent 3 20 10 waiting waiting-IsValid
