-- ===== src/Fec/Adaptive/Tests.antt =====
-- Runs of the adaptive parameters and the interleaver at concrete inputs.
use ratan_engine.Prelude.{ℕ, ◌≡◌, refl, [], ◌∷◌}
use ratan_engine.Prelude.Sort.{sorted, insert_sorted}
use ratan_engine.Fec.Adaptive.{
  record_received, record_lost, append_last, p95_of, p95_burst_length, AdaptiveFecSizer, new_sizer,
  sizer_received, sizer_lost, choose, update_sizer, Interleaver, add_packet, add_to_group, is_group,
  flush, columns_from, column_of, longest_group,
}
use ratan_engine.Fec.Adaptive.Sizing.{IsPercentile, Chosen, update_sizer-Chosen}

-- Two packets are lost, then one arrives.
abbrev after_burst : AdaptiveFecSizer
after_burst = sizer_received (sizer_lost (sizer_lost new_sizer))

burst-of-two : (update_sizer after_burst).1.current_parity_shards ≡ 3
unfolding update_sizer choose p95_of sorted insert_sorted record_received record_lost append_last
burst-of-two = refl

update_sizer-Chosen_example :
    IsPercentile (p95_burst_length after_burst.detector) after_burst.detector.burst_lengths
    × Chosen (p95_burst_length after_burst.detector) after_burst (update_sizer after_burst).1
update_sizer-Chosen_example = update_sizer-Chosen after_burst

-- Packets 10 and 11 of group 0 wait.
abbrev two_wait : Interleaver ℕ
two_wait = record { depth = 2; groups = ((0, 10) ∷ (0, 11) ∷ []) ∷ [] }

interleaved : (add_packet 1 20 two_wait).0 ≡ 10 ∷ 20 ∷ 11 ∷ []
unfolding add_packet add_to_group is_group flush columns_from column_of longest_group
interleaved = refl
