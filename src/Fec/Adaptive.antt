-- ===== src/Fec/Adaptive.antt =====
-- hyperagg/fec/adaptive_fec.py: the parameters of error correction follow the lengths of the loss
-- bursts, and packets of several groups are interleaved.
pub mod Sizing
pub mod Interleaving
mod Tests
use ratan_engine.Prelude.{
  ℕ, zero, suc, ◌+◌, ◌-◌, ◌*◌, ◌/◌, min, max, Bool, true, false, not, Option, none, some, List, [],
  ◌∷◌, ◌++◌, ltb, leb, ◌==◌, if◌then◌else◌, length, get_or, get_elem?, drop, range_from,
}
use ratan_engine.Prelude.Floats.{FloatOps}
use ratan_engine.Prelude.Sort.{sorted}
use ratan_engine.Fec.Mode.{Mode, xor, reed_solomon, replicate}

-- `deque.append` with a `maxlen`
unfoldable pub append_last {ℓ} : {A : Type ℓ} → ℕ → A → List A → List A
append_last maxlen x q = drop (length q + 1 - maxlen) (q ++ x ∷ [])

pub record BurstDetector : Type 0 where
  pub window : ℕ
  pub events : List Bool
  pub burst_lengths : List ℕ
  pub current_burst : ℕ

-- `__init__`
abbrev pub new_detector : ℕ → BurstDetector
new_detector window_size = record {
  window = window_size;
  events = [];
  burst_lengths = [];
  current_burst = 0;
}

unfoldable pub record_received : BurstDetector → BurstDetector
record_received d = record d {
  events = append_last d.window true d.events;
  burst_lengths =
      if ltb 0 d.current_burst
      then append_last 200 d.current_burst d.burst_lengths
      else d.burst_lengths;
  current_burst = 0;
}

unfoldable pub record_lost : BurstDetector → BurstDetector
record_lost d = record d {
  events = append_last d.window false d.events;
  current_burst = d.current_burst + 1;
}

-- `int(n * 0.95)` for the lengths up to 200 that the deque has
abbrev pub p95_index : ℕ → ℕ
p95_index n = n * 95 / 100

unfoldable pub p95_of : List ℕ → ℕ
p95_of [] = 0
p95_of (b ∷ bs) = let n = length (b ∷ bs) in get_or (sorted (b ∷ bs)) (min (p95_index n) (n - 1)) 0

abbrev pub p95_burst_length : BurstDetector → ℕ
p95_burst_length d = p95_of d.burst_lengths

unfoldable pub count_lost : List Bool → ℕ
count_lost [] = 0
count_lost (true ∷ es) = count_lost es
count_lost (false ∷ es) = suc (count_lost es)

unfoldable pub sum_of : List ℕ → ℕ
sum_of [] = 0
sum_of (x ∷ xs) = x + sum_of xs

module _ {Float : Type 0} (fl : FloatOps Float) where
  unfoldable pub avg_burst_length : BurstDetector → Float
  avg_burst_length d = elim d.burst_lengths [
    | [] ↦ fl.of_ℕ 0
    | b ∷ bs ↦ fl.div (fl.of_ℕ (sum_of (b ∷ bs))) (fl.of_ℕ (length (b ∷ bs)))
  ]

  unfoldable pub loss_rate : BurstDetector → Float
  loss_rate d = elim d.events [
    | [] ↦ fl.of_ℕ 0
    | e ∷ es ↦ fl.div (fl.of_ℕ (count_lost (e ∷ es))) (fl.of_ℕ (length (e ∷ es)))
  ]

abbrev pub burst_count : BurstDetector → ℕ
burst_count d = length d.burst_lengths

pub record AdaptiveFecSizer : Type 0 where
  pub detector : BurstDetector
  pub current_mode : Mode
  pub current_data_shards : ℕ
  pub current_parity_shards : ℕ
  pub interleave_enabled : Bool
  pub interleave_depth : ℕ

-- `__init__`
abbrev pub new_sizer : AdaptiveFecSizer
new_sizer = record {
  detector = new_detector 1000;
  current_mode = xor;
  current_data_shards = 4;
  current_parity_shards = 1;
  interleave_enabled = false;
  interleave_depth = 1;
}

abbrev pub sizer_received : AdaptiveFecSizer → AdaptiveFecSizer
sizer_received s = record s { detector = record_received s.detector }

abbrev pub sizer_lost : AdaptiveFecSizer → AdaptiveFecSizer
sizer_lost s = record s { detector = record_lost s.detector }

-- The parameters for a burst length.
unfoldable pub choose : ℕ → AdaptiveFecSizer → AdaptiveFecSizer
choose p95 s =
    if leb p95 1
    then record s {
      current_mode = xor;
      current_data_shards = 4;
      current_parity_shards = 1;
      interleave_enabled = false;
      interleave_depth = 1;
    }
    else if p95 == 2
    then record s {
      current_mode = reed_solomon;
      current_data_shards = 8;
      current_parity_shards = 3;
      interleave_enabled = true;
      interleave_depth = 2;
    }
    else if leb p95 4
    then record s {
      current_mode = reed_solomon;
      current_data_shards = 6;
      current_parity_shards = 4;
      interleave_enabled = true;
      interleave_depth = p95;
    }
    else record s {
      current_mode = replicate;
      current_data_shards = 1;
      current_parity_shards = 0;
      interleave_enabled = false;
      interleave_depth = 1;
    }

-- `!=` of two modes that `update` sets
unfoldable pub same_mode : Mode → Mode → Bool
same_mode Mode.no_fec Mode.no_fec = true
same_mode Mode.xor Mode.xor = true
same_mode Mode.reed_solomon Mode.reed_solomon = true
same_mode Mode.reed_solomon_heavy Mode.reed_solomon_heavy = true
same_mode Mode.replicate Mode.replicate = true
same_mode Mode.other_mode Mode.other_mode = true
same_mode _ _ = false

-- The new state, which holds the parameters that are returned, and `changed`
unfoldable pub update_sizer : AdaptiveFecSizer → Bool × AdaptiveFecSizer
update_sizer s =
    let s' = choose (p95_burst_length s.detector) s in
    (not (same_mode s'.current_mode s.current_mode), s')

pub record Interleaver (A : Type 0) : Type 0 where
  pub depth : ℕ
  pub groups : List (List (ℕ × A))

module _ {A : Type 0} where
  -- `__init__`; `_current_group` is not used.
  abbrev pub new_interleaver : ℕ → Interleaver A
  new_interleaver depth = record { depth = max 1 depth; groups = [] }

  abbrev pub set_depth : ℕ → Interleaver A → Interleaver A
  set_depth depth i = record i { depth = max 1 depth }

  -- `g and g[0][0] == group_id`
  unfoldable pub is_group : ℕ → List (ℕ × A) → Bool
  is_group group_id [] = false
  is_group group_id ((g, packet) ∷ rest) = g == group_id

  -- The packet goes to the first group with its number, or to a new one.
  unfoldable pub add_to_group : ℕ → A → List (List (ℕ × A)) → List (List (ℕ × A))
  add_to_group group_id packet [] = ((group_id, packet) ∷ []) ∷ []
  add_to_group group_id packet (g ∷ gs) =
      if is_group group_id g
      then (g ++ (group_id, packet) ∷ []) ∷ gs
      else g ∷ add_to_group group_id packet gs

  -- The packets with number `i` of each group.
  unfoldable pub column_of : ℕ → List (List (ℕ × A)) → List A
  column_of i [] = []
  column_of i (g ∷ gs) =
      let rest = column_of i gs in elim (get_elem? g i) [ none ↦ rest | some e ↦ e.1 ∷ rest ]

  unfoldable pub longest_group : List (List (ℕ × A)) → ℕ
  longest_group [] = 0
  longest_group (g ∷ gs) = max (length g) (longest_group gs)

  -- `for i in range(max_len)`
  unfoldable pub columns_from : ℕ → ℕ → List (List (ℕ × A)) → List A
  columns_from i zero groups = []
  columns_from i (suc n) groups = column_of i groups ++ columns_from (suc i) n groups

  -- `_flush`, and `flush`, which gives the same where there are no groups
  unfoldable pub flush : Interleaver A → List A × Interleaver A
  flush i = (columns_from 0 (longest_group i.groups) i.groups, record i { groups = [] })

  unfoldable pub add_packet : ℕ → A → Interleaver A → List A × Interleaver A
  add_packet group_id packet i =
      let groups = add_to_group group_id packet i.groups in
      if leb i.depth (length groups)
      then flush (record i { groups = groups })
      else ([], record i { groups = groups })
