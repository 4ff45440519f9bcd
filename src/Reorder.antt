-- ===== src/Reorder.antt =====
-- `AdaptiveReorderBuffer` of hyperagg/tunnel/reorder_buffer.py: packets wait by global sequence
-- number until those before them have come or have timed out. A method takes the clock's reading
-- and returns its result with the new state.
pub mod Loops
pub mod Valid
pub mod Insert
pub mod Expiry
pub mod Stream
pub mod Complete
pub mod Timeout
pub mod Gap
pub mod Fuel
mod Tests
use ratan_engine.Prelude.{
  ℕ, zero, suc, ◌+◌, ◌-◌, ◌*◌, Bool, true, false, Option, none, some, List, [], ◌∷◌, ◌++◌, ltb, leb,
  if◌then◌else◌, length, drop, not,
}
use ratan_engine.Prelude.Bytes.{Bytes}
use ratan_engine.Prelude.Dict.{
  Dict, elem, add_elem, discard, keys, values, lookup, insert as put, remove, contains, get_default,
}
use ratan_engine.Prelude.Floats.{FloatOps}

pub record AdaptiveReorderBuffer (Float : Type 0) : Type 0 where
  pub window : ℕ
  pub min_timeout : Float
  pub max_timeout : Float
  pub timeout_ms : Float
  pub buffer : Dict Bytes
  pub next_seq : ℕ
  pub timestamps : Dict Float
  pub seen : List ℕ
  -- the last 100 deliveries: true where on time
  pub recent_deliveries : List Bool
  pub late_count : ℕ
  pub total_delivered : ℕ
  pub flushed_seqs : List ℕ

-- `deque.append` with `maxlen=100`
unfoldable pub append_recent : Bool → List Bool → List Bool
append_recent x q = drop (length q + 1 - 100) (q ++ x ∷ [])

-- `{s for s in seen if s >= cutoff}`
unfoldable pub at_least : ℕ → List ℕ → List ℕ
at_least cutoff [] = []
at_least cutoff (s ∷ ss) = let rest = at_least cutoff ss in if leb cutoff s then s ∷ rest else rest

-- `min` of a collection that starts with the first argument
unfoldable pub min_of : ℕ → List ℕ → ℕ
min_of x [] = x
min_of x (y ∷ ys) = min_of (if ltb y x then y else x) ys

-- `sum(1 for x in q if not x)`
unfoldable pub count_late : List Bool → ℕ
count_late [] = 0
count_late (true ∷ q) = count_late q
count_late (false ∷ q) = suc (count_late q)

-- The set of flushed numbers keeps at most `window` of them: the smallest is dropped.
unfoldable pub trim_flushed : ℕ → List ℕ → List ℕ
trim_flushed window [] = []
trim_flushed window (x ∷ xs) =
    if ltb window (length (x ∷ xs)) then discard (min_of x xs) (x ∷ xs) else x ∷ xs

module _ {Float : Type 0} where
  -- `__init__`
  abbrev pub new_buffer : ℕ → Float → Float → Float → AdaptiveReorderBuffer Float
  new_buffer window_size min_timeout_ms max_timeout_ms initial_timeout_ms = record {
    window = window_size;
    min_timeout = min_timeout_ms;
    max_timeout = max_timeout_ms;
    timeout_ms = initial_timeout_ms;
    buffer = [];
    next_seq = 0;
    timestamps = [];
    seen = [];
    recent_deliveries = [];
    late_count = 0;
    total_delivered = 0;
    flushed_seqs = [];
  }

  abbrev pub depth : AdaptiveReorderBuffer Float → ℕ
  depth b = length b.buffer

  unfoldable pub is_duplicate : ℕ → AdaptiveReorderBuffer Float → Bool
  is_duplicate global_seq b = if ltb global_seq b.next_seq then true else elem global_seq b.seen

  abbrev pub is_late : ℕ → AdaptiveReorderBuffer Float → Bool
  is_late global_seq b = ltb global_seq b.next_seq

  -- One turn of the loop of `_deliver_in_order`, without its result.
  unfoldable pub pop_next : AdaptiveReorderBuffer Float → AdaptiveReorderBuffer Float
  pop_next b = record b {
    buffer = remove b.next_seq b.buffer;
    timestamps = remove b.next_seq b.timestamps;
    next_seq = b.next_seq + 1;
  }

  -- The loop of `_deliver_in_order`. Every turn takes an entry out of the buffer.
  unfoldable pub deliver_loop :
      ℕ → AdaptiveReorderBuffer Float → List Bytes × AdaptiveReorderBuffer Float
  deliver_loop zero b = ([], b)
  deliver_loop (suc fuel) b = elim (lookup b.next_seq b.buffer) [
    | none ↦ ([], b)
    | some payload ↦
        let (delivered, b') = deliver_loop fuel (pop_next b) in (payload ∷ delivered, b')
  ]

  unfoldable pub deliver_in_order :
      AdaptiveReorderBuffer Float → List Bytes × AdaptiveReorderBuffer Float
  deliver_in_order b = deliver_loop (length b.buffer) b

  -- `for _ in delivered: ...` of `insert` and `check_timeouts`
  unfoldable pub count_delivered :
      List Bytes → AdaptiveReorderBuffer Float → AdaptiveReorderBuffer Float
  count_delivered [] b = b
  count_delivered (payload ∷ rest) b = count_delivered rest (record b {
    recent_deliveries = append_recent true b.recent_deliveries;
    total_delivered = b.total_delivered + 1;
  })

  unfoldable pub deliver : AdaptiveReorderBuffer Float → List Bytes × AdaptiveReorderBuffer Float
  deliver b = let (delivered, b') = deliver_in_order b in (delivered, count_delivered delivered b')

  unfoldable pub note_late : ℕ → AdaptiveReorderBuffer Float → AdaptiveReorderBuffer Float
  note_late global_seq b =
      if elem global_seq b.flushed_seqs
      then record b {
        late_count = b.late_count + 1;
        recent_deliveries = append_recent false b.recent_deliveries;
      }
      else b

  unfoldable pub mark_seen : ℕ → AdaptiveReorderBuffer Float → AdaptiveReorderBuffer Float
  mark_seen global_seq b =
      let marked = add_elem global_seq b.seen in
      record b {
        seen = if ltb (b.window * 2) (length marked) then at_least b.next_seq marked else marked;
      }

  unfoldable pub store :
      Float → ℕ → Bytes → AdaptiveReorderBuffer Float → AdaptiveReorderBuffer Float
  store now global_seq payload b = record b {
    buffer = put global_seq payload b.buffer;
    timestamps = put global_seq now b.timestamps;
  }

  unfoldable pub insert :
      Float → ℕ → Bytes → AdaptiveReorderBuffer Float → List Bytes × AdaptiveReorderBuffer Float
  insert now global_seq payload b =
      if is_duplicate global_seq b
      then ([], note_late global_seq b)
      else deliver (store now global_seq payload (mark_seen global_seq b))

  unfoldable pub skip_next : AdaptiveReorderBuffer Float → AdaptiveReorderBuffer Float
  unfolding trim_flushed
  skip_next b = record b {
    flushed_seqs = trim_flushed b.window (add_elem b.next_seq b.flushed_seqs);
    next_seq = b.next_seq + 1;
  }

  -- Whether the loop of `check_timeouts` goes on: its condition and its two breaks.
  unfoldable pub is_overdue :
      FloatOps Float → (now cutoff : Float) → AdaptiveReorderBuffer Float → Bool
  is_overdue fl now cutoff b =
      if contains b.next_seq b.buffer then false else elim (keys b.buffer) [
        | [] ↦ false
        | k ∷ ks ↦ not (fl.lt cutoff (get_default (min_of k ks) now b.timestamps))
      ]

  unfoldable pub skip_loop :
      FloatOps Float
      → ℕ
      → (now cutoff : Float) → AdaptiveReorderBuffer Float
      → AdaptiveReorderBuffer Float
  skip_loop fl zero now cutoff b = b
  skip_loop fl (suc fuel) now cutoff b = elim (is_overdue fl now cutoff b) [
    | false ↦ b
    | true ↦ skip_loop fl fuel now cutoff (skip_next b)
  ]

  -- The loop comes to the smallest number in the buffer at the latest.
  unfoldable pub skip_fuel : AdaptiveReorderBuffer Float → ℕ
  skip_fuel b = elim (keys b.buffer) [ [] ↦ 0 | k ∷ ks ↦ min_of k ks - b.next_seq ]

  unfoldable pub check_timeouts :
      FloatOps Float
      → Float
      → AdaptiveReorderBuffer Float
      → List Bytes × AdaptiveReorderBuffer Float
  check_timeouts fl now b =
      let cutoff = fl.sub now (fl.div b.timeout_ms (fl.of_ℕ 1000)) in
      deliver (skip_loop fl (skip_fuel b) now cutoff b)

  unfoldable pub late_delivery_pct : FloatOps Float → List Bool → Float
  late_delivery_pct fl [] = fl.of_ℕ 0
  late_delivery_pct fl (x ∷ q) = fl.div (fl.of_ℕ (count_late (x ∷ q))) (fl.of_ℕ (length (x ∷ q)))

  -- `[x for x in xs if x > 0]`
  unfoldable pub positive_only : FloatOps Float → List Float → List Float
  positive_only fl [] = []
  positive_only fl (x ∷ xs) =
      let rest = positive_only fl xs in if fl.lt (fl.of_ℕ 0) x then x ∷ rest else rest

  -- `max` and `min` keep the first of equals.
  unfoldable pub float_max : FloatOps Float → Float → List Float → Float
  float_max fl x [] = x
  float_max fl x (y ∷ ys) = float_max fl (if fl.lt x y then y else x) ys

  unfoldable pub float_min : FloatOps Float → Float → List Float → Float
  float_min fl x [] = x
  float_min fl x (y ∷ ys) = float_min fl (if fl.lt y x then y else x) ys

  unfoldable pub jitter_margin : FloatOps Float → List Float → Float
  jitter_margin fl [] = fl.of_ℕ 0
  jitter_margin fl (j ∷ js) = fl.mul (fl.of_ℕ 2) (float_max fl j js)

  -- The new timeout for the positive RTTs, the first of them apart.
  unfoldable pub adaptive_timeout :
      FloatOps Float → Float → List Float → List Float → AdaptiveReorderBuffer Float → Float
  adaptive_timeout fl r rs jitter_values b =
      let path_differential = fl.sub (float_max fl r rs) (float_min fl r rs) in
      let sum = fl.add path_differential (jitter_margin fl jitter_values) in
      let new_timeout =
        if fl.lt (fl.decimal 5 2) (late_delivery_pct fl b.recent_deliveries)
        then fl.mul sum (fl.decimal 12 1)
        else sum in
      float_max fl b.min_timeout (float_min fl b.max_timeout (new_timeout ∷ []) ∷ [])

  unfoldable pub update_timeout :
      FloatOps Float
      → Dict Float
      → Dict Float
      → AdaptiveReorderBuffer Float
      → Float × AdaptiveReorderBuffer Float
  update_timeout fl path_rtts path_jitters b =
      if ltb (length path_rtts) 2
      then (b.timeout_ms, b)
      else elim (positive_only fl (values path_rtts)) [
        | [] ↦ (b.timeout_ms, b)
        | r ∷ rs ↦
            let new_timeout = adaptive_timeout fl r rs (positive_only fl (values path_jitters)) b in
            (new_timeout, record b { timeout_ms = new_timeout })
      ]
