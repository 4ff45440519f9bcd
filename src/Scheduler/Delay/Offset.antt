-- ===== src/Scheduler/Delay/Offset.antt =====
-- The table of offsets of hyperagg/scheduler/owd_estimator.py beside the tables of delays.
use ratan_engine.Prelude.{
  ℕ, ◌≡◌, ◌⊎◌, refl, sym, ◌∙◌, true, false, arith, ok, raise, key_error, Bool-cases, Option-cases,
  inl, inr, if◌then◌else◌, ◌==◌, Option, none, some, List, [],
}
use ratan_engine.Prelude.Dict.{Dict, lookup, insert, contains, get_default, lookup-insert}
use ratan_engine.Prelude.Floats.{FloatOps, ewma, float_max}
use ratan_engine.Scheduler.Models.{append_last}
use ratan_engine.Scheduler.Delay.{
  OwdEstimator, smooth, note_delays, delays, next_offset, record_timestamps,
  record_rtt_with_asymmetry,
}

module _ {Float : Type 0} (fl : FloatOps Float) where
  -- Every path with a delay has an offset, and the other way round.
  abbrev pub IsPaired : OwdEstimator Float → Type 0
  IsPaired e = (k : ℕ) → contains k e.owd_up ≡ contains k e.offset

  smooth-insert :
      (alpha x : Float) (k : ℕ) (d : Dict Float)
      → (v : Float) × (smooth fl alpha k x d ≡ insert k v d)
  unfolding smooth
  smooth-insert alpha x k d = elim (Option-cases (lookup k d)) [
    | inl new ↦ (x, rw (new, smooth) refl)
    | inr (old, known) ↦ (ewma fl alpha x old, rw (known, smooth) refl)
  ]

  contains-smooth :
      (alpha x : Float) (k j : ℕ) (d : Dict Float)
      → contains j (smooth fl alpha k x d) ≡ (if k == j then true else contains j d)
  contains-smooth alpha x k j d =
      let (v, same) = smooth-insert alpha x k d in rw same (grind (arith, lookup-insert k j v d))

  next_offset-raises :
      (k : ℕ) (offset : Float) (e : OwdEstimator Float)
      → contains k e.owd_up ≡ true
      → contains k e.offset ≡ false
      → next_offset fl k offset e ≡ raise key_error
  unfolding next_offset
  next_offset-raises k offset e up none_yet = rw (up, none_yet) refl

  next_offset-paired :
      (k : ℕ) (offset : Float) (e : OwdEstimator Float)
      → contains k e.owd_up ≡ contains k e.offset
      → next_offset fl k offset e ≡ ok (smooth fl e.alpha k offset e.offset)
  unfolding next_offset
  next_offset-paired k offset e paired = elim (Bool-cases (contains k e.offset)) [
    | inl known ↦ rw (paired, known) refl
    | inr new ↦ rw (paired, new) refl
  ]

  -- The new value of a table for a path: the first one as it is, and later ones smoothed.
  abbrev pub smoothed : (alpha x : Float) → Option Float → Float
  smoothed alpha x none = x
  smoothed alpha x (some old) = ewma fl alpha x old

  -- The table has a new value for one path, and the others' values are as they were.
  abbrev pub IsSmoothed : (alpha x : Float) → ℕ → (d d' : Dict Float) → Type 0
  IsSmoothed alpha x k d d' =
      (j : ℕ) → lookup j d' ≡ (if k == j then some (smoothed alpha x (lookup k d)) else lookup j d)

  smooth-IsSmoothed :
      (alpha x : Float) (k : ℕ) (d : Dict Float) → IsSmoothed alpha x k d (smooth fl alpha k x d)
  unfolding smooth
  smooth-IsSmoothed alpha x k d j = elim (Option-cases (lookup k d)) [
    | inl new ↦ rw (new, smooth) (lookup-insert k j x d)
    | inr (old, known) ↦ rw (known, smooth) (lookup-insert k j (ewma fl alpha x old) d)
  ]

  -- A measurement of a path is booked: the three tables are smoothed, the two histories get the new
  -- delay at their end, and nothing else changes.
  pub record IsRecorded (k : ℕ) (offset up down : Float) (e e' : OwdEstimator Float) : Type 0 where
    pub up_is : IsSmoothed e.alpha up k e.owd_up e'.owd_up
    pub down_is : IsSmoothed e.alpha down k e.owd_down e'.owd_down
    pub offset_is : IsSmoothed e.alpha offset k e.offset e'.offset
    pub history_up_is :
        (j : ℕ)
        → get_default j [] e'.history_up ≡ (
            if k == j
            then append_last e.history_size up (get_default k [] e.history_up)
            else get_default j [] e.history_up)
    pub history_down_is :
        (j : ℕ)
        → get_default j [] e'.history_down ≡ (
            if k == j
            then append_last e.history_size down (get_default k [] e.history_down)
            else get_default j [] e.history_down)
    pub alpha_same : e'.alpha ≡ e.alpha
    pub size_same : e'.history_size ≡ e.history_size

  history-appended :
      (size : ℕ) (x : Float) (k j : ℕ) (d : Dict (List Float))
      → get_default j [] (insert k (append_last size x (get_default k [] d)) d)
        ≡ (if k == j then append_last size x (get_default k [] d) else get_default j [] d)
  history-appended size x k j d =
      ground (arith, lookup-insert k j (append_last size x (get_default k [] d)) d)

  note_delays-IsRecorded :
      (k : ℕ) (offset up down : Float) (e : OwdEstimator Float)
      → IsRecorded k offset up down e
          (note_delays fl k up down (record e { offset = smooth fl e.alpha k offset e.offset }))
  unfolding note_delays
  note_delays-IsRecorded k offset up down e = record {
    up_is = smooth-IsSmoothed e.alpha up k e.owd_up;
    down_is = smooth-IsSmoothed e.alpha down k e.owd_down;
    offset_is = smooth-IsSmoothed e.alpha offset k e.offset;
    history_up_is = λ j. history-appended e.history_size up k j e.history_up;
    history_down_is = λ j. history-appended e.history_size down k j e.history_down;
    alpha_same = refl;
    size_same = refl;
  }

  -- While every path with a delay has an offset, an exchange of timestamps succeeds: the offset and
  -- the delays of the path (a tenth of a millisecond at least) are smoothed into its three values and
  -- the delays put at the end of its histories, the other paths stay as they were, and every path
  -- with a delay still has an offset. But a path without delays, if its delays are then guessed from
  -- a round trip, because an answer comes without timestamps, has no offset: the next answer with
  -- timestamps raises KeyError.
  pub record_timestamps_lem :
      (k : ℕ) (t1 t2 t3 t4 rtt_ms up_ratio : Float) (e : OwdEstimator Float)
      → IsPaired e
      → let (offset, up, down) = delays fl t1 t2 t3 t4 in
        let least = fl.decimal 1 1 in
        ((e' : OwdEstimator Float) × (record_timestamps fl k t1 t2 t3 t4 e ≡ ok e')
          × IsRecorded k offset (float_max fl least up) (float_max fl least down) e e'
          × IsPaired e')
        × ((contains k e.owd_up ≡ true)
            ⊎ (record_timestamps fl k t1 t2 t3 t4 (record_rtt_with_asymmetry fl k rtt_ms up_ratio e)
                ≡ raise key_error))
  unfolding record_timestamps note_delays record_rtt_with_asymmetry
  record_timestamps_lem k t1 t2 t3 t4 rtt_ms up_ratio e paired =
      let (offset, up, down) = delays fl t1 t2 t3 t4 in
      let least = fl.decimal 1 1 in
      let guessed = record_rtt_with_asymmetry fl k rtt_ms up_ratio e in
      (
        (
          note_delays fl k (float_max fl least up) (float_max fl least down)
              (record e { offset = smooth fl e.alpha k offset e.offset }),
          rw (next_offset-paired k offset e (paired k)) refl,
          note_delays-IsRecorded k offset (float_max fl least up) (float_max fl least down) e,
          λ j. grind (
            arith,
            contains-smooth e.alpha (float_max fl least up) k j e.owd_up,
            contains-smooth e.alpha offset k j e.offset,
            paired j,
          ),
        ),
        elim (Bool-cases (contains k e.owd_up)) [
          | inl known ↦ inl known
          | inr new ↦ inr (
              rw
                (next_offset-raises k offset guessed
                  (grind (arith, contains-smooth e.alpha (fl.mul rtt_ms up_ratio) k k e.owd_up))
                  (sym (paired k) ∙ new))
                refl)
        ],
      )
