-- ===== src/Pacer.antt =====
-- `TokenBucketPacer` of hyperagg/scheduler/bandwidth_estimator.py: a bucket of bytes for each path,
-- filled at the rate of the path. `now` is the clock's value at the call.
pub mod Answers
mod Tests
use ratan_engine.Prelude.{ℕ, Bool, true, false, not, none, some, [], if◌then◌else◌}
use ratan_engine.Prelude.Dict.{Dict, lookup, insert, contains}
use ratan_engine.Prelude.Floats.{FloatOps}

pub record TokenBucketPacer (Float : Type 0) : Type 0 where
  pub max_wait_ms : Float
  pub buckets : Dict Float
  pub rates : Dict Float
  pub last_refill : Dict Float
  pub max_burst : Dict Float

-- `d.get(k, default)`
abbrev pub lookup_or {ℓ} : {V : Type ℓ} → ℕ → V → Dict V → V
lookup_or k default d = elim (lookup k d) [ none ↦ default | some v ↦ v ]

module _ {Float : Type 0} where
  -- `__init__`
  abbrev pub new_pacer : Float → TokenBucketPacer Float
  new_pacer max_wait_ms = record {
    max_wait_ms = max_wait_ms;
    buckets = [];
    rates = [];
    last_refill = [];
    max_burst = [];
  }

  module _ (fl : FloatOps Float) (now : Float) (path_id : ℕ) where
    unfoldable pub set_rate : Float → TokenBucketPacer Float → TokenBucketPacer Float
    set_rate rate p =
        let burst = fl.mul rate (fl.decimal 5 2) in
        let known = contains path_id p.buckets in
        record p {
          rates = insert path_id rate p.rates;
          max_burst = insert path_id burst p.max_burst;
          buckets = if known then p.buckets else insert path_id burst p.buckets;
          last_refill = if known then p.last_refill else insert path_id now p.last_refill;
        }

    -- Python's `min`
    abbrev pub lesser : Float → Float → Float
    lesser a b = if fl.lt b a then b else a

    abbrev pub tokens_of : TokenBucketPacer Float → Float
    tokens_of p = lookup_or path_id (fl.of_ℕ 0) p.buckets

    -- `_refill`
    unfoldable pub refill : TokenBucketPacer Float → TokenBucketPacer Float
    refill p =
        let elapsed = fl.sub now (lookup_or path_id now p.last_refill) in
        let rate = lookup_or path_id (fl.of_ℕ 0) p.rates in
        let added = fl.mul rate elapsed in
        let max_b = lookup_or path_id (fl.mul rate (fl.decimal 5 2)) p.max_burst in
        if fl.lt (fl.of_ℕ 0) elapsed
        then record p {
          buckets = insert path_id (lesser (fl.add (tokens_of p) added) max_b) p.buckets;
          last_refill = insert path_id now p.last_refill;
        }
        else p

    unfoldable pub can_send : ℕ → TokenBucketPacer Float → Bool × TokenBucketPacer Float
    can_send nbytes p = let p' = refill p in (not (fl.lt (tokens_of p') (fl.of_ℕ nbytes)), p')

    unfoldable pub consume : ℕ → TokenBucketPacer Float → Bool × TokenBucketPacer Float
    consume nbytes p =
        let p' = refill p in
        let bucket = tokens_of p' in
        if fl.lt bucket (fl.of_ℕ nbytes) then (false, p') else (
          true,
          record p' { buckets = insert path_id (fl.sub bucket (fl.of_ℕ nbytes)) p'.buckets },
        )

    unfoldable pub tokens_available : TokenBucketPacer Float → Float × TokenBucketPacer Float
    tokens_available p = let p' = refill p in (tokens_of p', p')

    unfoldable pub time_until_available :
        ℕ → TokenBucketPacer Float → Float × TokenBucketPacer Float
    time_until_available nbytes p =
        let p' = refill p in
        let deficit = fl.sub (fl.of_ℕ nbytes) (tokens_of p') in
        let rate = lookup_or path_id (fl.of_ℕ 1) p'.rates in
        let wait =
          if fl.lt (fl.of_ℕ 0) rate
          then fl.mul (fl.div deficit rate) (fl.of_ℕ 1000)
          else p'.max_wait_ms in
        (if fl.lt (fl.of_ℕ 0) deficit then wait else fl.of_ℕ 0, p')
