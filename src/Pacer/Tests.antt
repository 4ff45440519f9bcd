-- ===== src/Pacer/Tests.antt =====
-- Runs of the pacer with whole numbers in place of floats.
use ratan_engine.Prelude.{◌≡◌, refl, ℕ, ◌+◌, ◌-◌, ◌*◌, ◌/◌, ◌^◌, true, ltb, [], ◌∷◌}
use ratan_engine.Prelude.Dict
use ratan_engine.Prelude.Dict.{lookup}
use ratan_engine.Prelude.Floats.{FloatOps}
use ratan_engine.Pacer.{TokenBucketPacer, new_pacer, set_rate, refill, consume}

abbrev clock : FloatOps ℕ
clock = record {
  of_ℕ = λ n. n;
  decimal = λ n k. n / 10 ^ k;
  add = λ a b. a + b;
  sub = λ a b. a - b;
  mul = λ a b. a * b;
  div = λ a b. a / b;
  lt = ltb;
}

abbrev one_path : TokenBucketPacer ℕ
one_path = set_rate clock 0 1 1000 (new_pacer 10)

-- A bucket that holds 50 bytes at its limit of 50 lets 50 bytes through a second later.
burst_50 :
    (consume clock 1 1 50 (record one_path { max_burst = (1, 50) ∷ []; buckets = (1, 50) ∷ [] })).0
    ≡ true
unfolding consume refill lookup set_rate Dict.insert
burst_50 = refl
