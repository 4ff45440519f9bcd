-- ===== src/Prelude/Thousandths.antt =====
-- Whole numbers of thousandths in place of floats, for runs at concrete inputs.
use ratan_engine.Prelude.{ℕ, ◌+◌, ◌-◌, ◌*◌, ◌/◌, ◌^◌, ltb, length}
use ratan_engine.Prelude.Floats.{FloatOps, FloatMath, float_sum}

abbrev pub thousandths : FloatOps ℕ
thousandths = record {
  of_ℕ = λ n. n * 1000;
  decimal = λ n k. n * 1000 / 10 ^ k;
  add = λ a b. a + b;
  sub = λ a b. a - b;
  mul = λ a b. a * b / 1000;
  div = λ a b. a * 1000 / b;
  lt = ltb;
}

-- Rough, but in the range of the functions.
abbrev pub thousandths_math : FloatMath ℕ
thousandths_math = record {
  floor = λ x. x / 1000;
  round_to = λ digits x. x;
  erf = λ x. x;
  sqrt = λ x. x;
  mean = λ xs. float_sum thousandths 0 xs / length xs;
  stdev = λ xs. 0;
  infinity = 1000000000000;
}
