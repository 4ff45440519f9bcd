-- ===== src/Prelude/Floats.antt =====
-- Python's `float`, as a type with the operations that the program uses. There are no laws here: a
-- theorem that needs one (an order that is total, say) takes it as a hypothesis of its own.
use ratan_engine.Prelude.{ℕ, Bool, not, ◌&&◌, if◌then◌else◌, List, [], ◌∷◌}

pub record FloatOps (Float : Type 0) : Type 0 where
  -- `float(n)`
  pub of_ℕ : ℕ → Float
  -- the literal n / 10 ** k
  pub decimal : ℕ → ℕ → Float
  pub add : Float → Float → Float
  pub sub : Float → Float → Float
  pub mul : Float → Float → Float
  pub div : Float → Float → Float
  -- `a < b`
  pub lt : Float → Float → Bool

-- Comparisons and choices as Python makes them; no NaN is compared.
module _ {Float : Type 0} (fl : FloatOps Float) where
  -- `a <= b`
  abbrev pub float_le : Float → Float → Bool
  float_le a b = not (fl.lt b a)

  -- `a == b`
  abbrev pub float_eq : Float → Float → Bool
  float_eq a b = not (fl.lt a b) && not (fl.lt b a)

  -- `min(a, b)`
  abbrev pub float_min : Float → Float → Float
  float_min a b = if fl.lt b a then b else a

  -- `max(a, b)`
  abbrev pub float_max : Float → Float → Float
  float_max a b = if fl.lt a b then b else a

  -- `abs(a - b)`
  abbrev pub float_dist : Float → Float → Float
  float_dist a b = if fl.lt a b then fl.sub b a else fl.sub a b

  -- `alpha * new + (1 - alpha) * old`
  abbrev pub ewma : (alpha new old : Float) → Float
  ewma alpha new old = fl.add (fl.mul alpha new) (fl.mul (fl.sub (fl.of_ℕ 1) alpha) old)

  -- `sum`, from the left
  unfoldable pub float_sum : Float → List Float → Float
  float_sum acc [] = acc
  float_sum acc (x ∷ xs) = float_sum (fl.add acc x) xs

  -- `min` and `max` of a collection that starts with the first argument
  unfoldable pub float_min_of : Float → List Float → Float
  float_min_of x [] = x
  float_min_of x (y ∷ ys) = float_min_of (float_min x y) ys

  unfoldable pub float_max_of : Float → List Float → Float
  float_max_of x [] = x
  float_max_of x (y ∷ ys) = float_max_of (float_max x y) ys

-- Functions of Python's `math`, `statistics` and `round` on floats.
pub record FloatMath (Float : Type 0) : Type 0 where
  -- `int(x)` of a number that is not negative
  pub floor : Float → ℕ
  -- `round(x, digits)`
  pub round_to : ℕ → Float → Float
  pub erf : Float → Float
  pub sqrt : Float → Float
  pub mean : List Float → Float
  pub stdev : List Float → Float
  -- `float('inf')`
  pub infinity : Float
