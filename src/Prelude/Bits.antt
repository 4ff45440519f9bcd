-- ===== src/Prelude/Bits.antt =====
-- Exclusive or of numbers of any size, from the digit recursion that the native operation stands
-- for: one equation for the lowest digit, and what follows by strong induction.
use Prim.Native.Nat.{
  bit_and, bit_xor, bit_and-bitwise, min, digits, bitwise, bit_xor-bitwise, differ,
}
use native.Mathlib.Decide.{dec_le}
use native.Mathlib.Nat.{mod-lt, pow-suc, one-le-pow}
use ratan_engine.Prelude.{
  ℕ, zero, suc, ◌+◌, ◌-◌, ◌*◌, ◌/◌, ◌%◌, ◌≤◌, ◌<◌, ◌^◌, ◌≡◌, refl, sym, ap, ap₂, ◌∙◌, arith,
}

module _ (z : ℕ → ℕ) (f : ℕ → ℕ → ℕ) where
  -- One more unit of fuel changes nothing once there is enough.
  digits_more : (fuel x y : ℕ) → x ≤ fuel → digits z f (suc fuel) x y ≡ digits z f fuel x y
  digits_more zero zero y enough = refl
  digits_more zero (suc x) y enough = absurd (omega arith)
  digits_more (suc fuel) zero y enough = refl
  digits_more (suc fuel) (suc x) y enough =
      let half = digits_more fuel (suc x / 2) (y / 2) (omega arith) in rw half

  digits_enough : (fuel x y : ℕ) → x ≤ fuel → digits z f fuel x y ≡ digits z f x x y
  digits_enough zero zero y enough = refl
  digits_enough zero (suc x) y enough = absurd (omega arith)
  digits_enough (suc fuel) x y enough = elim (dec_le x fuel) [
    | yes le ↦ digits_more fuel x y le ∙ digits_enough fuel x y le
    | no over ↦ let last : suc fuel ≡ x = omega arith in ap (λ (t : ℕ). digits z f t x y) last
  ]

  bitwise_halves :
      (x y : ℕ)
      → bitwise z f (suc x) y ≡ f (suc x % 2) (y % 2) + bitwise z f (suc x / 2) (y / 2) * 2
  bitwise_halves x y = omega (arith, digits_enough x (suc x / 2) (y / 2) (omega arith))

differ_digits : (x y : ℕ) → x < 2 → y < 2 → differ x y ≡ (x + y) % 2
differ_digits zero y p q = omega arith
differ_digits (suc zero) zero p q = refl
differ_digits (suc zero) (suc zero) p q = refl
differ_digits (suc zero) (suc (suc y)) p q = absurd (omega arith)
differ_digits (suc (suc x)) y p q = absurd (omega arith)

pub zero-bit_xor : (b : ℕ) → bit_xor 0 b ≡ b
zero-bit_xor b = bit_xor-bitwise 0 b

-- The lowest digit of `a ^ b`, and the rest.
pub bit_xor_step : (a b : ℕ) → bit_xor a b ≡ bit_xor (a / 2) (b / 2) * 2 + (a % 2 + b % 2) % 2
bit_xor_step zero b = omega (arith, zero-bit_xor b, zero-bit_xor (b / 2))
bit_xor_step (suc a) b = omega (
  arith,
  bit_xor-bitwise (suc a) b,
  bit_xor-bitwise (suc a / 2) (b / 2),
  bitwise_halves (λ y. y) differ a b,
  differ_digits (suc a % 2) (b % 2) (omega arith) (omega arith),
)

bit_xor_comm_fuel : (n a b : ℕ) → a + b ≤ n → bit_xor a b ≡ bit_xor b a
bit_xor_comm_fuel zero zero zero h = refl
bit_xor_comm_fuel zero zero (suc b) h = absurd (omega arith)
bit_xor_comm_fuel zero (suc a) b h = absurd (omega arith)
bit_xor_comm_fuel (suc n) zero zero h = refl
bit_xor_comm_fuel (suc n) zero (suc b) h = omega (
  arith,
  bit_xor_step 0 (suc b),
  bit_xor_step (suc b) 0,
  bit_xor_comm_fuel n 0 (suc b / 2) (omega arith),
)
bit_xor_comm_fuel (suc n) (suc a) b h = omega (
  arith,
  bit_xor_step (suc a) b,
  bit_xor_step b (suc a),
  bit_xor_comm_fuel n (suc a / 2) (b / 2) (omega arith),
)

pub bit_xor_comm : (a b : ℕ) → bit_xor a b ≡ bit_xor b a
bit_xor_comm a b = bit_xor_comm_fuel (a + b) a b (omega arith)

bit_xor_assoc_fuel : (n a b c : ℕ) → a ≤ n → bit_xor (bit_xor a b) c ≡ bit_xor a (bit_xor b c)
bit_xor_assoc_fuel n zero b c h = rw (zero-bit_xor b) (sym (zero-bit_xor (bit_xor b c)))
bit_xor_assoc_fuel zero (suc a) b c h = absurd (omega arith)
bit_xor_assoc_fuel (suc n) (suc a) b c h =
    let ab : bit_xor (suc a) b / 2 ≡ bit_xor (suc a / 2) (b / 2) =
      omega (arith, bit_xor_step (suc a) b) in
    let bc : bit_xor b c / 2 ≡ bit_xor (b / 2) (c / 2) = omega (arith, bit_xor_step b c) in
    omega (
      arith,
      bit_xor_step (suc a) b,
      bit_xor_step b c,
      bit_xor_step (bit_xor (suc a) b) c,
      bit_xor_step (suc a) (bit_xor b c),
      ap (λ (t : ℕ). bit_xor t (c / 2)) ab,
      ap (bit_xor (suc a / 2)) bc,
      bit_xor_assoc_fuel n (suc a / 2) (b / 2) (c / 2) (omega arith),
    )

pub bit_xor_assoc : (a b c : ℕ) → bit_xor (bit_xor a b) c ≡ bit_xor a (bit_xor b c)
bit_xor_assoc a b c = bit_xor_assoc_fuel a a b c (omega arith)

bit_xor_self_fuel : (n a : ℕ) → a ≤ n → bit_xor a a ≡ 0
bit_xor_self_fuel n zero h = refl
bit_xor_self_fuel zero (suc a) h = absurd (omega arith)
bit_xor_self_fuel (suc n) (suc a) h =
    omega (arith, bit_xor_step (suc a) (suc a), bit_xor_self_fuel n (suc a / 2) (omega arith))

pub bit_xor_self : (a : ℕ) → bit_xor a a ≡ 0
bit_xor_self a = bit_xor_self_fuel a a (omega arith)

pub bit_xor-zero : (a : ℕ) → bit_xor a 0 ≡ a
bit_xor-zero a = bit_xor_comm a 0 ∙ zero-bit_xor a

double_pow : (factor k : ℕ) → factor * 2 ^ suc k ≡ 2 * (factor * 2 ^ k)
double_pow factor k =
    let power : 2 ^ suc k ≡ 2 ^ k * 2 = omega (arith, pow-suc 2 k) in
    omega (arith, ap (λ (p : ℕ). factor * p) power)

-- Two numbers of `k` bits have an exclusive or of `k` bits.
pub bit_xor-lt : (k a b : ℕ) → a < 2 ^ k → b < 2 ^ k → bit_xor a b < 2 ^ k
bit_xor-lt zero a b p q =
    let za : a ≡ 0 = omega arith in let zb : b ≡ 0 = omega arith in rw (za, zb) (omega arith)
bit_xor-lt (suc k) a b p q = omega (
  arith,
  bit_xor_step a b,
  pow-suc 2 k,
  bit_xor-lt k (a / 2) (b / 2) (omega (arith, pow-suc 2 k)) (omega (arith, pow-suc 2 k)),
)

-- The low `k` bits and the rest do not mix.
pub bit_xor_fields :
    (k q r q' r' : ℕ)
    → r < 2 ^ k
    → r' < 2 ^ k
    → bit_xor (q * 2 ^ k + r) (q' * 2 ^ k + r') ≡ bit_xor q q' * 2 ^ k + bit_xor r r'
bit_xor_fields zero q r q' r' p p' =
    let z : r ≡ 0 = omega arith in
    let z' : r' ≡ 0 = omega arith in
    let e : q * 1 + 0 ≡ q = omega arith in
    let e' : q' * 1 + 0 ≡ q' = omega arith in rw (z, z', e, e') (omega arith)
bit_xor_fields (suc k) q r q' r' p p' =
    let e : (q * 2 ^ suc k + r) / 2 ≡ q * 2 ^ k + r / 2 = omega (arith, double_pow q k) in
    let e' : (q' * 2 ^ suc k + r') / 2 ≡ q' * 2 ^ k + r' / 2 = omega (arith, double_pow q' k) in
    omega (
      arith,
      bit_xor_step (q * 2 ^ suc k + r) (q' * 2 ^ suc k + r'),
      bit_xor_step r r',
      ap₂ bit_xor e e',
      double_pow q k,
      double_pow q' k,
      double_pow (bit_xor q q') k,
      bit_xor_fields k q (r / 2) q' (r' / 2) (omega (arith, pow-suc 2 k))
          (omega (arith, pow-suc 2 k)),
    )

-- `a & (2 ** k - 1)` is the remainder by `2 ** k`.
bit_and_step : (x y : ℕ) → bit_and x y ≡ min (x % 2) (y % 2) + 2 * bit_and (x / 2) (y / 2)
bit_and_step zero y = omega (arith, bit_and-bitwise 0 (y / 2), bit_and-bitwise 0 y)
bit_and_step (suc x) y =
    let whole = bit_and-bitwise (suc x) y in
    let halves = bit_and-bitwise (suc x / 2) (y / 2) in
    omega (arith, bitwise_halves (λ t. 0) min x y, whole, halves)

bit_and-zero_within : (bound x : ℕ) → x ≤ bound → bit_and x 0 ≡ 0
bit_and-zero_within bound zero within = refl
bit_and-zero_within zero (suc x) within = absurd (omega arith)
bit_and-zero_within (suc bound) (suc x) within =
    let half = bit_and-zero_within bound (suc x / 2) (omega arith) in
    omega (arith, half, bit_and_step (suc x) 0)

bit_and_low : (k q r : ℕ) → r < 2 ^ k → bit_and (q * 2 ^ k + r) (2 ^ k - 1) ≡ r
bit_and_low zero q r h = omega (arith, bit_and-zero_within (q * 1 + r) (q * 1 + r) (omega arith))
bit_and_low (suc k) q r h =
    let e : (q * 2 ^ suc k + r) / 2 ≡ q * 2 ^ k + r / 2 = omega (arith, double_pow q k) in
    let e' : (2 ^ suc k - 1) / 2 ≡ 2 ^ k - 1 = omega (arith, pow-suc 2 k, one-le-pow k 2) in
    omega (
      arith,
      bit_and_step (q * 2 ^ suc k + r) (2 ^ suc k - 1),
      ap₂ bit_and e e',
      double_pow q k,
      pow-suc 2 k,
      one-le-pow k 2,
      bit_and_low k q (r / 2) (omega (arith, pow-suc 2 k)),
    )

pub bit_and_mask : (k a : ℕ) → bit_and a (2 ^ k - 1) ≡ a % 2 ^ k
bit_and_mask k a =
    let split : a / 2 ^ k * 2 ^ k + a % 2 ^ k ≡ a = grind arith in
    ap (λ (t : ℕ). bit_and t (2 ^ k - 1)) (sym split)
    ∙ bit_and_low k (a / 2 ^ k) (a % 2 ^ k) (mod-lt a (omega (arith, one-le-pow k 2)))
