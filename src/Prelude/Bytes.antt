-- ===== src/Prelude/Bytes.antt =====
-- Byte strings as lists of numbers below 256, and Python's big-endian conversions
-- `int.from_bytes(b, "big")` and `n.to_bytes(w, "big")`.
use mathlib.Core.List.{reverse, reverse_aux, reverse-reverse}
use native.Mathlib.Nat.{pow-suc}
use ratan_engine.Prelude.{
  ℕ, zero, suc, ◌+◌, ◌*◌, ◌/◌, ◌%◌, ◌^◌, ◌<◌, ◌≡◌, refl, sym, ap, ap₂, ◌∙◌, subst, List, [], ◌∷◌,
  arith, ltb, if◌then◌else◌, length, All, Result, ok, raise, overflow_error, length-reverse,
}

abbrev pub Bytes : Type 0
Bytes = List ℕ

abbrev pub IsBytes : Bytes → Type 0
IsBytes = All (λ b. b < 256)

-- The lowest byte first.
unfoldable pub le_value : Bytes → ℕ
le_value [] = 0
le_value (b ∷ bs) = le_value bs * 256 + b

unfoldable pub le_bytes : ℕ → ℕ → Bytes
le_bytes zero n = []
le_bytes (suc w) n = (n % 256) ∷ le_bytes w (n / 256)

-- `int.from_bytes(bs, "big")`: the last byte is the lowest.
unfoldable pub from_bytes : Bytes → ℕ
from_bytes bs = le_value (reverse bs)

-- The `w` bytes of a number below `256 ^ w`, the highest first.
unfoldable pub be_bytes : ℕ → ℕ → Bytes
be_bytes w n = reverse (le_bytes w n)

-- `n.to_bytes(w, "big")` raises OverflowError where `w` bytes are not enough.
unfoldable pub to_bytes : ℕ → ℕ → Result Bytes
to_bytes n w = if ltb n (256 ^ w) then ok (be_bytes w n) else raise overflow_error

pub length-le_bytes : (w n : ℕ) → length (le_bytes w n) ≡ w
unfolding le_bytes
length-le_bytes zero n = refl
length-le_bytes (suc w) n = ap suc (length-le_bytes w (n / 256))

pub length-be_bytes : (w n : ℕ) → length (be_bytes w n) ≡ w
unfolding be_bytes
length-be_bytes w n = length-reverse (le_bytes w n) ∙ length-le_bytes w n

pub le_bytes-le_value : (bs : Bytes) → IsBytes bs → le_bytes (length bs) (le_value bs) ≡ bs
unfolding le_bytes le_value
le_bytes-le_value [] h = refl
le_bytes-le_value (b ∷ bs) h =
    ap₂ ◌∷◌ (omega arith) (ap (le_bytes (length bs)) (omega arith) ∙ le_bytes-le_value bs h.1)

pub le_value-le_bytes : (w n : ℕ) → n < 256 ^ w → le_value (le_bytes w n) ≡ n
unfolding le_bytes le_value
le_value-le_bytes zero n h = omega arith
le_value-le_bytes (suc w) n h =
    omega (arith, le_value-le_bytes w (n / 256) (omega (arith, pow-suc 256 w)))

pub le_value-lt : (bs : Bytes) → IsBytes bs → le_value bs < 256 ^ length bs
unfolding le_value
le_value-lt [] h = omega arith
le_value-lt (b ∷ bs) h = omega (arith, pow-suc 256 (length bs), le_value-lt bs h.1)

pub le_bytes-IsBytes : (w n : ℕ) → IsBytes (le_bytes w n)
unfolding le_bytes
le_bytes-IsBytes zero n = tt
le_bytes-IsBytes (suc w) n = (omega arith, le_bytes-IsBytes w (n / 256))

All-reverse_aux : (xs acc : Bytes) → IsBytes xs → IsBytes acc → IsBytes (reverse_aux xs acc)
All-reverse_aux [] acc h k = k
All-reverse_aux (x ∷ xs) acc h k = All-reverse_aux xs (x ∷ acc) h.1 (h.0, k)

pub reverse-IsBytes : (bs : Bytes) → IsBytes bs → IsBytes (reverse bs)
reverse-IsBytes bs h = All-reverse_aux bs [] h tt

pub be_bytes-IsBytes : (w n : ℕ) → IsBytes (be_bytes w n)
unfolding be_bytes
be_bytes-IsBytes w n = reverse-IsBytes (le_bytes w n) (le_bytes-IsBytes w n)

-- Decoding what was encoded, and the other way round.
pub from_bytes-be_bytes : (w n : ℕ) → n < 256 ^ w → from_bytes (be_bytes w n) ≡ n
unfolding from_bytes be_bytes
from_bytes-be_bytes w n h = rw (reverse-reverse (le_bytes w n)) (le_value-le_bytes w n h)

pub be_bytes-from_bytes : (bs : Bytes) → IsBytes bs → be_bytes (length bs) (from_bytes bs) ≡ bs
unfolding from_bytes be_bytes
be_bytes-from_bytes bs h =
    ap reverse (
      ap (λ (w : ℕ). le_bytes w (le_value (reverse bs))) (sym (length-reverse bs))
      ∙ le_bytes-le_value (reverse bs) (reverse-IsBytes bs h))
    ∙ reverse-reverse bs

pub from_bytes-lt : (bs : Bytes) → IsBytes bs → from_bytes bs < 256 ^ length bs
unfolding from_bytes
from_bytes-lt bs h =
    subst (λ (w : ℕ). le_value (reverse bs) < 256 ^ w) (length-reverse bs)
      (le_value-lt (reverse bs) (reverse-IsBytes bs h))
