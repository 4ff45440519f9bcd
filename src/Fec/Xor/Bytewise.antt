-- ===== src/Fec/Xor/Bytewise.antt =====
-- `_xor_bytes` of hyperagg/fec/xor_fec.py goes through integers; this is the same byte by byte.
use Prim.Native.Nat.{bit_xor}
use mathlib.Core.List.{reverse, reverse-append}
use ratan_engine.Prelude.{
  ℕ, zero, suc, ◌+◌, ◌-◌, ◌≤◌, ◌<◌, max, ◌≡◌, refl, sym, ap, ap₂, ◌∙◌, [], ◌∷◌, ◌++◌, arith, ltb,
  lt→ltb, ltb→lt, Bool-cases, inl, inr, All-append, length, get_or, replicate, ok, length-append,
  length-reverse, length-replicate,
}
use ratan_engine.Prelude.Bits.{bit_xor_fields, bit_xor-lt, bit_xor_comm, bit_xor-zero, zero-bit_xor}
use ratan_engine.Prelude.Bytes.{
  Bytes, IsBytes, le_value, from_bytes, to_bytes, be_bytes-from_bytes, reverse-IsBytes,
  from_bytes-lt,
}
use ratan_engine.Fec.Xor.{xor_bytes}

-- Byte by byte, the shorter string as if padded with zeros.
unfoldable pub xor_pad : Bytes → Bytes → Bytes
xor_pad [] ys = ys
xor_pad (x ∷ xs) [] = x ∷ xs
xor_pad (x ∷ xs) (y ∷ ys) = bit_xor x y ∷ xor_pad xs ys

pub length-xor_pad : (a b : Bytes) → length (xor_pad a b) ≡ max (length a) (length b)
unfolding xor_pad
length-xor_pad [] b = omega arith
length-xor_pad (x ∷ a) [] = omega arith
length-xor_pad (x ∷ a) (y ∷ b) = omega (arith, length-xor_pad a b)

-- The byte at an index; behind the end it is the padding.
pub get_or-xor_pad :
    (a b : Bytes) (i : ℕ) → get_or (xor_pad a b) i 0 ≡ bit_xor (get_or a i 0) (get_or b i 0)
unfolding xor_pad
get_or-xor_pad [] b i = sym (zero-bit_xor (get_or b i 0))
get_or-xor_pad (x ∷ a) [] i = sym (bit_xor-zero (get_or (x ∷ a) i 0))
get_or-xor_pad (x ∷ a) (y ∷ b) zero = refl
get_or-xor_pad (x ∷ a) (y ∷ b) (suc i) = get_or-xor_pad a b i

pub xor_pad-IsBytes : (a b : Bytes) → IsBytes a → IsBytes b → IsBytes (xor_pad a b)
unfolding xor_pad
xor_pad-IsBytes [] b ha hb = hb
xor_pad-IsBytes (x ∷ a) [] ha hb = ha
xor_pad-IsBytes (x ∷ a) (y ∷ b) ha hb = (bit_xor-lt 8 x y ha.0 hb.0, xor_pad-IsBytes a b ha.1 hb.1)

le_value-xor_pad :
    (a b : Bytes)
    → IsBytes a
    → IsBytes b
    → le_value (xor_pad a b) ≡ bit_xor (le_value a) (le_value b)
unfolding xor_pad le_value
le_value-xor_pad [] b ha hb = sym (zero-bit_xor (le_value b))
le_value-xor_pad (x ∷ a) [] ha hb = sym (bit_xor-zero (le_value (x ∷ a)))
le_value-xor_pad (x ∷ a) (y ∷ b) ha hb =
    rw (le_value-xor_pad a b ha.1 hb.1)
      (sym (bit_xor_fields 8 (le_value a) x (le_value b) y ha.0 hb.0))

xor_pad-append :
    (a b : Bytes) (x y : ℕ)
    → length a ≡ length b
    → xor_pad (a ++ x ∷ []) (b ++ y ∷ []) ≡ xor_pad a b ++ bit_xor x y ∷ []
unfolding xor_pad
xor_pad-append [] [] x y h = refl
xor_pad-append [] (b ∷ bs) x y h = absurd (omega arith)
xor_pad-append (a ∷ as') [] x y h = absurd (omega arith)
xor_pad-append (a ∷ as') (b ∷ bs) x y h =
    ap (◌∷◌ (bit_xor a b)) (xor_pad-append as' bs x y (omega arith))

reverse-cons : (x : ℕ) (xs : Bytes) → reverse (x ∷ xs) ≡ reverse xs ++ x ∷ []
reverse-cons x xs = reverse-append (x ∷ []) xs

reverse-xor_pad :
    (a b : Bytes) → length a ≡ length b → reverse (xor_pad a b) ≡ xor_pad (reverse a) (reverse b)
unfolding xor_pad
reverse-xor_pad [] [] h = refl
reverse-xor_pad [] (b ∷ bs) h = absurd (omega arith)
reverse-xor_pad (a ∷ as') [] h = absurd (omega arith)
reverse-xor_pad (a ∷ as') (b ∷ bs) h =
    reverse-cons (bit_xor a b) (xor_pad as' bs)
    ∙ ap (λ (t : Bytes). t ++ bit_xor a b ∷ []) (reverse-xor_pad as' bs (omega arith))
    ∙ sym (
        xor_pad-append (reverse as') (reverse bs) a b
          (omega (arith, length-reverse as', length-reverse bs)))
    ∙ ap₂ xor_pad (sym (reverse-cons a as')) (sym (reverse-cons b bs))

from_bytes-xor_pad :
    (a b : Bytes)
    → length a ≡ length b
    → IsBytes a
    → IsBytes b
    → from_bytes (xor_pad a b) ≡ bit_xor (from_bytes a) (from_bytes b)
unfolding from_bytes
from_bytes-xor_pad a b h ha hb =
    ap le_value (reverse-xor_pad a b h)
    ∙ le_value-xor_pad (reverse a) (reverse b) (reverse-IsBytes a ha) (reverse-IsBytes b hb)

zeros-xor_pad : (n : ℕ) (b : Bytes) → n ≤ length b → xor_pad (replicate n 0) b ≡ b
unfolding xor_pad
zeros-xor_pad zero b h = refl
zeros-xor_pad (suc n) [] h = absurd (omega arith)
zeros-xor_pad (suc n) (x ∷ b) h = ap₂ ◌∷◌ (zero-bit_xor x) (zeros-xor_pad n b (omega arith))

xor_pad-padded :
    (a b : Bytes) (n : ℕ) → length a + n ≡ length b → xor_pad (a ++ replicate n 0) b ≡ xor_pad a b
unfolding xor_pad
xor_pad-padded [] b n h = zeros-xor_pad n b (omega arith)
xor_pad-padded (a ∷ as') [] n h = absurd (omega arith)
xor_pad-padded (a ∷ as') (b ∷ bs) n h =
    ap (◌∷◌ (bit_xor a b)) (xor_pad-padded as' bs n (omega arith))

pub xor_pad_comm : (a b : Bytes) → xor_pad a b ≡ xor_pad b a
unfolding xor_pad
xor_pad_comm [] [] = refl
xor_pad_comm [] (y ∷ b) = refl
xor_pad_comm (x ∷ a) [] = refl
xor_pad_comm (x ∷ a) (y ∷ b) = ap₂ ◌∷◌ (bit_xor_comm x y) (xor_pad_comm a b)

zeros-IsBytes : (n : ℕ) → IsBytes (replicate n 0)
zeros-IsBytes zero = tt
zeros-IsBytes (suc n) = (omega arith, zeros-IsBytes n)

-- Two strings of one length, combined as integers.
xor_equal :
    (a b : Bytes)
    → length a ≡ length b
    → IsBytes a
    → IsBytes b
    → to_bytes (bit_xor (from_bytes a) (from_bytes b)) (max (length a) (length b))
      ≡ ok (xor_pad a b)
unfolding to_bytes
xor_equal a b h ha hb =
    let both = xor_pad-IsBytes a b ha hb in
    rw
      (
        ← from_bytes-xor_pad a b h ha hb,
        ← length-xor_pad a b,
        lt→ltb _ _ (from_bytes-lt (xor_pad a b) both),
      )
      (ap ok (be_bytes-from_bytes (xor_pad a b) both))

xor_padded :
    (a b : Bytes)
    → length a ≤ length b
    → IsBytes a
    → IsBytes b
    → to_bytes
        (bit_xor (from_bytes (a ++ replicate (length b - length a) 0)) (from_bytes b))
        (max (length a) (length b))
      ≡ ok (xor_pad a b)
xor_padded a b h ha hb =
    let n : ℕ = length b - length a in
    let long = a ++ replicate n 0 in
    let same : length long ≡ length b =
      omega (arith, length-append a (replicate n 0), length-replicate {A = ℕ} n 0) in
    let width : max (length long) (length b) ≡ max (length a) (length b) = omega (arith, same) in
    ap (to_bytes (bit_xor (from_bytes long) (from_bytes b))) (sym width)
    ∙ xor_equal long b same (All-append (λ x. x < 256) a (replicate n 0) ha (zeros-IsBytes n)) hb
    ∙ ap ok (xor_pad-padded a b n (omega arith))

-- The optimised `_xor_bytes` is the bytewise exclusive or with zero padding: on byte strings of any
-- two lengths it never raises OverflowError, and returns that.
pub xor_bytes-eq-xor_pad : (a b : Bytes) → IsBytes a → IsBytes b → xor_bytes a b ≡ ok (xor_pad a b)
unfolding xor_bytes
xor_bytes-eq-xor_pad a b ha hb = elim (Bool-cases (ltb (length a) (length b))) [
  | inl less ↦ rw less (xor_padded a b (omega (arith, ltb→lt _ _ less)) ha hb)
  | inr not_less ↦ elim (Bool-cases (ltb (length b) (length a))) [
    | inl more ↦
        let comm : max (length b) (length a) ≡ max (length a) (length b) = omega arith in
        rw (not_less, more, bit_xor_comm, ← comm, xor_pad_comm a b)
          (xor_padded b a (omega (arith, ltb→lt _ _ more)) hb ha)
    | inr not_more ↦ rw (not_less, not_more) (xor_equal a b (ground arith) ha hb)
  ]
]
