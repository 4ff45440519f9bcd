-- ===== src/Prelude/Distinct.antt =====
-- Lists of distinct numbers that have the same elements are permutations of one another.
use mathlib.Core.Logic.Or
use mathlib.Core.List.{Permᴰ}
use mathlib.Core.Logic.{∥∥₁_elim}
use native.Mathlib.Nat.{ℕ_set}
use mathlib.Core.List.{
  Mem, Nodup, Perm, Nodup-cons, Nodup-nil, mem-cons_self, mem-cons_of_mem, not-mem-nil,
  eq-or-mem_of_mem-cons, perm_ext_iff_of_Nodup,
}
use ratan_engine.Prelude.{
  ℕ, zero, suc, ◌+◌, ◌≡◌, refl, sym, ◌∙◌, ap, true, List, [], ◌∷◌, arith, ◌==◌, leb, ltb, ◌&&◌,
  Bool-cases, inl, inr, range_from, map, get_or, length,
}
use ratan_engine.Prelude.Dict.{elem, Distinct, minus, elem-minus}

mem_of_elem : (k : ℕ) (xs : List ℕ) → elem k xs ≡ true → Mem k xs
unfolding elem
mem_of_elem k [] h = absurd (ground (arith, h))
mem_of_elem k (x ∷ xs) h = elim (Bool-cases (x == k)) [
  | inl same ↦ let e : x ≡ k = ground (arith, same) in rw (← e) mem-cons_self
  | inr other ↦ mem-cons_of_mem x (mem_of_elem k xs (ground (arith, h, other)))
]

elem_of_mem : (k : ℕ) (xs : List ℕ) → Mem k xs → elem k xs ≡ true
unfolding elem
elem_of_mem k [] m = absurd (not-mem-nil m)
elem_of_mem k (x ∷ xs) m =
    Or.elim (hlevel) (eq-or-mem_of_mem-cons m) (λ e. ground (arith, e))
      (λ n. ground (arith, elem_of_mem k xs n))

Nodup-Distinct : (xs : List ℕ) → Distinct xs → Nodup xs
Nodup-Distinct [] h = Nodup-nil
Nodup-Distinct (x ∷ xs) h =
    Nodup-cons.1 (λ m. absurd (ground (arith, elem_of_mem x xs m, h.0)), Nodup-Distinct xs h.1)

pub perm_of_elem :
    (xs ys : List ℕ) → Distinct xs → Distinct ys → ((k : ℕ) → elem k xs ≡ elem k ys) → Perm xs ys
perm_of_elem xs ys hx hy e =
    (perm_ext_iff_of_Nodup (Nodup-Distinct xs hx) (Nodup-Distinct ys hy)).1 λ k. (
      λ m. mem_of_elem k ys (sym (e k) ∙ elem_of_mem k xs m),
      λ m. mem_of_elem k xs (e k ∙ elem_of_mem k ys m),
    )

pub elem-range_from : (k i n : ℕ) → elem k (range_from i n) ≡ (leb i k && ltb k (i + n))
unfolding elem
elem-range_from k i zero = ground arith
elem-range_from k i (suc n) = ground (arith, elem-range_from k (suc i) n)

pub range_from-Distinct : (i n : ℕ) → Distinct (range_from i n)
range_from-Distinct i zero = tt
range_from-Distinct i (suc n) =
    (ground (arith, elem-range_from i (suc i) n), range_from-Distinct (suc i) n)

map_shift {ℓ} :
    {A : Type ℓ} (f : ℕ → A) (i n : ℕ)
    → map f (range_from (suc i) n) ≡ map (λ k. f (suc k)) (range_from i n)
map_shift f i zero = refl
map_shift f i (suc n) = ap (◌∷◌ (f (suc i))) (map_shift f (suc i) n)

-- Reading a list at all its indices gives the list.
pub map-get_or-range_from {ℓ} :
    {A : Type ℓ} (d : A) (xs : List A) → map (λ i. get_or xs i d) (range_from 0 (length xs)) ≡ xs
map-get_or-range_from d [] = refl
map-get_or-range_from d (x ∷ xs) =
    ap (◌∷◌ x) (map_shift (λ i. get_or (x ∷ xs) i d) 0 (length xs) ∙ map-get_or-range_from d xs)

length-Permᴰ {ℓ} : {A : Type ℓ} {xs ys : List A} → Permᴰ xs ys → length xs ≡ length ys
length-Permᴰ Permᴰ.nil = refl
length-Permᴰ (Permᴰ.cons e p) = ap suc (length-Permᴰ p)
length-Permᴰ (Permᴰ.swap e f) = refl
length-Permᴰ (Permᴰ.trans p q) = length-Permᴰ p ∙ length-Permᴰ q

pub length-Perm {ℓ} : {A : Type ℓ} {xs ys : List A} → Perm xs ys → length xs ≡ length ys
length-Perm p = ∥∥₁_elim p (ℕ_set _ _) length-Permᴰ

pub minus-Distinct : (xs ys : List ℕ) → Distinct xs → Distinct (minus xs ys)
unfolding minus
minus-Distinct [] ys h = tt
minus-Distinct (x ∷ xs) ys h = ground (arith, h, elem-minus x xs ys, minus-Distinct xs ys)
