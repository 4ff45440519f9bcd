-- ===== src/Prelude/Sort.antt =====
-- Python's `sorted` on numbers.
use ratan_engine.Prelude.Dict.{elem}
use ratan_engine.Prelude.{
  zero, true, Bool, ◌==◌, drop, ◌+◌, ◌≤◌, ◌<◌, ltb, get_or, Bool-cases, inl, inr, ℕ, suc, ◌≡◌, refl,
  List, [], ◌∷◌, leb, arith, if◌then◌else◌, length,
}

unfoldable pub insert_sorted : ℕ → List ℕ → List ℕ
insert_sorted x [] = x ∷ []
insert_sorted x (y ∷ ys) = if leb x y then x ∷ y ∷ ys else y ∷ insert_sorted x ys

-- `sorted(xs)`
unfoldable pub sorted : List ℕ → List ℕ
unfolding insert_sorted
sorted [] = []
sorted (x ∷ xs) = insert_sorted x (sorted xs)

length-insert_sorted : (x : ℕ) (xs : List ℕ) → length (insert_sorted x xs) ≡ suc (length xs)
unfolding insert_sorted
length-insert_sorted x [] = refl
length-insert_sorted x (y ∷ ys) = ground (arith, length-insert_sorted x ys)

pub length-sorted : (xs : List ℕ) → length (sorted xs) ≡ length xs
unfolding sorted
length-sorted [] = refl
length-sorted (x ∷ xs) = omega (arith, length-insert_sorted x (sorted xs), length-sorted xs)

elem-insert_sorted :
    (k x : ℕ) (xs : List ℕ) → elem k (insert_sorted x xs) ≡ (if x == k then true else elem k xs)
unfolding insert_sorted elem
elem-insert_sorted k x [] = refl
elem-insert_sorted k x (y ∷ ys) = ground (arith, elem-insert_sorted k x ys)

-- Sorting keeps the elements.
pub elem-sorted : (k : ℕ) (xs : List ℕ) → elem k (sorted xs) ≡ elem k xs
unfolding sorted elem
elem-sorted k [] = refl
elem-sorted k (x ∷ xs) = ground (arith, elem-insert_sorted k x (sorted xs), elem-sorted k xs)

pub elem-drop : (k n : ℕ) (xs : List ℕ) → elem k (drop n xs) ≡ true → elem k xs ≡ true
unfolding elem
elem-drop k zero xs h = h
elem-drop k (suc n) [] h = h
elem-drop k (suc n) (x ∷ xs) h = ground (arith, elem-drop k n xs h)

pub elem-get_or : (xs : List ℕ) (i : ℕ) → i < length xs → elem (get_or xs i 0) xs ≡ true
unfolding elem
elem-get_or [] i h = absurd (omega arith)
elem-get_or (x ∷ xs) zero h = ground arith
elem-get_or (x ∷ xs) (suc i) h = ground (arith, elem-get_or xs i (omega arith))

-- How many numbers have a property
unfoldable pub count_where : (ℕ → Bool) → List ℕ → ℕ
count_where p [] = 0
count_where p (x ∷ xs) = (if p x then 1 else 0) + count_where p xs

count_where-insert_sorted :
    (p : ℕ → Bool) (x : ℕ) (xs : List ℕ)
    → count_where p (insert_sorted x xs) ≡ (if p x then 1 else 0) + count_where p xs
unfolding count_where insert_sorted
count_where-insert_sorted p x [] = refl
count_where-insert_sorted p x (y ∷ ys) = ground (arith, count_where-insert_sorted p x ys)

-- Sorting keeps how often each number occurs.
pub count_where-sorted : (p : ℕ → Bool) (xs : List ℕ) → count_where p (sorted xs) ≡ count_where p xs
unfolding count_where sorted
count_where-sorted p [] = refl
count_where-sorted p (x ∷ xs) =
    ground (arith, count_where-insert_sorted p x (sorted xs), count_where-sorted p xs)

-- Nothing that comes later is smaller.
abbrev IsSorted : List ℕ → Type 0
IsSorted [] = Unit
IsSorted (x ∷ xs) = ((k : ℕ) → elem k xs ≡ true → x ≤ k) × IsSorted xs

insert_sorted-IsSorted : (x : ℕ) (xs : List ℕ) → IsSorted xs → IsSorted (insert_sorted x xs)
unfolding insert_sorted elem
insert_sorted-IsSorted x [] h = (λ k there. absurd (ground (arith, there)), tt)
insert_sorted-IsSorted x (y ∷ ys) h = elim (Bool-cases (leb x y)) [
  | inl first ↦ rw first (λ k there. ground (arith, first, there, h.0 k), h)
  | inr later ↦ rw later (
    λ k there. ground (arith, later, there, elem-insert_sorted k x ys, h.0 k),
    insert_sorted-IsSorted x ys h.1,
  )
]

sorted-IsSorted : (xs : List ℕ) → IsSorted (sorted xs)
unfolding sorted
sorted-IsSorted [] = tt
sorted-IsSorted (x ∷ xs) = insert_sorted-IsSorted x (sorted xs) (sorted-IsSorted xs)

none_below :
    (v : ℕ) (xs : List ℕ) → ((k : ℕ) → elem k xs ≡ true → v ≤ k) → count_where (λ k. ltb k v) xs ≡ 0
unfolding count_where elem
none_below v [] h = refl
none_below v (x ∷ xs) h =
    ground (arith, h x, none_below v xs (λ k there. h k (ground (arith, there))))

sorted_ranks :
    (xs : List ℕ) (i : ℕ)
    → IsSorted xs
    → i < length xs
    → (i < count_where (λ k. leb k (get_or xs i 0)) xs)
      × (count_where (λ k. ltb k (get_or xs i 0)) xs ≤ i)
unfolding count_where
sorted_ranks [] i s h = absurd (omega arith)
sorted_ranks (x ∷ xs) zero s h = ground (arith, none_below x xs s.0)
sorted_ranks (x ∷ xs) (suc i) s h =
    let least = s.0 (get_or xs i 0) (elem-get_or xs i (omega arith)) in
    ground (arith, sorted_ranks xs i s.1 (omega arith), least)

-- The number at the index i of the sorted list: more than i numbers are not above it, and at most i
-- are below it.
pub get_or-sorted :
    (xs : List ℕ) (i : ℕ)
    → i < length xs
    → let v = get_or (sorted xs) i 0 in
      (i < count_where (λ k. leb k v) xs) × (count_where (λ k. ltb k v) xs ≤ i)
get_or-sorted xs i h =
    let v = get_or (sorted xs) i 0 in
    let r = sorted_ranks (sorted xs) i (sorted-IsSorted xs) (omega (arith, length-sorted xs)) in
    omega (arith, r, count_where-sorted (λ k. leb k v) xs, count_where-sorted (λ k. ltb k v) xs)
