-- ===== src/Prelude/Lists.antt =====
-- Lists measured and indexed by native numbers, under the library's names.
use Prim.Native.Nat.{ℕ, zero, suc, ◌+◌, ◌-◌, ◌≤◌, min}
use mathlib.Core.Path.{◌≡◌, refl, ap, ap₂, ◌∙◌}
use mathlib.Core.List.{List, [], ◌∷◌, ◌++◌, map, reverse, reverse-append}
use mathlib.Core.Option.{Option, none, some}
use mathlib.Core.Logic.{◌⊎◌, inl, inr}
use native.Mathlib.Omega.{arith}

module _ {ℓ} {A : Type ℓ} where
  abbrev pub length : List A → ℕ
  length [] = 0
  length (x ∷ xs) = suc (length xs)

  abbrev pub get_elem? : List A → ℕ → Option A
  get_elem? [] i = none
  get_elem? (x ∷ xs) zero = some x
  get_elem? (x ∷ xs) (suc i) = get_elem? xs i

  abbrev pub get_or : List A → ℕ → A → A
  get_or [] i d = d
  get_or (x ∷ xs) zero d = x
  get_or (x ∷ xs) (suc i) d = get_or xs i d

  abbrev pub take : ℕ → List A → List A
  take zero xs = []
  take (suc n) [] = []
  take (suc n) (x ∷ xs) = x ∷ take n xs

  abbrev pub drop : ℕ → List A → List A
  drop zero xs = xs
  drop (suc n) [] = []
  drop (suc n) (x ∷ xs) = drop n xs

  abbrev pub replicate : ℕ → A → List A
  replicate zero a = []
  replicate (suc n) a = a ∷ replicate n a

-- A predicate on every element, which computes to a tuple.
abbrev pub All {ℓ κ} : {A : Type ℓ} → (A → Type κ) → List A → Type κ
All P [] = Unit
All P (x ∷ xs) = P x × All P xs

-- `list(range(i, i + n))`
abbrev pub range_from : ℕ → ℕ → List ℕ
range_from i zero = []
range_from i (suc n) = i ∷ range_from (suc i) n

module _ {ℓ} {A : Type ℓ} where
  pub length-append : (xs ys : List A) → length (xs ++ ys) ≡ length xs + length ys
  length-append [] ys = omega arith
  length-append (x ∷ xs) ys = omega (arith, length-append xs ys)

  pub length-replicate : (n : ℕ) (a : A) → length (replicate n a) ≡ n
  length-replicate zero a = refl
  length-replicate (suc n) a = ap suc (length-replicate n a)

  pub length-map {κ} : {B : Type κ} (xs : List A) (f : A → B) → length (map f xs) ≡ length xs
  length-map [] f = refl
  length-map (x ∷ xs) f = ap suc (length-map xs f)

  pub take-append : (xs ys : List A) → take (length xs) (xs ++ ys) ≡ xs
  take-append [] ys = refl
  take-append (x ∷ xs) ys = ap (◌∷◌ x) (take-append xs ys)

  pub drop-append : (xs ys : List A) → drop (length xs) (xs ++ ys) ≡ ys
  drop-append [] ys = refl
  drop-append (x ∷ xs) ys = drop-append xs ys

  pub take-append-drop : (n : ℕ) (xs : List A) → take n xs ++ drop n xs ≡ xs
  take-append-drop zero xs = refl
  take-append-drop (suc n) [] = refl
  take-append-drop (suc n) (x ∷ xs) = ap (◌∷◌ x) (take-append-drop n xs)

  pub take-take-drop : (m n : ℕ) (xs : List A) → take m xs ++ take n (drop m xs) ≡ take (m + n) xs
  take-take-drop zero n xs = ap (λ (k : ℕ). take k xs) (omega arith)
  take-take-drop (suc m) zero [] =
      ap (λ (k : ℕ). take {A = A} k []) {x = suc m} {y = suc m + 0} (omega arith)
  take-take-drop (suc m) (suc n) [] =
      ap (λ (k : ℕ). take {A = A} k []) {x = suc (m + suc n)} {y = suc m + suc n} (omega arith)
  take-take-drop (suc m) n (x ∷ xs) =
      ap (◌∷◌ x) (take-take-drop m n xs)
      ∙ ap (λ (k : ℕ). take k (x ∷ xs)) {x = suc (m + n)} {y = suc m + n} (omega arith)

  pub drop-drop : (m n : ℕ) (xs : List A) → drop n (drop m xs) ≡ drop (m + n) xs
  drop-drop zero n xs = ap (λ (k : ℕ). drop k xs) (omega arith)
  drop-drop (suc m) zero [] = ap (λ (k : ℕ). drop {A = A} k []) {x = suc (m + 0)} (omega arith)
  drop-drop (suc m) (suc n) [] =
      ap (λ (k : ℕ). drop {A = A} k []) {x = suc (m + suc n)} (omega arith)
  drop-drop (suc m) n (x ∷ xs) =
      drop-drop m n xs ∙ ap (λ (k : ℕ). drop k (x ∷ xs)) {x = suc (m + n)} (omega arith)

  -- What lies inside a prefix is read from the whole.
  pub take-drop-take :
      (w o n : ℕ) (xs : List A) → o + w ≤ n → take w (drop o (take n xs)) ≡ take w (drop o xs)
  take-drop-take zero o n xs h = refl
  take-drop-take (suc w) o zero xs h = absurd (omega arith)
  take-drop-take (suc w) zero (suc n) [] h = refl
  take-drop-take (suc w) zero (suc n) (x ∷ xs) h =
      ap (◌∷◌ x) (take-drop-take w zero n xs (omega arith))
  take-drop-take (suc w) (suc o) (suc n) [] h = refl
  take-drop-take (suc w) (suc o) (suc n) (x ∷ xs) h = take-drop-take (suc w) o n xs (omega arith)

  pub length-take : (n : ℕ) (xs : List A) → length (take n xs) ≡ min n (length xs)
  length-take zero xs = omega arith
  length-take (suc n) [] = omega arith
  length-take (suc n) (x ∷ xs) = omega (arith, length-take n xs)

  pub length-drop : (n : ℕ) (xs : List A) → length (drop n xs) ≡ length xs - n
  length-drop zero xs = omega arith
  length-drop (suc n) [] = omega arith
  length-drop (suc n) (x ∷ xs) = omega (arith, length-drop n xs)

  pub length-reverse : (xs : List A) → length (reverse xs) ≡ length xs
  length-reverse [] = refl
  length-reverse (x ∷ xs) =
      rw (reverse-append (x ∷ []) xs)
        (omega (arith, length-append (reverse xs) (x ∷ []), length-reverse xs))

module _ {ℓ κ} {A : Type ℓ} (P : A → Type κ) where
  pub All-append : (xs ys : List A) → All P xs → All P ys → All P (xs ++ ys)
  All-append [] ys hx hy = hy
  All-append (x ∷ xs) ys hx hy = (hx.0, All-append xs ys hx.1 hy)

  pub All-take : (n : ℕ) (xs : List A) → All P xs → All P (take n xs)
  All-take zero xs h = tt
  All-take (suc n) [] h = tt
  All-take (suc n) (x ∷ xs) h = (h.0, All-take n xs h.1)

  pub All-drop : (n : ℕ) (xs : List A) → All P xs → All P (drop n xs)
  All-drop zero xs h = h
  All-drop (suc n) [] h = tt
  All-drop (suc n) (x ∷ xs) h = All-drop n xs h.1

-- Two lists of one length with the same elements are equal.
pub get_or_ext {ℓ} :
    {A : Type ℓ} (d : A) (xs ys : List A)
    → length xs ≡ length ys
    → ((i : ℕ) → get_or xs i d ≡ get_or ys i d)
    → xs ≡ ys
get_or_ext d [] [] h e = refl
get_or_ext d [] (y ∷ ys) h e = absurd (omega arith)
get_or_ext d (x ∷ xs) [] h e = absurd (omega arith)
get_or_ext d (x ∷ xs) (y ∷ ys) h e =
    ap₂ ◌∷◌ (e 0) (get_or_ext d xs ys (omega arith) (λ i. e (suc i)))

-- Padding with the default changes no element.
pub get_or-append-replicate {ℓ} :
    {A : Type ℓ} (d : A) (xs : List A) (n i : ℕ) → get_or (xs ++ replicate n d) i d ≡ get_or xs i d
get_or-append-replicate d [] zero i = refl
get_or-append-replicate d [] (suc n) zero = refl
get_or-append-replicate d [] (suc n) (suc i) = get_or-append-replicate d [] n i
get_or-append-replicate d (x ∷ xs) n zero = refl
get_or-append-replicate d (x ∷ xs) n (suc i) = get_or-append-replicate d xs n i

-- To split on a computed list and keep the equation.
pub List-cases {ℓ} :
    {A : Type ℓ} (xs : List A) → (xs ≡ []) ⊎ ((y : A) × (ys : List A) × (xs ≡ y ∷ ys))
List-cases [] = inl refl
List-cases (x ∷ xs) = inr (x, xs, refl)
