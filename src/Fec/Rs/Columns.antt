-- ===== src/Fec/Rs/Columns.antt =====
-- The columns of a list of packets, and the count of erasures, for hyperagg/fec/rs_fec.py.

use ratan_engine.Prelude.{
  ℕ, zero, suc, ◌+◌, ◌-◌, ◌≤◌, ◌<◌, ◌≡◌, refl, true, false, List, [], ◌∷◌, ◌++◌, map, ltb, length,
  length-append, length-map, length-replicate, replicate, get_or, get_or_ext,
  get_or-append-replicate, range_from, arith, sym, ap, ap₂, Bool-cases, ltb→lt, inl, inr, ◌∙◌, All,
}
use ratan_engine.Prelude.Bytes.{Bytes, IsBytes}
use ratan_engine.Prelude.Dict.{elem, minus, Distinct, elem-minus, elem-append}
use ratan_engine.Prelude.Distinct.{
  perm_of_elem, elem-range_from, range_from-Distinct, length-Perm, minus-Distinct,
}
use ratan_engine.Fec.Rs.{pick, pad_to, longest}

pub get_or-map :
    {A B : Type 0} (f : A → B) (d : A) (xs : List A) (i : ℕ)
    → get_or (map f xs) i (f d) ≡ f (get_or xs i d)
get_or-map f d [] i = refl
get_or-map f d (x ∷ xs) zero = refl
get_or-map f d (x ∷ xs) (suc i) = get_or-map f d xs i

pub length-range_from : (i n : ℕ) → length (range_from i n) ≡ n
length-range_from i zero = refl
length-range_from i (suc n) = ap suc (length-range_from (suc i) n)

-- The entry of a table over a range.
pub get_or-map-range_from :
    {B : Type 0} (f : ℕ → B) (d : B) (m n i : ℕ)
    → i < n
    → get_or (map f (range_from m n)) i d ≡ f (m + i)
get_or-map-range_from f d m zero i h = absurd (omega arith)
get_or-map-range_from f d m (suc n) zero h = ap f (omega arith)
get_or-map-range_from f d m (suc n) (suc i) h =
    get_or-map-range_from f d (suc m) n i (omega arith) ∙ ap f (omega arith)

pub get_or-table :
    {B : Type 0} (f : ℕ → B) (d : B) (n i : ℕ) → i < n → get_or (map f (range_from 0 n)) i d ≡ f i
get_or-table f d n i h = get_or-map-range_from f d 0 n i h ∙ ap f {x = 0 + i} {y = i} (omega arith)

pub get_or-beyond : {A : Type 0} (d : A) (xs : List A) (i : ℕ) → length xs ≤ i → get_or xs i d ≡ d
get_or-beyond d [] i h = refl
get_or-beyond d (x ∷ xs) zero h = absurd (omega arith)
get_or-beyond d (x ∷ xs) (suc i) h = get_or-beyond d xs i (omega arith)

-- Reading a column and then a row is reading the row and then the column.
pub get_or-pick :
    (blocks : List Bytes) (i row : ℕ)
    → get_or (pick i blocks) row 0 ≡ get_or (get_or blocks row []) i 0
get_or-pick [] i row = refl
get_or-pick (b ∷ bs) i zero = refl
get_or-pick (b ∷ bs) i (suc row) = get_or-pick bs i row

pub pick-append : (i : ℕ) (xs ys : List Bytes) → pick i (xs ++ ys) ≡ pick i xs ++ pick i ys
pick-append i [] ys = refl
pick-append i (x ∷ xs) ys = ap (◌∷◌ (get_or x i 0)) (pick-append i xs ys)

-- Padding does not change a column.
pub pick-pad_to : (n i : ℕ) (blocks : List Bytes) → pick i (map (pad_to n) blocks) ≡ pick i blocks
pick-pad_to n i [] = refl
pick-pad_to n i (b ∷ bs) =
    ap₂ ◌∷◌ (get_or-append-replicate 0 b (n - length b) i) (pick-pad_to n i bs)

get_or-lt : (b : Bytes) (i : ℕ) → IsBytes b → get_or b i 0 < 256
get_or-lt [] i h = omega arith
get_or-lt (x ∷ b) zero h = h.0
get_or-lt (x ∷ b) (suc i) h = get_or-lt b i h.1

pub pick-IsBytes : (i : ℕ) (blocks : List Bytes) → All IsBytes blocks → IsBytes (pick i blocks)
pick-IsBytes i [] h = tt
pick-IsBytes i (b ∷ bs) h = (get_or-lt b i h.0, pick-IsBytes i bs h.1)

pub length-get_or-le :
    (blocks : List Bytes) (row : ℕ) → length (get_or blocks row []) ≤ longest blocks
length-get_or-le [] row = omega arith
length-get_or-le (b ∷ bs) zero = omega arith
length-get_or-le (b ∷ bs) (suc row) = omega (arith, length-get_or-le bs row)

append-Distinct :
    (xs ys : List ℕ)
    → Distinct xs
    → Distinct ys
    → ((k : ℕ) → elem k xs ≡ true → elem k ys ≡ false)
    → Distinct (xs ++ ys)
unfolding elem
append-Distinct [] ys hx hy apart = hy
append-Distinct (x ∷ xs) ys hx hy apart = (
  ground (arith, hx, elem-append x xs ys, apart x),
  append-Distinct xs ys hx.1 hy (λ k h. ground (arith, apart k, h)),
)

-- What is missing of a range and what is there make up the range.
pub length-minus :
    (total : ℕ) (present : List ℕ)
    → Distinct present
    → ((k : ℕ) → elem k present ≡ true → k < total)
    → length (minus (range_from 0 total) present) + length present ≡ total
length-minus total present distinct inside =
    let all = range_from 0 total in
    let missing = minus all present in
    let p =
      perm_of_elem (missing ++ present) all
        (append-Distinct missing present (minus-Distinct all present (range_from-Distinct 0 total))
          distinct (λ k h. ground (arith, h, elem-minus k all present)))
        (range_from-Distinct 0 total)
        (λ k. ground (
          arith,
          elem-append k missing present,
          elem-minus k all present,
          elem-range_from k 0 total,
          inside k,
        )) in
    omega (arith, length-Perm p, length-append missing present, length-range_from 0 total)

-- The rows of a table of `n` columns with `m` bytes each have these columns.
pub pick-rows :
    (c : ℕ → Bytes) (n m col : ℕ)
    → col < n
    → length (c col) ≡ m
    → pick col (map (λ row. pick row (map c (range_from 0 n))) (range_from 0 m)) ≡ c col
pick-rows c n m col h size =
    let columns = map c (range_from 0 n) in
    let rows = map (λ (row : ℕ). pick row columns) (range_from 0 m) in
    get_or_ext 0 (pick col rows) (c col)
      (length-map rows (λ b. get_or b col 0)
        ∙ length-map (range_from 0 m) (λ row. pick row columns)
        ∙ length-range_from 0 m
        ∙ sym size)
      (λ i. elim (Bool-cases (ltb i m)) [
        | inl inside ↦
            get_or-pick rows col i
            ∙ ap (λ (b : Bytes). get_or b col 0)
                (get_or-table (λ row. pick row columns) [] m i (ltb→lt i m inside))
            ∙ get_or-pick columns i col
            ∙ ap (λ (b : Bytes). get_or b i 0) (get_or-table c [] n col h)
        | inr outside ↦
            get_or-beyond 0 (pick col rows) i (
              ground (
                arith,
                length-map rows (λ b. get_or b col 0),
                length-map (range_from 0 m) (λ row. pick row columns),
                length-range_from 0 m,
                outside,
              ))
            ∙ sym (get_or-beyond 0 (c col) i (ground (arith, size, outside)))
      ])

length-pad_to : (n : ℕ) (b : Bytes) → length b ≤ n → length (pad_to n b) ≡ n
length-pad_to n b h =
    omega (
      arith,
      length-append b (replicate (n - length b) 0),
      length-replicate {A = ℕ} (n - length b) 0,
    )

-- A row of the columns is the block, padded.
pick-columns :
    (n : ℕ) (blocks : List Bytes) (row : ℕ)
    → longest blocks ≤ n
    → pick row (map (λ col. pick col blocks) (range_from 0 n)) ≡ pad_to n (get_or blocks row [])
pick-columns n blocks row h =
    let columns = map (λ (col : ℕ). pick col blocks) (range_from 0 n) in
    let b = get_or blocks row [] in
    let size : length (pick row columns) ≡ n =
      length-map columns (λ c. get_or c row 0)
      ∙ length-map (range_from 0 n) (λ col. pick col blocks)
      ∙ length-range_from 0 n in
    let size' : length (pad_to n b) ≡ n =
      length-pad_to n b (omega (arith, length-get_or-le blocks row)) in
    get_or_ext 0 (pick row columns) (pad_to n b) (size ∙ sym size') (λ col.
      elim (Bool-cases (ltb col n)) [
        | inl inside ↦
            get_or-pick columns row col
            ∙ ap (λ (c : Bytes). get_or c row 0)
                (get_or-table (λ col. pick col blocks) [] n col (ltb→lt col n inside))
            ∙ get_or-pick blocks col row
            ∙ sym (get_or-append-replicate 0 b (n - length b) col)
        | inr outside ↦
            get_or-beyond 0 (pick row columns) col (ground (arith, size, outside))
            ∙ sym (get_or-beyond 0 (pad_to n b) col (ground (arith, size', outside)))
      ])

-- The rows of the columns are the blocks again, padded.
pub rows-columns :
    (n : ℕ) (blocks : List Bytes)
    → longest blocks ≤ n
    → map
        (λ row. pick row (map (λ col. pick col blocks) (range_from 0 n)))
        (range_from 0 (length blocks))
      ≡ map (pad_to n) blocks
rows-columns n blocks h =
    let columns = map (λ (col : ℕ). pick col blocks) (range_from 0 n) in
    let rows = map (λ (row : ℕ). pick row columns) (range_from 0 (length blocks)) in
    let size : length rows ≡ length blocks =
      length-map (range_from 0 (length blocks)) (λ row. pick row columns)
      ∙ length-range_from 0 (length blocks) in
    let size' : length (map (pad_to n) blocks) ≡ length blocks = length-map blocks (pad_to n) in
    get_or_ext (pad_to n []) rows (map (pad_to n) blocks) (size ∙ sym size') (λ i.
      elim (Bool-cases (ltb i (length blocks))) [
        | inl inside ↦
            get_or-table (λ row. pick row columns) (pad_to n []) (length blocks) i
              (ltb→lt i (length blocks) inside)
            ∙ pick-columns n blocks i h
            ∙ sym (get_or-map (pad_to n) [] blocks i)
        | inr outside ↦
            get_or-beyond (pad_to n []) rows i (ground (arith, size, outside))
            ∙ sym (
                get_or-beyond (pad_to n []) (map (pad_to n) blocks) i
                  (ground (arith, size', outside)))
      ])

pub get_or-append-left :
    {A : Type 0} (d : A) (xs ys : List A) (i : ℕ)
    → i < length xs
    → get_or (xs ++ ys) i d ≡ get_or xs i d
get_or-append-left d [] ys i h = absurd (omega arith)
get_or-append-left d (x ∷ xs) ys zero h = refl
get_or-append-left d (x ∷ xs) ys (suc i) h = get_or-append-left d xs ys i (omega arith)

pub get_or-append-right :
    {A : Type 0} (d : A) (xs ys : List A) (i : ℕ)
    → get_or (xs ++ ys) (length xs + i) d ≡ get_or ys i d
get_or-append-right d [] ys i = ap (λ (k : ℕ). get_or ys k d) {x = 0 + i} {y = i} (omega arith)
get_or-append-right d (x ∷ xs) ys i =
    ap (λ (k : ℕ). get_or (x ∷ xs ++ ys) k d) {x = suc (length xs) + i} {y = suc (length xs + i)}
      (omega arith)
    ∙ get_or-append-right d xs ys i

pub All-get_or :
    {A : Type 0} (P : A → Type 0) (d : A) (xs : List A) (i : ℕ)
    → All P xs
    → i < length xs
    → P (get_or xs i d)
All-get_or P d [] i h l = absurd (omega arith)
All-get_or P d (x ∷ xs) zero h l = h.0
All-get_or P d (x ∷ xs) (suc i) h l = All-get_or P d xs i h.1 (omega arith)

elem-empty : (k : ℕ) (xs : List ℕ) → length xs ≤ 0 → elem k xs ≡ false
unfolding elem
elem-empty k [] h = refl
elem-empty k (x ∷ xs) h = absurd (omega arith)

-- As many distinct numbers below `n` as there are: all of them.
pub elem_full :
    (n k : ℕ) (xs : List ℕ)
    → Distinct xs
    → ((j : ℕ) → elem j xs ≡ true → j < n)
    → n ≤ length xs
    → k < n
    → elem k xs ≡ true
elem_full n k xs distinct inside enough h = ground (
  arith,
  elem-minus k (range_from 0 n) xs,
  elem-range_from k 0 n,
  elem-empty k (minus (range_from 0 n) xs) (omega (arith, length-minus n xs distinct inside)),
)
