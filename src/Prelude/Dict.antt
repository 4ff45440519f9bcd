-- ===== src/Prelude/Dict.antt =====
-- Python's `dict` with numbers as keys: entries in insertion order, and an update in place.
-- A `set` of numbers is the list of its elements, each once.
use ratan_engine.Prelude.{
  ℕ, ◌+◌, ◌≤◌, ◌≡◌, refl, Bool, true, false, Option, none, some, List, [], ◌∷◌, ◌++◌, arith, ◌==◌,
  if◌then◌else◌, length, Result, ok, raise, key_error, All, Bool-cases, Option-cases, inl, inr,
}

abbrev pub Dict {ℓ} : Type ℓ → Type ℓ
Dict V = List (ℕ × V)

-- `k in xs`
unfoldable pub elem : ℕ → List ℕ → Bool
elem k [] = false
elem k (x ∷ xs) = if x == k then true else elem k xs

-- `s.add(k)`
unfoldable pub add_elem : ℕ → List ℕ → List ℕ
add_elem k s = if elem k s then s else s ++ k ∷ []

-- `s.discard(k)`
unfoldable pub discard : ℕ → List ℕ → List ℕ
discard k [] = []
discard k (x ∷ xs) = let rest = discard k xs in if x == k then rest else x ∷ rest

-- `[x for x in xs if x not in ys]`, the elements of `xs - ys`
unfoldable pub minus : List ℕ → List ℕ → List ℕ
minus [] ys = []
minus (x ∷ xs) ys = let rest = minus xs ys in if elem x ys then rest else x ∷ rest

module _ {ℓ} {V : Type ℓ} where
  -- `d.keys()`
  abbrev pub keys : Dict V → List ℕ
  keys [] = []
  keys ((k, v) ∷ d) = k ∷ keys d

  -- `d.values()`
  abbrev pub values : Dict V → List V
  values [] = []
  values ((k, v) ∷ d) = v ∷ values d

  -- `d.get(k)`
  unfoldable pub lookup : ℕ → Dict V → Option V
  lookup k [] = none
  lookup k ((j, v) ∷ d) = if j == k then some v else lookup k d

  -- `d[k] = v`
  unfoldable pub insert : ℕ → V → Dict V → Dict V
  insert k v [] = (k, v) ∷ []
  insert k v ((j, w) ∷ d) = if j == k then (j, v) ∷ d else (j, w) ∷ insert k v d

  -- `d.pop(k, None)`, without its result
  unfoldable pub remove : ℕ → Dict V → Dict V
  remove k [] = []
  remove k ((j, w) ∷ d) = let rest = remove k d in if j == k then rest else (j, w) ∷ rest

  -- `k in d`
  abbrev pub contains : ℕ → Dict V → Bool
  contains k d = elim (lookup k d) [ none ↦ false | some v ↦ true ]

  -- `d[k]`
  abbrev pub get_item : ℕ → Dict V → Result V
  get_item k d = elim (lookup k d) [ none ↦ raise key_error | some v ↦ ok v ]

  -- `d.get(k, default)`
  abbrev pub get_default : ℕ → V → Dict V → V
  get_default k v d = elim (lookup k d) [ none ↦ v | some w ↦ w ]

  pub lookup-insert :
      (k j : ℕ) (v : V) (d : Dict V)
      → lookup j (insert k v d) ≡ (if k == j then some v else lookup j d)
  unfolding lookup insert
  lookup-insert k j v [] = refl
  lookup-insert k j v ((i, w) ∷ d) = ground (arith, lookup-insert k j v d)

  pub lookup-remove :
      (k j : ℕ) (d : Dict V) → lookup j (remove k d) ≡ (if k == j then none else lookup j d)
  unfolding lookup remove
  lookup-remove k j [] = ground arith
  lookup-remove k j ((i, w) ∷ d) = ground (arith, lookup-remove k j d)

  pub remove-insert : (k : ℕ) (v : V) (d : Dict V) → remove k (insert k v d) ≡ remove k d
  unfolding remove insert
  remove-insert k v [] = ground arith
  remove-insert k v ((i, w) ∷ d) = ground (arith, remove-insert k v d)

  pub elem-keys-insert :
      (k j : ℕ) (v : V) (d : Dict V)
      → elem j (keys (insert k v d)) ≡ (if k == j then true else elem j (keys d))
  unfolding elem insert
  elem-keys-insert k j v [] = refl
  elem-keys-insert k j v ((i, w) ∷ d) = ground (arith, elem-keys-insert k j v d)

  pub elem-keys-remove :
      (k j : ℕ) (d : Dict V)
      → elem j (keys (remove k d)) ≡ (if k == j then false else elem j (keys d))
  unfolding elem remove
  elem-keys-remove k j [] = ground arith
  elem-keys-remove k j ((i, w) ∷ d) = ground (arith, elem-keys-remove k j d)

  pub length-insert-le : (k : ℕ) (v : V) (d : Dict V) → length (insert k v d) ≤ length d + 1
  unfolding insert
  length-insert-le k v [] = omega arith
  length-insert-le k v ((i, w) ∷ d) = ground (arith, length-insert-le k v d)

pub elem-append :
    (k : ℕ) (xs ys : List ℕ) → elem k (xs ++ ys) ≡ (if elem k xs then true else elem k ys)
unfolding elem
elem-append k [] ys = refl
elem-append k (x ∷ xs) ys = ground (arith, elem-append k xs ys)

pub elem-add_elem :
    (k j : ℕ) (s : List ℕ) → elem j (add_elem k s) ≡ (if k == j then true else elem j s)
unfolding add_elem elem
elem-add_elem k j s = ground (arith, elem-append j s (k ∷ []))

pub elem-discard :
    (k j : ℕ) (s : List ℕ) → elem j (discard k s) ≡ (if k == j then false else elem j s)
unfolding elem discard
elem-discard k j [] = ground arith
elem-discard k j (x ∷ xs) = ground (arith, elem-discard k j xs)

pub elem-minus :
    (k : ℕ) (xs ys : List ℕ) → elem k (minus xs ys) ≡ (if elem k ys then false else elem k xs)
unfolding elem minus
elem-minus k [] ys = ground arith
elem-minus k (x ∷ xs) ys = ground (arith, elem-minus k xs ys)

-- The keys of a dict are distinct.
abbrev pub Distinct : List ℕ → Type 0
Distinct [] = Unit
Distinct (x ∷ xs) = (elem x xs ≡ false) × Distinct xs

pub insert-Distinct {ℓ} :
    {V : Type ℓ} (k : ℕ) (v : V) (d : Dict V) → Distinct (keys d) → Distinct (keys (insert k v d))
unfolding insert
insert-Distinct k v [] h = (unfold elem in refl, tt)
insert-Distinct k v ((i, w) ∷ d) h = ground (arith, elem-keys-insert k i v d, insert-Distinct k v d)

pub elem-keys {ℓ} : {V : Type ℓ} (k : ℕ) (d : Dict V) → elem k (keys d) ≡ contains k d
unfolding elem lookup
elem-keys k [] = refl
elem-keys k ((i, w) ∷ d) = ground (arith, elem-keys k d)

pub contains-some {ℓ} :
    {V : Type ℓ} (k : ℕ) (d : Dict V) → contains k d ≡ true → (v : V) × (lookup k d ≡ some v)
contains-some k d h = elim (Option-cases (lookup k d)) [
  | inl missing ↦ absurd (ground (arith, missing, h))
  | inr found ↦ found
]

pub All-values-insert {ℓ κ} :
    {V : Type ℓ} (P : V → Type κ) (k : ℕ) (v : V) (d : Dict V)
    → P v
    → All P (values d)
    → All P (values (insert k v d))
unfolding insert
All-values-insert P k v [] hv hd = (hv, tt)
All-values-insert P k v ((i, w) ∷ d) hv hd = elim (Bool-cases (i == k)) [
  | inl same ↦ rw same (hv, hd.1)
  | inr other ↦ rw other (hd.0, All-values-insert P k v d hv hd.1)
]

pub remove-Distinct {ℓ} :
    {V : Type ℓ} (k : ℕ) (d : Dict V) → Distinct (keys d) → Distinct (keys (remove k d))
unfolding remove
remove-Distinct k [] h = tt
remove-Distinct k ((i, w) ∷ d) h = ground (arith, h, elem-keys-remove k i d, remove-Distinct k d)
