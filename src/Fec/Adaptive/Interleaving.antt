-- ===== src/Fec/Adaptive/Interleaving.antt =====
-- The counts of the interleaver of hyperagg/fec/adaptive_fec.py.
use ratan_engine.Prelude.{
  ℕ, zero, suc, ◌+◌, ◌-◌, ◌≤◌, ◌≡◌, refl, List, [], ◌∷◌, leb, length, length-append, get_elem?,
  arith, ap, Bool-cases, Option-cases, inl, inr,
}
use ratan_engine.Fec.Adaptive.{
  Interleaver, add_to_group, column_of, longest_group, columns_from, flush, add_packet,
}

module _ {A : Type 0} where
  -- The packets that wait.
  unfoldable pub waiting : List (List (ℕ × A)) → ℕ
  waiting [] = 0
  waiting (g ∷ gs) = length g + waiting gs

  -- Those that are not in the first `i` columns.
  unfoldable from_column : ℕ → List (List (ℕ × A)) → ℕ
  from_column i [] = 0
  from_column i (g ∷ gs) = (length g - i) + from_column i gs

  waiting-add_to_group :
      (g : ℕ) (p : A) (gs : List (List (ℕ × A))) → waiting (add_to_group g p gs) ≡ waiting gs + 1
  unfolding waiting add_to_group
  waiting-add_to_group g p [] = omega arith
  waiting-add_to_group g p (x ∷ xs) =
      ground (arith, length-append x ((g, p) ∷ []), waiting-add_to_group g p xs)

  get_elem_cases :
      (g : List (ℕ × A)) (i : ℕ)
      → length (column_of i (g ∷ [])) + (length g - (i + 1)) ≡ length g - i
  unfolding column_of
  get_elem_cases [] i = omega arith
  get_elem_cases (x ∷ g) zero = omega arith
  get_elem_cases (x ∷ g) (suc i) = ground (arith, get_elem_cases g i)

  length-column_of :
      (i : ℕ) (gs : List (List (ℕ × A)))
      → length (column_of i gs) + from_column (i + 1) gs ≡ from_column i gs
  unfolding column_of from_column
  length-column_of i [] = omega arith
  length-column_of i (g ∷ gs) = elim (Option-cases (get_elem? g i)) [
    | inl gone ↦ ground (arith, gone, get_elem_cases g i, length-column_of i gs)
    | inr (e, there) ↦ ground (arith, there, get_elem_cases g i, length-column_of i gs)
  ]

  from_column_end : (i : ℕ) (gs : List (List (ℕ × A))) → longest_group gs ≤ i → from_column i gs ≡ 0
  unfolding from_column longest_group
  from_column_end i [] h = refl
  from_column_end i (g ∷ gs) h = omega (arith, from_column_end i gs (omega arith))

  from_column_start : (gs : List (List (ℕ × A))) → from_column 0 gs ≡ waiting gs
  unfolding from_column waiting
  from_column_start [] = refl
  from_column_start (g ∷ gs) = omega (arith, from_column_start gs)

  length-columns_from :
      (i n : ℕ) (gs : List (List (ℕ × A)))
      → longest_group gs ≤ i + n
      → length (columns_from i n gs) ≡ from_column i gs
  unfolding columns_from
  length-columns_from i zero gs h = omega (arith, from_column_end i gs (omega arith))
  length-columns_from i (suc n) gs h =
      let next : suc i ≡ i + 1 = omega arith in
      omega (
        arith,
        length-append (column_of i gs) (columns_from (suc i) n gs),
        length-columns_from (suc i) n gs (omega arith),
        ap (λ (k : ℕ). from_column k gs) next,
        length-column_of i gs,
      )

  -- After each `add_packet`, whether it flushes or not, the packets that come out and those that wait
  -- are together as many as those that waited before, and one more.
  pub add_packet_accounts :
      (g : ℕ) (p : A) (i : Interleaver A)
      → let (out, i') = add_packet g p i in length out + waiting i'.groups ≡ waiting i.groups + 1
  unfolding add_packet flush waiting
  add_packet_accounts g p i =
      let gs = add_to_group g p i.groups in
      elim (Bool-cases (leb i.depth (length gs))) [
        | inl full ↦
            rw (full, add_packet)
              (omega (
                arith,
                length-columns_from 0 (longest_group gs) gs (omega arith),
                from_column_start gs,
                waiting-add_to_group g p i.groups,
              ))
        | inr accumulating ↦ ground (arith, accumulating, waiting-add_to_group g p i.groups)
      ]
