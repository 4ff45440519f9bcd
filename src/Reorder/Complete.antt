-- ===== src/Reorder/Complete.antt =====
-- Arrivals at the reorder buffer of hyperagg/tunnel/reorder_buffer.py with no timeout between them:
-- against the plain description, the longest prefix of the stream that has arrived.
use ratan_engine.Prelude.{
  ℕ, zero, suc, ◌+◌, ◌<◌, ◌≡◌, refl, true, false, List, [], ◌∷◌, ◌++◌, if◌then◌else◌, length,
  length-append, arith, sym, ap, ap₂, ◌∙◌, subst, map, range_from,
}
use ratan_engine.Prelude.Bytes.{Bytes}
use ratan_engine.Prelude.Dict.{elem, lookup}
use ratan_engine.Reorder.{AdaptiveReorderBuffer, insert, new_buffer}
use ratan_engine.Reorder.Valid.{AllFrom, IsValid, new_buffer-IsValid}
use ratan_engine.Reorder.Insert.{is_known, insert_lem}

module _ (sent : ℕ → Bytes) where
  abbrev pub IsSent : ℕ → Bytes → Type 0
  IsSent s p = p ≡ sent s

  map-AllFrom :
      (n : ℕ) (ps : List Bytes) → AllFrom IsSent n ps → ps ≡ map sent (range_from n (length ps))
  map-AllFrom n [] h = refl
  map-AllFrom n (p ∷ ps) h = ap₂ ◌∷◌ h.0 (
      map-AllFrom (suc n) ps (subst (λ (k : ℕ). AllFrom IsSent k ps) {x = n + 1} (omega arith) h.1))

  map-range-append :
      (n j k : ℕ)
      → map sent (range_from n j) ++ map sent (range_from (n + j) k)
        ≡ map sent (range_from n (j + k))
  map-range-append n zero k =
      ap (λ (m : ℕ). map sent (range_from m k)) {x = n + 0} {y = n} (omega arith)
      ∙ ap (λ (m : ℕ). map sent (range_from n m)) {x = k} {y = 0 + k} (omega arith)
  map-range-append n (suc j) k =
      ap (◌∷◌ (sent n)) (
        ap (λ (m : ℕ). map sent (range_from (suc n) j) ++ map sent (range_from m k)) {x = n + suc j}
          {y = suc n + j} (omega arith)
        ∙ map-range-append (suc n) j k)
      ∙ ap (λ (m : ℕ). map sent (range_from n m)) {x = suc (j + k)} (omega arith)

module _ {Float : Type 0} where
  abbrev pub numbers_of : List (Float × ℕ) → List ℕ
  numbers_of [] = []
  numbers_of ((now, s) ∷ rest) = s ∷ numbers_of rest

module _ {Float : Type 0} (sent : ℕ → Bytes) where
  -- The clock's reading and the number of each arrival; the payload is the sender's.
  unfoldable pub insert_all :
      List (Float × ℕ) → AdaptiveReorderBuffer Float → List Bytes × AdaptiveReorderBuffer Float
  insert_all [] b = ([], b)
  insert_all ((now, s) ∷ rest) b =
      let (ps, b') = insert now s (sent s) b in
      let (later, b'') = insert_all rest b' in (ps ++ later, b'')

  record Caught (b : AdaptiveReorderBuffer Float) (seqs : List ℕ) (ps : List Bytes)
      (b' : AdaptiveReorderBuffer Float) : Type 0 where
    valid : IsValid (IsSent sent) b'
    payloads : ps ≡ map sent (range_from b.next_seq (length ps))
    next : b'.next_seq ≡ b.next_seq + length ps
    known : (j : ℕ) → is_known j b' ≡ (if elem j seqs then true else is_known j b)

  insert_all-Caught :
      (arrivals : List (Float × ℕ)) (b : AdaptiveReorderBuffer Float)
      → IsValid (IsSent sent) b
      → let (ps, b') = insert_all arrivals b in Caught b (numbers_of arrivals) ps b'
  unfolding insert_all elem
  insert_all-Caught [] b v = record {
    valid = v;
    payloads = refl;
    next = omega arith;
    known = λ j. refl;
  }
  insert_all-Caught ((now, s) ∷ rest) b v =
      let i = insert_lem (IsSent sent) now s (sent s) b v refl in
      let (ps, b') = insert now s (sent s) b in
      let (later, b'') = insert_all rest b' in
      let c = insert_all-Caught rest b' i.valid in
      let first : ps ≡ map sent (range_from b.next_seq (length ps)) =
        map-AllFrom sent b.next_seq ps i.payloads in
      let second : later ≡ map sent (range_from (b.next_seq + length ps) (length later)) =
        c.payloads ∙ ap (λ (m : ℕ). map sent (range_from m (length later))) i.next in
      record {
        valid = c.valid;
        payloads =
            ap₂ ◌++◌ first second
            ∙ map-range-append sent b.next_seq (length ps) (length later)
            ∙ ap (λ (m : ℕ). map sent (range_from b.next_seq m)) (sym (length-append ps later));
        next = omega (arith, i.next, c.next, length-append ps later);
        known = λ j. ground (arith, c.known j, i.known j);
      }

  -- A receiver that starts with an empty buffer and gets any arrivals of the sent packets, in any
  -- order and repeated, has put out exactly the packets 0, 1, ..., n - 1 in this order, where n is
  -- the first number that has not arrived.
  pub insert_all_in_order :
      (window : ℕ) (lo hi initial : Float) (arrivals : List (Float × ℕ))
      → let (delivered, b') = insert_all arrivals (new_buffer window lo hi initial) in
        (delivered ≡ map sent (range_from 0 b'.next_seq))
        × (elem b'.next_seq (numbers_of arrivals) ≡ false)
        × ((j : ℕ) → j < b'.next_seq → elem j (numbers_of arrivals) ≡ true)
  unfolding is_known
  insert_all_in_order window lo hi initial arrivals =
      let c =
        insert_all-Caught arrivals (new_buffer window lo hi initial)
          (new_buffer-IsValid (IsSent sent) window lo hi initial) in
      let (ps, b') = insert_all arrivals (new_buffer window lo hi initial) in
      let same : b'.next_seq ≡ length ps = omega (arith, c.next) in
      (
        c.payloads ∙ ap (λ (m : ℕ). map sent (range_from 0 m)) (sym same),
        ground (arith, c.known b'.next_seq, c.valid.at_gap),
        λ j h. unfold lookup in ground (arith, c.known j, h),
      )
