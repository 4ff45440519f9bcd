-- ===== src/Reorder/Stream.antt =====
-- Runs of the reorder buffer of hyperagg/tunnel/reorder_buffer.py: any sequence of arrivals and of
-- timeout checks, as the tunnel's receive loop makes them.
use ratan_engine.Prelude.{
  ℕ, zero, suc, ◌+◌, ◌≤◌, ◌≡◌, List, [], ◌∷◌, ◌++◌, length, arith, sym, subst, range_from, All,
}
use ratan_engine.Prelude.Bytes.{Bytes}
use ratan_engine.Prelude.Floats.{FloatOps}
use ratan_engine.Reorder.{AdaptiveReorderBuffer, insert, check_timeouts}
use ratan_engine.Reorder.Valid.{AllFrom, IsValid}
use ratan_engine.Reorder.Insert.{insert_lem}
use ratan_engine.Reorder.Expiry.{check_timeouts_lem}

pub data Event (Float : Type 0) : Type 0 where
  arrival : (now : Float) (global_seq : ℕ) (payload : Bytes) → Event Float
  timeout_check : (now : Float) → Event Float

-- Numbers in strictly ascending order, from `lo` on and below `hi`.
abbrev pub Ascending : ℕ → List ℕ → ℕ → Type 0
Ascending lo [] hi = lo ≤ hi
Ascending lo (s ∷ ss) hi = (lo ≤ s) × Ascending (s + 1) ss hi

-- Payloads with their numbers.
abbrev pub Numbered : (ℕ → Bytes → Type 0) → List ℕ → List Bytes → Type 0
Numbered Q [] [] = Unit
Numbered Q [] (p ∷ ps) = ⊥
Numbered Q (s ∷ ss) [] = ⊥
Numbered Q (s ∷ ss) (p ∷ ps) = Q s p × Numbered Q ss ps

Ascending-append :
    (lo mid hi : ℕ) (xs ys : List ℕ)
    → Ascending lo xs mid
    → Ascending mid ys hi
    → Ascending lo (xs ++ ys) hi
Ascending-append lo mid hi [] [] h h' = omega arith
Ascending-append lo mid hi [] (y ∷ ys) h h' = (omega (arith, h'), h'.1)
Ascending-append lo mid hi (x ∷ xs) ys h h' = (h.0, Ascending-append (x + 1) mid hi xs ys h.1 h')

Ascending-range_from : (lo n k : ℕ) → lo ≤ n → Ascending lo (range_from n k) (n + k)
Ascending-range_from lo n zero h = omega arith
Ascending-range_from lo n (suc k) h = (
  h,
  subst (Ascending (n + 1) (range_from (suc n) k)) {x = suc n + k} (omega arith)
      (Ascending-range_from (n + 1) (suc n) k (omega arith)),
)

module _ (Q : ℕ → Bytes → Type 0) where
  Numbered-append :
      (ss ss' : List ℕ) (ps ps' : List Bytes)
      → Numbered Q ss ps
      → Numbered Q ss' ps'
      → Numbered Q (ss ++ ss') (ps ++ ps')
  Numbered-append [] ss' [] ps' h h' = h'
  Numbered-append [] ss' (p ∷ ps) ps' h h' = absurd h
  Numbered-append (s ∷ ss) ss' [] ps' h h' = absurd h
  Numbered-append (s ∷ ss) ss' (p ∷ ps) ps' h h' = (h.0, Numbered-append ss ss' ps ps' h.1 h')

  Numbered-AllFrom :
      (n : ℕ) (ps : List Bytes) → AllFrom Q n ps → Numbered Q (range_from n (length ps)) ps
  Numbered-AllFrom n [] h = tt
  Numbered-AllFrom n (p ∷ ps) h = (
    h.0,
    Numbered-AllFrom (suc n) ps (subst (λ (k : ℕ). AllFrom Q k ps) {x = n + 1} (omega arith) h.1),
  )

module _ {Float : Type 0} (fl : FloatOps Float) where
  unfoldable pub step :
      Event Float → AdaptiveReorderBuffer Float → List Bytes × AdaptiveReorderBuffer Float
  step (arrival now s p) b = insert now s p b
  step (timeout_check now) b = check_timeouts fl now b

  unfoldable pub run :
      List (Event Float) → AdaptiveReorderBuffer Float → List Bytes × AdaptiveReorderBuffer Float
  run [] b = ([], b)
  run (e ∷ es) b = let (ps, b') = step e b in let (rest, b'') = run es b' in (ps ++ rest, b'')

  module _ (Q : ℕ → Bytes → Type 0) where
    abbrev pub IsFrom : Event Float → Type 0
    IsFrom (arrival now s p) = Q s p
    IsFrom (timeout_check now) = Unit

    -- The payloads `ps` come out between two states, in the order of their numbers.
    pub record InOrder (b : AdaptiveReorderBuffer Float) (ps : List Bytes)
        (b' : AdaptiveReorderBuffer Float) : Type 0 where
      pub valid : IsValid Q b'
      pub numbers : List ℕ
      pub ascending : Ascending b.next_seq numbers b'.next_seq
      pub numbered : Numbered Q numbers ps

    InOrder-range :
        (n : ℕ) (b : AdaptiveReorderBuffer Float) (ps : List Bytes)
        (b' : AdaptiveReorderBuffer Float)
        → IsValid Q b'
        → b.next_seq ≤ n
        → b'.next_seq ≡ n + length ps
        → AllFrom Q n ps
        → InOrder b ps b'
    InOrder-range n b ps b' v le next all = record {
      valid = v;
      numbers = range_from n (length ps);
      ascending =
          subst (Ascending b.next_seq (range_from n (length ps))) (sym next)
            (Ascending-range_from b.next_seq n (length ps) le);
      numbered = Numbered-AllFrom Q n ps all;
    }

    step-InOrder :
        (e : Event Float) (b : AdaptiveReorderBuffer Float)
        → IsFrom e
        → IsValid Q b
        → let (ps, b') = step e b in InOrder b ps b'
    unfolding step
    step-InOrder (arrival now s p) b q v =
        let i = insert_lem Q now s p b v q in
        InOrder-range b.next_seq b _ _ i.valid (omega arith) i.next i.payloads
    step-InOrder (timeout_check now) b q v =
        let x = check_timeouts_lem fl Q now b v in
        InOrder-range x.first b _ _ x.valid x.after x.next x.payloads

    -- Whatever arrives in whatever order, repeated or late, and whenever timeouts are checked: what
    -- comes out in the whole run are payloads under numbers with which they arrived, each number at
    -- most once and in strictly ascending order, and the state stays well formed.
    pub run-InOrder :
        (events : List (Event Float)) (b : AdaptiveReorderBuffer Float)
        → All IsFrom events
        → IsValid Q b
        → let (ps, b') = run events b in InOrder b ps b'
    unfolding run
    run-InOrder [] b h v = record {
      valid = v;
      numbers = [];
      ascending = omega arith;
      numbered = tt;
    }
    run-InOrder (e ∷ es) b h v =
        let now = step-InOrder e b h.0 v in
        let later = run-InOrder es (step e b).1 h.1 now.valid in
        record {
          valid = later.valid;
          numbers = now.numbers ++ later.numbers;
          ascending =
              Ascending-append b.next_seq (step e b).1.next_seq _ now.numbers later.numbers
                now.ascending later.ascending;
          numbered = Numbered-append Q now.numbers later.numbers _ _ now.numbered later.numbered;
        }
