-- ===== src/Reorder/Gap.antt =====
-- The reorder buffer of hyperagg/tunnel/reorder_buffer.py while a number is missing.
use ratan_engine.Prelude.{ℕ, ◌≡◌, ◌≢◌, refl, List, [], ◌∷◌, arith}
use ratan_engine.Prelude.Bytes.{Bytes}
use ratan_engine.Reorder.{AdaptiveReorderBuffer, insert}
use ratan_engine.Reorder.Valid.{IsValid}
use ratan_engine.Reorder.Insert.{is_known, Inserted, insert_lem}

-- No payload is required to be anything.
abbrev pub AnyPayload : ℕ → Bytes → Type 0
AnyPayload j p = Unit {0}

module _ {Float : Type 0} where
  Inserted-gap :
      (s : ℕ) (b b' : AdaptiveReorderBuffer Float) (ps : List Bytes)
      → s ≢ b.next_seq
      → IsValid AnyPayload b
      → Inserted AnyPayload s b ps b'
      → (ps ≡ []) × (b'.next_seq ≡ b.next_seq)
  Inserted-gap s b b' [] other v i = (refl, omega (arith, i.next))
  Inserted-gap s b b' (p ∷ ps) other v i =
      absurd (unfold is_known in ground (arith, i.known b.next_seq, i.next, v.at_gap))

  -- A packet other than the next one brings nothing out.
  pub insert-gap :
      (now : Float) (s : ℕ) (p : Bytes) (b : AdaptiveReorderBuffer Float)
      → s ≢ b.next_seq
      → IsValid AnyPayload b
      → let (ps, b') = insert now s p b in
        (ps ≡ []) × (b'.next_seq ≡ b.next_seq) × IsValid AnyPayload b'
  insert-gap now s p b other v =
      let i = insert_lem AnyPayload now s p b v tt in
      let (none_out, same) = Inserted-gap s b (insert now s p b).1 (insert now s p b).0 other v i in
      (none_out, same, i.valid)
