-- ===== src/Pacer/Answers.antt =====
-- The answers of the pacer's operations.
use ratan_engine.Prelude.{ℕ, ◌≡◌, refl, false, Bool-cases, inl, inr, arith}
use ratan_engine.Prelude.Floats.{FloatOps}
use ratan_engine.Pacer.{TokenBucketPacer, tokens_of, refill, consume, can_send}

module _ {Float : Type 0} (fl : FloatOps Float) (now : Float) (path_id : ℕ) where
  -- `consume` answers as `can_send` does, and when the answer is no it leaves the pacer as `can_send`
  -- does: filled up, with nothing taken.
  pub consume-can_send :
      (nbytes : ℕ) (p : TokenBucketPacer Float)
      → ((consume fl now path_id nbytes p).0 ≡ (can_send fl now path_id nbytes p).0)
        × ((consume fl now path_id nbytes p).0 ≡ false
            → consume fl now path_id nbytes p ≡ can_send fl now path_id nbytes p)
  unfolding consume can_send
  consume-can_send nbytes p =
      elim (Bool-cases
        (fl.lt (tokens_of fl now path_id (refill fl now path_id p)) (fl.of_ℕ nbytes))) [
          | inl short ↦ rw (short) (refl, λ h. refl)
          | inr enough ↦ rw (enough) (refl, λ h. absurd (ground (arith, h)))
        ]
