-- ===== src/Crypto/Marking.antt =====
-- A cipher in the form of `Aead` for runs at concrete inputs: it hides nothing and adds a tag.
use ratan_engine.Prelude.{
  ℕ, ◌-◌, ap, ◌∙◌, ◌++◌, arith, length, take, replicate, ok, length-append, take-append,
}
use ratan_engine.Crypto.{Aead, IsAead}

abbrev pub marking : Aead
marking = record {
  seal = λ key nonce text aad. text ++ replicate 16 7;
  unseal = λ key nonce sealed aad. ok (take (length sealed - 16) sealed);
}

pub marking-IsAead : IsAead marking
marking-IsAead = record {
  opens = λ key nonce text aad. ap ok (
      ap (λ (n : ℕ). take n (text ++ replicate 16 7))
        (omega (arith, length-append text (replicate 16 7)))
      ∙ take-append text (replicate 16 7));
  adds_tag = λ key nonce text aad. length-append text (replicate 16 7);
}
