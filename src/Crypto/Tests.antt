-- ===== src/Crypto/Tests.antt =====
-- Runs of the encryption at concrete inputs.
use ratan_engine.Prelude.{ℕ, ◌^◌, ◌%◌, ◌+◌, ◌≡◌, refl, ◌↔◌, [], ◌∷◌, length, replicate, ok}
use ratan_engine.Prelude.Bytes.{Bytes, be_bytes, le_bytes}
use ratan_engine.Packet.Struct.{struct_pack}
use ratan_engine.Crypto.{PacketCrypto, derive_nonce, encrypt, nonce_size}
use ratan_engine.Crypto.Marking.{marking}
use ratan_engine.Crypto.Nonce.{derive_nonce-eq}

abbrev nonce_of_7 : Bytes
nonce_of_7 = 0 ∷ 0 ∷ 0 ∷ 7 ∷ 0 ∷ 1 ∷ 0 ∷ 0 ∷ 0 ∷ 0 ∷ 0 ∷ 0 ∷ []

abbrev crypto : PacketCrypto
crypto = record { key = replicate 32 1 }

abbrev text : Bytes
text = 65 ∷ []

abbrev sealed : Bytes
sealed = 65 ∷ replicate 16 7

derive_nonce_7 : derive_nonce 7 1 ≡ ok nonce_of_7
unfolding derive_nonce struct_pack be_bytes le_bytes
derive_nonce_7 = refl

derive_nonce_wrapped : derive_nonce (7 + 2 ^ 32) 1 ≡ ok nonce_of_7
unfolding derive_nonce struct_pack be_bytes le_bytes
derive_nonce_wrapped = refl

derive_nonce-eq_example :
    ((nonce_of_7 ≡ nonce_of_7) ↔ ((7 % 2 ^ 32 ≡ (7 + 2 ^ 32) % 2 ^ 32) × (◌≡◌ {A = ℕ} 1 1)))
    × (length nonce_of_7 ≡ nonce_size)
derive_nonce-eq_example =
    derive_nonce-eq 7 1 (7 + 2 ^ 32) 1 nonce_of_7 nonce_of_7 derive_nonce_7 derive_nonce_wrapped

encrypt_7 : encrypt marking crypto text [] 7 1 ≡ ok sealed
unfolding encrypt derive_nonce struct_pack be_bytes le_bytes
encrypt_7 = refl
