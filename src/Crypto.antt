-- ===== src/Crypto.antt =====
-- `PacketCrypto` of hyperagg/tunnel/crypto.py. The cipher of the package cryptography is a parameter:
-- for a key, a nonce and the associated data it seals a text, and it opens what was sealed.
pub mod Nonce
pub mod Marking
mod Tests
use Prim.Native.Nat.{bit_and}
use ratan_engine.Prelude.{
  ◌+◌, ℕ, ◌≡◌, List, [], ◌∷◌, ◌++◌, not, ◌==◌, length, replicate, Result, ok, ◌>>=◌, ◌>>◌, raise_if,
  value_error,
}
use ratan_engine.Prelude.Bytes.{Bytes}
use ratan_engine.Packet.Struct.{struct_pack}

-- `ChaCha20Poly1305(key).encrypt(nonce, data, aad)` and `.decrypt`, which raises InvalidTag
pub record Aead : Type 0 where
  pub seal : (key nonce text aad : Bytes) → Bytes
  pub unseal : (key nonce sealed aad : Bytes) → Result Bytes

abbrev pub tag_size : ℕ
tag_size = 16

abbrev pub nonce_size : ℕ
nonce_size = 12

-- What the package documents: a text is opened with the key, the nonce and the data that sealed it,
-- and sealing adds the tag.
pub record IsAead (aead : Aead) : Type 0 where
  pub opens :
      (key nonce text aad : Bytes)
      → aead.unseal key nonce (aead.seal key nonce text aad) aad ≡ ok text
  pub adds_tag :
      (key nonce text aad : Bytes) → length (aead.seal key nonce text aad) ≡ length text + tag_size

pub record PacketCrypto : Type 0 where
  pub key : Bytes

-- `__init__`
unfoldable pub new_crypto : Bytes → Result PacketCrypto
new_crypto key = do raise_if (not (length key == 32)) value_error; ok (record { key = key })

-- `_derive_nonce`
unfoldable pub derive_nonce : (global_seq path_id : ℕ) → Result Bytes
derive_nonce global_seq path_id = do
  fields ← struct_pack (4 ∷ 2 ∷ []) (bit_and global_seq 0xFFFFFFFF ∷ path_id ∷ [])
  ok (fields ++ replicate 6 0)

module _ (aead : Aead) (c : PacketCrypto) where
  unfoldable pub encrypt :
      (plaintext associated_data : Bytes) (global_seq path_id : ℕ) → Result Bytes
  encrypt plaintext associated_data global_seq path_id = do
    nonce ← derive_nonce global_seq path_id
    ok (aead.seal c.key nonce plaintext associated_data)

  unfoldable pub decrypt : (sealed associated_data : Bytes) (global_seq path_id : ℕ) → Result Bytes
  decrypt sealed associated_data global_seq path_id = do
    nonce ← derive_nonce global_seq path_id
    aead.unseal c.key nonce sealed associated_data
