-- ===== src/Crypto/Nonce.antt =====
-- The nonces of hyperagg/tunnel/crypto.py, and decryption against encryption.
use Prim.Native.Nat.{bit_and}
use ratan_engine.Prelude.{
  ℕ, ◌+◌, ◌^◌, ◌%◌, ◌<◌, ◌≡◌, sym, ap, ◌∙◌, ◌↔◌, List, [], ◌∷◌, ◌++◌, arith, length, take, ok,
  >>=-eq-ok, ok-injective, take-append, length-append, replicate,
}
use ratan_engine.Prelude.Bits.{bit_and_mask}
use ratan_engine.Prelude.Bytes.{Bytes}
use ratan_engine.Packet.Struct.{
  Fits, struct_pack, struct_pack-Fits, length-struct_pack, struct_unpack, struct_unpack-struct_pack,
}
use ratan_engine.Crypto.{
  Aead, IsAead, PacketCrypto, derive_nonce, encrypt, decrypt, nonce_size, tag_size,
}

abbrev nonce_fields : (global_seq path_id : ℕ) → List ℕ
nonce_fields global_seq path_id = bit_and global_seq 0xFFFFFFFF ∷ path_id ∷ []

nonce_fields-Fits :
    (global_seq path_id : ℕ)
    → path_id < 2 ^ 16
    → Fits (4 ∷ 2 ∷ []) (nonce_fields global_seq path_id)
nonce_fields-Fits global_seq path_id h =
    (omega (arith, bit_and_mask 32 global_seq), (omega arith, tt))

-- Every path below 2 ^ 16 has a nonce.
pub derive_nonce_total :
    (global_seq path_id : ℕ)
    → path_id < 2 ^ 16
    → (nonce : Bytes) × (derive_nonce global_seq path_id ≡ ok nonce)
unfolding derive_nonce
derive_nonce_total global_seq path_id h =
    let (fields, e, l) =
      struct_pack-Fits (4 ∷ 2 ∷ []) (nonce_fields global_seq path_id)
        (nonce_fields-Fits global_seq path_id h) in
    (fields ++ replicate 6 0, rw e)

derive_nonce_inv :
    (global_seq path_id : ℕ) (nonce : Bytes)
    → derive_nonce global_seq path_id ≡ ok nonce
    → (fields : Bytes) × (struct_pack (4 ∷ 2 ∷ []) (nonce_fields global_seq path_id) ≡ ok fields)
      × (fields ≡ take 6 nonce)
      × (length nonce ≡ nonce_size)
unfolding derive_nonce
derive_nonce_inv global_seq path_id nonce h =
    let (fields, e, f) =
      >>=-eq-ok (struct_pack (4 ∷ 2 ∷ []) (nonce_fields global_seq path_id))
        (λ b. ok (b ++ replicate 6 0)) {final = nonce} h in
    let size : length fields ≡ 6 =
      length-struct_pack (4 ∷ 2 ∷ []) (nonce_fields global_seq path_id) fields e in
    (
      fields,
      e,
      sym (take-append fields (replicate 6 0))
          ∙ ap (λ (k : ℕ). take k (fields ++ replicate 6 0)) size
          ∙ ap (take 6) (ok-injective f),
      ap length (sym (ok-injective f)) ∙ omega (arith, length-append fields (replicate 6 0), size),
    )

same_nonce :
    (seq path seq' path' : ℕ)
    → seq % 2 ^ 32 ≡ seq' % 2 ^ 32
    → path ≡ path'
    → derive_nonce seq path ≡ derive_nonce seq' path'
unfolding derive_nonce
same_nonce seq path seq' path' s p =
    let masked : bit_and seq 0xFFFFFFFF ≡ bit_and seq' 0xFFFFFFFF =
      bit_and_mask 32 seq ∙ s ∙ sym (bit_and_mask 32 seq') in
    rw (masked, p)

-- The nonces of two packets are the same if and only if the packets have the same path and
-- sequence numbers that agree modulo 2 ^ 32; a nonce has 12 bytes.
pub derive_nonce-eq :
    (seq path seq' path' : ℕ) (nonce nonce' : Bytes)
    → derive_nonce seq path ≡ ok nonce
    → derive_nonce seq' path' ≡ ok nonce'
    → ((nonce ≡ nonce') ↔ ((seq % 2 ^ 32 ≡ seq' % 2 ^ 32) × (path ≡ path')))
      × (length nonce ≡ nonce_size)
derive_nonce-eq seq path seq' path' nonce nonce' h h' =
    let (fields, e, f, l) = derive_nonce_inv seq path nonce h in
    let (fields', e', f', l') = derive_nonce_inv seq' path' nonce' h' in
    let back : nonce ≡ nonce' → nonce_fields seq path ≡ nonce_fields seq' path' = λ same.
      ok-injective (
        sym (struct_unpack-struct_pack (4 ∷ 2 ∷ []) (nonce_fields seq path) fields e)
        ∙ ap (struct_unpack (4 ∷ 2 ∷ [])) (f ∙ ap (take 6) same ∙ sym f')
        ∙ struct_unpack-struct_pack (4 ∷ 2 ∷ []) (nonce_fields seq' path') fields' e') in
    (
      (
        λ same. ground (arith, back same, bit_and_mask 32 seq, bit_and_mask 32 seq'),
        λ agree. ok-injective (sym h ∙ same_nonce seq path seq' path' agree.0 agree.1 ∙ h'),
      ),
      l,
    )

-- With the cipher as documented, what was encrypted for a packet is decrypted with the same header,
-- number and path, and is 16 bytes longer than the text.
pub decrypt-encrypt :
    (aead : Aead) (c : PacketCrypto) (text aad sealed : Bytes) (seq path : ℕ)
    → IsAead aead
    → encrypt aead c text aad seq path ≡ ok sealed
    → (decrypt aead c sealed aad seq path ≡ ok text) × (length sealed ≡ length text + tag_size)
unfolding encrypt decrypt
decrypt-encrypt aead c text aad sealed seq path law h =
    let (nonce, e, f) =
      >>=-eq-ok (derive_nonce seq path) (λ n. ok (aead.seal c.key n text aad)) {final = sealed} h in
    rw (e, ← ok-injective f) (law.opens c.key nonce text aad, law.adds_tag c.key nonce text aad)

pub encrypt_total :
    (aead : Aead) (c : PacketCrypto) (text aad : Bytes) (seq path : ℕ)
    → path < 2 ^ 16
    → (sealed : Bytes) × (encrypt aead c text aad seq path ≡ ok sealed)
unfolding encrypt
encrypt_total aead c text aad seq path h =
    let (nonce, e) = derive_nonce_total seq path h in (aead.seal c.key nonce text aad, rw e)
