-- ===== src/Fec/Xor/Parity.antt =====
-- XOR parity of hyperagg/fec/xor_fec.py: what `encode_group` makes is enough to recover one packet.
use Prim.Native.Nat.{bit_xor}
use mathlib.Core.List.{Perm, Permᴰ}
use mathlib.Core.Logic.{∥∥₁_elim}
use native.Mathlib.Nat.{ℕ_set}
use ratan_engine.Prelude.{
  ℕ, ◌-◌, ◌<◌, max, ◌≡◌, ◌≢◌, refl, sym, ap, ap₂, ◌∙◌, List, [], ◌∷◌, ◌++◌, arith, ◌==◌,
  if◌then◌else◌, length, get_or, replicate, ok, raise, value_error, index_error, All, length-append,
  get_or_ext, get_or-append-replicate, length-replicate, Bool-cases, inl, inr, ◌⊎◌,
}
use ratan_engine.Prelude.Bits.{bit_xor_assoc, bit_xor_comm, bit_xor_self, bit_xor-zero}
use ratan_engine.Prelude.Bytes.{Bytes, IsBytes}
use ratan_engine.Prelude.Dict.{Dict, values}
use ratan_engine.Fec.Xor.{xor_all, xor_group, encode_group, decode_recover}
use ratan_engine.Fec.Xor.Bytewise.{
  xor_pad, length-xor_pad, get_or-xor_pad, xor_pad-IsBytes, xor_bytes-eq-xor_pad,
}

-- The running parity, without the exceptions.
abbrev pub xor_fold : Bytes → List Bytes → Bytes
xor_fold acc [] = acc
xor_fold acc (p ∷ ps) = xor_fold (xor_pad acc p) ps

-- The exclusive or of the bytes at one index, and the greatest length.
abbrev pub column : ℕ → List Bytes → ℕ
column i [] = 0
column i (p ∷ ps) = bit_xor (get_or p i 0) (column i ps)

abbrev pub longest : List Bytes → ℕ
longest [] = 0
longest (p ∷ ps) = max (length p) (longest ps)

xor_all-eq-xor_fold :
    (acc : Bytes) (ps : List Bytes)
    → IsBytes acc
    → All IsBytes ps
    → xor_all acc ps ≡ ok (xor_fold acc ps)
unfolding xor_all
xor_all-eq-xor_fold acc [] ha hp = refl
xor_all-eq-xor_fold acc (p ∷ ps) ha hp =
    rw (xor_bytes-eq-xor_pad acc p ha hp.0)
      (xor_all-eq-xor_fold (xor_pad acc p) ps (xor_pad-IsBytes acc p ha hp.0) hp.1)

get_or-xor_fold :
    (acc : Bytes) (ps : List Bytes) (i : ℕ)
    → get_or (xor_fold acc ps) i 0 ≡ bit_xor (get_or acc i 0) (column i ps)
get_or-xor_fold acc [] i = sym (bit_xor-zero (get_or acc i 0))
get_or-xor_fold acc (p ∷ ps) i =
    get_or-xor_fold (xor_pad acc p) ps i
    ∙ ap (λ (t : ℕ). bit_xor t (column i ps)) (get_or-xor_pad acc p i)
    ∙ bit_xor_assoc (get_or acc i 0) (get_or p i 0) (column i ps)

length-xor_fold :
    (acc : Bytes) (ps : List Bytes) → length (xor_fold acc ps) ≡ max (length acc) (longest ps)
length-xor_fold acc [] = omega arith
length-xor_fold acc (p ∷ ps) =
    omega (arith, length-xor_fold (xor_pad acc p) ps, length-xor_pad acc p)

bit_xor_swap : (x y z : ℕ) → bit_xor x (bit_xor y z) ≡ bit_xor y (bit_xor x z)
bit_xor_swap x y z =
    sym (bit_xor_assoc x y z) ∙ ap (λ (t : ℕ). bit_xor t z) (bit_xor_comm x y) ∙ bit_xor_assoc y x z

-- Neither depends on the order of the packets.
column-Permᴰ : {ps qs : List Bytes} (i : ℕ) → Permᴰ ps qs → column i ps ≡ column i qs
column-Permᴰ i Permᴰ.nil = refl
column-Permᴰ i (Permᴰ.cons e p) =
    ap₂ bit_xor (ap (λ (b : Bytes). get_or b i 0) e) (column-Permᴰ i p)
column-Permᴰ i (Permᴰ.swap {a = a} {b = b} {a' = a'} {b' = b'} {l = l} e f) =
    bit_xor_swap (get_or a i 0) (get_or b i 0) (column i l)
    ∙ ap₂ (λ (x y : Bytes). bit_xor (get_or x i 0) (bit_xor (get_or y i 0) (column i l))) f e
column-Permᴰ i (Permᴰ.trans p q) = column-Permᴰ i p ∙ column-Permᴰ i q

longest-Permᴰ : {ps qs : List Bytes} → Permᴰ ps qs → longest ps ≡ longest qs
longest-Permᴰ Permᴰ.nil = refl
longest-Permᴰ (Permᴰ.cons e p) = ap₂ max (ap length e) (longest-Permᴰ p)
longest-Permᴰ (Permᴰ.swap e f) = omega (arith, ap length e, ap length f)
longest-Permᴰ (Permᴰ.trans p q) = longest-Permᴰ p ∙ longest-Permᴰ q

column-perm : {ps qs : List Bytes} (i : ℕ) → Perm ps qs → column i ps ≡ column i qs
column-perm i p = ∥∥₁_elim p (ℕ_set _ _) (column-Permᴰ i)

longest-perm : {ps qs : List Bytes} → Perm ps qs → longest ps ≡ longest qs
longest-perm p = ∥∥₁_elim p (ℕ_set _ _) longest-Permᴰ

-- `parity` is a parity of `packets`: their exclusive or at each index, as long as the longest.
pub record IsParity (packets : List Bytes) (parity : Bytes) : Type 0 where
  pub bytes : IsBytes parity
  pub size : length parity ≡ longest packets
  pub at_index : (i : ℕ) → get_or parity i 0 ≡ column i packets

xor_fold-IsBytes :
    (acc : Bytes) (ps : List Bytes) → IsBytes acc → All IsBytes ps → IsBytes (xor_fold acc ps)
xor_fold-IsBytes acc [] ha hp = ha
xor_fold-IsBytes acc (p ∷ ps) ha hp =
    xor_fold-IsBytes (xor_pad acc p) ps (xor_pad-IsBytes acc p ha hp.0) hp.1

pub xor_group-IsParity :
    (p : Bytes) (ps : List Bytes)
    → All IsBytes (p ∷ ps)
    → (xor_group (p ∷ ps) ≡ ok (xor_fold p ps)) × IsParity (p ∷ ps) (xor_fold p ps)
unfolding xor_group
xor_group-IsParity p ps h = (
  xor_all-eq-xor_fold p ps h.0 h.1,
  record {
    bytes = xor_fold-IsBytes p ps h.0 h.1;
    size = length-xor_fold p ps;
    at_index = get_or-xor_fold p ps;
  },
)

xor_group_cases :
    (packets : List Bytes)
    → All IsBytes packets
    → ((packets ≡ []) × (xor_group packets ≡ raise index_error))
      ⊎ ((parity : Bytes) × (xor_group packets ≡ ok parity) × IsParity packets parity)
xor_group_cases [] h = inl (refl, unfold xor_group in refl)
xor_group_cases (p ∷ ps) h = let (e, is) = xor_group-IsParity p ps h in inr (xor_fold p ps, e, is)

-- `encode_group` on every branch: a group of another size than `group_size` is refused with
-- ValueError, the empty group with IndexError, and any other group of byte strings has a parity.
pub encode_group_lem :
    (group_size : ℕ) (packets : List Bytes)
    → All IsBytes packets
    → ((length packets ≢ group_size) × (encode_group group_size packets ≡ raise value_error))
      ⊎ ((packets ≡ []) × (encode_group group_size packets ≡ raise index_error))
      ⊎ ((parity : Bytes) × (encode_group group_size packets ≡ ok parity) × IsParity packets parity)
unfolding encode_group
encode_group_lem group_size packets h = elim (Bool-cases (length packets == group_size)) [
  | inr other ↦ inl (ground arith, rw other)
  | inl same ↦ inr (rw same (xor_group_cases packets h))
]

pub encode_group_full :
    (group_size : ℕ) (packets : List Bytes)
    → 0 < group_size
    → length packets ≡ group_size
    → All IsBytes packets
    → (parity : Bytes) × (encode_group group_size packets ≡ ok parity) × IsParity packets parity
encode_group_full group_size packets pos size h = elim (encode_group_lem group_size packets h) [
  | inl (other, e) ↦ absurd (other size)
  | inr (inl (empty, e)) ↦ absurd (omega (arith, ap length empty))
  | inr (inr parity) ↦ parity
]

-- The received packets but the missing one.
abbrev pub others : ℕ → Dict Bytes → List Bytes
others m [] = []
others m ((i, p) ∷ received) = if i == m then others m received else p ∷ others m received

pub decode_recover-eq-xor_fold :
    (received : Dict Bytes) (parity : Bytes) (m : ℕ)
    → IsBytes parity
    → All IsBytes (values received)
    → decode_recover received parity m ≡ ok (xor_fold parity (others m received))
unfolding decode_recover
decode_recover-eq-xor_fold [] parity m hp hr = refl
decode_recover-eq-xor_fold ((i, p) ∷ received) parity m hp hr = elim (Bool-cases (i == m)) [
  | inl same ↦ rw same (decode_recover-eq-xor_fold received parity m hp hr.1)
  | inr other ↦
      rw (other, xor_bytes-eq-xor_pad parity p hp hr.0)
        (decode_recover-eq-xor_fold received (xor_pad parity p) m (xor_pad-IsBytes parity p hp hr.0)
          hr.1)
]

-- A lost packet is the exclusive or of the parity and the others: given the parity of a group and
-- received packets that are, with the missing one and in any order, the packets of the group,
-- `decode_recover` returns the missing packet, padded with zeros to the length of the parity.
pub decode_recover-IsParity :
    (packets : List Bytes) (received : Dict Bytes) (m : ℕ) (p parity : Bytes)
    → IsParity packets parity
    → All IsBytes (values received)
    → Perm (p ∷ others m received) packets
    → decode_recover received parity m ≡ ok (p ++ replicate (length parity - length p) 0)
decode_recover-IsParity packets received m p parity is hr perm =
    decode_recover-eq-xor_fold received parity m is.bytes hr
    ∙ ap ok (get_or_ext 0 _ _ same_length same_bytes)
  where
    rest : List Bytes
    rest = others m received

    sizes : max (length p) (longest rest) ≡ length parity
    sizes = longest-perm perm ∙ sym is.size

    same_length :
        length (xor_fold parity rest) ≡ length (p ++ replicate (length parity - length p) 0)
    same_length = omega (
      arith,
      sizes,
      length-xor_fold parity rest,
      length-append p (replicate (length parity - length p) 0),
      length-replicate {A = ℕ} (length parity - length p) 0,
    )

    same_bytes :
        (i : ℕ)
        → get_or (xor_fold parity rest) i 0
          ≡ get_or (p ++ replicate (length parity - length p) 0) i 0
    same_bytes i =
        get_or-xor_fold parity rest i
        ∙ ap (λ (t : ℕ). bit_xor t (column i rest)) (is.at_index i ∙ sym (column-perm i perm))
        ∙ bit_xor_assoc (get_or p i 0) (column i rest) (column i rest)
        ∙ ap (bit_xor (get_or p i 0)) (bit_xor_self (column i rest))
        ∙ bit_xor-zero (get_or p i 0)
        ∙ sym (get_or-append-replicate 0 p (length parity - length p) i)

column-append_nil : (i : ℕ) (ps : List Bytes) → column i (ps ++ [] ∷ []) ≡ column i ps
column-append_nil i [] = refl
column-append_nil i (p ∷ ps) = ap (bit_xor (get_or p i 0)) (column-append_nil i ps)

longest-append_nil : (ps : List Bytes) → longest (ps ++ [] ∷ []) ≡ longest ps
longest-append_nil [] = refl
longest-append_nil (p ∷ ps) = ap (max (length p)) (longest-append_nil ps)

pub IsParity-append_nil :
    (ps : List Bytes) (parity : Bytes) → IsParity (ps ++ [] ∷ []) parity → IsParity ps parity
IsParity-append_nil ps parity is = record {
  bytes = is.bytes;
  size = is.size ∙ longest-append_nil ps;
  at_index = λ i. is.at_index i ∙ column-append_nil i ps;
}
