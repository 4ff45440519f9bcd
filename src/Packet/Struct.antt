-- ===== src/Packet/Struct.antt =====
-- Python's `struct.pack` and `struct.unpack` for a big-endian format of unsigned fields. The format
-- is the list of the fields' widths: B is 1, H is 2, I is 4.
use ratan_engine.Prelude.{
  suc, zero, get_elem?, some, drop-drop, ℕ, ◌+◌, ◌^◌, ◌<◌, ◌≡◌, refl, sym, ap, ◌∙◌, List, [], ◌∷◌,
  ◌++◌, arith, ltb, if◌then◌else◌, length, take, ltb→lt, lt→ltb, Bool-cases, inl, inr, ◌≤◌, subst,
  length-drop, ok-injective, raise-ne-ok, drop, Result, ok, raise, struct_error, ◌>>=◌, take-append,
  drop-append, take-append-drop, length-append, length-take, All-take, All-drop, >>=-eq-ok,
}
use native.Mathlib.Decide.{dec_lt}
use ratan_engine.Prelude.Bytes.{
  Bytes, IsBytes, from_bytes, be_bytes, length-be_bytes, from_bytes-be_bytes, be_bytes-from_bytes,
  from_bytes-lt,
}

unfoldable pub struct_pack : List ℕ → List ℕ → Result Bytes
struct_pack [] [] = ok []
struct_pack [] (v ∷ vs) = raise struct_error
struct_pack (w ∷ ws) [] = raise struct_error
struct_pack (w ∷ ws) (v ∷ vs) =
    if ltb v (256 ^ w)
    then (do rest ← struct_pack ws vs; ok (be_bytes w v ++ rest))
    else raise struct_error

unfoldable pub struct_unpack : List ℕ → Bytes → Result (List ℕ)
struct_unpack [] [] = ok []
struct_unpack [] (b ∷ bs) = raise struct_error
struct_unpack (w ∷ ws) bs =
    if ltb (length bs) w
    then raise struct_error
    else do vs ← struct_unpack ws (drop w bs); ok (from_bytes (take w bs) ∷ vs)

-- The number of bytes of a format, `struct.calcsize`.
abbrev pub calcsize : List ℕ → ℕ
calcsize [] = 0
calcsize (w ∷ ws) = w + calcsize ws

-- Every value fits its field.
abbrev pub Fits : List ℕ → List ℕ → Type 0
Fits [] [] = Unit
Fits (w ∷ ws) (v ∷ vs) = (v < 256 ^ w) × Fits ws vs
Fits _ _ = ⊥

take-be_bytes : (w v : ℕ) (rest : Bytes) → take w (be_bytes w v ++ rest) ≡ be_bytes w v
take-be_bytes w v rest =
    ap (λ (k : ℕ). take k (be_bytes w v ++ rest)) (sym (length-be_bytes w v))
    ∙ take-append (be_bytes w v) rest

drop-be_bytes : (w v : ℕ) (rest : Bytes) → drop w (be_bytes w v ++ rest) ≡ rest
drop-be_bytes w v rest =
    ap (λ (k : ℕ). drop k (be_bytes w v ++ rest)) (sym (length-be_bytes w v))
    ∙ drop-append (be_bytes w v) rest

-- What fits is packed, into as many bytes as the format says.
pub struct_pack-Fits :
    (ws vs : List ℕ)
    → Fits ws vs
    → (bs : Bytes) × (struct_pack ws vs ≡ ok bs) × (length bs ≡ calcsize ws)
unfolding struct_pack
struct_pack-Fits [] [] h = ([], refl, refl)
struct_pack-Fits [] (v ∷ vs) h = absurd h
struct_pack-Fits (w ∷ ws) [] h = absurd h
struct_pack-Fits (w ∷ ws) (v ∷ vs) h =
    let (bs, e, l) = struct_pack-Fits ws vs h.1 in
    (
      be_bytes w v ++ bs,
      ground (arith, e),
      omega (arith, length-append (be_bytes w v) bs, length-be_bytes w v, l),
    )

-- What does not fit is refused with `struct.error`.
pub struct_pack_raise : (ws vs : List ℕ) → ¬ Fits ws vs → struct_pack ws vs ≡ raise struct_error
unfolding struct_pack
struct_pack_raise [] [] h = absurd (h tt)
struct_pack_raise [] (v ∷ vs) h = refl
struct_pack_raise (w ∷ ws) [] h = refl
struct_pack_raise (w ∷ ws) (v ∷ vs) h = elim (Bool-cases (ltb v (256 ^ w))) [
  | inl fits ↦ rw (fits, struct_pack_raise ws vs (λ rest. h (ltb→lt v (256 ^ w) fits, rest)))
  | inr over ↦ rw over
]

pub dec_fits : (ws vs : List ℕ) → Dec (Fits ws vs)
dec_fits [] [] = yes tt
dec_fits [] (v ∷ vs) = no (λ h. h)
dec_fits (w ∷ ws) [] = no (λ h. h)
dec_fits (w ∷ ws) (v ∷ vs) = elim (dec_lt v (256 ^ w)) [
  | no over ↦ no (λ h. over h.0)
  | yes fits ↦ elim (dec_fits ws vs) [ yes rest ↦ yes (fits, rest) | no out ↦ no (λ h. out h.1) ]
]

-- What a successful call did with its first field.
struct_pack_inv :
    (w v : ℕ) (ws vs : List ℕ) (bs : Bytes)
    → struct_pack (w ∷ ws) (v ∷ vs) ≡ ok bs
    → (v < 256 ^ w) × (rest : Bytes) × (struct_pack ws vs ≡ ok rest) × (be_bytes w v ++ rest ≡ bs)
unfolding struct_pack
struct_pack_inv w v ws vs bs h = elim (Bool-cases (ltb v (256 ^ w))) [
  | inl fits ↦
      let (rest, e, f) =
        >>=-eq-ok (struct_pack ws vs) (λ r. ok (be_bytes w v ++ r)) {final = bs} (rw fits at h) in
      (ltb→lt v (256 ^ w) fits, rest, e, ok-injective f)
  | inr over ↦ absurd (raise-ne-ok (rw over at h))
]

struct_unpack_inv :
    (w : ℕ) (ws vs : List ℕ) (bs : Bytes)
    → struct_unpack (w ∷ ws) bs ≡ ok vs
    → (w ≤ length bs)
      × (rest : List ℕ) × (struct_unpack ws (drop w bs) ≡ ok rest)
      × (from_bytes (take w bs) ∷ rest ≡ vs)
unfolding struct_unpack
struct_unpack_inv w ws vs bs h = elim (Bool-cases (ltb (length bs) w)) [
  | inl short ↦ absurd (raise-ne-ok (rw short at h))
  | inr fits ↦
      let (rest, e, f) =
        >>=-eq-ok (struct_unpack ws (drop w bs)) (λ r. ok (from_bytes (take w bs) ∷ r)) {final = vs}
          (rw fits at h) in
      (ground arith, rest, e, ok-injective f)
]

pub Fits-struct_pack : (ws vs : List ℕ) (bs : Bytes) → struct_pack ws vs ≡ ok bs → Fits ws vs
unfolding struct_pack
Fits-struct_pack [] [] bs h = tt
Fits-struct_pack [] (v ∷ vs) bs h = cc
Fits-struct_pack (w ∷ ws) [] bs h = cc
Fits-struct_pack (w ∷ ws) (v ∷ vs) bs h =
    let (fits, rest, e, f) = struct_pack_inv w v ws vs bs h in (fits, Fits-struct_pack ws vs rest e)

-- What was packed is unpacked to the same values.
pub struct_unpack-struct_pack :
    (ws vs : List ℕ) (bs : Bytes) → struct_pack ws vs ≡ ok bs → struct_unpack ws bs ≡ ok vs
unfolding struct_pack struct_unpack
struct_unpack-struct_pack [] [] bs h = rw (← ok-injective h)
struct_unpack-struct_pack [] (v ∷ vs) bs h = cc
struct_unpack-struct_pack (w ∷ ws) [] bs h = cc
struct_unpack-struct_pack (w ∷ ws) (v ∷ vs) bs h =
    let (fits, rest, e, f) = struct_pack_inv w v ws vs bs h in
    rw (← f) (
      ground (
        arith,
        length-append (be_bytes w v) rest,
        length-be_bytes w v,
        take-be_bytes w v rest,
        drop-be_bytes w v rest,
        from_bytes-be_bytes w v fits,
        struct_unpack-struct_pack ws vs rest e,
      ))

pub length-struct_pack :
    (ws vs : List ℕ) (bs : Bytes) → struct_pack ws vs ≡ ok bs → length bs ≡ calcsize ws
length-struct_pack ws vs bs h =
    let (packed, e, l) = struct_pack-Fits ws vs (Fits-struct_pack ws vs bs h) in
    rw (ok-injective (sym h ∙ e)) l

take_le : (w : ℕ) (bs : Bytes) → w ≤ length bs → length (take w bs) ≡ w
take_le w bs h = omega (arith, length-take w bs)

-- What was unpacked is packed to the same bytes.
pub struct_pack-struct_unpack :
    (ws : List ℕ) (bs : Bytes) (vs : List ℕ)
    → IsBytes bs
    → struct_unpack ws bs ≡ ok vs
    → struct_pack ws vs ≡ ok bs
unfolding struct_pack struct_unpack
struct_pack-struct_unpack [] [] vs hb h = rw (← ok-injective h)
struct_pack-struct_unpack [] (b ∷ bs) vs hb h = cc
struct_pack-struct_unpack (w ∷ ws) bs vs hb h =
    let (long, rest, e, f) = struct_unpack_inv w ws vs bs h in
    let first = take w bs in
    let small : IsBytes first = All-take (λ b. b < 256) w bs hb in
    let size : length first ≡ w = take_le w bs long in
    let below : from_bytes first < 256 ^ w =
      subst (λ (k : ℕ). from_bytes first < 256 ^ k) size (from_bytes-lt first small) in
    let again : be_bytes w (from_bytes first) ≡ first =
      ap (λ (k : ℕ). be_bytes k (from_bytes first)) (sym size) ∙ be_bytes-from_bytes first small in
    rw
      (
        ← f,
        lt→ltb _ _ below,
        struct_pack-struct_unpack ws (drop w bs) rest (All-drop (λ b. b < 256) w bs hb) e,
        again,
      )
      (ap ok (take-append-drop w bs))

-- `struct.unpack` takes every byte string of the format's size.
pub struct_unpack_total :
    (ws : List ℕ) (bs : Bytes)
    → length bs ≡ calcsize ws
    → (vs : List ℕ) × (struct_unpack ws bs ≡ ok vs) × (length vs ≡ length ws)
unfolding struct_unpack
struct_unpack_total [] [] h = ([], refl, refl)
struct_unpack_total [] (b ∷ bs) h = absurd (omega arith)
struct_unpack_total (w ∷ ws) bs h =
    let (vs, e, l) = struct_unpack_total ws (drop w bs) (omega (arith, length-drop w bs)) in
    (from_bytes (take w bs) ∷ vs, ground (arith, e), omega (arith, l))

-- Where field `i` begins.
abbrev pub offset : List ℕ → ℕ → ℕ
offset [] i = 0
offset (w ∷ ws) zero = 0
offset (w ∷ ws) (suc i) = w + offset ws i

-- Each value that is unpacked is read at its field's place.
pub get_elem?-struct_unpack :
    (ws : List ℕ) (i w : ℕ) (bs : Bytes) (vs : List ℕ)
    → struct_unpack ws bs ≡ ok vs
    → get_elem? ws i ≡ some w
    → get_elem? vs i ≡ some (from_bytes (take w (drop (offset ws i) bs)))
get_elem?-struct_unpack [] i w bs vs h g = cc
get_elem?-struct_unpack (v ∷ ws) zero w bs vs h g =
    let (long, rest, e, f) = struct_unpack_inv v ws vs bs h in
    let same : v ≡ w = cc in rw (← f, ← same)
get_elem?-struct_unpack (v ∷ ws) (suc i) w bs vs h g =
    let (long, rest, e, f) = struct_unpack_inv v ws vs bs h in
    rw (← f, ← drop-drop v (offset ws i) bs) (get_elem?-struct_unpack ws i w (drop v bs) rest e g)
