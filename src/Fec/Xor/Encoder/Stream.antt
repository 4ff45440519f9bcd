-- ===== src/Fec/Xor/Encoder/Stream.antt =====
-- The packets that pass through an `XORFecEncoder` (hyperagg/fec/xor_fec.py), as one stream.
use mathlib.Core.Path.{subst₂}
use native.Mathlib.Nat.{mul-add-div_right, div-eq_of_lt, mul-add-mod_self_right, mod-eq_of_lt}
use ratan_engine.Prelude.{
  ℕ, ◌⊎◌, ◌≢◌, zero, suc, ◌+◌, ◌-◌, ◌*◌, ◌/◌, ◌%◌, ◌<◌, ◌≡◌, refl, sym, ap, ap₂, ◌∙◌, none, some,
  List, [], ◌∷◌, ◌++◌, arith, ◌==◌, length, Result, ok, ◌>>=◌, All, All-append, length-append,
  Bool-cases, inl, inr,
}
use ratan_engine.Prelude.Bytes.{Bytes, IsBytes}
use ratan_engine.Fec.Xor.Parity.{IsParity, IsParity-append_nil, encode_group_full}
use ratan_engine.Fec.Xor.Encoder.{XorFecEncoder, Added, add_packet, pad_group, flush, pending_count}

-- Between calls the group is not full, and holds byte strings.
pub record IsOpen (e : XorFecEncoder) : Type 0 where
  pub room : length e.current_group < e.group_size
  pub bytes : All IsBytes e.current_group

-- What `add_packet` gives back for one more packet of the stream.
pub record Step (payload : Bytes) (e : XorFecEncoder) (added : Added) (e' : XorFecEncoder)
    : Type 0 where
  pub returns : add_packet payload e ≡ ok (added, e')
  pub group_id_of : added.fec_group_id ≡ e.group_id
  pub index_of : added.fec_index ≡ length e.current_group
  pub open_after : IsOpen e'
  pub size_kept : e'.group_size ≡ e.group_size
  -- A packet that fills the group closes it with the group's parity; any other is only appended.
  pub outcome :
      ((suc (length e.current_group) < e.group_size)
        × (added.parity ≡ none)
        × (e'.current_group ≡ e.current_group ++ payload ∷ [])
        × (e'.group_id ≡ e.group_id))
      ⊎ ((suc (length e.current_group) ≡ e.group_size)
          × ((parity : Bytes) × (added.parity ≡ some parity)
              × IsParity (e.current_group ++ payload ∷ []) parity)
          × (e'.current_group ≡ [])
          × (e'.group_id ≡ e.group_id + 1))

-- While a group is open and holds byte strings, adding a byte string never raises: it numbers the
-- packet by the group and its place there, and emits the parity of the whole group exactly when the
-- packet fills it. Afterwards a group is open again.
pub add_packet_lem :
    (payload : Bytes) (e : XorFecEncoder)
    → IsOpen e
    → IsBytes payload
    → (added : Added) × (e' : XorFecEncoder) × Step payload e added e'
add_packet_lem payload e o hp =
    elim (Bool-cases (length (e.current_group ++ payload ∷ []) == e.group_size)) [
      | inl full ↦
          let size : length (e.current_group ++ payload ∷ []) ≡ e.group_size = ground arith in
          let (parity, encoded, is) =
            encode_group_full e.group_size (e.current_group ++ payload ∷ []) (omega arith) size
              (All-append IsBytes e.current_group (payload ∷ []) o.bytes (hp, tt)) in
          (
            record {
              fec_group_id = e.group_id;
              fec_index = length e.current_group;
              parity = some parity;
            },
            record e { current_group = []; group_id = e.group_id + 1 },
            record {
              returns = unfold add_packet in rw (full, encoded);
              group_id_of = refl;
              index_of = refl;
              open_after = record { room = omega arith; bytes = tt };
              size_kept = refl;
              outcome = inr (
                omega (arith, length-append e.current_group (payload ∷ [])),
                (parity, refl, is),
                refl,
                refl,
              );
            },
          )
      | inr more ↦
          let size : length (e.current_group ++ payload ∷ []) ≡ suc (length e.current_group) =
            omega (arith, length-append e.current_group (payload ∷ [])) in
          let below : suc (length e.current_group) < e.group_size = ground (arith, size) in
          (
            record { fec_group_id = e.group_id; fec_index = length e.current_group; parity = none },
            record e { current_group = e.current_group ++ payload ∷ [] },
            record {
              returns = unfold add_packet in rw more;
              group_id_of = refl;
              index_of = refl;
              open_after = record {
                room = omega (arith, size, below);
                bytes = All-append IsBytes e.current_group (payload ∷ []) o.bytes (hp, tt);
              };
              size_kept = refl;
              outcome = inl (below, refl, refl, refl);
            },
          )
    ]

-- A sender's loop: every packet of a list through `add_packet`.
unfoldable pub feed : List Bytes → XorFecEncoder → Result (List Added × XorFecEncoder)
feed [] e = ok ([], e)
feed (p ∷ ps) e = do (added, e') ← add_packet p e; (rest, e'') ← feed ps e'; ok (added ∷ rest, e'')

-- The packets that went through before.
abbrev pub position : XorFecEncoder → ℕ
position e = e.group_id * e.group_size + length e.current_group

-- Packet number `c` of the stream has index c % n of group c / n.
abbrev pub Numbered : ℕ → ℕ → List Added → Type 0
Numbered n c [] = Unit
Numbered n c (a ∷ rest) = (a.fec_group_id ≡ c / n) × (a.fec_index ≡ c % n) × Numbered n (c + 1) rest

position-Step :
    (payload : Bytes) (e : XorFecEncoder) (added : Added) (e' : XorFecEncoder)
    → Step payload e added e'
    → position e' ≡ position e + 1
position-Step payload e added e' s = elim s.outcome [
  | inl (below, n, group, id) ↦
      omega (
        arith,
        ap length group,
        length-append e.current_group (payload ∷ []),
        ap₂ ◌*◌ id s.size_kept,
      )
  | inr (full, p, group, id) ↦ omega (arith, ap length group, ap₂ ◌*◌ id s.size_kept)
]

div_position : (g n l : ℕ) → l < n → (g * n + l) / n ≡ g
div_position g n l h = omega (arith, mul-add-div_right {m = n} (omega arith) g l, div-eq_of_lt h)

mod_position : (g n l : ℕ) → l < n → (g * n + l) % n ≡ l
mod_position g n l h = mul-add-mod_self_right g n l ∙ mod-eq_of_lt h

-- A stream of byte strings through an encoder with an open group: nothing is raised, and the packet
-- number `c`, counted from the first one that the encoder was given, has index `c % group_size` of
-- the group `c / group_size`.
pub feed-Numbered :
    (ps : List Bytes) (e : XorFecEncoder)
    → IsOpen e
    → All IsBytes ps
    → (added : List Added) × (e' : XorFecEncoder) × (feed ps e ≡ ok (added, e'))
      × Numbered e.group_size (position e) added
      × IsOpen e'
      × (position e' ≡ position e + length ps)
unfolding feed
feed-Numbered [] e o h = ([], e, refl, tt, o, omega arith)
feed-Numbered (p ∷ ps) e o h =
    let (added, e', s) = add_packet_lem p e o h.0 in
    let (rest, e'', fed, numbered, o', count) = feed-Numbered ps e' s.open_after h.1 in
    (
      added ∷ rest,
      e'',
      rw (s.returns, fed),
      (
        s.group_id_of ∙ sym (div_position e.group_id e.group_size (length e.current_group) o.room),
        s.index_of ∙ sym (mod_position e.group_id e.group_size (length e.current_group) o.room),
        subst₂ (λ (n c : ℕ). Numbered n c rest) s.size_kept (position-Step p e added e' s) numbered,
      ),
      o',
      omega (arith, count, position-Step p e added e' s),
    )

length-pad_group : (k : ℕ) (group : List Bytes) → length (pad_group k group) ≡ length group + k
unfolding pad_group
length-pad_group zero group = omega arith
length-pad_group (suc k) group =
    omega (arith, length-pad_group k (group ++ [] ∷ []), length-append group ([] ∷ []))

pad_group-IsBytes :
    (k : ℕ) (group : List Bytes) → All IsBytes group → All IsBytes (pad_group k group)
unfolding pad_group
pad_group-IsBytes zero group h = h
pad_group-IsBytes (suc k) group h =
    pad_group-IsBytes k (group ++ [] ∷ []) (All-append IsBytes group ([] ∷ []) h (tt, tt))

-- Empty packets change neither the columns nor the longest length.
IsParity-pad_group :
    (k : ℕ) (group : List Bytes) (parity : Bytes)
    → IsParity (pad_group k group) parity
    → IsParity group parity
unfolding pad_group
IsParity-pad_group zero group parity is = is
IsParity-pad_group (suc k) group parity is =
    IsParity-append_nil group parity (IsParity-pad_group k (group ++ [] ∷ []) parity is)

-- Flushing an encoder with an open group never raises: with nothing pending it returns nothing and
-- changes nothing; otherwise it returns a parity of the pending packets under their group's number,
-- and begins the next group.
pub flush_lem :
    (e : XorFecEncoder)
    → IsOpen e
    → ((pending_count e ≡ 0) × (flush e ≡ ok (none, e)))
      ⊎ ((pending_count e ≢ 0)
          × ((parity : Bytes) × IsParity e.current_group parity
              × (flush e
                  ≡ ok (
                    some (e.group_id, parity),
                    record e { current_group = []; group_id = e.group_id + 1 },
                  ))))
unfolding flush pending_count
flush_lem e o = elim (Bool-cases (length e.current_group == 0)) [
  | inl none_left ↦ inl (ground arith, rw none_left)
  | inr some_left ↦
      let k : ℕ = e.group_size - length e.current_group in
      let (parity, encoded, is) =
        encode_group_full e.group_size (pad_group k e.current_group) (omega arith)
          (omega (arith, length-pad_group k e.current_group))
          (pad_group-IsBytes k e.current_group o.bytes) in
      inr (
        ground arith,
        (parity, IsParity-pad_group k e.current_group parity is, rw (some_left, encoded)),
      )
]
