-- ===== src/Controller/Qos/Agreement.antt =====
-- The two classifiers of the program, in hyperagg/tunnel/client.py and
-- hyperagg/controller/qos_engine.py.
use ratan_engine.Prelude.{
  ℕ, zero, suc, ◌+◌, ◌-◌, ◌≤◌, ◌≡◌, refl, ap, ◌∙◌, Bool, true, false, not, ◌&&◌, ◌||◌, Option, none,
  some, List, [], ◌∷◌, ltb, leb, ◌==◌, if◌then◌else◌, length, get_or, All, arith, Bool-cases, inl,
  inr,
}
use ratan_engine.Prelude.Bytes.{Bytes}
use ratan_engine.Prelude.Dict.{Dict, lookup, insert, lookup-insert}
use ratan_engine.Prelude.Text.{Text, has_char, split, strip, parse_int}
use ratan_engine.Tunnel.Classify.{
  Tiers, bulk_name, header_length, tier_or_bulk, in_bounds, in_pair, is_port, port_in_part,
  port_in_parts, port_in_range, first_tier, known_port, classify_traffic,
}
use ratan_engine.Controller.Qos.{
  add_ports, add_bounds, add_pair, add_port, add_tier, build_port_map, new_engine, extract_dst_port,
  classify,
}

-- A port or a range of ports, without a comma and without space around it
abbrev pub IsPlain : Text × Text → Type 0
IsPlain tier = (has_char 44 tier.1 ≡ false) × (strip tier.1 ≡ tier.1)

-- No port is in the ranges of two tiers.
abbrev pub Disjoint : Tiers → Type 0
Disjoint [] = Unit
Disjoint (t ∷ rest) =
    All (λ u. (port : ℕ) → (port_in_range port t.1 && port_in_range port u.1) ≡ false) rest
    × Disjoint rest

lookup-add_ports :
    (n low port : ℕ) (name : Text) (d : Dict Text)
    → lookup port (add_ports n low name d)
      ≡ (if leb low port && ltb port (low + n) then some name else lookup port d)
unfolding add_ports
lookup-add_ports zero low port name d = ground arith
lookup-add_ports (suc n) low port name d =
    lookup-add_ports n (low + 1) port name (insert low name d)
    ∙ ground (arith, lookup-insert low port name d)

split_whole : (c : ℕ) (s : Text) → has_char c s ≡ false → split c s ≡ s ∷ []
unfolding has_char split
split_whole c [] h = refl
split_whole c (d ∷ s) h = elim (Bool-cases (d == c)) [
  | inl same ↦ absurd (cc (rw same at h))
  | inr other ↦ rw (other, split_whole c s (rw other at h)) refl
]

lookup-add_bounds :
    (port : ℕ) (low high : Option ℕ) (name : Text) (d : Dict Text)
    → lookup port (add_bounds low high name d)
      ≡ (if in_bounds port low high then some name else lookup port d)
unfolding in_bounds
lookup-add_bounds port none high name d = refl
lookup-add_bounds port (some low) none name d = refl
lookup-add_bounds port (some low) (some high) name d =
    lookup-add_ports (high + 1 - low) low port name d ∙ ground arith

lookup-add_pair :
    (port : ℕ) (parts : List Text) (name : Text) (d : Dict Text)
    → lookup port (add_pair parts name d)
      ≡ (if in_pair port parts then some name else lookup port d)
unfolding in_pair
lookup-add_pair port [] name d = refl
lookup-add_pair port (low ∷ []) name d = refl
lookup-add_pair port (low ∷ high ∷ []) name d =
    lookup-add_bounds port (parse_int low) (parse_int high) name d
lookup-add_pair port (low ∷ high ∷ more ∷ rest) name d = refl

lookup-add_port :
    (port : ℕ) (value : Option ℕ) (name : Text) (d : Dict Text)
    → lookup port (add_port value name d)
      ≡ (if is_port port value then some name else lookup port d)
lookup-add_port port none name d = refl
lookup-add_port port (some n) name d = ground (arith, lookup-insert n port name d)

port_in_range_plain :
    (port c : ℕ) (s : Text)
    → IsPlain ([], c ∷ s)
    → port_in_range port (c ∷ s) ≡ port_in_part port (c ∷ s)
unfolding port_in_range port_in_parts
port_in_range_plain port c s (whole, stripped) =
    rw (split_whole 44 (c ∷ s) whole, stripped) (ground arith)

lookup-add_part :
    (port c : ℕ) (name s : Text) (d : Dict Text)
    → lookup port (add_tier name (c ∷ s) d)
      ≡ (if port_in_part port (c ∷ s) then some name else lookup port d)
unfolding add_tier port_in_part
lookup-add_part port c name s d = elim (Bool-cases (has_char 45 (c ∷ s))) [
  | inl pair ↦ rw pair (lookup-add_pair port (split 45 (c ∷ s)) name d)
  | inr one ↦ rw one (lookup-add_port port (parse_int (c ∷ s)) name d)
]

lookup-add_tier :
    (port : ℕ) (name ports : Text) (d : Dict Text)
    → IsPlain (name, ports)
    → lookup port (add_tier name ports d)
      ≡ (if port_in_range port ports then some name else lookup port d)
lookup-add_tier port name [] d plain = unfold add_tier port_in_range in refl
lookup-add_tier port name (c ∷ s) d plain =
    rw (port_in_range_plain port c s plain) (lookup-add_part port c name s d)

lacks_too : (a b : Bool) → a ≡ true → (a && b) ≡ false → b ≡ false
lacks_too a b h k = ground arith

-- A port that no tier of the rest has is left to the table.
lookup-build_none :
    (port : ℕ) (ports : Text) (tiers : Tiers) (d : Dict Text)
    → All IsPlain tiers
    → port_in_range port ports ≡ true
    → All (λ u. (port : ℕ) → (port_in_range port ports && port_in_range port u.1) ≡ false) tiers
    → lookup port (build_port_map tiers d) ≡ lookup port d
unfolding build_port_map
lookup-build_none port ports [] d plain has others = refl
lookup-build_none port ports ((name, more) ∷ tiers) d plain has others =
    lookup-build_none port ports tiers (add_tier name more d) plain.1 has others.1
    ∙ lookup-add_tier port name more d plain.0
    ∙ rw (lacks_too (port_in_range port ports) (port_in_range port more) has (others.0 port)) refl

lookup-build :
    (port : ℕ) (tiers : Tiers) (d : Dict Text)
    → All IsPlain tiers
    → Disjoint tiers
    → lookup port d ≡ none
    → lookup port (build_port_map tiers d) ≡ first_tier port tiers
unfolding build_port_map first_tier
lookup-build port [] d plain apart new = new
lookup-build port ((name, ports) ∷ tiers) d plain apart new =
    elim (Bool-cases (port_in_range port ports)) [
      | inl has ↦
          lookup-build_none port ports tiers (add_tier name ports d) plain.1 has apart.0
          ∙ lookup-add_tier port name ports d plain.0
          ∙ rw has refl
      | inr lacks ↦
          lookup-build port tiers (add_tier name ports d) plain.1 apart.1
            (lookup-add_tier port name ports d plain.0 ∙ rw lacks new)
          ∙ rw lacks refl
    ]

extract_dst_port-eq :
    (packet : Bytes)
    → 20 ≤ header_length packet
    → extract_dst_port packet (get_or packet 9 0) ≡ known_port packet
unfolding extract_dst_port known_port
extract_dst_port-eq packet whole = ground arith

same_tier :
    (port : Option ℕ) (tiers : Tiers)
    → All IsPlain tiers
    → Disjoint tiers
    → (elim port [ none ↦ bulk_name | some p ↦ tier_or_bulk (lookup p (build_port_map tiers [])) ])
      ≡ (elim port [ none ↦ bulk_name | some p ↦ tier_or_bulk (first_tier p tiers) ])
same_tier none tiers plain apart = refl
same_tier (some p) tiers plain apart =
    ap (λ (o : Option Text). tier_or_bulk o)
      (lookup-build p tiers [] plain apart (unfold lookup in refl))

-- The client and the controller put a packet into the same tier, if both are enabled or both are
-- not, each tier has one port or one range, no port has two tiers, and the packet's IP header says
-- that it has 20 bytes or more.
pub classify-eq-classify_traffic :
    (enabled : Bool) (tiers : Tiers) (packet : Bytes)
    → All IsPlain tiers
    → Disjoint tiers
    → 20 ≤ header_length packet
    → classify (new_engine enabled tiers) packet ≡ classify_traffic enabled tiers packet
unfolding classify classify_traffic new_engine
classify-eq-classify_traffic enabled tiers packet plain apart whole =
    elim (Bool-cases (not enabled || ltb (length packet) 20)) [
      | inl skipped ↦ rw skipped refl
      | inr read ↦
          rw (read, extract_dst_port-eq packet whole)
            (same_tier (known_port packet) tiers plain apart)
    ]
