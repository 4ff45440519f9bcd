-- ===== src/Tunnel/Classify.antt =====
-- `_classify_traffic` and `_port_in_range` of hyperagg/tunnel/client.py: the tier of an IP packet, by
-- its destination port.
use ratan_engine.Prelude.{
  ℕ, ◌+◌, ◌*◌, Bool, false, not, ◌&&◌, ◌||◌, Option, none, some, List, [], ◌∷◌, ltb, leb, ◌==◌,
  if◌then◌else◌, length, get_or, take, drop, ok, raise,
}
use Prim.Native.Nat.{bit_and}
use ratan_engine.Prelude.Bytes.{Bytes}
use ratan_engine.Prelude.Text.{Text, has_char, split, strip, parse_int}
use ratan_engine.Packet.Struct.{struct_unpack}

-- The tiers of the configuration in their order: the name and the text `ports`, empty where it is
-- missing.
abbrev pub Tiers : Type 0
Tiers = List (Text × Text)

-- "bulk"
abbrev pub bulk_name : Text
bulk_name = 98 ∷ 117 ∷ 108 ∷ 107 ∷ []

-- `int(low) <= port <= int(high)`, false where `int` raises
unfoldable pub in_bounds : ℕ → Option ℕ → Option ℕ → Bool
in_bounds port none high = false
in_bounds port (some low) none = false
in_bounds port (some low) (some high) = leb low port && leb port high

-- `low, high = part.split("-")`, false where there are not two parts
unfoldable pub in_pair : ℕ → List Text → Bool
in_pair port [] = false
in_pair port (low ∷ []) = false
in_pair port (low ∷ high ∷ []) = in_bounds port (parse_int low) (parse_int high)
in_pair port (low ∷ high ∷ more ∷ rest) = false

abbrev pub is_port : ℕ → Option ℕ → Bool
is_port port none = false
is_port port (some n) = port == n

-- A turn of the loop of `_port_in_range`, for a stripped part
unfoldable pub port_in_part : ℕ → Text → Bool
port_in_part port part =
    if has_char 45 part then in_pair port (split 45 part) else is_port port (parse_int part)

unfoldable pub port_in_parts : ℕ → List Text → Bool
port_in_parts port [] = false
port_in_parts port (part ∷ rest) = port_in_part port (strip part) || port_in_parts port rest

-- `_port_in_range`
unfoldable pub port_in_range : ℕ → Text → Bool
port_in_range port [] = false
port_in_range port (c ∷ s) = port_in_parts port (split 44 (c ∷ s))

-- `ihl` of `_classify_traffic`
unfoldable pub header_length : Bytes → ℕ
header_length packet = bit_and (get_or packet 0 0) 0x0F * 4

-- `struct.unpack("!H", ip_packet[ihl + 2:ihl + 4])[0]` of a packet that has these bytes
unfoldable pub port_at : Bytes → ℕ → ℕ
port_at packet ihl = elim (struct_unpack (2 ∷ []) (take 2 (drop (ihl + 2) packet))) [
  | raise e ↦ 0
  | ok fields ↦ get_or fields 0 0
]

-- The first tier that has the port
unfoldable pub first_tier : ℕ → Tiers → Option Text
first_tier port [] = none
first_tier port ((name, ports) ∷ rest) =
    if port_in_range port ports then some name else first_tier port rest

abbrev pub tier_or_bulk : Option Text → Text
tier_or_bulk none = bulk_name
tier_or_bulk (some name) = name

-- The port by which `_classify_traffic` decides, if it has one
unfoldable pub known_port : Bytes → Option ℕ
known_port packet =
    let ihl = header_length packet in
    let protocol = get_or packet 9 0 in
    let whole = leb (ihl + 4) (length packet) in
    if protocol == 17
    then (if whole then some (port_at packet ihl) else none)
    else if protocol == 6
    then (if leb 24 (length packet) && whole then some (port_at packet ihl) else none)
    else none

-- `_classify_traffic`; `enabled` is false where the configuration does not say.
unfoldable pub classify_traffic : (enabled : Bool) → Tiers → Bytes → Text
classify_traffic enabled tiers packet =
    if not enabled || ltb (length packet) 20 then bulk_name else elim (known_port packet) [
      | none ↦ bulk_name
      | some port ↦ tier_or_bulk (first_tier port tiers)
    ]
