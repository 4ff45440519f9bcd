-- ===== src/Controller/Qos/Tests.antt =====
-- Runs of the two classifiers at concrete inputs.
use ratan_engine.Prelude.{◌≤◌, ◌≡◌, refl, true, All, arith, [], ◌∷◌, ◌++◌, replicate}
use ratan_engine.Prelude.Bytes.{Bytes, from_bytes, le_value}
use ratan_engine.Prelude.Dict.{lookup}
use ratan_engine.Prelude.Text.{
  Text, has_char, split, strip, strip_left, is_space, is_digit, parse_digits, parse_unsigned,
  parse_int,
}
use ratan_engine.Packet.Struct.{struct_unpack}
use ratan_engine.Tunnel.Classify.{
  bulk_name, classify_traffic, known_port, header_length, port_at, first_tier, in_bounds, in_pair,
  port_in_part, port_in_parts, port_in_range,
}
use ratan_engine.Controller.Qos.{new_engine, classify, extract_dst_port, build_port_map, add_tier}
use ratan_engine.Controller.Qos.Agreement.{IsPlain, Disjoint, classify-eq-classify_traffic}

-- "rt" and "10-12"
abbrev realtime : Text × Text
realtime = (114 ∷ 116 ∷ [], 49 ∷ 48 ∷ 45 ∷ 49 ∷ 50 ∷ [])

-- "st" and "20"
abbrev streaming : Text × Text
streaming = (115 ∷ 116 ∷ [], 50 ∷ 48 ∷ [])

-- "rt" and "10-12,15"
abbrev with_comma : Text × Text
with_comma = (114 ∷ 116 ∷ [], realtime.1 ++ 44 ∷ 49 ∷ 53 ∷ [])

-- A UDP packet to the port 11
abbrev packet : Bytes
packet = 0x45 ∷ replicate 8 0 ++ 17 ∷ replicate 10 0 ++ 0 ∷ 9 ∷ 0 ∷ 11 ∷ []

plain : All IsPlain (realtime ∷ streaming ∷ [])
unfolding has_char strip strip_left is_space
plain = ((refl, refl), ((refl, refl), tt))

apart : Disjoint (realtime ∷ streaming ∷ [])
unfolding port_in_range port_in_parts port_in_part in_pair in_bounds split has_char strip strip_left
    is_space is_digit parse_digits parse_unsigned parse_int
apart = ((λ port. ground arith, tt), (tt, tt))

whole : 20 ≤ header_length packet
unfolding header_length
whole = omega arith

classify-eq-classify_traffic_example :
    classify (new_engine true (realtime ∷ streaming ∷ [])) packet
    ≡ classify_traffic true (realtime ∷ streaming ∷ []) packet
classify-eq-classify_traffic_example =
    classify-eq-classify_traffic true (realtime ∷ streaming ∷ []) packet plain apart whole

-- With a comma in the ports, only the client finds the tier.
by_client : classify_traffic true (with_comma ∷ []) packet ≡ realtime.0
unfolding classify_traffic known_port header_length port_at struct_unpack from_bytes first_tier
    port_in_range port_in_parts port_in_part in_pair in_bounds split has_char strip strip_left
    is_space is_digit parse_digits parse_unsigned parse_int le_value
by_client = refl

by_controller : classify (new_engine true (with_comma ∷ [])) packet ≡ bulk_name
unfolding classify new_engine build_port_map add_tier extract_dst_port header_length split has_char
    lookup parse_int parse_unsigned strip strip_left is_space parse_digits is_digit
by_controller = refl
