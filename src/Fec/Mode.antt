-- ===== src/Fec/Mode.antt =====
-- The modes of hyperagg/fec: strings in the code.
-- `other_mode` is any string that the configuration may hold and the code does not know.
pub data Mode : Type 0 where
  no_fec xor reed_solomon reed_solomon_heavy replicate other_mode : Mode
