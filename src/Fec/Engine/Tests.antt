-- ===== src/Fec/Engine/Tests.antt =====
-- Runs of the engine at concrete inputs.
use ratan_engine.Prelude.{
  ℕ, ◌+◌, ◌-◌, ◌*◌, ◌/◌, ◌^◌, ◌≤◌, ◌≡◌, refl, Bool, List, [], ◌∷◌, ltb, ok, All, arith,
}
use ratan_engine.Prelude.Bytes.{Bytes}
use ratan_engine.Prelude.Floats.{FloatOps}
use ratan_engine.Fec.Rs.{RsCodec}
use ratan_engine.Fec.Rs.Encoder as RsEnc
use ratan_engine.Fec.Xor.Encoder as XorEnc
use ratan_engine.Fec.Mode.{xor}
use ratan_engine.Fec.Engine.{
  FecEngine, FecMetadata, auto, new_engine, resolve_mode, encode_rs, decode_packet, choose_decoder,
  light,
}
use ratan_engine.Fec.Engine.Dispatch.{IsSetUp, heavy_decoder_idle}

-- Thousandths in place of floats.
abbrev clock : FloatOps ℕ
clock = record {
  of_ℕ = λ n. n * 1000;
  decimal = λ n k. n * 1000 / 10 ^ k;
  add = λ a b. a + b;
  sub = λ a b. a - b;
  mul = λ a b. a * b / 1000;
  div = λ a b. a * 1000 / b;
  lt = ltb;
}

abbrev copy : RsCodec
copy = record {
  encode_column = λ nsym column. ok column;
  decode_column = λ nsym received erased. ok received;
}

-- Three group sizes: 5, 4 and 7.
abbrev separate : FecEngine ℕ
separate = new_engine clock auto 4 3 1 500

starts_with_xor : separate.current_mode ≡ xor
unfolding new_engine resolve_mode
starts_with_xor = refl

abbrev after_packet : FecEngine ℕ
after_packet = record separate {
  xor_encoder = record { group_size = 4; current_group = (7 ∷ []) ∷ []; group_id = 0 };
}

-- The default configuration.
abbrev default : FecEngine ℕ
default = new_engine clock auto 4 8 2 500

default-IsSetUp : IsSetUp default
unfolding new_engine
default-IsSetUp = record {
  rs_data_is = refl;
  rs_parity_is = refl;
  heavy_data_is = refl;
  heavy_parity_is = refl;
}

six-default : 6 ≤ default.rs_data
unfolding new_engine
six-default = omega arith

heavy_decoder_idle_example :
    ((now g i size : ℕ) (is_parity : Bool) (payload : Bytes) (out : List (ℕ × Bytes))
        (e' : FecEngine ℕ)
      → decode_packet copy now g i size is_parity payload default ≡ ok (out, e')
      → e'.rs_heavy_decoder ≡ default.rs_heavy_decoder)
    × ((payload : Bytes) (packets : List (Bytes × FecMetadata)) (enc' : RsEnc.RsFecEncoder)
        → encode_rs copy payload default.rs_heavy_encoder ≡ ok (packets, enc')
        → All (λ p. choose_decoder p.1.fec_group_size default ≡ light) packets)
heavy_decoder_idle_example = heavy_decoder_idle copy default default-IsSetUp six-default
