-- ===== src/Fec/Engine/Modes.antt =====
-- `update_mode` of hyperagg/fec/fec_engine.py: the mode follows the lengths of the loss bursts when
-- they ask for another one, and the average loss of the paths otherwise.
use ratan_engine.Prelude.{◌+◌, List, [], ◌∷◌, if◌then◌else◌, length}
use ratan_engine.Prelude.Dict.{Dict, values}
use ratan_engine.Prelude.Floats.{FloatOps}
use ratan_engine.Fec.Mode.{
  Mode, no_fec, xor, reed_solomon, reed_solomon_heavy, replicate, other_mode,
}
use ratan_engine.Fec.Adaptive as Adaptive
use ratan_engine.Fec.Engine.{FecEngine, auto, fixed, resolve_mode, heavy_data}

module _ {Float : Type 0} where
  unfoldable pub record_received : FecEngine Float → FecEngine Float
  record_received e = record e { adaptive_sizer = Adaptive.sizer_received e.adaptive_sizer }

  unfoldable pub record_lost : FecEngine Float → FecEngine Float
  record_lost e = record e { adaptive_sizer = Adaptive.sizer_lost e.adaptive_sizer }

  module _ (fl : FloatOps Float) where
    -- `sum`, from the left
    unfoldable pub sum_from : Float → List Float → Float
    sum_from acc [] = acc
    sum_from acc (x ∷ xs) = sum_from (fl.add acc x) xs

    -- `sum(path_loss.values()) / len(path_loss)`
    abbrev pub average_loss : List Float → Float
    average_loss losses = fl.div (sum_from (fl.of_ℕ 0) losses) (fl.of_ℕ (length losses))

    -- A mode that is not the current one is set and counted.
    unfoldable pub switch_mode : Mode → FecEngine Float → FecEngine Float
    switch_mode mode e =
        if Adaptive.same_mode mode e.current_mode
        then e
        else record e { current_mode = mode; mode_changes = e.mode_changes + 1 }

    -- `update_mode` for the setting `auto` and at least one path
    unfoldable pub update_auto : List Float → FecEngine Float → FecEngine Float
    update_auto losses e =
        let result = Adaptive.update_sizer e.adaptive_sizer in
        let sizer = result.1 in
        let e' : FecEngine Float = record e { adaptive_sizer = sizer } in
        let by_loss = switch_mode (resolve_mode fl e auto (average_loss losses)) e' in
        if result.0
        then (if Adaptive.same_mode sizer.current_mode e.current_mode
            then by_loss
            else switch_mode sizer.current_mode e')
        else by_loss

    unfoldable pub update_mode : Dict Float → FecEngine Float → FecEngine Float
    update_mode path_loss e = elim e.mode_setting [
      | fixed mode ↦ e
      | auto ↦ elim (values path_loss) [ [] ↦ e | x ∷ xs ↦ update_auto (x ∷ xs) e ]
    ]

    unfoldable pub overhead_of : Mode → FecEngine Float → Float
    overhead_of no_fec e = fl.of_ℕ 0
    overhead_of xor e = fl.div (fl.of_ℕ 100) (fl.of_ℕ e.xor_group_size)
    overhead_of reed_solomon e =
        fl.div (fl.mul (fl.of_ℕ 100) (fl.of_ℕ e.rs_parity)) (fl.of_ℕ e.rs_data)
    overhead_of reed_solomon_heavy e =
        fl.div (fl.mul (fl.of_ℕ 100) (fl.of_ℕ (e.rs_parity + 2))) (fl.of_ℕ (heavy_data e.rs_data))
    overhead_of replicate e = fl.of_ℕ 100
    overhead_of other_mode e = fl.of_ℕ 0

    abbrev pub overhead_pct : FecEngine Float → Float
    overhead_pct e = overhead_of e.current_mode e
