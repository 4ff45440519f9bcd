-- ===== src/Reorder/Timeout.antt =====
-- `update_timeout` of hyperagg/tunnel/reorder_buffer.py.
use ratan_engine.Prelude.{
  ◌≡◌, true, false, [], ◌∷◌, ltb, length, arith, ◌⊎◌, inl, inr, Bool-cases, List-cases,
}
use ratan_engine.Prelude.Dict.{Dict, values}
use ratan_engine.Prelude.Floats.{FloatOps}
use ratan_engine.Reorder.{
  AdaptiveReorderBuffer, update_timeout, adaptive_timeout, positive_only, float_max, float_min,
}

module _ {Float : Type 0} (fl : FloatOps Float) where
  -- The comparison of floats, NaN included.
  pub record IsOrder : Type 0 where
    pub irrefl : (x : Float) → fl.lt x x ≡ false
    pub asym : (x y : Float) → fl.lt x y ≡ true → fl.lt y x ≡ false

  -- `x` is not below `lo` and not above `hi`.
  abbrev pub Within : Float → Float → Float → Type 0
  Within lo hi x = (fl.lt x lo ≡ false) × (fl.lt hi x ≡ false)

  clamp-Within :
      (lo hi x : Float)
      → IsOrder
      → fl.lt hi lo ≡ false
      → Within lo hi (float_max fl lo (float_min fl hi (x ∷ []) ∷ []))
  unfolding float_max float_min
  clamp-Within lo hi x o h =
      ground (arith, h, o.irrefl lo, o.irrefl hi, o.asym lo x, o.asym lo hi, o.asym x hi)

  -- With fewer than two paths, or no path with a positive RTT, the timeout stays as it is. Otherwise
  -- the new timeout is returned and stored, nothing else changes, and it is within the configured
  -- limits, if these are in order and the comparison of floats is irreflexive and asymmetric.
  pub update_timeout_lem :
      (path_rtts path_jitters : Dict Float) (b : AdaptiveReorderBuffer Float)
      → IsOrder
      → fl.lt b.max_timeout b.min_timeout ≡ false
      → (((ltb (length path_rtts) 2 ≡ true) ⊎ (positive_only fl (values path_rtts) ≡ []))
          × (update_timeout fl path_rtts path_jitters b ≡ (b.timeout_ms, b)))
        ⊎ ((ltb (length path_rtts) 2 ≡ false)
            × ((result : Float) × (update_timeout fl path_rtts path_jitters b
                  ≡ (result, record b { timeout_ms = result }))
                × Within b.min_timeout b.max_timeout result))
  unfolding update_timeout adaptive_timeout
  update_timeout_lem path_rtts path_jitters b o h = elim (Bool-cases (ltb (length path_rtts) 2)) [
    | inl few ↦ inl (inl few, ground (arith, few))
    | inr many ↦ elim (List-cases (positive_only fl (values path_rtts))) [
      | inl none_up ↦ inl (inr none_up, ground (arith, many, none_up))
      | inr (r, rs, e) ↦
          let result = adaptive_timeout fl r rs (positive_only fl (values path_jitters)) b in
          inr (
            many,
            (result, ground (arith, many, e), clamp-Within b.min_timeout b.max_timeout _ o h),
          )
    ]
  ]
