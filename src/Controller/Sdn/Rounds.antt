-- ===== src/Controller/Sdn/Rounds.antt =====
-- A round of the control loop of hyperagg/controller/sdn_controller.py.
use ratan_engine.Prelude.{
  ℕ, ◌-◌, ◌≤◌, ◌≡◌, refl, ◌∙◌, Option, List, [], ◌∷◌, ◌++◌, arith, length, length-append,
  length-drop, ltb, Bool-cases, Option-cases, inl, inr,
}
use ratan_engine.Prelude.Dict.{Dict, lookup}
use ratan_engine.Prelude.Floats.{FloatOps, FloatMath}
use ratan_engine.Fec.Adaptive.{same_mode}
use ratan_engine.Fec.Mode.{Mode}
use ratan_engine.Fec.Engine.{FecEngine, fixed}
use ratan_engine.Fec.Engine.Modes.{update_mode}
use ratan_engine.Pacer.{set_rate}
use ratan_engine.Scheduler.Bandwidth.{get_estimated_bw}
use ratan_engine.Scheduler.Congestion.{AimdController, update_estimated_bw}
use ratan_engine.Scheduler.Models.{PathState, last_n}
use ratan_engine.Scheduler.Monitor.{get_all_path_states}
use ratan_engine.Tunnel.Client.{TunnelClient}
use ratan_engine.Tunnel.Client.Arrive.{with_controller}
use ratan_engine.Tunnel.Client.Rounds.{path_losses, total_bandwidth}
use ratan_engine.Controller.Sdn.{
  Tunnel, no_tunnel, client, server, Event, keep_event, report_down, tune_paths, tune_tiers,
  predict, tick_client,
}

pub keep_event-bounded :
    (e : Event) (events : List Event) → length events ≤ 500 → length (keep_event e events) ≤ 500
unfolding keep_event last_n
keep_event-bounded e events h = elim (Bool-cases (ltb 500 (length (events ++ e ∷ [])))) [
  | inl long ↦ rw long (
      omega (
        arith,
        length-append events (e ∷ []),
        length-drop (length (events ++ e ∷ []) - 250) (events ++ e ∷ []),
      ))
  | inr short ↦ rw short (ground (arith, short))
]

module _ {Float : Type 0} where
  report_down-bounded :
      (states : Dict (PathState Float)) (events : List Event)
      → length events ≤ 500
      → length (report_down states events) ≤ 500
  unfolding report_down
  report_down-bounded [] events h = h
  report_down-bounded ((k, s) ∷ states) events h = elim (Bool-cases s.is_alive) [
    | inl alive ↦ rw alive (report_down-bounded states events h)
    | inr down ↦
        rw down (report_down-bounded states (keep_event _ events) (keep_event-bounded _ events h))
  ]

module _ {Float : Type 0} where
  abbrev pub FecUses : Mode → FecEngine Float → Type 0
  FecUses mode e = (e.mode_setting ≡ fixed mode) × (e.current_mode ≡ mode)

  update_mode-fixed :
      (fl : FloatOps Float) (mode : Mode) (losses : Dict Float) (e : FecEngine Float)
      → e.mode_setting ≡ fixed mode
      → update_mode fl losses e ≡ e
  unfolding update_mode
  update_mode-fixed fl mode losses e h = rw h refl

module _ {Float Ident : Type 0} where
  -- Error correction, if there is a tunnel, is set to this mode and uses it.
  abbrev pub Uses : Mode → Tunnel Float Ident → Type 0
  Uses mode no_tunnel = Unit
  Uses mode (client t) = FecUses mode t.fec
  Uses mode (server s) = FecUses mode s.fec

  with_controller-fec :
      (k : ℕ) (f : AimdController Float → AimdController Float) (t : TunnelClient Float Ident)
      → (with_controller k f t).fec ≡ t.fec
  with_controller-fec k f t = elim (Option-cases (lookup k t.congestion)) [
    | inl absent ↦ rw (absent, with_controller) refl
    | inr (a, present) ↦ rw (present, with_controller) refl
  ]

  module _ (fl : FloatOps Float) where
    tune_paths-fec :
        (now : Float) (states : Dict (PathState Float)) (t : TunnelClient Float Ident)
        → (tune_paths fl now states t).fec ≡ t.fec
    unfolding tune_paths
    tune_paths-fec now [] t = refl
    tune_paths-fec now ((k, s) ∷ states) t =
        let (bw, estimator) = get_estimated_bw fl now k t.bw_estimator in
        let t' : TunnelClient Float Ident = record t { bw_estimator = estimator } in
        let paced : TunnelClient Float Ident = record t' {
          pacer = set_rate fl now k bw t'.pacer;
        } in
        elim (Bool-cases (fl.lt (fl.of_ℕ 0) bw)) [
          | inl up ↦
              rw (up, tune_paths)
                (tune_paths-fec now states (with_controller k (update_estimated_bw fl bw) paced)
                  ∙ with_controller-fec k (update_estimated_bw fl bw) paced)
          | inr down ↦ rw (down, tune_paths) (tune_paths-fec now states t')
        ]

    module _ (fm : FloatMath Float) where
      total_bandwidth-fec :
          (now acc : Float) (states : Dict (PathState Float)) (t : TunnelClient Float Ident)
          → (total_bandwidth fl fm now acc states t).1.fec ≡ t.fec
      unfolding total_bandwidth
      total_bandwidth-fec now acc [] t = refl
      total_bandwidth-fec now acc ((k, s) ∷ states) t =
          let (bw, estimator) = get_estimated_bw fl now k t.bw_estimator in
          total_bandwidth-fec now (fl.add acc bw) states (record t { bw_estimator = estimator })

      tune_tiers-fec :
          (now : Float) (states : Dict (PathState Float)) (t : TunnelClient Float Ident)
          → (tune_tiers fl fm now states t).fec ≡ t.fec
      unfolding tune_tiers
      tune_tiers-fec now states t =
          let r = total_bandwidth fl fm now (fl.of_ℕ 0) states t in
          elim (Bool-cases (fl.lt (fl.of_ℕ 0) r.0)) [
            | inl up ↦ rw up (total_bandwidth-fec now (fl.of_ℕ 0) states t)
            | inr down ↦ rw down (total_bandwidth-fec now (fl.of_ℕ 0) states t)
          ]

    module _ (fm : FloatMath Float) (scipy_cdf : Option (Float → Float → Float → Float)) where
      pub tick_client-fec :
          (now : Float) (mode : Mode) (t : TunnelClient Float Ident) (events : List Event)
          → FecUses mode t.fec
          → (tick_client fl fm scipy_cdf now t events).0.fec ≡ t.fec
      unfolding tick_client predict
      tick_client-fec now mode t events h =
          let t1 = predict fl fm scipy_cdf now t in
          let (states, monitor) = get_all_path_states fl now t1.monitor in
          let t2 : TunnelClient Float Ident = record t1 {
            monitor = monitor;
            fec = update_mode fl (path_losses states) t1.fec;
          } in
          tune_tiers-fec fm now states (tune_paths fl now states t2)
          ∙ tune_paths-fec now states t2
          ∙ update_mode-fixed fl mode (path_losses states) t.fec h.0

      pub tick_client-bounded :
          (now : Float) (t : TunnelClient Float Ident) (events : List Event)
          → length events ≤ 500
          → length (tick_client fl fm scipy_cdf now t events).1 ≤ 500
      unfolding tick_client
      tick_client-bounded now t events h =
          let t1 = predict fl fm scipy_cdf now t in
          let states = (get_all_path_states fl now t1.monitor).0 in
          let fec = update_mode fl (path_losses states) t1.fec in
          elim (Bool-cases (same_mode fec.current_mode t1.fec.current_mode)) [
            | inl same ↦ rw same (report_down-bounded states events h)
            | inr other ↦
                rw other
                  (report_down-bounded states (keep_event _ events) (keep_event-bounded _ events h))
          ]
