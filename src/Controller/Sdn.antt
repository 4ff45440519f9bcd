-- ===== src/Controller/Sdn.antt =====
-- `SDNController` of hyperagg/controller/sdn_controller.py: it tunes a tunnel in a loop, and changes
-- it on the dashboard's orders. The timestamps of the events are for display and left out.
pub mod Rounds
pub mod Orders
mod Tests
use ratan_engine.Prelude.{
  ℕ, ◌+◌, Bool, true, false, not, Option, none, some, List, [], ◌∷◌, ◌++◌, ltb, ◌==◌, if◌then◌else◌,
  length,
}
use ratan_engine.Prelude.Dict.{Dict, lookup, insert}
use ratan_engine.Prelude.Floats.{FloatOps, FloatMath}
use ratan_engine.Fec.Adaptive.{same_mode}
use ratan_engine.Fec.Mode.{Mode}
use ratan_engine.Fec.Engine.{FecEngine, Setting, auto, fixed}
use ratan_engine.Fec.Engine.Modes.{update_mode}
use ratan_engine.Pacer.{set_rate}
use ratan_engine.Scheduler.Bandwidth.{get_estimated_bw}
use ratan_engine.Scheduler.Congestion.{update_capacity, update_estimated_bw}
use ratan_engine.Scheduler.Models.{PathState, last_n}
use ratan_engine.Scheduler.Monitor.{PathMonitor, get_path_state, get_all_path_states}
use ratan_engine.Scheduler.PathScheduler.{
  PathScheduler, SchedulerMode, weighted_mode, update_predictions,
}
use ratan_engine.Tunnel.Client.{TunnelClient}
use ratan_engine.Tunnel.Client.Arrive.{with_controller}
use ratan_engine.Tunnel.Client.Rounds.{path_losses, total_bandwidth}
use ratan_engine.Tunnel.Server.{TunnelServer}

-- The texts of the events, with what they show
pub data Event : Type 0 where
  started stopped released : Event
  fec_changed : Mode → Mode → Event
  path_down : ℕ → Event
  scheduler_set : SchedulerMode → Event
  fec_set : Setting → Event
  forced : ℕ → Event

pub data Tunnel (Float Ident : Type 0) : Type 0 where
  no_tunnel : Tunnel Float Ident
  client : TunnelClient Float Ident → Tunnel Float Ident
  server : TunnelServer Float → Tunnel Float Ident

pub record SdnController (Float Ident : Type 0) : Type 0 where
  pub tunnel : Tunnel Float Ident
  pub events : List Event
  pub configured_mode : SchedulerMode

-- The list of events after `_emit_event`
unfoldable pub keep_event : Event → List Event → List Event
keep_event event events =
    let longer = events ++ event ∷ [] in
    if ltb 500 (length longer) then last_n 250 longer else longer

-- The loop over the states for the paths that are down
unfoldable pub report_down : {Float : Type 0} → Dict (PathState Float) → List Event → List Event
report_down [] events = events
report_down ((path_id, s) ∷ rest) events =
    report_down rest (if s.is_alive then events else keep_event (path_down path_id) events)

module _ {Float : Type 0} where
  -- A setting of error correction
  abbrev pub choose_fec : Setting → FecEngine Float → FecEngine Float
  choose_fec auto e = record e { mode_setting = auto }
  choose_fec (fixed mode) e = record e { mode_setting = fixed mode; current_mode = mode }

module _ {Float Ident : Type 0} where
  -- `_emit_event`
  abbrev pub emit_event : Event → SdnController Float Ident → SdnController Float Ident
  emit_event event c = record c { events = keep_event event c.events }

  -- `set_tunnel`
  abbrev pub set_tunnel : Tunnel Float Ident → SdnController Float Ident → SdnController Float Ident
  set_tunnel tunnel c = record c { tunnel = tunnel }

  abbrev pub fec_tunnel : Setting → Tunnel Float Ident → Tunnel Float Ident
  fec_tunnel setting no_tunnel = no_tunnel
  fec_tunnel setting (client t) = client (record t { fec = choose_fec setting t.fec })
  fec_tunnel setting (server t) = server (record t { fec = choose_fec setting t.fec })

  unfoldable pub set_fec_mode : Setting → SdnController Float Ident → SdnController Float Ident
  set_fec_mode setting c = elim c.tunnel [
    | no_tunnel ↦ c
    | client t ↦ emit_event (fec_set setting) (record c { tunnel = fec_tunnel setting (client t) })
    | server t ↦ emit_event (fec_set setting) (record c { tunnel = fec_tunnel setting (server t) })
  ]

  unfoldable pub release_path : SdnController Float Ident → SdnController Float Ident
  release_path c = elim c.tunnel [
    | no_tunnel ↦ c
    | server t ↦ c
    | client t ↦ emit_event released (record c {
      tunnel = client (record t { scheduler = record t.scheduler { mode = c.configured_mode } });
    })
  ]

module _ {Float : Type 0} (fl : FloatOps Float) where
  -- The loop of `force_path`: it reads the states of the other paths, which flushes their
  -- throughput, and does nothing with them.
  unfoldable pub read_others : Float → ℕ → List ℕ → PathMonitor Float → PathMonitor Float
  read_others now path_id [] m = m
  read_others now path_id (k ∷ ks) m =
      read_others now path_id ks (if k == path_id then m else (get_path_state fl now k m).1)

module _ {Float Ident : Type 0} (fl : FloatOps Float) where
  unfoldable pub force_path : Float → ℕ → SdnController Float Ident → SdnController Float Ident
  force_path now path_id c = elim c.tunnel [
    | no_tunnel ↦ c
    | server t ↦ c
    | client t ↦ emit_event (forced path_id) (record c {
      tunnel = client (record t {
        scheduler = record t.scheduler { mode = weighted_mode };
        monitor = read_others fl now path_id t.scheduler.alive_paths t.monitor;
      });
    })
  ]

  -- `for pid in states: ...` of `_control_tick`
  unfoldable pub tune_paths :
      Float → Dict (PathState Float) → TunnelClient Float Ident → TunnelClient Float Ident
  tune_paths now [] t = t
  tune_paths now ((path_id, s) ∷ rest) t =
      let (bw, estimator) = get_estimated_bw fl now path_id t.bw_estimator in
      let t' : TunnelClient Float Ident = record t { bw_estimator = estimator } in
      tune_paths now rest (
        if fl.lt (fl.of_ℕ 0) bw
        then with_controller path_id (update_estimated_bw fl bw)
            (record t' { pacer = set_rate fl now path_id bw t'.pacer })
        else t')

  module _ (fm : FloatMath Float) where
    -- The capacity of the tiers, from the sum of the estimates
    unfoldable pub tune_tiers :
        Float → Dict (PathState Float) → TunnelClient Float Ident → TunnelClient Float Ident
    tune_tiers now states t =
        let (total, t') = total_bandwidth fl fm now (fl.of_ℕ 0) states t in
        if fl.lt (fl.of_ℕ 0) total
        then record t' { tier_mgr = update_capacity fl total t'.tier_mgr }
        else t'

  module _ (fm : FloatMath Float) (scipy_cdf : Option (Float → Float → Float → Float)) where
    -- `self.tunnel._scheduler.update_predictions()`
    unfoldable pub predict : Float → TunnelClient Float Ident → TunnelClient Float Ident
    predict now t =
        let (scheduler, monitor, predictor) =
          update_predictions fl fm scipy_cdf now t.monitor t.predictor t.scheduler in
        record t { scheduler = scheduler; monitor = monitor; predictor = predictor }

    unfoldable pub tick_client :
        Float → TunnelClient Float Ident → List Event → TunnelClient Float Ident × List Event
    tick_client now t events =
        let t1 = predict now t in
        let (states, monitor) = get_all_path_states fl now t1.monitor in
        let fec = update_mode fl (path_losses states) t1.fec in
        let changed =
          if same_mode fec.current_mode t1.fec.current_mode
          then events
          else keep_event (fec_changed t1.fec.current_mode fec.current_mode) events in
        (
          tune_tiers fm now states
              (tune_paths now states (record t1 { monitor = monitor; fec = fec })),
          report_down states changed,
        )

    unfoldable pub control_tick : Float → SdnController Float Ident → SdnController Float Ident
    control_tick now c = elim c.tunnel [
      | no_tunnel ↦ c
      | server t ↦ c
      | client t ↦
          let (t', events) = tick_client now t c.events in
          record c { tunnel = client t'; events = events }
    ]

    unfoldable pub set_scheduler_mode :
        Float → SchedulerMode → SdnController Float Ident → SdnController Float Ident
    set_scheduler_mode now mode c = elim c.tunnel [
      | no_tunnel ↦ c
      | server t ↦ c
      | client t ↦ emit_event (scheduler_set mode) (record c {
        tunnel = client (predict now (record t { scheduler = record t.scheduler { mode = mode } }));
      })
    ]
