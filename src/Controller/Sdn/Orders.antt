-- ===== src/Controller/Sdn/Orders.antt =====
-- Sequences of orders to the controller of hyperagg/controller/sdn_controller.py.
use ratan_engine.Prelude.{ℕ, ◌≤◌, ◌≡◌, refl, ap, ◌∙◌, Option, List, [], ◌∷◌, length}
use ratan_engine.Prelude.Floats.{FloatOps, FloatMath}
use ratan_engine.Fec.Mode.{Mode}
use ratan_engine.Fec.Engine.{FecEngine, fixed}
use ratan_engine.Scheduler.PathScheduler.{SchedulerMode}
use ratan_engine.Controller.Sdn.{
  SdnController, Tunnel, no_tunnel, client, server, set_fec_mode, release_path, force_path, predict,
  control_tick, set_scheduler_mode,
}
use ratan_engine.Controller.Sdn.Rounds.{
  FecUses, Uses, keep_event-bounded, tick_client-fec, tick_client-bounded,
}

-- What happens to a controller, apart from orders for error correction
pub data Order (Float : Type 0) : Type 0 where
  tick : Float → Order Float
  schedule_by : Float → SchedulerMode → Order Float
  force : Float → ℕ → Order Float
  release : Order Float

module _ {Float Ident : Type 0} (fl : FloatOps Float) (fm : FloatMath Float)
    (scipy_cdf : Option (Float → Float → Float → Float)) where
  unfoldable pub obey : Order Float → SdnController Float Ident → SdnController Float Ident
  obey (tick now) c = control_tick fl fm scipy_cdf now c
  obey (schedule_by now mode) c = set_scheduler_mode fl fm scipy_cdf now mode c
  obey (force now path_id) c = force_path fl now path_id c
  obey release c = release_path c

  unfoldable pub obey_all :
      List (Order Float) → SdnController Float Ident → SdnController Float Ident
  obey_all [] c = c
  obey_all (o ∷ os) c = obey_all os (obey o c)

  abbrev Keeps : Mode → SdnController Float Ident → Type 0
  Keeps mode c = Uses mode c.tunnel × (length c.events ≤ 500)

  control_tick-Keeps :
      (now : Float) (mode : Mode) (c : SdnController Float Ident) (tunnel : Tunnel Float Ident)
      → c.tunnel ≡ tunnel
      → Keeps mode c
      → Keeps mode (control_tick fl fm scipy_cdf now c)
  unfolding control_tick
  control_tick-Keeps now mode c no_tunnel e k = rw (e, control_tick) k
  control_tick-Keeps now mode c (server s) e k = rw (e, control_tick) k
  control_tick-Keeps now mode c (client t) e k =
      let h : FecUses mode t.fec = rw e at k.0 in
      let same = tick_client-fec fl fm scipy_cdf now mode t c.events h in
      rw (e, control_tick)
        (
          (
            ap (λ (f : FecEngine Float). f.mode_setting) same ∙ h.0,
            ap (λ (f : FecEngine Float). f.current_mode) same ∙ h.1,
          ),
          tick_client-bounded fl fm scipy_cdf now t c.events k.1,
        )

  schedule_by-Keeps :
      (now : Float) (by : SchedulerMode) (mode : Mode) (c : SdnController Float Ident)
      (tunnel : Tunnel Float Ident)
      → c.tunnel ≡ tunnel
      → Keeps mode c
      → Keeps mode (set_scheduler_mode fl fm scipy_cdf now by c)
  unfolding set_scheduler_mode predict
  schedule_by-Keeps now by mode c no_tunnel e k = rw (e, set_scheduler_mode) k
  schedule_by-Keeps now by mode c (server s) e k = rw (e, set_scheduler_mode) k
  schedule_by-Keeps now by mode c (client t) e k =
      rw (e, set_scheduler_mode) (rw e at k.0, keep_event-bounded _ c.events k.1)

  force-Keeps :
      (now : Float) (path_id : ℕ) (mode : Mode) (c : SdnController Float Ident)
      (tunnel : Tunnel Float Ident)
      → c.tunnel ≡ tunnel
      → Keeps mode c
      → Keeps mode (force_path fl now path_id c)
  unfolding force_path
  force-Keeps now path_id mode c no_tunnel e k = rw (e, force_path) k
  force-Keeps now path_id mode c (server s) e k = rw (e, force_path) k
  force-Keeps now path_id mode c (client t) e k =
      rw (e, force_path) (rw e at k.0, keep_event-bounded _ c.events k.1)

  release-Keeps :
      (mode : Mode) (c : SdnController Float Ident) (tunnel : Tunnel Float Ident)
      → c.tunnel ≡ tunnel
      → Keeps mode c
      → Keeps mode (release_path c)
  unfolding release_path
  release-Keeps mode c no_tunnel e k = rw (e, release_path) k
  release-Keeps mode c (server s) e k = rw (e, release_path) k
  release-Keeps mode c (client t) e k =
      rw (e, release_path) (rw e at k.0, keep_event-bounded _ c.events k.1)

  obey_all-Keeps :
      (mode : Mode) (os : List (Order Float)) (c : SdnController Float Ident)
      → Keeps mode c
      → Keeps mode (obey_all os c)
  unfolding obey_all obey
  obey_all-Keeps mode [] c k = k
  obey_all-Keeps mode (tick now ∷ os) c k =
      obey_all-Keeps mode os (obey (tick now) c) (control_tick-Keeps now mode c c.tunnel refl k)
  obey_all-Keeps mode (schedule_by now by ∷ os) c k =
      obey_all-Keeps mode os (obey (schedule_by now by) c)
        (schedule_by-Keeps now by mode c c.tunnel refl k)
  obey_all-Keeps mode (force now path_id ∷ os) c k =
      obey_all-Keeps mode os (obey (force now path_id) c)
        (force-Keeps now path_id mode c c.tunnel refl k)
  obey_all-Keeps mode (release ∷ os) c k =
      obey_all-Keeps mode os (obey release c) (release-Keeps mode c c.tunnel refl k)

  set_fec_mode-Keeps :
      (mode : Mode) (c : SdnController Float Ident) (tunnel : Tunnel Float Ident)
      → c.tunnel ≡ tunnel
      → length c.events ≤ 500
      → Keeps mode (set_fec_mode (fixed mode) c)
  unfolding set_fec_mode
  set_fec_mode-Keeps mode c no_tunnel e h = rw (e, set_fec_mode) (rw e tt, h)
  set_fec_mode-Keeps mode c (server s) e h =
      rw (e, set_fec_mode) ((refl, refl), keep_event-bounded _ c.events h)
  set_fec_mode-Keeps mode c (client t) e h =
      rw (e, set_fec_mode) ((refl, refl), keep_event-bounded _ c.events h)

  -- Once the order is given to use one mode of error correction, the tunnel keeps to it through any
  -- sequence of control rounds, changes of the scheduler, forced and released paths; and the log
  -- of events never holds more than 500.
  pub obey_all-set_fec_mode :
      (mode : Mode) (os : List (Order Float)) (c : SdnController Float Ident)
      → length c.events ≤ 500
      → let c' = obey_all os (set_fec_mode (fixed mode) c) in
        Uses mode c'.tunnel × (length c'.events ≤ 500)
  obey_all-set_fec_mode mode os c h =
      obey_all-Keeps mode os (set_fec_mode (fixed mode) c)
        (set_fec_mode-Keeps mode c c.tunnel refl h)
