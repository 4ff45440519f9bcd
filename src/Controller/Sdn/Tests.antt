-- ===== src/Controller/Sdn/Tests.antt =====
-- Runs of the controller at concrete inputs.
use ratan_engine.Prelude.{ℕ, ◌≤◌, none, List, [], ◌∷◌, arith, length}
use ratan_engine.Prelude.Thousandths.{thousandths, thousandths_math}
use ratan_engine.Fec.Engine.{fixed}
use ratan_engine.Fec.Mode.{reed_solomon}
use ratan_engine.Scheduler.PathScheduler.{ai, weighted_mode}
use ratan_engine.Tunnel.Client.Sample.{client}
use ratan_engine.Controller.Sdn as Sdn
use ratan_engine.Controller.Sdn.{SdnController, set_fec_mode}
use ratan_engine.Controller.Sdn.Orders.{
  Order, tick, schedule_by, force, release, obey_all, obey_all-set_fec_mode,
}
use ratan_engine.Controller.Sdn.Rounds.{Uses}

abbrev controller : SdnController ℕ ℕ
controller = record { tunnel = Sdn.client client; events = []; configured_mode = ai }

abbrev orders : List (Order ℕ)
orders = tick 2000 ∷ force 2500 1 ∷ schedule_by 3000 weighted_mode ∷ release ∷ tick 4000 ∷ []

obey_all-set_fec_mode_example :
    let c' =
      obey_all thousandths thousandths_math none orders
        (set_fec_mode (fixed reed_solomon) controller) in
    Uses reed_solomon c'.tunnel × (length c'.events ≤ 500)
obey_all-set_fec_mode_example =
    obey_all-set_fec_mode thousandths thousandths_math none reed_solomon orders controller
      (omega arith)
