-- ===== src/Metrics/Tests.antt =====
-- Runs of the calculator at concrete inputs.
use ratan_engine.Prelude.{ℕ, refl, true, false, ◌&&◌, List, [], ◌∷◌, arith}
use ratan_engine.Prelude.Thousandths.{thousandths}
use ratan_engine.Metrics.{new_calculator, compute}
use ratan_engine.Metrics.Accounting.{
  Send, run, bytes_where, IsChain, InOrder, is_recent, Reports, run-Reports,
}

abbrev sends : List (Send ℕ)
sends =
    record { now = 0; nbytes = 1400; is_fec_parity = false; is_duplicate = false }
    ∷ record { now = 1; nbytes = 1400; is_fec_parity = true; is_duplicate = false }
    ∷ record { now = 9000; nbytes = 700; is_fec_parity = false; is_duplicate = true }
    ∷ []

natural-IsChain : IsChain thousandths
natural-IsChain x y z h h' = ground (arith, h, h')

sends-InOrder : InOrder thousandths sends
sends-InOrder = ((refl, (refl, tt)), ((refl, tt), (tt, tt)))

run-Reports_example :
    let recent = is_recent thousandths (thousandths.sub 9000 5000) in
    Reports thousandths 5000
      (bytes_where recent sends)
      (bytes_where (λ s. s.is_fec_parity && recent s) sends)
      (bytes_where (λ s. s.is_duplicate && recent s) sends)
      (bytes_where (λ s. true) sends)
      (bytes_where (λ s. s.is_fec_parity) sends)
      (bytes_where (λ s. s.is_duplicate) sends)
      (compute thousandths 9000 (run sends (new_calculator thousandths 5000)))
run-Reports_example = run-Reports thousandths 5000 9000 sends natural-IsChain sends-InOrder
