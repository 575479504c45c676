-- ===== src/Examples/Runs.antt =====
-- The theorems on the runs of the controller, at a concrete run.
use usbip.Base.{ℕ, ◌+◌, ◌≤◌, true, List, [], ◌∷◌, none, arith}
use usbip.Vhci.State.{Hcd}
use usbip.Vhci.Hcd.{urb_enqueue, urb_dequeue}
use usbip.Vhci.Connection.{shutdown_connection}
use usbip.Vhci.Balance.{returned}
use usbip.Vhci.Trace.{Run, here, next, submit, shutdown, dequeue}
use usbip.Vhci.Trace.Settles.{total}
use usbip.Vhci.Trace.Dequeue.{IsNamed}
use usbip.Vhci.Trace.Life.{Life, Run-Life}
use usbip.Vhci.Trace.Safety.{submitted, given_back_bound}
use usbip.Examples.{little_endian, script}
use usbip.Examples.States.{controller, port_with}

-- A controller with connected ports on which no URB waits.
abbrev quiet : Hcd (List ℕ)
quiet = record controller {
  vdev = λ p. record (port_with []) { priv_tx = []; priv_rx = []; unlink_rx = [] };
  hcpriv = λ u. none;
}

quiet-IsNamed : IsNamed quiet
quiet-IsNamed v x e = absurd (ground arith)

-- URB 7 is submitted, the connection is lost, and the USB core takes the URB back.
abbrev lost : Hcd (List ℕ)
lost = (urb_dequeue 0 true (shutdown_connection (urb_enqueue 0 true quiet 7).1 0) 7).1

abbrev run : Run little_endian script quiet lost (7 ∷ [])
run =
    next (next (submit 0 7 true here) (shutdown (urb_enqueue 0 true quiet 7).1 0 (omega arith)))
      (dequeue (shutdown_connection (urb_enqueue 0 true quiet 7).1 0) 0 7 true)

given_back_bound_example :
    (returned 7 lost.given_back ≤ total quiet 7 + submitted 7 (7 ∷ [])) × IsNamed lost
given_back_bound_example = given_back_bound little_endian script 7 quiet-IsNamed run

Run-Life_example : Life little_endian script 0 run
Run-Life_example = Run-Life little_endian script 0 run
