-- ===== src/Vhci/Trace/Safety.antt =====
-- Theorems on the runs of the controller.
use usbip.Base.{ℕ, ◌+◌, ◌≤◌, ◌<◌, ◌≡◌, refl, ap, Bool, List, [], ◌∷◌, Option, some, arith}
use usbip.Proto.Endian.{ByteOrder}
use usbip.Core.Socket.{Socket}
use usbip.Vhci.State.{Hcd, vhci_nports}
use usbip.Vhci.Connection.{
  shutdown_connection, device_reset, device_unusable, store_attach, store_detach, port_disconnect,
  rh_port_disconnect, rh_port_connect,
}
use usbip.Vhci.RootHub.{Clock, Answer, hub_control}
use usbip.Vhci.RootHub.Control.{hub_control-Kept}
use usbip.Vhci.Balance.{one, queued, returned}
use usbip.Vhci.Trace.{
  Step, dequeue, receive, send, send_unlink, shutdown, reset, unusable, attach, detach, hub, Run,
  here, next, submit,
}
use usbip.Vhci.Trace.Settles.{total, Same, Settles, Same-Settles, Settles-trans}
use usbip.Vhci.Trace.Ports.{set_vdev-Same, unlink_cleanup-Settles}
use usbip.Vhci.Trace.Receiving.{rx_pdu-Settles}
use usbip.Vhci.Trace.Transmitting.{send_cmd_submit-Same, send_cmd_unlink-Same}
use usbip.Vhci.Trace.Dequeue.{IsNamed, Settles-IsNamed, urb_dequeue-Settles}
use usbip.Vhci.Trace.Enqueue.{urb_enqueue-Adds}

-- How often an URB was submitted.
abbrev pub submitted : ℕ → List ℕ → ℕ
submitted u [] = 0
submitted u (a ∷ rest) = one a u + submitted u rest

module _ {S : Type 0} where
  shutdown-Settles : (h : Hcd S) (p : ℕ) → p < vhci_nports → Settles h (shutdown_connection h p)
  unfolding shutdown_connection rh_port_disconnect
  shutdown-Settles h p b = Settles-trans (Same-Settles h _ (set_vdev-Same h p _ refl refl)) (
      Settles-trans (unlink_cleanup-Settles _ p b)
        (Same-Settles _ _ (record { pending = λ q v. refl; given_back = refl; hcpriv = refl })))

  reset-Same : (h : Hcd S) (p : ℕ) → Same h (device_reset h p)
  unfolding device_reset
  reset-Same h p = set_vdev-Same h p _ refl refl

  unusable-Same : (h : Hcd S) (p : ℕ) → Same h (device_unusable h p)
  unfolding device_unusable
  unusable-Same h p = set_vdev-Same h p _ refl refl

  attach-Same :
      (h : Hcd S) (count rhport : ℕ) (socket : Option S) (devid speed : ℕ)
      → Same h (store_attach h count rhport socket devid speed).1
  unfolding store_attach rh_port_connect
  attach-Same h count rhport socket devid speed = record {
    pending = λ q v. ground arith;
    given_back = ground arith;
    hcpriv = ground arith;
  }

  detach-Same : (h : Hcd S) (count rhport : ℕ) → Same h (store_detach h count rhport).1
  unfolding store_detach port_disconnect
  detach-Same h count rhport = record {
    pending = λ q v. ground arith;
    given_back = ground arith;
    hcpriv = ground arith;
  }

  hub-Same :
      (h h' : Hcd S) (accessible : Bool) (clock : Clock) (request value w ret : ℕ) (answer : Answer)
      → hub_control accessible clock h request value w ≡ some (ret, answer, h')
      → Same h h'
  hub-Same h h' accessible clock request value w ret answer e =
      let (vdev, given_back, hcpriv) =
        hub_control-Kept accessible clock h request value w (ret, answer, h') e in
      record {
        pending = λ q v. ap (λ f. queued v (f q).priv_tx + queued v (f q).priv_rx) vdev;
        given_back = given_back;
        hcpriv = hcpriv;
      }

module _ (o : ByteOrder) (net : Socket) where
  open net use {S}

  Step-Settles : {h h' : Hcd S} → IsNamed h → Step o net h h' → Settles h h'
  Step-Settles i (dequeue h check u memory) = urb_dequeue-Settles check u memory h i
  Step-Settles i (receive h p memory b) = rx_pdu-Settles o net memory h p b
  Step-Settles i (send h h' fuel p memory ok b e) =
      Same-Settles h h' (send_cmd_submit-Same o net fuel memory ok h h' p e)
  Step-Settles i (send_unlink h h' fuel p ok b e) =
      Same-Settles h h' (send_cmd_unlink-Same o net fuel ok h h' p e)
  Step-Settles i (shutdown h p b) = shutdown-Settles h p b
  Step-Settles i (reset h p b) = Same-Settles h _ (reset-Same h p)
  Step-Settles i (unusable h p b) = Same-Settles h _ (unusable-Same h p)
  Step-Settles i (attach h count rhport socket devid speed) =
      Same-Settles h _ (attach-Same h count rhport socket devid speed)
  Step-Settles i (detach h count rhport) = Same-Settles h _ (detach-Same h count rhport)
  Step-Settles i (hub h h' accessible clock request value w ret answer e) =
      Same-Settles h h' (hub-Same h h' accessible clock request value w ret answer e)

  Run-total :
      {start h : Hcd S} {us : List ℕ}
      → IsNamed start
      → Run o net start h us
      → IsNamed h × ((u : ℕ) → total h u ≤ total start u + submitted u us)
  Run-total i here = (i, λ u. omega arith)
  Run-total i (next {h} {h'} run step) =
      let (named, bound) = Run-total i run in
      let s = Step-Settles named step in
      (Settles-IsNamed h h' s named, λ u. omega (arith, s.total u, bound u))
  Run-total i (submit {h} {us} link a memory run) =
      let (named, bound) = Run-total i run in
      let adds = urb_enqueue-Adds link memory h a in
      (adds.named named, λ u. omega (arith, adds.total u, bound u))

  -- Whatever the operations of the controller do, in any order and whatever the peer sends, from a
  -- state in which each URB with an `hcpriv` waits on a port: an URB is given back at most as often
  -- as it was submitted in the run, or waited or was given back at its start. An URB that has an
  -- `hcpriv` at the end waits on the port that it names.
  pub given_back_bound :
      {start h : Hcd S} {us : List ℕ} (u : ℕ)
      → IsNamed start
      → Run o net start h us
      → (returned u h.given_back ≤ total start u + submitted u us) × IsNamed h
  given_back_bound u i run = let (named, bound) = Run-total i run in (omega (arith, bound u), named)
