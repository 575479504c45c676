-- ===== src/Vhci/Trace.antt =====
-- The runs of the virtual host controller: its operations in any order (vhci_hcd.c, vhci_rx.c,
-- vhci_tx.c, vhci_sysfs.c).
pub mod Settles
pub mod Ports
pub mod Receiving
pub mod Transmitting
pub mod Status
pub mod Life
pub mod Dequeue
pub mod Enqueue
pub mod Safety
use usbip.Base.{ℕ, zero, suc, ◌+◌, ◌<◌, ◌≡◌, Bool, List, [], ◌∷◌, Option, some}
use usbip.Proto.Endian.{ByteOrder}
use usbip.Core.Socket.{Socket}
use usbip.Vhci.State.{Hcd, vhci_nports}
use usbip.Vhci.Hcd.{urb_enqueue, urb_dequeue}
use usbip.Vhci.Connection.{
  shutdown_connection, device_reset, device_unusable, store_attach, store_detach,
}
use usbip.Vhci.Rx.{rx_pdu}
use usbip.Vhci.Tx.{send_cmd_submit, send_cmd_unlink}
use usbip.Vhci.RootHub.{Clock, Answer, hub_control}

module _ (o : ByteOrder) (net : Socket) where
  open net use {S}

  -- What happens between two submissions: the USB core takes an URB back, a thread of a port
  -- receives or sends, the handler of its events runs one of its operations, a user attaches or
  -- detaches a port, the USB core sends a request to the root hub.
  pub data Step : Hcd S → Hcd S → Type 0 where
    dequeue : (h : Hcd S) (check u : ℕ) (memory : Bool) → Step h (urb_dequeue check memory h u).1
    receive :
        (h : Hcd S) (p : ℕ) (memory : Bool) → p < vhci_nports → Step h (rx_pdu o net memory h p)
    send :
        (h h' : Hcd S) (fuel p : ℕ) (memory ok : Bool)
        → p < vhci_nports
        → send_cmd_submit o net fuel memory h p ≡ some (ok, h')
        → Step h h'
    send_unlink :
        (h h' : Hcd S) (fuel p : ℕ) (ok : Bool)
        → p < vhci_nports
        → send_cmd_unlink o net fuel h p ≡ some (ok, h')
        → Step h h'
    shutdown : (h : Hcd S) (p : ℕ) → p < vhci_nports → Step h (shutdown_connection h p)
    reset : (h : Hcd S) (p : ℕ) → p < vhci_nports → Step h (device_reset h p)
    unusable : (h : Hcd S) (p : ℕ) → p < vhci_nports → Step h (device_unusable h p)
    attach :
        (h : Hcd S) (count rhport : ℕ) (socket : Option S) (devid speed : ℕ)
        → Step h (store_attach h count rhport socket devid speed).1
    detach : (h : Hcd S) (count rhport : ℕ) → Step h (store_detach h count rhport).1
    hub :
        (h h' : Hcd S) (accessible : Bool) (clock : Clock) (request value w ret : ℕ)
        (answer : Answer)
        → hub_control accessible clock h request value w ≡ some (ret, answer, h')
        → Step h h'

  -- A run from a state, with the URBs that were submitted in it, newest first.
  pub data Run (start : Hcd S) : Hcd S → List ℕ → Type 0 where
    here : Run start start []
    next : {h h' : Hcd S} {us : List ℕ} → Run start h us → Step h h' → Run start h' us
    submit :
        {h : Hcd S} {us : List ℕ} (link u : ℕ) (memory : Bool)
        → Run start h us
        → Run start (urb_enqueue link memory h u).1 (u ∷ us)
