-- ===== src/Vhci/State.antt =====
-- vhci.h: the controller, its ports, and the requests that wait on each of them.
use usbip.Base.{
  Bool, ℕ, ◌+◌, ◌-◌, ◌^◌, List, [], ◌∷◌, Option, none, some, u32, is_negative, ◌==◌, if◌then◌else◌,
}
use usbip.Proto.Urb.{Urb}
use usbip.Core.Events.{Events}
use usbip.Core.Device.{UsbipDevice, event_add}

-- `struct vhci_priv`: an URB that is on its way. The URB is named by its address; the USB core
-- enqueues an URB again only after it was given back, so an URB has one `vhci_priv` at most.
pub record Priv : Type 0 where
  pub seqnum : ℕ
  pub urb : ℕ

-- `struct vhci_unlink`
pub record Unlink : Type 0 where
  pub seqnum : ℕ
  pub unlink_seqnum : ℕ

-- `struct vhci_device`; `udev` is the identity of the device that the pointer names.
pub record Vdev (S : Type 0) : Type 0 where
  pub udev : Option ℕ
  pub devid : ℕ
  pub speed : ℕ
  pub rhport : ℕ
  pub ud : UsbipDevice S
  pub priv_tx : List Priv
  pub priv_rx : List Priv
  pub unlink_tx : List Unlink
  pub unlink_rx : List Unlink

-- An URB that was handed back to its driver by usb_hcd_giveback_urb, with its status.
pub record GivenBack : Type 0 where
  pub urb : ℕ
  pub status : ℕ

-- `urb->hcpriv`: the port and the number of the request.
pub record Hcpriv : Type 0 where
  pub port : ℕ
  pub seqnum : ℕ

-- `the_controller`, with the memory of the URBs and, newest first, what was given back.
-- `port_status` holds the bits of the word of each port; `resuming` and `re_timeout` are those of
-- the root hub, and `suspended` says whether the state of the `usb_hcd` is HC_STATE_SUSPENDED.
pub record Hcd (S : Type 0) : Type 0 where
  pub seqnum : ℕ
  pub port_status : ℕ → ℕ → Bool
  pub resuming : Bool
  pub re_timeout : ℕ
  pub suspended : Bool
  pub vdev : ℕ → Vdev S
  pub urb : ℕ → Urb
  pub hcpriv : ℕ → Option Hcpriv
  pub given_back : List GivenBack

abbrev pub vhci_nports : ℕ
vhci_nports = 8

-- A function changed at one argument.
abbrev pub update {ℓ} : {A : Type ℓ} → (ℕ → A) → ℕ → A → ℕ → A
update f k a n = if n == k then a else f n

module _ {S : Type 0} where
  abbrev pub set_vdev : Hcd S → ℕ → Vdev S → Hcd S
  set_vdev h p v = record h { vdev = update h.vdev p v }

  abbrev pub set_urb : Hcd S → ℕ → Urb → Hcd S
  set_urb h u urb = record h { urb = update h.urb u urb }

  abbrev pub set_hcpriv : Hcd S → ℕ → Option Hcpriv → Hcd S
  set_hcpriv h u x = record h { hcpriv = update h.hcpriv u x }

  -- `usbip_event_add(&vdev->ud, event)`
  abbrev pub vdev_event_add : Hcd S → ℕ → Events → Hcd S
  vdev_event_add h p e = set_vdev h p (record (h.vdev p) { ud = event_add (h.vdev p).ud e })

  -- `usb_hcd_giveback_urb(hcd, urb, urb->status)`
  abbrev pub giveback : Hcd S → ℕ → Hcd S
  giveback h u = record h {
    given_back = record { urb = u; status = (h.urb u).status } ∷ h.given_back;
  }

-- `atomic_inc_return(&the_controller->seqnum)`, an `int` that is stored in an `unsigned long` of 64
-- bits: from 2 ^ 31 on it is extended by its sign.
abbrev pub next_seqnum : ℕ → ℕ
next_seqnum counter = u32 (counter + 1)

abbrev pub to_ulong : ℕ → ℕ
to_ulong i = if is_negative i then 2 ^ 64 - 2 ^ 32 + i else i

-- The first entry with a number, and the list without it.
unfoldable pub find : ℕ → List Priv → Option Priv
find n [] = none
find n (p ∷ ps) = if p.seqnum == n then some p else find n ps

unfoldable pub remove : ℕ → List Priv → List Priv
remove n [] = []
remove n (p ∷ ps) = if p.seqnum == n then ps else p ∷ remove n ps

unfoldable pub find_unlink : ℕ → List Unlink → Option Unlink
find_unlink n [] = none
find_unlink n (x ∷ xs) = if x.seqnum == n then some x else find_unlink n xs

unfoldable pub remove_unlink : ℕ → List Unlink → List Unlink
remove_unlink n [] = []
remove_unlink n (x ∷ xs) = if x.seqnum == n then xs else x ∷ remove_unlink n xs

-- `list_del(&priv->list)`, wherever the entry of an URB stands.
unfoldable pub remove_urb : ℕ → List Priv → List Priv
remove_urb u [] = []
remove_urb u (p ∷ ps) = if p.urb == u then ps else p ∷ remove_urb u ps
