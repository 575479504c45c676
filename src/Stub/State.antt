-- ===== src/Stub/State.antt =====
-- stub.h: an exported device and the requests that it works on.
use usbip.Base.{ℕ, Bool, true, List, [], ◌∷◌, ◌++◌, Option, none, some, ◌==◌, if◌then◌else◌}
use usbip.Proto.Urb.{Urb, PipeType}
use usbip.Core.Events.{Events, vdev_event_error_malloc}
use usbip.Core.Device.{UsbipDevice, event_add}

-- `struct stub_priv`; the URB is named by its address.
pub record StubPriv : Type 0 where
  pub seqnum : ℕ
  pub urb : ℕ
  pub unlinking : Bool

-- `struct stub_unlink`
pub record StubUnlink : Type 0 where
  pub seqnum : ℕ
  pub status : ℕ

-- `struct stub_device`. `ep_in` and `ep_out` are the endpoints of the real device, by their transfer
-- type, and `devnum` its number. `next_urb` is an address at which no URB was allocated yet, `urb`
-- the memory of the URBs, and `submitted` those given to usb_submit_urb, newest first.
pub record Sdev (S : Type 0) : Type 0 where
  pub devid : ℕ
  pub devnum : ℕ
  pub ep_in : ℕ → Option PipeType
  pub ep_out : ℕ → Option PipeType
  pub ud : UsbipDevice S
  pub priv_init : List StubPriv
  pub priv_tx : List StubPriv
  pub priv_free : List StubPriv
  pub unlink_tx : List StubUnlink
  pub unlink_free : List StubUnlink
  pub next_urb : ℕ
  pub urb : ℕ → Urb
  pub submitted : List ℕ

module _ {S : Type 0} where
  -- `usbip_event_add(&sdev->ud, event)`
  abbrev pub sdev_event_add : Sdev S → Events → Sdev S
  sdev_event_add d e = record d { ud = event_add d.ud e }

  -- stub_enqueue_ret_unlink; `memory` says whether there is memory for the entry.
  abbrev pub enqueue_ret_unlink : Bool → Sdev S → ℕ → ℕ → Sdev S
  enqueue_ret_unlink memory d seqnum status =
      if memory
      then record d { unlink_tx = d.unlink_tx ++ record { seqnum = seqnum; status = status } ∷ [] }
      else sdev_event_add d vdev_event_error_malloc

-- The entry of a list with a number; the list where that entry was marked as being unlinked, under
-- the number `m` of the unlink request; and the list without the entry of an URB.
unfoldable pub find_priv : ℕ → List StubPriv → Option StubPriv
find_priv n [] = none
find_priv n (p ∷ ps) = if p.seqnum == n then some p else find_priv n ps

unfoldable pub mark_unlinking : ℕ → ℕ → List StubPriv → List StubPriv
mark_unlinking n m [] = []
mark_unlinking n m (p ∷ ps) =
    if p.seqnum == n
    then record p { seqnum = m; unlinking = true } ∷ ps
    else p ∷ mark_unlinking n m ps

unfoldable pub find_urb : ℕ → List StubPriv → Option StubPriv
find_urb u [] = none
find_urb u (p ∷ ps) = if p.urb == u then some p else find_urb u ps

unfoldable pub remove_priv : ℕ → List StubPriv → List StubPriv
remove_priv u [] = []
remove_priv u (p ∷ ps) = if p.urb == u then ps else p ∷ remove_priv u ps
