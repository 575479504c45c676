-- ===== src/Core/Device.antt =====
-- `struct usbip_device`, the part that a stub device and a virtual device have in common.
use usbip.Base.{Bool, Option}
use usbip.Core.Events.{Events, union}

pub data Side : Type 0 where
  vhci stub : Side

-- `enum usbip_status`: the first three are the stub's, the others those of a virtual device.
pub data Status : Type 0 where
  sdev_available sdev_used sdev_error vdev_null vdev_notassigned vdev_used vdev_error : Status

-- A socket is a value of `S`. `tcp_rx` and `tcp_tx` say whether the thread is there.
pub record UsbipDevice (S : Type 0) : Type 0 where
  pub side : Side
  pub status : Status
  pub tcp_socket : Option S
  pub tcp_rx : Bool
  pub tcp_tx : Bool
  pub event : Events

-- usbip_event_add
abbrev pub event_add : {S : Type 0} → UsbipDevice S → Events → UsbipDevice S
event_add ud e = record ud { event = union ud.event e }
