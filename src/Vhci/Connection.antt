-- ===== src/Vhci/Connection.antt =====
-- vhci_hcd.c and vhci_sysfs.c: how a port is attached to a connection and loses it.
pub mod Lifecycle
use usbip.Base.{
  ℕ, ◌==◌, Bool, true, false, not, ◌||◌, List, [], Option, none, some, neg, einval, is_negative,
  ltb, if◌then◌else◌,
}
use usbip.Core.Events.{EhOps, no_event, vdev_event_down}
use usbip.Core.Device.{Status, vdev_null, vdev_error, vdev_notassigned, vhci}
use usbip.Vhci.State.{Vdev, Hcd, update, set_vdev, vdev_event_add, vhci_nports}
use usbip.Vhci.Hcd.{unlink_cleanup}

-- Numbers of bits: USB_PORT_STAT_CONNECTION 0x1, USB_PORT_STAT_LOW_SPEED 0x200,
-- USB_PORT_STAT_HIGH_SPEED 0x400 and USB_PORT_FEAT_C_CONNECTION 16.
abbrev pub bit_connection : ℕ
bit_connection = 0

abbrev pub bit_low_speed : ℕ
bit_low_speed = 9

abbrev pub bit_high_speed : ℕ
bit_high_speed = 10

abbrev pub bit_c_connection : ℕ
bit_c_connection = 16

-- USB_SPEED_LOW, USB_SPEED_FULL, USB_SPEED_HIGH and USB_SPEED_WIRELESS of <linux/usb/ch9.h>
abbrev pub speed_low : ℕ
speed_low = 1

abbrev pub speed_full : ℕ
speed_full = 2

abbrev pub speed_high : ℕ
speed_high = 3

abbrev pub speed_wireless : ℕ
speed_wireless = 4

abbrev pub is_null : Status → Bool
is_null vdev_null = true
is_null _ = false

module _ {S : Type 0} where
  abbrev pub set_bit : Hcd S → ℕ → ℕ → Bool → Hcd S
  set_bit h p bit value = record h {
    port_status = update h.port_status p (update (h.port_status p) bit value);
  }

  -- rh_port_connect
  unfoldable pub rh_port_connect : Hcd S → ℕ → ℕ → Hcd S
  rh_port_connect h p speed =
      let connected : Hcd S = set_bit (set_bit h p bit_connection true) p bit_c_connection true in
      if speed == speed_high
      then set_bit connected p bit_high_speed true
      else if speed == speed_low
      then set_bit connected p bit_low_speed true
      else connected

  -- rh_port_disconnect
  unfoldable pub rh_port_disconnect : Hcd S → ℕ → Hcd S
  rh_port_disconnect h p = set_bit (set_bit h p bit_connection false) p bit_c_connection true

  -- The first half of vhci_shutdown_connection: the threads are stopped, the socket is released.
  abbrev pub release : Hcd S → ℕ → Hcd S
  release h p = set_vdev h p (record (h.vdev p) {
    ud = record (h.vdev p).ud { tcp_rx = false; tcp_tx = false; tcp_socket = none };
  })

  -- vhci_shutdown_connection
  unfoldable pub shutdown_connection : Hcd S → ℕ → Hcd S
  shutdown_connection h p =
      let h' : Hcd S = unlink_cleanup (release h p) p in rh_port_disconnect h' (h'.vdev p).rhport

  -- vhci_device_reset
  unfoldable pub device_reset : Hcd S → ℕ → Hcd S
  device_reset h p = set_vdev h p (record (h.vdev p) {
    speed = 0;
    devid = 0;
    udev = none;
    ud = record (h.vdev p).ud { tcp_socket = none; status = vdev_null };
  })

  -- vhci_device_unusable
  unfoldable pub device_unusable : Hcd S → ℕ → Hcd S
  device_unusable h p =
      set_vdev h p (record (h.vdev p) { ud = record (h.vdev p).ud { status = vdev_error } })

  -- vhci_device_init: a port before its first connection.
  abbrev pub device_init : Vdev S
  device_init = record {
    udev = none;
    devid = 0;
    speed = 0;
    rhport = 0;
    ud = record {
      side = vhci;
      status = vdev_null;
      tcp_socket = none;
      tcp_rx = false;
      tcp_tx = false;
      event = no_event;
    };
    priv_tx = [];
    priv_rx = [];
    unlink_tx = [];
    unlink_rx = [];
  }

  -- The `eh_ops` of port `p`; none of them raises an event.
  abbrev pub vhci_eh_ops : ℕ → EhOps (Hcd S)
  vhci_eh_ops p = record {
    shutdown = λ h. (shutdown_connection h p, no_event);
    reset = λ h. (device_reset h p, no_event);
    unusable = λ h. (device_unusable h p, no_event);
  }

  -- vhci_port_disconnect
  unfoldable pub port_disconnect : Hcd S → ℕ → ℕ × Hcd S
  port_disconnect h p =
      if is_null (h.vdev p).ud.status
      then (neg einval, h)
      else (0, vdev_event_add h p vdev_event_down)

  -- store_detach, for the port that was read from the `count` bytes written.
  unfoldable pub store_detach : Hcd S → ℕ → ℕ → ℕ × Hcd S
  store_detach h count rhport =
      let (err, h') = port_disconnect h rhport in
      if not (ltb rhport vhci_nports)
      then (neg einval, h)
      else if is_negative err
      then (neg einval, h')
      else (count, h')

-- valid_args, whether it returns 0
unfoldable pub valid_args : ℕ → ℕ → Bool
valid_args rhport speed =
    if not (ltb rhport vhci_nports)
    then false
    else speed == speed_low
      || (speed == speed_full || (speed == speed_high || speed == speed_wireless))

module _ {S : Type 0} where
  -- The port once it is attached and its threads were started.
  abbrev pub attached : Hcd S → ℕ → ℕ → ℕ → S → Hcd S
  attached h rhport devid speed s = set_vdev h rhport (record (h.vdev rhport) {
    devid = devid;
    speed = speed;
    ud = record (h.vdev rhport).ud {
      tcp_socket = some s;
      status = vdev_notassigned;
      tcp_rx = true;
      tcp_tx = true;
    };
  })

  -- store_attach, for the numbers that were read from the `count` bytes written; `socket` is what
  -- sockfd_to_socket finds.
  unfoldable pub store_attach : Hcd S → ℕ → ℕ → Option S → ℕ → ℕ → ℕ × Hcd S
  store_attach h count rhport socket devid speed =
      if not (valid_args rhport speed) then (neg einval, h) else elim socket [
        | none ↦ (neg einval, h)
        | some s ↦
            if not (is_null (h.vdev rhport).ud.status)
            then (neg einval, h)
            else (count, rh_port_connect (attached h rhport devid speed s) rhport speed)
      ]
