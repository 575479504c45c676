-- ===== src/Examples/Exchange.antt =====
-- The theorems on usbipd and the usbip command, at a daemon that exports one device.
use usbip.Base.{ℕ, ◌<◌, ◌≡◌, refl, ◌⊎◌, Bool, true, List, [], ◌∷◌, ◌++◌, Option, none, some, arith}
use usbip.Userspace.Devices.{UsbDevice, ExportedDevice, strncpy, strncmp_equal}
use usbip.Userspace.Devices.Wire.{UsbDeviceFits}
use usbip.Userspace.Network.Receiving.{Failed}
use usbip.Userspace.Usbipd.{recv_pdu, find_exported, reply_import, send_reply_devlist}
use usbip.Userspace.Usbipd.Serving.{granted}
use usbip.Userspace.Attach.{import_request, query_import_device}
use usbip.Userspace.Attach.Import.{import_granted}
use usbip.Userspace.Listing.{get_exported_devices}
use usbip.Userspace.Listing.Printing.{device_lines, Lists}
use usbip.Userspace.Listing.Devices.{devices_listed}
use usbip.Core.Device.{vdev_notassigned}
use usbip.Vhci.State.{Hcd, vhci_nports}
use usbip.Vhci.Connection.{is_null}
use usbip.Userspace.Ports.{import_device, get_devid}
use usbip.Userspace.Ports.Attaching.{AllUsed, statuses, write_attach, import_device_attaches}
use usbip.Examples.States.{disconnected}
use usbip.Examples.{little_endian, big_endian, script}
use usbip.Examples.Network.{little_short, big_short}

-- "1-2"
abbrev busid : List ℕ
busid = 49 ∷ 45 ∷ 50 ∷ []

unfoldable camera : UsbDevice
unfolding strncpy
camera = record {
  path = strncpy 256 (47 ∷ 115 ∷ []);
  busid = strncpy 32 busid;
  busnum = 1;
  devnum = 4;
  speed = 3;
  id_vendor = 1193;
  id_product = 12859;
  bcd_device = 2;
  b_device_class = 0;
  b_device_sub_class = 0;
  b_device_protocol = 0;
  b_configuration_value = 1;
  b_num_configurations = 1;
  b_num_interfaces = 1;
}

abbrev exported_camera : ExportedDevice
exported_camera = record {
  status = 1;
  udev = camera;
  uinf =
      record {
        b_interface_class = 6;
        b_interface_sub_class = 1;
        b_interface_protocol = 1;
        padding = 0;
      }
      ∷ [];
}

camera-Fits : UsbDeviceFits camera
unfolding camera strncpy
camera-Fits = record {
  path = refl;
  busid = refl;
  busnum = omega arith;
  devnum = omega arith;
  speed = omega arith;
  id_vendor = omega arith;
  id_product = omega arith;
  bcd_device = omega arith;
}

abbrev devices : List ExportedDevice
devices = exported_camera ∷ []

abbrev can_write : ExportedDevice → Bool
can_write e = true

-- What arrives at each end, and a byte more.
abbrev at_usbipd : List ℕ
at_usbipd = import_request big_endian big_short busid ++ 9 ∷ []

abbrev at_usbip : List ℕ
at_usbip =
    (reply_import little_endian little_short can_write (find_exported busid devices)).1 ++ 8 ∷ []

abbrev listing : List ℕ
listing = send_reply_devlist little_endian little_short devices ++ 7 ∷ []

camera-granted : granted can_write (find_exported busid devices) ≡ some camera
unfolding find_exported camera strncmp_equal strncpy
camera-granted = refl

import_granted_example :
    ((r : Bool × List ℕ × List ℕ) × (recv_pdu script little_endian little_short can_write
          (some devices)
          at_usbipd
        ≡ some r)
      × (((r.0, r.1)
            ≡ reply_import little_endian little_short can_write (find_exported busid devices))
          ⊎ ((r.1 ≡ []) × Failed script r.2)))
    × ((r : Option UsbDevice × List ℕ) × (query_import_device script big_endian big_short busid
            at_usbip
          ≡ some r)
        × (((r.0 ≡ granted can_write (find_exported busid devices)) × (r.1 ≡ 8 ∷ []))
            ⊎ ((r.0 ≡ none) × Failed script r.1)))
import_granted_example =
    import_granted script script little_endian big_endian little_short big_short can_write devices
      busid (9 ∷ []) (8 ∷ []) at_usbipd at_usbip (camera-Fits, tt) (omega arith) refl refl

devices_listed_example :
    Lists script
      (get_exported_devices script big_endian big_short listing)
      (device_lines devices)
      (7 ∷ [])
unfolding camera
devices_listed_example =
    devices_listed script little_endian big_endian little_short big_short devices listing (7 ∷ [])
      ((camera-Fits, refl), tt) (omega arith) refl

import_device_attaches_example :
    ((import_device
          (write_attach disconnected 8 (1 ∷ []) camera)
          vhci_nports
          (statuses disconnected 8 (1 ∷ []) camera)
          camera
          disconnected
        ≡ (none, disconnected))
      × AllUsed vhci_nports (statuses disconnected 8 (1 ∷ []) camera))
    ⊎ ((p : ℕ) × (g : Hcd (List ℕ)) × (import_device
            (write_attach disconnected 8 (1 ∷ []) camera)
            vhci_nports
            (statuses disconnected 8 (1 ∷ []) camera)
            camera
            disconnected
          ≡ (some p, g))
        × (p < vhci_nports)
        × AllUsed p (statuses disconnected 8 (1 ∷ []) camera)
        × (is_null (statuses disconnected 8 (1 ∷ []) camera p) ≡ true)
        × ((g.vdev p).ud.tcp_socket ≡ some (1 ∷ []))
        × ((g.vdev p).devid ≡ get_devid camera.busnum camera.devnum)
        × ((g.vdev p).ud.status ≡ vdev_notassigned))
unfolding camera
import_device_attaches_example =
    import_device_attaches disconnected 8 (1 ∷ []) camera (omega arith) (omega arith) (omega arith)
