-- ===== src/Userspace/Ports.antt =====
-- userspace/libsrc/vhci_driver.c: how a free port is chosen and attached; usbip_attach.c:
-- import_device.
pub mod Attaching
use usbip.Base.{ℕ, zero, suc, ◌+◌, ◌*◌, ◌%◌, ◌^◌, Option, none, some, is_negative, if◌then◌else◌}
use usbip.Core.Device.{Status}
use usbip.Vhci.Connection.{is_null}
use usbip.Userspace.Devices.{UsbDevice}

-- The rounds of usbip_vhci_get_free_port that are left, from port i on.
unfoldable pub free_port_from : ℕ → ℕ → (ℕ → Status) → Option ℕ
free_port_from zero i idev = none
free_port_from (suc n) i idev =
    let rest : Option ℕ = free_port_from n (suc i) idev in if is_null (idev i) then some i else rest

-- usbip_vhci_get_free_port, with the statuses that were read: the port, `none` for -1.
unfoldable pub get_free_port : ℕ → (ℕ → Status) → Option ℕ
unfolding free_port_from
get_free_port nports idev = free_port_from nports 0 idev

-- get_devid, whose arguments are bytes
abbrev pub get_devid : ℕ → ℕ → ℕ
get_devid busnum devnum = busnum % 2 ^ 8 * 2 ^ 16 + devnum % 2 ^ 8

module _ {W : Type 0} (attach : ℕ → ℕ → ℕ → W → ℕ × W) where
  -- usbip_vhci_attach_device: `attach` is the write of the port, the device id and the speed to the
  -- attribute.
  abbrev pub attach_device : ℕ → UsbDevice → W → ℕ × W
  attach_device port udev w = attach (port % 2 ^ 8) (get_devid udev.busnum udev.devnum) udev.speed w

  -- import_device, once the driver is open: the port, `none` for -1.
  unfoldable pub import_device : ℕ → (ℕ → Status) → UsbDevice → W → Option ℕ × W
  unfolding get_free_port
  import_device nports idev udev w = elim (get_free_port nports idev) [
    | none ↦ (none, w)
    | some port ↦
        let (rc, w') = attach_device port udev w in
        if is_negative rc then (none, w') else (some port, w')
  ]
