-- ===== src/Userspace/Listing.antt =====
-- userspace/src/usbip_list.c: get_exported_devices, which asks usbipd for its devices and prints
-- them.
pub mod Printing
pub mod Devices
use usbip.Base.{
  ℕ, zero, suc, Bool, true, false, List, [], ◌∷◌, ◌++◌, Option, none, some, is_negative, ◌==◌,
  if◌then◌else◌,
}
use usbip.Core.Socket.{Socket}
use usbip.Proto.Endian.{ByteOrder}
use usbip.Userspace.Network.{ShortOrder, pack_uint32, net_recv, net_recv_op_common}
use usbip.Userspace.Devices.{
  UsbDevice, UsbInterface, usb_device_size, op_rep_devlist, byte_of, read_device,
}

-- What is printed: a device, or an interface of the device before it.
pub data Line : Type 0 where
  device_line : UsbDevice → Line
  interface_line : UsbInterface → Line

-- The size of `struct usbip_usb_interface`.
abbrev pub usb_interface_size : ℕ
usb_interface_size = 4

-- The structure, read from memory.
abbrev pub load_interface : List ℕ → UsbInterface
load_interface bytes = record {
  b_interface_class = byte_of 0 bytes;
  b_interface_sub_class = byte_of 1 bytes;
  b_interface_protocol = byte_of 2 bytes;
  padding = byte_of 3 bytes;
}

-- What is printed, then more of it.
abbrev pub print {ℓ} :
    {S : Type ℓ} → List Line → Option (Bool × List Line × S) → Option (Bool × List Line × S)
print lines none = none
print lines (some (ok, more, s)) = some (ok, lines ++ more, s)

module _ (net : Socket) where
  open net use {S}

  -- The loop over the interfaces of a device: whether no receive fails, what it prints, and the
  -- socket.
  unfoldable pub read_interfaces : ℕ → S → Option (Bool × List Line × S)
  unfolding net_recv
  read_interfaces zero s = some (true, [], s)
  read_interfaces (suc n) s = elim (net_recv net s usb_interface_size) [
    | none ↦ none
    | some (rc, bytes, s') ↦
        let rest : Option (Bool × List Line × S) = read_interfaces n s' in
        if is_negative rc
        then some (false, [], s')
        else print (interface_line (load_interface bytes) ∷ []) rest
  ]

module _ (net : Socket) (o : ByteOrder) (short : ShortOrder) where
  open net use {S}

  -- The loop over the devices.
  unfoldable pub read_devices : ℕ → S → Option (Bool × List Line × S)
  unfolding net_recv read_device read_interfaces
  read_devices zero s = some (true, [], s)
  read_devices (suc n) s = elim (net_recv net s usb_device_size) [
    | none ↦ none
    | some (rc, bytes, s') ↦
        let udev : UsbDevice = read_device o short bytes in
        let device : Option (Bool × List Line × S) =
          elim (read_interfaces net udev.b_num_interfaces s') [
            | none ↦ none
            | some (ok, lines, s'') ↦
                let rest : Option (Bool × List Line × S) = read_devices n s'' in
                if ok then print lines rest else some (false, lines, s'')
          ] in
        if is_negative rc then some (false, [], s') else print (device_line udev ∷ []) device
  ]

  -- get_exported_devices once its request is sent: whether it returns 0, what it prints, and the
  -- socket.
  unfoldable pub get_exported_devices : S → Option (Bool × List Line × S)
  unfolding net_recv_op_common net_recv read_devices
  get_exported_devices s = elim (net_recv_op_common net o short op_rep_devlist s) [
    | none ↦ none
    | some (none, s') ↦ some (false, [], s')
    | some (some code, s') ↦ elim (net_recv net s' 4) [
      | none ↦ none
      | some (rc, bytes, s'') ↦
          let ndev : ℕ = pack_uint32 o short false (o.load32 bytes) in
          let devices : Option (Bool × List Line × S) = read_devices ndev s'' in
          if is_negative rc
          then some (false, [], s'')
          else if ndev == 0
          then some (true, [], s'')
          else devices
    ]
  ]
