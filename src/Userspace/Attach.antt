-- ===== src/Userspace/Attach.antt =====
-- userspace/src/usbip_attach.c: query_import_device up to the call of import_device.
pub mod Import
use usbip.Base.{ℕ, ◌-◌, List, [], ◌∷◌, ◌++◌, Option, none, some, is_negative, if◌then◌else◌}
use usbip.Core.Socket.{Socket}
use usbip.Proto.Endian.{ByteOrder}
use usbip.Userspace.Network.{ShortOrder, send_op_common, net_recv, net_recv_op_common}
use usbip.Userspace.Devices.{
  UsbDevice, op_req_import, op_rep_import, bus_id_size, usb_device_size, strncmp_equal, strncpy,
  read_device,
}

module _ (o : ByteOrder) (short : ShortOrder) where
  -- The bytes that query_import_device sends.
  unfoldable pub import_request : List ℕ → List ℕ
  unfolding send_op_common strncpy
  import_request busid =
      send_op_common o short op_req_import 0 ++ (strncpy (bus_id_size - 1) busid ++ 0 ∷ [])

module _ (net : Socket) (o : ByteOrder) (short : ShortOrder) where
  open net use {S}

  -- query_import_device once its request is sent: the device that it gives to import_device, `none`
  -- where it returns -1 before that.
  unfoldable pub query_import_device : List ℕ → S → Option (Option UsbDevice × S)
  unfolding net_recv net_recv_op_common strncmp_equal read_device
  query_import_device busid s = elim (net_recv_op_common net o short op_rep_import s) [
    | none ↦ none
    | some (none, s') ↦ some (none, s')
    | some (some code, s') ↦ elim (net_recv net s' usb_device_size) [
      | none ↦ none
      | some (rc, bytes, s'') ↦
          let udev : UsbDevice = read_device o short bytes in
          if is_negative rc
          then some (none, s'')
          else if strncmp_equal bus_id_size udev.busid busid
          then some (some udev, s'')
          else some (none, s'')
    ]
  ]
