-- ===== src/Userspace/Usbipd.antt =====
-- userspace/src/usbipd.c: recv_pdu and the requests that it answers.
pub mod Serving
use usbip.Base.{
  ℕ, Bool, true, false, ◌&&◌, List, [], ◌∷◌, ◌++◌, Option, none, some, length, is_negative, u32,
  ◌==◌, if◌then◌else◌,
}
use usbip.Core.Socket.{Socket}
use usbip.Proto.Endian.{ByteOrder}
use usbip.Userspace.Network.{
  ShortOrder, op_unspec, st_ok, pack_uint32, send_op_common, net_recv, net_recv_op_common,
}
use usbip.Userspace.Devices.{
  ExportedDevice, op_req_import, op_rep_import, op_req_devlist, op_rep_devlist, bus_id_size,
  strncmp_equal, interfaces_bytes, device_bytes,
}

-- SDEV_ST_AVAILABLE
abbrev pub sdev_st_available : ℕ
sdev_st_available = 1

-- ST_NA
abbrev pub st_na : ℕ
st_na = 1

-- The first device whose busid is the requested one.
unfoldable pub find_exported : List ℕ → List ExportedDevice → Option ExportedDevice
find_exported busid [] = none
find_exported busid (e ∷ es) =
    if strncmp_equal bus_id_size busid e.udev.busid then some e else find_exported busid es

-- usbip_host_export_device, with the result of the write of the descriptor to usbip_sockfd: whether
-- the device was exported.
abbrev pub host_export_device : (ExportedDevice → Bool) → ExportedDevice → Bool
host_export_device write edev = edev.status == sdev_st_available && write edev

module _ (o : ByteOrder) (short : ShortOrder) where
  -- The answer to a request to import: whether it is a success, and the bytes that are handed to
  -- usbip_net_send as long as no send fails.
  unfoldable pub reply_import : (ExportedDevice → Bool) → Option ExportedDevice → Bool × List ℕ
  unfolding send_op_common device_bytes
  reply_import write none = (false, send_op_common o short op_rep_import st_na)
  reply_import write (some e) =
      if host_export_device write e
      then (true, send_op_common o short op_rep_import st_ok ++ device_bytes o short e.udev)
      else (false, send_op_common o short op_rep_import st_na)

  unfoldable pub devlist_bytes : List ExportedDevice → List ℕ
  unfolding device_bytes interfaces_bytes
  devlist_bytes [] = []
  devlist_bytes (e ∷ es) =
      device_bytes o short e.udev
      ++ (interfaces_bytes e.udev.b_num_interfaces e.uinf ++ devlist_bytes es)

  -- send_reply_devlist: the bytes that are handed to usbip_net_send as long as no send fails.
  unfoldable pub send_reply_devlist : List ExportedDevice → List ℕ
  unfolding devlist_bytes send_op_common
  send_reply_devlist es =
      send_op_common o short op_rep_devlist st_ok
      ++ (o.store32 (pack_uint32 o short true (u32 (length es))) ++ devlist_bytes es)

module _ (net : Socket) (o : ByteOrder) (short : ShortOrder) where
  open net use {S}

  -- recv_request_import: whether it returns 0, what it sends, and the socket.
  unfoldable pub recv_request_import :
      (ExportedDevice → Bool) → List ExportedDevice → S → Option (Bool × List ℕ × S)
  unfolding net_recv find_exported reply_import
  recv_request_import write edev_list s = elim (net_recv net s bus_id_size) [
    | none ↦ none
    | some (rc, busid, s') ↦
        let (ok, sent) = reply_import o short write (find_exported busid edev_list) in
        if is_negative rc then some (false, [], s') else some (ok, sent, s')
  ]

  -- recv_request_devlist, whose request is empty
  unfoldable pub recv_request_devlist : List ExportedDevice → S → Option (Bool × List ℕ × S)
  unfolding net_recv send_reply_devlist
  recv_request_devlist edev_list s = elim (net_recv net s 0) [
    | none ↦ none
    | some (rc, bytes, s') ↦
        if is_negative rc
        then some (false, [], s')
        else some (true, send_reply_devlist o short edev_list, s')
  ]

  -- recv_pdu, with the list that usbip_host_refresh_device_list makes, if it does not fail.
  unfoldable pub recv_pdu :
      (ExportedDevice → Bool) → Option (List ExportedDevice) → S → Option (Bool × List ℕ × S)
  unfolding net_recv_op_common recv_request_import recv_request_devlist
  recv_pdu write refreshed s = elim (net_recv_op_common net o short op_unspec s) [
    | none ↦ none
    | some (none, s') ↦ some (false, [], s')
    | some (some code, s') ↦ elim refreshed [
      | none ↦ some (false, [], s')
      | some edev_list ↦
          if code == op_req_devlist
          then recv_request_devlist edev_list s'
          else if code == op_req_import
          then recv_request_import write edev_list s'
          else some (false, [], s')
    ]
  ]
