-- ===== src/Vhci/Rx.antt =====
-- vhci_rx.c: the replies of the peer.
use usbip.Base.{
  ℕ, Bool, true, false, ◌&&◌, List, [], ◌∷◌, Option, none, some, neg, u32, eagain, is_negative,
  ◌==◌, if◌then◌else◌,
}
use usbip.Proto.Header.{Header, ret_submit, ret_unlink, header_size, load_header, unlink_status}
use usbip.Proto.Endian.{ByteOrder, header_correct_endian}
use usbip.Proto.Urb.{Urb}
use usbip.Proto.Pack.{pack_pdu}
use usbip.Core.Events.{Events, vdev_event_error_tcp, vdev_event_down}
use usbip.Core.Device.{vhci}
use usbip.Core.Socket.{Socket}
use usbip.Core.Recv.{usbip_recv, recv_xbuff}
use usbip.Core.Iso.{recv_iso}
use usbip.Core.Pad.{pad_iso}
use usbip.Vhci.State.{
  Unlink, Vdev, Hcd, set_vdev, set_urb, vdev_event_add, giveback, find_unlink, remove_unlink,
}
use usbip.Vhci.Hcd.{pickup_urb_and_free_priv}

module _ (o : ByteOrder) (net : Socket) where
  open net use {S}

  abbrev pub set_socket : Hcd S → ℕ → Option S → Hcd S
  set_socket h p sock =
      set_vdev h p (record (h.vdev p) { ud = record (h.vdev p).ud { tcp_socket = sock } })

  -- What recv_xbuff or recv_iso did: to the URB, to the events and to the socket of the port.
  abbrev pub received : Hcd S → ℕ → ℕ → Events → Urb → Option S → Hcd S
  received h p u events urb sock = vdev_event_add (set_socket (set_urb h u urb) p sock) p events

  -- The end of vhci_recv_ret_submit, once the packet descriptors were read.
  unfoldable pub recv_submit_iso : Hcd S → ℕ → ℕ → ℕ × Events × Urb × Option S → Hcd S
  recv_submit_iso h p u (ret, events, urb, sock) =
      let h' : Hcd S = received h p u events urb sock in
      if is_negative ret then h' else giveback (set_urb h' u (pad_iso urb)) u

  -- Once the data was read.
  unfoldable pub recv_submit_xbuff : Bool → Hcd S → ℕ → ℕ → ℕ × Events × Urb × Option S → Hcd S
  recv_submit_xbuff memory h p u (ret, events, urb, sock) =
      let h' : Hcd S = received h p u events urb sock in
      if is_negative ret then h' else recv_submit_iso h' p u (recv_iso o net memory vhci urb sock)

  -- Once the URB was found.
  unfoldable pub recv_submit_found : Bool → Hcd S → ℕ → ℕ → Header → Hcd S
  recv_submit_found memory h p u pdu =
      let urb : Urb = (pack_pdu pdu (h.urb u) ret_submit false).1 in
      recv_submit_xbuff memory (set_urb h u urb) p u
        (recv_xbuff net vhci urb (h.vdev p).ud.tcp_socket)

  -- vhci_recv_ret_submit. Where the data cannot be read the URB is not given back.
  unfoldable pub recv_ret_submit : Bool → Hcd S → ℕ → Header → Hcd S
  recv_ret_submit memory h p pdu = elim (pickup_urb_and_free_priv h p pdu.base.seqnum) [
    | none ↦ vdev_event_add h p vdev_event_error_tcp
    | some (u, h') ↦ recv_submit_found memory h' p u pdu
  ]

  -- dequeue_pending_unlink
  abbrev pub dequeue_pending_unlink : Hcd S → ℕ → Header → Option (Unlink × Hcd S)
  dequeue_pending_unlink h p pdu =
      let v : Vdev S = h.vdev p in
      elim (find_unlink pdu.base.seqnum v.unlink_rx) [
        | none ↦ none
        | some x ↦
            some
              (x, set_vdev h p (record v { unlink_rx = remove_unlink pdu.base.seqnum v.unlink_rx }))
      ]

  unfoldable pub settle_unlink : Hcd S → ℕ → Unlink → Header → Hcd S
  settle_unlink h p x pdu = elim (pickup_urb_and_free_priv h p (u32 x.unlink_seqnum)) [
    | none ↦ h
    | some (u, h') ↦ giveback (set_urb h' u (record (h'.urb u) { status = unlink_status pdu })) u
  ]

  -- vhci_recv_ret_unlink. The number of the target becomes a `__u32` when the URB is looked for.
  unfoldable pub recv_ret_unlink : Hcd S → ℕ → Header → Hcd S
  recv_ret_unlink h p pdu = elim (dequeue_pending_unlink h p pdu) [
    | none ↦ h
    | some (x, h') ↦ settle_unlink h' p x pdu
  ]

  -- The `switch` of vhci_rx_pdu.
  unfoldable pub dispatch_pdu : Bool → Hcd S → ℕ → Header → Hcd S
  dispatch_pdu memory h p pdu =
      if pdu.base.command == ret_submit
      then recv_ret_submit memory h p pdu
      else if pdu.base.command == ret_unlink
      then recv_ret_unlink h p pdu
      else vdev_event_add h p vdev_event_error_tcp

  -- vhci_priv_tx_empty, which looks at the requests that were sent.
  abbrev pub priv_tx_empty : Vdev S → Bool
  priv_tx_empty v = elim v.priv_rx [ [] ↦ true | x ∷ xs ↦ false ]

  -- After usbip_recv of the header.
  unfoldable pub rx_header : Bool → Hcd S → ℕ → ℕ → List ℕ → Hcd S
  unfolding dispatch_pdu
  rx_header memory h p ret bytes =
      let pdu : Header = header_correct_endian o (load_header o.load32 bytes) false in
      let failed : Hcd S = vdev_event_add h p vdev_event_error_tcp in
      if is_negative ret
      then if (ret == neg eagain && priv_tx_empty (h.vdev p)) then h else failed
      else if ret == 0
      then vdev_event_add h p vdev_event_down
      else if ret == header_size
      then dispatch_pdu memory h p pdu
      else failed

  -- vhci_rx_pdu
  unfoldable pub rx_pdu : Bool → Hcd S → ℕ → Hcd S
  unfolding rx_header
  rx_pdu memory h p =
      let (ret, bytes, sock) = usbip_recv net (h.vdev p).ud.tcp_socket true header_size in
      rx_header memory (set_socket h p sock) p ret bytes
