-- ===== src/Vhci/Tx.antt =====
-- vhci_tx.c: sending the queued requests.
use usbip.Base.{
  ℕ, zero, suc, ◌+◌, Bool, true, false, not, ◌&&◌, List, [], ◌∷◌, ◌++◌, Option, none, some, u32,
  take, is_positive, ◌==◌, if◌then◌else◌,
}
use usbip.Proto.Header.{
  Header, HeaderBasic, cmd_submit, cmd_unlink, dir_in, dir_out, zero_header, header_size, memory,
}
use usbip.Proto.Endian.{ByteOrder, header_correct_endian}
use usbip.Proto.Urb.{Urb, is_isochronous}
use usbip.Proto.Pack.{pack_pdu}
use usbip.Core.Events.{sdev_event_error_malloc, vdev_event_error_tcp}
use usbip.Core.Socket.{Socket}
use usbip.Core.Iso.{alloc_iso_desc_pdu}
use usbip.Vhci.State.{Priv, Unlink, Vdev, Hcd, set_vdev, vdev_event_add}

-- setup_cmd_submit_pdu, on a header that was cleared. A number goes into 32 bits.
unfoldable pub setup_cmd_submit_pdu : ℕ → ℕ → Urb → Header
setup_cmd_submit_pdu seqnum devid urb =
    let base : HeaderBasic = record {
      command = cmd_submit;
      seqnum = u32 seqnum;
      devid = devid;
      direction = if urb.pipe.pipein then dir_in else dir_out;
      ep = urb.pipe.pipeendpoint;
    } in
    let packed : Header = (pack_pdu (record zero_header { base = base }) urb cmd_submit true).0 in
    elim urb.setup_packet [
      | none ↦ packed
      | some setup ↦ record packed { u = record packed.u { setup = take 8 setup } }
    ]

-- The header of an unlink request.
unfoldable pub setup_cmd_unlink_pdu : ℕ → ℕ → ℕ → Header
setup_cmd_unlink_pdu seqnum devid target = record {
  base = record zero_header.base { command = cmd_unlink; seqnum = u32 seqnum; devid = devid };
  u = record zero_header.u { word0 = u32 target };
}

-- The data that goes with a submission: the buffer of an OUT request.
abbrev pub out_data : Urb → List ℕ
out_data urb =
    if (not urb.pipe.pipein && is_positive urb.transfer_buffer_length)
    then elim urb.transfer_buffer [ none ↦ [] | some b ↦ take urb.transfer_buffer_length b ]
    else []

-- Its length in the sum `txsize`.
abbrev pub out_size : Urb → ℕ
out_size urb =
    if (not urb.pipe.pipein && is_positive urb.transfer_buffer_length)
    then urb.transfer_buffer_length
    else 0

module _ (o : ByteOrder) (net : Socket) where
  open net use {S}

  -- The packet descriptors of a submission and their size; `none` without memory for them.
  iso_part : Bool → Urb → Option (List ℕ × ℕ)
  iso_part memory urb =
      if is_isochronous urb.pipe.pipetype then alloc_iso_desc_pdu o memory urb else some ([], 0)

  -- The three parts of a submission, and `txsize`.
  unfoldable pub submit_message : Bool → ℕ → ℕ → Urb → Option (List ℕ × ℕ)
  unfolding iso_part
  submit_message mem seqnum devid urb =
      let header : Header = header_correct_endian o (setup_cmd_submit_pdu seqnum devid urb) true in
      elim (iso_part mem urb) [
        | none ↦ none
        | some (iso, len) ↦
            some
              (memory o.store32 header ++ (out_data urb ++ iso), header_size + out_size urb + len)
      ]

  -- dequeue_from_priv_tx
  unfoldable pub dequeue_from_priv_tx : Vdev S → Option (Priv × Vdev S)
  dequeue_from_priv_tx v = elim v.priv_tx [
    | [] ↦ none
    | x ∷ xs ↦ some (x, record v { priv_tx = xs; priv_rx = v.priv_rx ++ x ∷ [] })
  ]

  -- dequeue_from_unlink_tx
  unfoldable pub dequeue_from_unlink_tx : Vdev S → Option (Unlink × Vdev S)
  dequeue_from_unlink_tx v = elim v.unlink_tx [
    | [] ↦ none
    | x ∷ xs ↦ some (x, record v { unlink_tx = xs; unlink_rx = v.unlink_rx ++ x ∷ [] })
  ]

  -- kernel_sendmsg on the socket of a port: whether all was sent, and the new state. The thread runs
  -- only while there is a socket.
  unfoldable pub transmit : Hcd S → ℕ → List ℕ → ℕ → Bool × Hcd S
  transmit h p bytes size = elim (h.vdev p).ud.tcp_socket [
    | none ↦ (false, vdev_event_add h p vdev_event_error_tcp)
    | some s ↦
        let (ret, s') = net.sendmsg s bytes in
        let v : Vdev S = h.vdev p in
        let sent : Hcd S = set_vdev h p (record v { ud = record v.ud { tcp_socket = some s' } }) in
        if ret == size then (true, sent) else (false, vdev_event_add sent p vdev_event_error_tcp)
  ]

  -- One round of vhci_send_cmd_submit, for an entry that was dequeued: whether to go on.
  unfoldable pub send_submit : Bool → Hcd S → ℕ → Priv → Bool × Hcd S
  send_submit mem h p x = elim (submit_message mem x.seqnum (h.vdev p).devid (h.urb x.urb)) [
    | none ↦ (false, vdev_event_add h p sdev_event_error_malloc)
    | some (bytes, size) ↦ transmit h p bytes size
  ]

  -- vhci_send_cmd_submit, on fuel: true at its end, false where it returns -1. `none` means that
  -- the fuel ran out.
  unfoldable pub send_cmd_submit : ℕ → Bool → Hcd S → ℕ → Option (Bool × Hcd S)
  send_cmd_submit zero mem h p = none
  send_cmd_submit (suc fuel) mem h p = elim (dequeue_from_priv_tx (h.vdev p)) [
    | none ↦ some (true, h)
    | some (x, v) ↦
        let (more, h') = send_submit mem (set_vdev h p v) p x in
        let rest : Option (Bool × Hcd S) = send_cmd_submit fuel mem h' p in
        if more then rest else some (false, h')
  ]

  -- One round of vhci_send_cmd_unlink.
  unfoldable pub send_unlink : Hcd S → ℕ → Unlink → Bool × Hcd S
  send_unlink h p x =
      let header : Header =
        header_correct_endian o (setup_cmd_unlink_pdu x.seqnum (h.vdev p).devid x.unlink_seqnum)
          true in
      transmit h p (memory o.store32 header) header_size

  -- vhci_send_cmd_unlink, as above.
  unfoldable pub send_cmd_unlink : ℕ → Hcd S → ℕ → Option (Bool × Hcd S)
  send_cmd_unlink zero h p = none
  send_cmd_unlink (suc fuel) h p = elim (dequeue_from_unlink_tx (h.vdev p)) [
    | none ↦ some (true, h)
    | some (x, v) ↦
        let (more, h') = send_unlink (set_vdev h p v) p x in
        let rest : Option (Bool × Hcd S) = send_cmd_unlink fuel h' p in
        if more then rest else some (false, h')
  ]
