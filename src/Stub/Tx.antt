-- ===== src/Stub/Tx.antt =====
-- stub_tx.c: completed requests and the replies that are sent.
use usbip.Base.{
  ℕ, zero, suc, ◌+◌, Bool, true, false, not, ◌&&◌, List, [], ◌∷◌, ◌++◌, Option, none, some, neg,
  u32, take, drop, enoent, is_positive, ◌==◌, if◌then◌else◌,
}
use usbip.Proto.Header.{
  Header, HeaderBasic, ret_submit, ret_unlink, zero_header, header_size, memory,
}
use usbip.Proto.Endian.{ByteOrder, header_correct_endian}
use usbip.Proto.Urb.{Urb, IsoPacket, is_isochronous}
use usbip.Proto.Pack.{pack_pdu}
use usbip.Core.Events.{sdev_event_error_malloc, sdev_event_error_tcp}
use usbip.Core.Socket.{Socket}
use usbip.Core.Iso.{alloc_iso_desc_pdu, rounds}
use usbip.Stub.State.{
  StubPriv, StubUnlink, Sdev, sdev_event_add, enqueue_ret_unlink, find_urb, remove_priv,
}

-- setup_base_pdu
abbrev pub setup_base_pdu : ℕ → ℕ → HeaderBasic
setup_base_pdu command seqnum = record {
  command = command;
  seqnum = u32 seqnum;
  devid = 0;
  direction = 0;
  ep = 0;
}

unfoldable pub setup_ret_submit_pdu : ℕ → Urb → Header
setup_ret_submit_pdu seqnum urb =
    (pack_pdu (record zero_header { base = setup_base_pdu ret_submit seqnum }) urb ret_submit
      true).0

unfoldable pub setup_ret_unlink_pdu : StubUnlink → Header
setup_ret_unlink_pdu x = record {
  base = setup_base_pdu ret_unlink x.seqnum;
  u = record zero_header.u { word0 = x.status };
}

module _ {S : Type 0} where
  -- The end of stub_complete, for the entry of the URB.
  unfoldable pub complete_priv : Bool → Sdev S → StubPriv → Sdev S
  complete_priv mem d x =
      let without : List StubPriv = remove_priv x.urb d.priv_init in
      if x.unlinking
      then record (enqueue_ret_unlink mem d x.seqnum (d.urb x.urb).status) { priv_init = without }
      else record d { priv_init = without; priv_tx = d.priv_tx ++ x ∷ [] }

  -- stub_complete: the USB core has completed URB `u`, which it filled in. `on_tx` says whether a
  -- filter takes the result over.
  unfoldable pub complete : Bool → Bool → Sdev S → ℕ → Sdev S
  complete mem on_tx d u =
      if (d.urb u).status == neg enoent
      then d
      else if on_tx
      then d
      else elim (find_urb u d.priv_init) [ none ↦ d | some x ↦ complete_priv mem d x ]

-- The data of isochronous packets, without the padding between them: the loop of
-- stub_send_ret_submit.
unfoldable pub gather : ℕ → List IsoPacket → List ℕ → List ℕ
gather zero ps buf = []
gather (suc n) [] buf = []
gather (suc n) (p ∷ ps) buf = take p.actual_length (drop p.offset buf) ++ gather n ps buf

-- The sum of their lengths.
unfoldable pub gather_size : ℕ → List IsoPacket → ℕ
gather_size zero ps = 0
gather_size (suc n) [] = 0
gather_size (suc n) (p ∷ ps) = p.actual_length + gather_size n ps

abbrev pub contents : Urb → List ℕ
contents urb = elim urb.transfer_buffer [ none ↦ [] | some b ↦ b ]

-- The data of a reply and its size.
unfoldable pub in_data : Urb → List ℕ × ℕ
in_data urb =
    let n : ℕ = rounds urb.number_of_packets in
    if not urb.pipe.pipein
    then ([], 0)
    else if is_isochronous urb.pipe.pipetype
    then (gather n urb.iso_frame_desc (contents urb), gather_size n urb.iso_frame_desc)
    else if is_positive urb.actual_length
    then (take urb.actual_length (contents urb), urb.actual_length)
    else ([], 0)

-- `txsize != sizeof(pdu_header) + urb->actual_length`, which is asked of isochronous IN requests.
abbrev pub lengths_agree : Urb → Bool
lengths_agree urb =
    if (urb.pipe.pipein && is_isochronous urb.pipe.pipetype)
    then gather_size (rounds urb.number_of_packets) urb.iso_frame_desc == urb.actual_length
    else true

module _ (o : ByteOrder) (net : Socket) where
  open net use {S}

  -- The bytes of a reply to a submission, and `txsize`; `none` without memory for the descriptors.
  unfoldable pub ret_submit_message : Bool → ℕ → Urb → Option (List ℕ × ℕ)
  ret_submit_message mem seqnum urb =
      let header : Header = header_correct_endian o (setup_ret_submit_pdu seqnum urb) true in
      let (bytes, size) = in_data urb in
      let iso : Option (List ℕ × ℕ) =
        if is_isochronous urb.pipe.pipetype then alloc_iso_desc_pdu o mem urb else some ([], 0) in
      elim iso [
        | none ↦ none
        | some (descriptors, len) ↦
            some (memory o.store32 header ++ (bytes ++ descriptors), header_size + size + len)
      ]

  -- kernel_sendmsg: whether all was sent, and the new state. The thread runs only while there is a
  -- socket.
  unfoldable pub transmit : Sdev S → List ℕ → ℕ → Bool × Sdev S
  transmit d bytes size = elim d.ud.tcp_socket [
    | none ↦ (false, sdev_event_add d sdev_event_error_tcp)
    | some s ↦
        let (ret, s') = net.sendmsg s bytes in
        let sent : Sdev S = record d { ud = record d.ud { tcp_socket = some s' } } in
        if ret == size then (true, sent) else (false, sdev_event_add sent sdev_event_error_tcp)
  ]

  -- dequeue_from_priv_tx
  abbrev pub dequeue_from_priv_tx : Sdev S → Option (StubPriv × Sdev S)
  dequeue_from_priv_tx d = elim d.priv_tx [
    | [] ↦ none
    | x ∷ xs ↦ some (x, record d { priv_tx = xs; priv_free = d.priv_free ++ x ∷ [] })
  ]

  -- One round of stub_send_ret_submit; `iov` says whether there is memory for the vector.
  unfoldable pub send_one_submit : Bool → Bool → Sdev S → StubPriv → Bool × Sdev S
  send_one_submit iov mem d x =
      let message : Option (List ℕ × ℕ) = ret_submit_message mem x.seqnum (d.urb x.urb) in
      if not iov
      then (false, sdev_event_add d sdev_event_error_malloc)
      else if not (lengths_agree (d.urb x.urb))
      then (false, sdev_event_add d sdev_event_error_tcp)
      else elim message [
        | none ↦ (false, sdev_event_add d sdev_event_error_malloc)
        | some (bytes, size) ↦ transmit d bytes size
      ]

  -- stub_send_ret_submit, on fuel: true at its end, where the sent requests are freed, and false
  -- where it returns -1. `none` means that the fuel ran out.
  unfoldable pub send_ret_submit : ℕ → Bool → Bool → Sdev S → Option (Bool × Sdev S)
  send_ret_submit zero iov mem d = none
  send_ret_submit (suc fuel) iov mem d = elim (dequeue_from_priv_tx d) [
    | none ↦ some (true, record d { priv_free = [] })
    | some (x, d1) ↦
        let (more, d2) = send_one_submit iov mem d1 x in
        let rest : Option (Bool × Sdev S) = send_ret_submit fuel iov mem d2 in
        if more then rest else some (false, d2)
  ]

  -- dequeue_from_unlink_tx
  abbrev pub dequeue_from_unlink_tx : Sdev S → Option (StubUnlink × Sdev S)
  dequeue_from_unlink_tx d = elim d.unlink_tx [
    | [] ↦ none
    | x ∷ xs ↦ some (x, record d { unlink_tx = xs; unlink_free = d.unlink_free ++ x ∷ [] })
  ]

  -- stub_send_ret_unlink, as above.
  unfoldable pub send_ret_unlink : ℕ → Sdev S → Option (Bool × Sdev S)
  send_ret_unlink zero d = none
  send_ret_unlink (suc fuel) d = elim (dequeue_from_unlink_tx d) [
    | none ↦ some (true, record d { unlink_free = [] })
    | some (x, d1) ↦
        let header : Header = header_correct_endian o (setup_ret_unlink_pdu x) true in
        let (more, d2) = transmit d1 (memory o.store32 header) header_size in
        let rest : Option (Bool × Sdev S) = send_ret_unlink fuel d2 in
        if more then rest else some (false, d2)
  ]
