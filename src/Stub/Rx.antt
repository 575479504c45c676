-- ===== src/Stub/Rx.antt =====
-- stub_rx.c: the requests of the client.
use usbip.Base.{
  ℕ, suc, Bool, true, false, not, ◌&&◌, ◌||◌, List, [], ◌∷◌, ◌++◌, Option, none, some, take,
  replicate, is_negative, is_positive, ◌==◌, if◌then◌else◌,
}
use usbip.Proto.Header.{Header, cmd_submit, cmd_unlink, header_size, load_header, unlink_seqnum}
use usbip.Proto.Endian.{ByteOrder, header_correct_endian}
use usbip.Proto.Urb.{Urb, Pipe, IsoPacket, is_isochronous}
use usbip.Proto.Pack.{pack_pdu}
use usbip.Core.Events.{
  Events, sdev_event_error_tcp, sdev_event_error_malloc, sdev_event_error_submit,
}
use usbip.Core.Device.{Status, sdev_used, stub}
use usbip.Core.Socket.{Socket}
use usbip.Core.Recv.{usbip_recv, recv_xbuff}
use usbip.Core.Iso.{recv_iso, rounds}
use usbip.Vhci.State.{update}
use usbip.Stub.State.{Sdev, sdev_event_add, enqueue_ret_unlink, find_priv, mark_unlinking}
use usbip.Stub.Requests.{get_pipe, masking_bogus_flags}

-- Which of the allocations succeed.
pub record Memory : Type 0 where
  pub priv : Bool
  pub urb : Bool
  pub buffer : Bool
  pub setup : Bool
  pub iso : Bool
  pub unlink : Bool

abbrev pub is_used : Status → Bool
is_used sdev_used = true
is_used _ = false

-- What the USB core and the filters answer: whether a filter takes the URB over, and whether
-- usb_submit_urb succeeds.
pub record Answers : Type 0 where
  pub on_rx : Bool
  pub submit_ok : Bool

abbrev pub zero_packet : IsoPacket
zero_packet = record { offset = 0; length = 0; status = 0; actual_length = 0 }

-- A new URB of a device, with its buffer, its setup packet and its pipe, and for an isochronous pipe
-- with room for its packets.
abbrev pub new_urb : ℕ → Pipe → Option (List ℕ) → List ℕ → ℕ → Urb
new_urb devnum pipe buffer setup packets = record {
  dev = record { id = devnum; portnum = 0 };
  pipe = pipe;
  transfer_flags = 0;
  transfer_buffer = buffer;
  transfer_buffer_length = 0;
  setup_packet = some setup;
  start_frame = 0;
  number_of_packets = 0;
  interval = 0;
  status = 0;
  actual_length = 0;
  error_count = 0;
  iso_frame_desc =
      if is_isochronous pipe.pipetype then replicate (rounds packets) zero_packet else [];
}

-- The transfer buffer of a submission: NULL where it has no data.
abbrev pub buffer_for : Header → Option (List ℕ)
buffer_for pdu = if is_positive pdu.u.word1 then some (replicate pdu.u.word1 0) else none

-- The three allocations for the URB.
abbrev pub has_urb_memory : Memory → Header → Bool
has_urb_memory memory pdu =
    memory.urb && (memory.setup && (memory.buffer || not (is_positive pdu.u.word1)))

module _ {S : Type 0} where
  -- stub_recv_cmd_unlink. A request that is still worked on is marked and takes over the number of
  -- the unlink request; then usb_unlink_urb asks for its completion. Otherwise the answer is queued.
  unfoldable pub recv_cmd_unlink : Memory → Sdev S → Header → Sdev S
  recv_cmd_unlink memory d pdu = elim (find_priv (unlink_seqnum pdu) d.priv_init) [
    | none ↦ enqueue_ret_unlink memory.unlink d pdu.base.seqnum 0
    | some x ↦ record d {
      priv_init = mark_unlinking (unlink_seqnum pdu) pdu.base.seqnum d.priv_init;
    }
  ]

  -- valid_request
  unfoldable pub valid_request : Sdev S → Header → Bool
  valid_request d pdu = pdu.base.devid == d.devid && is_used d.ud.status

  -- stub_priv_alloc, once there is memory. The URB comes to stand at `next_urb`.
  abbrev pub with_priv : Sdev S → Header → Sdev S
  with_priv d pdu = record d {
    priv_init =
        d.priv_init
        ++ record { seqnum = pdu.base.seqnum; urb = d.next_urb; unlinking = false } ∷ [];
    next_urb = suc d.next_urb;
  }

  abbrev pub store_urb : Sdev S → ℕ → Urb → Sdev S
  store_urb d u urb = record d { urb = update d.urb u urb }

module _ (o : ByteOrder) (net : Socket) where
  open net use {S}

  -- What recv_xbuff or recv_iso did.
  abbrev pub received : Sdev S → ℕ → Events → Urb → Option S → Sdev S
  received d u events urb sock =
      let d' : Sdev S = store_urb d u urb in
      sdev_event_add (record d' { ud = record d'.ud { tcp_socket = sock } }) events

  -- After the packet descriptors were read: the URB, or NULL.
  unfoldable pub build_iso : Sdev S → ℕ → ℕ × Events × Urb × Option S → Option ℕ × Sdev S
  build_iso d u (ret, events, urb, sock) =
      let d' : Sdev S = received d u events urb sock in
      if is_negative ret then (none, d') else (some u, store_urb d' u (masking_bogus_flags urb))

  -- After the data was read.
  unfoldable pub build_xbuff : Memory → Sdev S → ℕ → ℕ × Events × Urb × Option S → Option ℕ × Sdev S
  build_xbuff memory d u (ret, events, urb, sock) =
      let d' : Sdev S = received d u events urb sock in
      if is_negative ret
      then (none, d')
      else build_iso d' u (recv_iso o net memory.iso stub urb sock)

  -- The URB as the header fills it in.
  abbrev pub unpacked : Sdev S → Header → Pipe → Urb
  unpacked d pdu pipe =
      (pack_pdu pdu (new_urb d.devnum pipe (buffer_for pdu) (take 8 pdu.u.setup) pdu.u.word3)
        cmd_submit false).1

  -- stub_build_urb without data of its own, once the pipe is known.
  unfoldable pub build_with_pipe : Memory → Sdev S → Header → Pipe → Option ℕ × Sdev S
  build_with_pipe memory d pdu pipe =
      let d1 : Sdev S = with_priv d pdu in
      let urb : Urb = unpacked d pdu pipe in
      if memory.priv
      then if has_urb_memory memory pdu
        then build_xbuff memory (store_urb d1 d.next_urb urb) d.next_urb
            (recv_xbuff net stub urb d.ud.tcp_socket)
        else (none, sdev_event_add d1 sdev_event_error_malloc)
      else (none, sdev_event_add d sdev_event_error_malloc)

  -- stub_build_urb: the URB or NULL, and the device; `none` where get_pipe met BUG().
  unfoldable pub build_urb : Memory → Sdev S → Header → Option (Option ℕ × Sdev S)
  build_urb memory d pdu = elim (get_pipe d pdu.base.ep pdu.base.direction) [
    | none ↦ none
    | some pipe ↦ some (build_with_pipe memory d pdu pipe)
  ]

  -- stub_submit_urb
  abbrev pub submit_urb : Bool → Sdev S → ℕ → Sdev S
  submit_urb submit_ok d u =
      if submit_ok
      then record d { submitted = u ∷ d.submitted }
      else sdev_event_add d sdev_event_error_submit

  -- stub_recv_cmd_submit, once the URB was built.
  unfoldable pub submit_built : Answers → Option ℕ × Sdev S → Sdev S
  submit_built answers (none, d) = d
  submit_built answers (some u, d) = if answers.on_rx then d else submit_urb answers.submit_ok d u

  -- stub_recv_cmd_submit; `none` is a BUG().
  unfoldable pub recv_cmd_submit : Memory → Answers → Sdev S → Header → Option (Sdev S)
  recv_cmd_submit memory answers d pdu = elim (build_urb memory d pdu) [
    | none ↦ none
    | some built ↦ some (submit_built answers built)
  ]

  -- The checks and the `switch` of stub_rx_pdu.
  unfoldable pub dispatch_pdu : Memory → Answers → Sdev S → Header → Option (Sdev S)
  dispatch_pdu memory answers d pdu =
      if valid_request d pdu
      then if pdu.base.command == cmd_unlink
        then some (recv_cmd_unlink memory d pdu)
        else if pdu.base.command == cmd_submit
        then recv_cmd_submit memory answers d pdu
        else some (sdev_event_add d sdev_event_error_tcp)
      else some (sdev_event_add d sdev_event_error_tcp)

  -- stub_rx_pdu, after usbip_recv of the header.
  unfoldable pub rx_header : Memory → Answers → Sdev S → ℕ → List ℕ → Option (Sdev S)
  rx_header memory answers d ret bytes =
      let pdu : Header = header_correct_endian o (load_header o.load32 bytes) false in
      if ret == header_size
      then dispatch_pdu memory answers d pdu
      else some (sdev_event_add d sdev_event_error_tcp)

  -- stub_rx_pdu; `none` is a BUG().
  unfoldable pub rx_pdu : Memory → Answers → Sdev S → Option (Sdev S)
  rx_pdu memory answers d =
      let (ret, bytes, sock) = usbip_recv net d.ud.tcp_socket true header_size in
      rx_header memory answers (record d { ud = record d.ud { tcp_socket = sock } }) ret bytes
