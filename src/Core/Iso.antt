-- ===== src/Core/Iso.antt =====
-- usbip_common.c: the isochronous packet descriptors behind a packet's data.
pub mod RoundTrip
pub mod Arrival
use usbip.Base.{
  ℕ, zero, suc, ◌+◌, ◌*◌, ◌≡◌, refl, Bool, true, false, not, ◌&&◌, List, [], ◌∷◌, ◌++◌, Option,
  none, some, u32, neg, enomem, epipe, take, drop, is_negative, ◌==◌, if◌then◌else◌, map,
}
use usbip.Proto.Header.{first_word, after_word}
use usbip.Proto.Endian.{ByteOrder, convert}
use usbip.Proto.Urb.{Urb, IsoPacket, is_isochronous}
use usbip.Core.Events.{Events, no_event}
use usbip.Core.Device.{Side, vhci, stub}
use usbip.Core.Socket.{Socket}
use usbip.Core.Recv.{usbip_recv, event_error_tcp}

-- `struct usbip_iso_packet_descriptor`, in the order of its members: on the wire `actual_length`
-- stands before `status`.
pub record IsoDescriptor : Type 0 where
  pub offset : ℕ
  pub length : ℕ
  pub actual_length : ℕ
  pub status : ℕ

abbrev pub iso_size : ℕ
iso_size = 16

-- usbip_pack_iso, the two ways of copying.
pub pack_iso : IsoPacket → IsoDescriptor
pack_iso p = record {
  offset = p.offset;
  length = p.length;
  actual_length = p.actual_length;
  status = p.status;
}

pub unpack_iso : IsoDescriptor → IsoPacket
unpack_iso d = record {
  offset = d.offset;
  length = d.length;
  status = d.status;
  actual_length = d.actual_length;
}

-- How often `for (i = 0; i < n; i++)` runs at an `int` n.
abbrev pub rounds : ℕ → ℕ
rounds n = if is_negative n then 0 else n

module _ (o : ByteOrder) where
  pub iso_packet_correct_endian : IsoDescriptor → Bool → IsoDescriptor
  iso_packet_correct_endian d send = record {
    offset = convert o send d.offset;
    length = convert o send d.length;
    actual_length = convert o send d.actual_length;
    status = convert o send d.status;
  }

  pub iso_memory : IsoDescriptor → List ℕ
  iso_memory d =
      o.store32 d.offset
      ++ (o.store32 d.length ++ (o.store32 d.actual_length ++ o.store32 d.status))

  -- The loop of usbip_alloc_iso_desc_pdu: the memory that it fills. An URB has a descriptor for
  -- each of its packets.
  pub iso_descriptors : ℕ → List IsoPacket → List ℕ
  iso_descriptors zero ps = []
  iso_descriptors (suc n) [] = []
  iso_descriptors (suc n) (p ∷ ps) =
      iso_memory (iso_packet_correct_endian (pack_iso p) true) ++ iso_descriptors n ps

  -- usbip_alloc_iso_desc_pdu; `memory` says whether there is memory for it. At a negative count the
  -- size is near 2 ^ 64, and there is none.
  unfoldable pub alloc_iso_desc_pdu : Bool → Urb → Option (List ℕ × ℕ)
  unfolding iso_descriptors pack_iso iso_packet_correct_endian iso_memory
  alloc_iso_desc_pdu memory urb =
      let np : ℕ = urb.number_of_packets in
      if memory && not (is_negative np)
      then some (iso_descriptors (rounds np) urb.iso_frame_desc, np * iso_size)
      else none

  pub load_iso : List ℕ → IsoDescriptor
  load_iso b0 =
      let b1 : List ℕ = after_word b0 in
      let b2 : List ℕ = after_word b1 in
      let b3 : List ℕ = after_word b2 in
      record {
        offset = first_word o.load32 b0;
        length = first_word o.load32 b1;
        actual_length = first_word o.load32 b2;
        status = first_word o.load32 b3;
      }

  -- The loop of usbip_recv_iso: the packets stored and the total of their lengths, an `int`.
  pub iso_packets : ℕ → List ℕ → ℕ → List IsoPacket × ℕ
  iso_packets zero bytes total = ([], total)
  iso_packets (suc n) bytes total =
      let p : IsoPacket = unpack_iso (iso_packet_correct_endian (load_iso bytes) false) in
      let (ps, total') = iso_packets n (drop iso_size bytes) (u32 (total + p.actual_length)) in
      (p ∷ ps, total')

  -- The packets written over the array of the URB. What does not fit makes the list longer: it is
  -- written past the end of the array.
  abbrev pub store_packets : List IsoPacket → List IsoPacket → List IsoPacket
  store_packets [] old = old
  store_packets (p ∷ ps) [] = p ∷ ps
  store_packets (p ∷ ps) (q ∷ old) = p ∷ store_packets ps old

  module _ (net : Socket) where
    open net use {S}

    -- After usbip_recv has returned: a short read, a wrong total, or success.
    pub recv_packets : Side → Urb → ℕ → ℕ × List ℕ × Option S → ℕ × Events × Urb × Option S
    unfolding iso_packets event_error_tcp load_iso iso_packet_correct_endian unpack_iso
    recv_packets side urb size (ret, bytes, sock) =
        let np : ℕ = urb.number_of_packets in
        let (packets, total) = iso_packets (rounds np) bytes 0 in
        let urb' : Urb = record urb { iso_frame_desc = store_packets packets urb.iso_frame_desc } in
        if ret == size
        then if total == urb.actual_length
          then (ret, no_event, urb', sock)
          else (neg epipe, event_error_tcp side, urb', sock)
        else (neg epipe, event_error_tcp side, urb, sock)

    -- usbip_recv_iso: the result, the events raised, the URB and the socket. At a negative size there
    -- is no memory.
    unfoldable pub recv_iso : Bool → Side → Urb → Option S → ℕ × Events × Urb × Option S
    unfolding recv_packets
    recv_iso memory side urb sock =
        let size : ℕ = u32 (urb.number_of_packets * iso_size) in
        if is_isochronous urb.pipe.pipetype
        then if urb.number_of_packets == 0
          then (0, no_event, urb, sock)
          else if memory && not (is_negative size)
          then recv_packets side urb size (usbip_recv net sock true size)
          else (neg enomem, no_event, urb, sock)
        else (0, no_event, urb, sock)
