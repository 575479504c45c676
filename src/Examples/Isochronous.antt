-- ===== src/Examples/Isochronous.antt =====
-- The theorems on isochronous data, at two packets of three and of five bytes.
use usbip.Base.{
  ℕ, zero, suc, ◌+◌, ◌≤◌, ◌<◌, ◌≡◌, refl, List, [], ◌∷◌, ◌++◌, true, some, arith, get_elem?,
  replicate,
}
use usbip.Proto.Urb.{Urb, IsoPacket, isochronous}
use usbip.Core.Recv.{overwrite}
use usbip.Core.Pad.{pad_iso}
use usbip.Core.Pad.Restore.{Laid, byte_at, offset_at, len_at}
use usbip.Stub.Tx.{gather}
use usbip.Stub.Gather.{isochronous_data_arrives}
use usbip.Core.Device.{vhci}
use usbip.Core.Iso.{iso_descriptors, recv_iso}
use usbip.Core.Iso.RoundTrip.{AllFit}
use usbip.Core.Iso.Arrival.{Arrives, alloc_iso_desc_pdu-is, iso_arrives}
use usbip.Examples.{little_endian, big_endian, script}
use usbip.Examples.States.{in_urb}

abbrev packet0 : IsoPacket
packet0 = record { offset = 0; length = 8; status = 0; actual_length = 3 }

abbrev packet1 : IsoPacket
packet1 = record { offset = 8; length = 8; status = 0; actual_length = 5 }

abbrev two_packets : List IsoPacket
two_packets = packet0 ∷ packet1 ∷ []

-- The device's buffer, with padding, and the client's, before the data comes.
abbrev device_data : List ℕ
device_data = 1 ∷ 2 ∷ 3 ∷ 0 ∷ 0 ∷ 0 ∷ 0 ∷ 0 ∷ 4 ∷ 5 ∷ 6 ∷ 7 ∷ 8 ∷ 0 ∷ 0 ∷ 0 ∷ []

abbrev empty_buffer : List ℕ
empty_buffer = replicate 16 0

abbrev received_data : List ℕ
received_data = 1 ∷ 2 ∷ 3 ∷ 4 ∷ 5 ∷ 6 ∷ 7 ∷ 8 ∷ 0 ∷ 0 ∷ 0 ∷ 0 ∷ 0 ∷ 0 ∷ 0 ∷ 0 ∷ []

abbrev iso_urb : List ℕ → Urb
iso_urb buf = record in_urb {
  pipe = record in_urb.pipe { pipetype = isochronous };
  transfer_buffer = some buf;
  transfer_buffer_length = 16;
  number_of_packets = 2;
  actual_length = 8;
  iso_frame_desc = two_packets;
}

two_packets_next :
    (i : ℕ)
    → suc i < 2
    → offset_at two_packets i + len_at two_packets i ≤ offset_at two_packets (suc i)
two_packets_next zero h = omega arith
two_packets_next (suc i) h = absurd (omega arith)

two_packets_within : (i : ℕ) → i < 2 → offset_at two_packets i + len_at two_packets i ≤ 16
two_packets_within zero h = omega arith
two_packets_within (suc zero) h = omega arith
two_packets_within (suc (suc i)) h = absurd (omega arith)

two_packets_present : (i : ℕ) → i < 2 → (p : IsoPacket) × (get_elem? two_packets i ≡ some p)
two_packets_present zero h = (packet0, refl)
two_packets_present (suc zero) h = (packet1, refl)
two_packets_present (suc (suc i)) h = absurd (omega arith)

two_packets-Laid : Laid two_packets 2 16
two_packets-Laid = record {
  first = refl;
  next = two_packets_next;
  last = two_packets_within;
  present = two_packets_present;
  small = omega arith;
}

gathered : Urb
gathered = iso_urb (overwrite empty_buffer (gather 2 two_packets device_data))

isochronous_data_arrives_example : byte_at (pad_iso gathered) 10 ≡ get_elem? device_data 10
unfolding gathered
isochronous_data_arrives_example =
    isochronous_data_arrives gathered device_data empty_buffer 1 1 2 refl refl refl (omega arith)
      refl (omega arith) (λ e. omega arith) (omega arith) two_packets-Laid two_packets_within
      (omega arith) (omega arith)

two_packets-AllFit : AllFit two_packets
two_packets-AllFit = (
  record {
    offset = omega arith;
    length = omega arith;
    actual_length = omega arith;
    status = omega arith;
  },
  (
    record {
      offset = omega arith;
      length = omega arith;
      actual_length = omega arith;
      status = omega arith;
    },
    tt,
  ),
)

-- The packets of the client before the result comes, and what arrives.
abbrev waiting : Urb
waiting = record (iso_urb empty_buffer) { iso_frame_desc = packet0 ∷ packet0 ∷ [] }

abbrev descriptors : List ℕ
descriptors = iso_descriptors big_endian 2 two_packets

iso_arrives_example :
    Arrives little_endian script vhci waiting two_packets 32
      (9 ∷ [])
      (descriptors ++ 9 ∷ [])
      (recv_iso little_endian script true vhci waiting (some (descriptors ++ 9 ∷ [])))
iso_arrives_example =
    iso_arrives big_endian little_endian script vhci (iso_urb device_data) waiting descriptors
      (9 ∷ []) 32 (descriptors ++ 9 ∷ []) refl refl refl (omega arith) (omega arith)
      two_packets-AllFit (alloc_iso_desc_pdu-is big_endian (iso_urb device_data) (omega arith)) refl
