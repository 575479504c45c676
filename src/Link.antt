-- ===== src/Link.antt =====
-- Theorems on the two ends together: what vhci_tx.c and stub_tx.c send, as the other end reads it.
use usbip.Base.{
  ℕ, ◌^◌, ◌<◌, ◌≡◌, inl, inr, refl, false, List, none, some, arith, u32, u32-eq, length, take,
  if◌then◌else◌, Option-cases, bit_and_le, ◌-◌,
}
use usbip.Proto.Header.{Header, Fits, cmd_submit, ret_submit, dir_in, dir_out, zero_header}
use usbip.Proto.Endian.{ByteOrder}
use usbip.Proto.Urb.{Urb}
use usbip.Proto.Pack.{pack_pdu, tweak_transfer_flags}
use usbip.Proto.Wire.{read_header, sent_bytes, header_arrives}
use usbip.Vhci.Tx.{setup_cmd_submit_pdu}
use usbip.Stub.Tx.{setup_ret_submit_pdu}

-- The numbers of an URB are those of 32-bit words, and a setup packet has eight bytes.
pub record FitsUrb (urb : Urb) : Type 0 where
  pub transfer_flags : urb.transfer_flags < 2 ^ 32
  pub transfer_buffer_length : urb.transfer_buffer_length < 2 ^ 32
  pub start_frame : urb.start_frame < 2 ^ 32
  pub number_of_packets : urb.number_of_packets < 2 ^ 32
  pub interval : urb.interval < 2 ^ 32
  pub status : urb.status < 2 ^ 32
  pub actual_length : urb.actual_length < 2 ^ 32
  pub error_count : urb.error_count < 2 ^ 32
  pub pipeendpoint : urb.pipe.pipeendpoint < 2 ^ 32

-- The URB `blank`, as the header of a submission or of a result fills it in.
abbrev pub filled : Header → Urb → ℕ → Urb
filled h blank command = (pack_pdu h blank command false).1

-- The setup packet of an URB, or zeros.
abbrev pub setup_of : Urb → List ℕ
setup_of urb = elim urb.setup_packet [ none ↦ zero_header.u.setup | some setup ↦ take 8 setup ]

-- The header of a submission, with its fields written out.
submit_header : ℕ → ℕ → Urb → Header
submit_header seqnum devid urb = record {
  base = record {
    command = cmd_submit;
    seqnum = u32 seqnum;
    devid = devid;
    direction = if urb.pipe.pipein then dir_in else dir_out;
    ep = urb.pipe.pipeendpoint;
  };
  u = record {
    word0 = tweak_transfer_flags urb.transfer_flags;
    word1 = urb.transfer_buffer_length;
    word2 = urb.start_frame;
    word3 = urb.number_of_packets;
    word4 = urb.interval;
    setup = setup_of urb;
  };
}

setup_cmd_submit_pdu-fields :
    (seqnum devid : ℕ) (urb : Urb)
    → setup_cmd_submit_pdu seqnum devid urb ≡ submit_header seqnum devid urb
unfolding setup_cmd_submit_pdu pack_pdu submit_header
setup_cmd_submit_pdu-fields seqnum devid urb = elim (Option-cases urb.setup_packet) [
  | inl e ↦ ground (arith, e)
  | inr (setup, e) ↦ ground (arith, e)
]

submit_header-Fits :
    (seqnum devid : ℕ) (urb : Urb)
    → seqnum < 2 ^ 32
    → devid < 2 ^ 32
    → FitsUrb urb
    → length (setup_of urb) ≡ 8
    → Fits (submit_header seqnum devid urb)
unfolding submit_header tweak_transfer_flags
submit_header-Fits seqnum devid urb s d f l = record {
  command = omega arith;
  seqnum = omega arith;
  devid = d;
  direction = ground arith;
  ep = f.pipeendpoint;
  word0 = omega (arith, bit_and_le urb.transfer_flags (2 ^ 32 - 1 - 4), f.transfer_flags);
  word1 = f.transfer_buffer_length;
  word2 = f.start_frame;
  word3 = f.number_of_packets;
  word4 = f.interval;
  setup = l;
}

-- A submission, as the virtual host controller sends it, is read by the stub with its number, its
-- device, its direction, its endpoint and its setup packet, and it fills the stub's URB with the
-- flags, without URB_NO_TRANSFER_DMA_MAP, the length, the frame, the number of packets and the
-- interval of the client's URB, and with nothing else.
pub submission_arrives :
    (sender receiver : ByteOrder) (seqnum devid : ℕ) (urb blank : Urb)
    → seqnum < 2 ^ 32
    → devid < 2 ^ 32
    → FitsUrb urb
    → length (setup_of urb) ≡ 8
    → ((read_header receiver (sent_bytes sender (setup_cmd_submit_pdu seqnum devid urb))).base
        ≡ record {
          command = cmd_submit;
          seqnum = seqnum;
          devid = devid;
          direction = if urb.pipe.pipein then dir_in else dir_out;
          ep = urb.pipe.pipeendpoint;
        })
      × ((read_header receiver (sent_bytes sender (setup_cmd_submit_pdu seqnum devid urb))).u.setup
          ≡ setup_of urb)
      × (filled
            (read_header receiver (sent_bytes sender (setup_cmd_submit_pdu seqnum devid urb)))
            blank
            cmd_submit
          ≡ record blank {
            transfer_flags = tweak_transfer_flags urb.transfer_flags;
            transfer_buffer_length = urb.transfer_buffer_length;
            start_frame = urb.start_frame;
            number_of_packets = urb.number_of_packets;
            interval = urb.interval;
          })
unfolding submit_header pack_pdu
submission_arrives sender receiver seqnum devid urb blank s d f l =
    rw
      (
        setup_cmd_submit_pdu-fields seqnum devid urb,
        header_arrives sender receiver (submit_header seqnum devid urb)
            (submit_header-Fits seqnum devid urb s d f l) (inl refl),
      )
      (rw (u32-eq seqnum s) refl, refl, refl)

setup_ret_submit_pdu-Fits :
    (seqnum : ℕ) (urb : Urb)
    → seqnum < 2 ^ 32
    → FitsUrb urb
    → Fits (setup_ret_submit_pdu seqnum urb)
unfolding setup_ret_submit_pdu pack_pdu
setup_ret_submit_pdu-Fits seqnum urb s f = record {
  command = omega arith;
  seqnum = omega arith;
  devid = omega arith;
  direction = omega arith;
  ep = omega arith;
  word0 = f.status;
  word1 = f.actual_length;
  word2 = f.start_frame;
  word3 = f.number_of_packets;
  word4 = f.error_count;
  setup = refl;
}

-- The result of a request, as the stub sends it, fills the URB of the client with the status, the
-- length, the frame, the number of packets and the errors of the URB that was completed, and nothing
-- else; and it carries the number of the request.
pub result_arrives :
    (sender receiver : ByteOrder) (seqnum : ℕ) (urb blank : Urb)
    → seqnum < 2 ^ 32
    → FitsUrb urb
    → ((read_header receiver (sent_bytes sender (setup_ret_submit_pdu seqnum urb))).base.seqnum
        ≡ seqnum)
      × (filled
            (read_header receiver (sent_bytes sender (setup_ret_submit_pdu seqnum urb)))
            blank
            ret_submit
          ≡ record blank {
            status = urb.status;
            actual_length = urb.actual_length;
            start_frame = urb.start_frame;
            number_of_packets = urb.number_of_packets;
            error_count = urb.error_count;
          })
unfolding setup_ret_submit_pdu pack_pdu
result_arrives sender receiver seqnum urb blank s f =
    rw
      (header_arrives sender receiver (setup_ret_submit_pdu seqnum urb)
        (setup_ret_submit_pdu-Fits seqnum urb s f) (inr refl))
      (u32-eq seqnum s, refl)
