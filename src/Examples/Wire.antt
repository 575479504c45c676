-- ===== src/Examples/Wire.antt =====
-- The theorems on the wire format and on receiving, at concrete inputs.
use usbip.Base.{ℕ, ◌≡◌, refl, ◌<◌, inr, true, List, [], ◌∷◌, some, arith, length, neg, einprogress}
use usbip.Proto.Header.{ret_submit, Fits, cmd_submit}
use usbip.Proto.Wire.{header_arrives, read_header, sent_bytes}
use usbip.Core.Device.{vhci}
use usbip.Core.Events.{EhOps, no_event, vdev_event_removed, event_handler}
use usbip.Core.Events.Handler.{event_handler-due}
use usbip.Core.Recv.{usbip_recv, recv_loop, recv_xbuff}
use usbip.Core.Recv.Bounds.{FromHost, recv_xbuff-FromHost, recv_xbuff_overruns}
use usbip.Link.{FitsUrb, filled, setup_of, submission_arrives, result_arrives}
use usbip.Proto.Pack.{tweak_transfer_flags}
use usbip.Vhci.Tx.{setup_cmd_submit_pdu}
use usbip.Stub.Tx.{setup_ret_submit_pdu}
use usbip.Examples.{little_endian, big_endian, script}
use usbip.Examples.States.{in_urb, reply, filled_urb, long_urb}

reply-Fits : Fits reply
reply-Fits = record {
  command = omega arith;
  seqnum = omega arith;
  devid = omega arith;
  direction = omega arith;
  ep = omega arith;
  word0 = omega arith;
  word1 = omega arith;
  word2 = omega arith;
  word3 = omega arith;
  word4 = omega arith;
  setup = refl;
}

recv_xbuff-FromHost_example :
    FromHost script filled_urb
      (0 ∷ 0 ∷ 0 ∷ 0 ∷ [])
      (1 ∷ 2 ∷ 3 ∷ 4 ∷ 5 ∷ [])
      (recv_xbuff script vhci filled_urb (some (1 ∷ 2 ∷ 3 ∷ 4 ∷ 5 ∷ [])))
recv_xbuff-FromHost_example =
    recv_xbuff-FromHost script filled_urb (0 ∷ 0 ∷ 0 ∷ 0 ∷ []) (1 ∷ 2 ∷ 3 ∷ 4 ∷ 5 ∷ []) refl refl
      refl

long_read : (recv_xbuff script vhci long_urb (some (1 ∷ 2 ∷ 3 ∷ 4 ∷ 5 ∷ 6 ∷ []))).0 ≡ 6
unfolding recv_xbuff usbip_recv recv_loop
long_read = refl

recv_xbuff_overruns_example :
    (b : List ℕ) × ((recv_xbuff script vhci long_urb
        (some (1 ∷ 2 ∷ 3 ∷ 4 ∷ 5 ∷ 6 ∷ []))).2.transfer_buffer
      ≡ some b)
    × (4 < length b)
recv_xbuff_overruns_example =
    recv_xbuff_overruns script long_urb (0 ∷ 0 ∷ 0 ∷ 0 ∷ []) (1 ∷ 2 ∷ 3 ∷ 4 ∷ 5 ∷ 6 ∷ []) refl refl
      refl (omega arith) long_read

-- Operations that note down, in a list, that they ran.
abbrev noting : EhOps (List ℕ)
noting = record {
  shutdown = λ d. (1 ∷ d, no_event);
  reset = λ d. (2 ∷ d, no_event);
  unusable = λ d. (3 ∷ d, no_event);
}

event_handler-due_example :
    event_handler noting 2 ([], vdev_event_removed)
    ≡ some ((1 ∷ [], record no_event { bye = true }), true)
event_handler-due_example =
    event_handler-due noting 0 [] vdev_event_removed (λ d. refl, λ d. refl, λ d. refl)

in_urb-FitsUrb : FitsUrb in_urb
in_urb-FitsUrb = record {
  transfer_flags = omega arith;
  transfer_buffer_length = omega arith;
  start_frame = omega arith;
  number_of_packets = omega arith;
  interval = omega arith;
  status = omega arith;
  actual_length = omega arith;
  error_count = omega arith;
  pipeendpoint = omega arith;
}

header_arrives_example : read_header big_endian (sent_bytes little_endian reply) ≡ reply
header_arrives_example = header_arrives little_endian big_endian reply reply-Fits (inr refl)

submission_arrives_example :
    ((read_header big_endian (sent_bytes little_endian (setup_cmd_submit_pdu 5 65538 in_urb))).base
      ≡ record { command = cmd_submit; seqnum = 5; devid = 65538; direction = 1; ep = 1 })
    × ((read_header big_endian
          (sent_bytes little_endian (setup_cmd_submit_pdu 5 65538 in_urb))).u.setup
        ≡ setup_of in_urb)
    × (filled
          (read_header big_endian (sent_bytes little_endian (setup_cmd_submit_pdu 5 65538 in_urb)))
          filled_urb
          cmd_submit
        ≡ record filled_urb {
          transfer_flags = tweak_transfer_flags 0;
          transfer_buffer_length = 4;
          start_frame = 0;
          number_of_packets = 0;
          interval = 0;
        })
submission_arrives_example =
    submission_arrives little_endian big_endian 5 65538 in_urb filled_urb (omega arith)
      (omega arith) in_urb-FitsUrb refl

result_arrives_example :
    ((read_header little_endian (sent_bytes big_endian (setup_ret_submit_pdu 5 in_urb))).base.seqnum
      ≡ 5)
    × (filled
          (read_header little_endian (sent_bytes big_endian (setup_ret_submit_pdu 5 in_urb)))
          filled_urb
          ret_submit
        ≡ record filled_urb {
          status = neg einprogress;
          actual_length = 0;
          start_frame = 0;
          number_of_packets = 0;
          error_count = 0;
        })
result_arrives_example =
    result_arrives big_endian little_endian 5 in_urb filled_urb (omega arith) in_urb-FitsUrb
