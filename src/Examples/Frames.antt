-- ===== src/Examples/Frames.antt =====
-- The theorems on the frame buffer of the PTP filter, at concrete states.
use usbip.Base.{
  ℕ, ◌%◌, ◌<◌, ◌≤◌, ◌≡◌, refl, inl, true, false, List, [], ◌++◌, none, some, arith, length,
}
use usbip.Filter.Ptp.{busy}
use usbip.Filter.Frame.{
  Frames, FrameUrb, data_complete, full_size, none_int, to_end_count, segment, to_end_space,
  transfer_length, set_urb, lock,
}
use usbip.Filter.Frame.Produce.{submit_urb}
use usbip.Filter.Frame.Room.{find_room, produce_data, submit_room, drop_room}
use usbip.Filter.Frame.Serve.{copy_frame}
use usbip.Filter.Frame.Consume.{receive}
use usbip.Filter.Frame.Ring.{IsRing, unread}
use usbip.Filter.Frame.Bounds.{Unread, sent}
use usbip.Filter.Frame.Placing.{produce_data-within}
use usbip.Filter.Frame.Fifo.{copy_frame-fifo}
use usbip.Filter.Frame.Filling.{receive-fifo}
use usbip.Filter.Frame.Stale.{stale_bytes}
use usbip.Examples.Filters.{filter, machine}

-- An URB of the filter that has read 100 bytes at place 200.
abbrev frame_urb : FrameUrb
frame_urb = record {
  pipeout = false;
  bulk = true;
  complete = data_complete;
  status = 0;
  transfer_buffer_length = 512;
  actual_length = 100;
  bytes = [];
  start = 200;
}

-- A frame is received, of which 100 bytes are unread.
abbrev frames : Frames
frames = record {
  ptp = record filter { state = busy };
  tx_machine = machine;
  rx_machine = machine;
  self_machine = machine;
  send_machine = machine;
  urb = λ u. frame_urb;
  frame_count = 0;
  frame_serving = true;
  has_in_pipe = true;
  has_out_pipe = true;
  out_pipe_size = 512;
  has_frame_buffer = true;
  frame_buffer = λ i. i % 256;
  frame_head = 200;
  frame_tail = 100;
  frame_length = 1000;
  frame_pdu_end = false;
  frame_rx_length = 1000;
  frame_rx_pdu_end = false;
  frame_buffer_size = full_size;
  frame_rx_tail = 0;
  frame_rx_tail2 = none_int;
  client_queue = [];
  busy_queue = [];
  frame_serving_urb = none;
  trigger_jiffies = 0;
  trigger_pdu = [];
  submitted = [];
  returned = [];
}

frames-IsRing : IsRing frames
frames-IsRing = record { head = omega arith; tail = omega arith; size = omega arith }

frames_count : 60 ≤ to_end_count full_size 200 100
unfolding to_end_count
frames_count = omega arith

copy_frame-fifo_example :
    (served : List ℕ) × (length served ≡ 60)
    × (((copy_frame frames 5 60).urb 5).bytes ≡ [] ++ served)
    × (unread frames ≡ served ++ unread (copy_frame frames 5 60))
    × IsRing (copy_frame frames 5 60)
copy_frame-fifo_example =
    copy_frame-fifo frames 5 60 frames-IsRing (omega arith) frames_count (omega arith) (omega arith)

receive-fifo_example :
    ((receive 3 0 frames 5).0 ≡ some 5)
    × (unread (receive 3 0 frames 5).1 ≡ unread frames ++ segment (λ i. i % 256) 200 100)
receive-fifo_example =
    receive-fifo 3 0 frames 5 frames-IsRing refl (omega arith) (omega arith)
      (inl (refl, omega arith, λ h. absurd (omega arith), inl (omega arith)))

-- The head stands 76 bytes before the end of the memory, which is less than a packet.
abbrev near_end : Frames
near_end = record frames { frame_head = 1048500; frame_length = 2000000 }

near_end-IsRing : IsRing near_end
near_end-IsRing = record { head = omega arith; tail = omega arith; size = omega arith }

stale_bytes_example :
    let g : Frames = copy_frame (find_room near_end).filter 5 1048400 in
    ((g.urb 5).bytes ≡ [] ++ unread near_end)
    × (to_end_count g.frame_buffer_size g.frame_head g.frame_tail ≡ 1048500)
stale_bytes_example =
    stale_bytes near_end 5 near_end-IsRing (omega arith) (omega arith) (omega arith) (omega arith)
      (omega arith)

-- The place that ptp_produce_ finds in `frames`.
abbrev placed : Frames
placed =
    sent false
      (set_urb frames 5 (record frame_urb { start = 200; transfer_buffer_length = 1048064 })) 5

placed_lem : produce_data false frames 5 ≡ some (true, placed)
unfolding produce_data find_room drop_room submit_room submit_urb to_end_space transfer_length lock
placed_lem = refl

produce_data-within_example : (1000 < full_size) × ¬ Unread frames 1000
produce_data-within_example =
    produce_data-within false frames 5 placed frames-IsRing refl placed_lem refl 1000 (omega arith)
      (omega arith)
