-- ===== src/Filter/Frame/Request.antt =====
-- filter_ptp.c: ptp_on_rx, which sees every URB of the client before it is submitted.
use usbip.Base.{
  ℕ, Bool, true, false, not, ◌&&◌, ◌||◌, Option, none, some, ltb, take, ◌==◌, if◌then◌else◌,
}
use usbip.Filter.Ptp.{
  FilterState, bypassed, idle, command, active, busy, wait, drop_frame, sleep, sleep_wait, rx,
  below_active, ParserState, wait_response, container_command,
}
use usbip.Filter.Ptp.Parse.{le32_to_cpu}
use usbip.Filter.Frame.{
  FrameUrb, Frames, full_size, none_int, set_state, set_urb, move_request, move_free, lock, unlock,
}
use usbip.Filter.Frame.Produce.{is_preview, parse_urb}
use usbip.Filter.Frame.Serve.{is_bypassed, produce, complete_urb}
use usbip.Filter.Frame.Consume.{consume, timer}

-- What ptp_on_rx is answered: the clock and the time between two frames, wMaxPacketSize of the
-- endpoint, whether there is memory for the frame buffer and for the copy of the command, and the
-- URBs that stub_build_urb makes, at most PTP_FREE_URB_COUNT.
pub record World : Type 0 where
  pub jiffies : ℕ
  pub frame_jiffies : ℕ
  pub max_packet_size : ℕ
  pub buffer_memory : Bool
  pub command_memory : Bool
  pub built : Option ℕ
  pub built_next : Option ℕ

abbrev pub is_wait_response : ParserState → Bool
is_wait_response wait_response = true
is_wait_response _ = false

-- ptp_bypass1: the lock is taken for it.
unfoldable pub bypass1 : Frames → Option (Bool × Frames)
unfolding lock
bypass1 f = elim (lock f) [
  | none ↦ none
  | some held ↦ some (false, unlock (set_state held bypassed))
]

-- ptp_bypass, where the lock is held.
abbrev pub bypass : Frames → Option (Bool × Frames)
bypass f = some (false, unlock (set_state f bypassed))

abbrev pub learn_pipes : World → Frames → ℕ → Frames
learn_pipes w f u =
    if (f.urb u).pipeout
    then (if f.has_out_pipe
        then f
        else record f { has_out_pipe = true; out_pipe_size = w.max_packet_size })
    else record f { has_in_pipe = true }

-- A request for data.
unfoldable pub request_data : ℕ → Frames → ℕ → Option (Bool × Frames)
unfolding lock consume produce
request_data fuel f u = elim (lock f) [
  | none ↦ none
  | some held ↦
      let answer : Option (Bool × Frames) =
        if f.frame_serving
        then consume fuel held (some u)
        else if not (below_active f.ptp.state)
        then produce held (some u)
        else some (false, held) in
      elim answer [ none ↦ none | some (ret, f') ↦ some (ret, unlock f') ]
]

-- ptp_complete_urb for a command that the filter answers itself, without the lock.
unfoldable pub acknowledge : Frames → ℕ → Option Frames
acknowledge f u =
    let urb : FrameUrb = f.urb u in
    complete_urb (set_urb (unlock f) u (record urb { actual_length = urb.transfer_buffer_length }))
      u

-- The loop that makes the free URBs; `false` where one cannot be made.
abbrev pub add_free : Frames → Option ℕ → Bool × Frames
add_free f none = (false, f)
add_free f (some u) = (true, move_free f u)

-- The frame buffer is made at the first preview command; `false` where ptp_bypass1 is run.
unfoldable pub make_buffer : World → Frames → ℕ → Bool × Frames
unfolding move_free
make_buffer w f u =
    let urb : FrameUrb = f.urb u in
    let allocated : Frames = record f {
      has_frame_buffer = true;
      frame_buffer = λ i. 253;
      frame_buffer_size = full_size;
    } in
    let copied : Frames = record allocated {
      trigger_pdu = take urb.transfer_buffer_length urb.bytes;
    } in
    let (first, f1) = add_free copied w.built in
    if f.has_frame_buffer
    then (true, f)
    else if not w.buffer_memory
    then (false, f)
    else if not (urb.transfer_buffer_length == le32_to_cpu (take 4 urb.bytes))
        || not w.command_memory
    then (false, allocated)
    else if first
    then add_free f1 w.built_next
    else (false, f1)

-- A preview command that turns the stream on, or wakes it up.
unfoldable pub stream_on : World → Frames → ℕ → Option (Bool × Frames)
stream_on w f u =
    let serving : Frames = set_state (record f { frame_serving = true }) active in
    let timed : Frames = record serving { ptp = record serving.ptp { timer = true } } in
    let now : Frames = record serving { trigger_jiffies = w.jiffies } in
    if not (f.frame_count == 0) && ltb w.jiffies f.trigger_jiffies
    then elim (acknowledge timed u) [ none ↦ none | some f' ↦ some (true, f') ]
    else elim (acknowledge now u) [
      | none ↦ none
      | some f' ↦
          let (made, f'') = make_buffer w f' u in
          if made
          then elim (timer w.frame_jiffies f'') [ none ↦ none | some done ↦ some (true, done) ]
          else bypass1 f''
    ]

-- The stream starts with an empty buffer.
abbrev pub start_stream : Frames → Frames
start_stream f = record f {
  frame_count = 0;
  frame_rx_tail = none_int;
  frame_rx_tail2 = none_int;
  frame_head = 0;
  frame_tail = 0;
  frame_length = 0;
}

-- The switch over the state.
abbrev pub preview_in : World → FilterState → Frames → ℕ → Option (Bool × Frames)
preview_in w idle f u = stream_on w (start_stream f) u
preview_in w sleep f u = stream_on w f u
preview_in w st f u =
    if below_active st || f.frame_serving
    then bypass f
    else elim (acknowledge (record f { frame_serving = true }) u) [
      | none ↦ none
      | some f' ↦ some (true, f')
    ]

unfoldable pub preview_command : World → Frames → ℕ → Option (Bool × Frames)
preview_command w f u = preview_in w f.ptp.state f u

unfoldable pub other_command : Frames → ℕ → Option (Bool × Frames)
unfolding move_request
other_command f u = elim f.ptp.state [
  | active ↦ some (false, unlock (set_state f wait))
  | sleep ↦ some (false, unlock (set_state f sleep_wait))
  | idle ↦ some (false, unlock (set_state f command))
  | drop_frame ↦ some (true, unlock (move_request f u))
  | busy ↦ some (true, unlock (move_request f u))
  | _ ↦ bypass f
]

-- ptp_on_rx: whether it takes the URB over, and the filter.
unfoldable pub on_rx : ℕ → World → Frames → ℕ → Option (Bool × Frames)
unfolding request_data parse_urb lock is_preview preview_command other_command
on_rx fuel w f u =
    let f' : Frames = learn_pipes w f u in
    if is_bypassed f.ptp.state || not (f.urb u).bulk
    then some (false, f)
    else if not (f.urb u).pipeout
    then request_data fuel f' u
    else elim (parse_urb rx f' u) [
      | none ↦ none
      | some (done, read) ↦
          if not (is_wait_response read.rx_machine.state)
            || not (read.rx_machine.pdu_type == container_command)
          then some (false, read)
          else elim (lock read) [
            | none ↦ none
            | some held ↦ elim (is_preview held.ptp (held.urb u).bytes) [
              | none ↦ none
              | some preview ↦ if preview then preview_command w held u else other_command held u
            ]
          ]
    ]
