-- ===== src/Filter/Frame/Consume.antt =====
-- filter_ptp.c: ptp_consume_, the completion functions of the filter's own URBs, and ptp_timer.
use usbip.Base.{
  ℕ, zero, suc, ◌+◌, ◌*◌, ◌%◌, ◌^◌, Bool, true, false, not, ◌||◌, [], ◌∷◌, ◌++◌, Option, none, some,
  u32, leb, ltb, take, ◌==◌, if◌then◌else◌,
}
use usbip.Filter.Ptp.{FilterState, bypassed, active, sleep, self, below_active, container_response}
use usbip.Filter.Ptp.Parse.{le32_to_cpu, bulk_header_size}
use usbip.Filter.Frame.{
  FrameUrb, Frames, cmd_complete, data_complete, full_size, int_leb, int_sub, framebuf_align,
  to_end_count, to_end_space, transfer_length, set_state, set_urb, take_out, move_client, move_free,
  move_busy, lock, unlock, segment,
}
use usbip.Filter.Frame.Produce.{is_busy, is_drop, parse_urb}
use usbip.Filter.Frame.Serve.{
  produce, complete_urb, Begin, leave, spoiled, copies, begin_frame, copy_length, copy_frame,
}

abbrev pub next_urb : Option ℕ → Frames → Option ℕ
next_urb (some u) f = some u
next_urb none f = elim f.client_queue [ [] ↦ none | u ∷ _ ↦ some u ]

abbrev pub is_missing : Option ℕ → Bool
is_missing none = true
is_missing (some u) = false

abbrev pub begin : Frames → ℕ → ℕ → Begin
begin f u count = if f.frame_length == 0 then begin_frame f u count else copies f

-- An URB that is full, or has the end of a frame, goes back to the client; the lock is released
-- meanwhile. With it the URB that is served further.
unfoldable pub serve : Bool → Frames → ℕ → Option (Option ℕ × Frames)
unfolding take_out lock complete_urb
serve pending f u =
    let urb : FrameUrb = f.urb u in
    let f' : Frames = unlock (if pending then take_out f u else f) in
    if f.frame_length == 0 || urb.actual_length == urb.transfer_buffer_length
    then elim (complete_urb f' u) [
      | none ↦ none
      | some f'' ↦ elim (lock f'') [ none ↦ none | some held ↦ some (none, held) ]
    ]
    else some (some u, f)

-- What the loop does to an URB that is not served yet.
abbrev pub postpone_client : Bool → Frames → ℕ → Frames
postpone_client pending f u = if pending then f else move_client f u

abbrev pub copied_length : Frames → ℕ → ℕ → ℕ
copied_length f u count =
    copy_length (int_sub (f.urb u).transfer_buffer_length (f.urb u).actual_length) count
      f.frame_length

-- The loop of ptp_consume_, on fuel: its result and the filter. `none` means that the fuel ran out,
-- or that something waits without end.
unfoldable pub consume_loop : ℕ → Bool → Option ℕ → Bool → Frames → Option (Bool × Frames)
unfolding begin_frame copy_frame serve produce
consume_loop zero pending priv ret f = none
consume_loop (suc fuel) pending priv ret f =
    if below_active f.ptp.state
    then some (ret, record f { frame_serving = false })
    else elim (next_urb priv f) [
      | none ↦ some (ret, f)
      | some u ↦
          let from_queue : Bool = pending || is_missing priv in
          let count : ℕ = to_end_count f.frame_buffer_size f.frame_head f.frame_tail in
          elim (begin f u count) [
            | leave f' ↦ some (true, postpone_client from_queue f' u)
            | spoiled f' ↦ some (false, f')
            | copies f' ↦
                let n : ℕ = copied_length f' u count in
                let rest : Option (Bool × Frames) = elim (serve from_queue (copy_frame f' u n) u) [
                  | none ↦ none
                  | some (priv', served) ↦ elim (produce served none) [
                    | none ↦ none
                    | some (r, next) ↦ consume_loop fuel from_queue priv' true next
                  ]
                ] in
                if n == 0 then some (true, postpone_client from_queue f' u) else rest
          ]
    ]

-- ptp_consume_
unfoldable pub consume : ℕ → Frames → Option ℕ → Option (Bool × Frames)
unfolding consume_loop
consume fuel f priv = consume_loop fuel false priv false f

-- ptp_bypass4: the URB is free again, the filter does nothing any more.
unfoldable pub bypass4 : Frames → ℕ → Frames
unfolding move_free
bypass4 f u = unlock (set_state (move_free f u) bypassed)

-- The header at the start of a phase that is received; `false` where ptp_bypass4 is run.
unfoldable pub receive_header : Frames → ℕ → Frames × Bool
receive_header f u =
    let urb : FrameUrb = f.urb u in
    let pdu_length : ℕ = le32_to_cpu (segment f.frame_buffer urb.start 4) in
    let pdu_type : ℕ = f.frame_buffer (urb.start + 4) + f.frame_buffer (urb.start + 5) * 2 ^ 8 in
    let f' : Frames = record f { frame_rx_length = pdu_length } in
    if not (f.frame_rx_length == 0)
    then (f, true)
    else if ltb urb.actual_length bulk_header_size
    then (f, false)
    else if ltb pdu_length bulk_header_size
    then (f', false)
    else (record f' { frame_rx_pdu_end = pdu_type == container_response }, true)

-- The end of a frame, with `head` behind it: the state, and the timer for the next one.
unfoldable pub frame_done : ℕ → ℕ → Frames → ℕ → Frames
frame_done buffer_count jiffies f head =
    let counted : Frames = record f { frame_head = head; frame_count = u32 (f.frame_count + 1) } in
    let dropped : Frames = record f {
      frame_head = f.frame_rx_tail;
      frame_buffer_size =
          if int_leb f.frame_tail f.frame_rx_tail then full_size else f.frame_buffer_size;
    } in
    let going : Frames = set_state counted active in
    if is_drop f.ptp.state
    then set_state dropped sleep
    else if leb buffer_count (u32 (f.frame_count + 1)) || not (f.self_machine.pdu_code == 0x2001)
    then set_state counted sleep
    else record going {
      trigger_jiffies = if ltb f.trigger_jiffies jiffies then jiffies + 1 else f.trigger_jiffies;
      ptp = record going.ptp { timer = true };
    }

-- What ptp_data_complete does with the bytes received: the URB that goes on reading, and the filter.
unfoldable pub receive : ℕ → ℕ → Frames → ℕ → Option ℕ × Frames
unfolding frame_done move_free
receive buffer_count jiffies f u =
    let n : ℕ = (f.urb u).actual_length in
    let rest : ℕ = int_sub f.frame_rx_length n in
    let f' : Frames = record f { frame_rx_length = rest } in
    let head : ℕ =
      if is_drop f.ptp.state then f.frame_head else u32 (f.frame_head + n) % f.frame_buffer_size in
    if not (rest == 0)
    then (some u, record f' { frame_head = head })
    else if f.frame_rx_pdu_end
    then (none, frame_done buffer_count jiffies (move_free f' u) (framebuf_align head))
    else (some u, record f' { frame_head = framebuf_align head })

-- The end of ptp_data_complete, under the lock.
unfoldable pub received_data : ℕ → ℕ → ℕ → Frames → ℕ → Option Frames
unfolding receive_header receive bypass4 consume
received_data fuel buffer_count jiffies f u =
    let (header, is_good) = receive_header f u in
    let (priv, f') = receive buffer_count jiffies header u in
    if not (is_busy f.ptp.state || is_drop f.ptp.state)
    then some (bypass4 f u)
    else if not is_good
    then some (bypass4 header u)
    else elim (produce f' priv) [
      | none ↦ none
      | some (ret, f'') ↦ elim (consume fuel f'' none) [
        | none ↦ none
        | some (ret', done) ↦ some (unlock done)
      ]
    ]

-- ptp_data_complete, with usbip_ptp_buffer_count and the clock.
unfoldable pub data_completed : ℕ → ℕ → ℕ → Frames → ℕ → Option Frames
unfolding received_data bypass4 lock parse_urb
data_completed fuel buffer_count jiffies f u =
    if not ((f.urb u).status == 0)
    then elim (lock f) [ none ↦ none | some held ↦ some (bypass4 held u) ]
    else elim (parse_urb self f u) [
      | none ↦ none
      | some (done, f') ↦ elim (lock f') [
        | none ↦ none
        | some held ↦ received_data fuel buffer_count jiffies held u
      ]
    ]

-- ptp_cmd_complete: the preview command was sent, and the URB reads the answer into the frame
-- buffer.
unfoldable pub cmd_completed : Frames → ℕ → Option Frames
unfolding lock bypass4
cmd_completed f u = elim (lock f) [
  | none ↦ none
  | some held ↦
      let space : ℕ = to_end_space f.frame_buffer_size f.frame_head f.frame_tail in
      let n : ℕ = transfer_length f.out_pipe_size space in
      let reading : FrameUrb = record (f.urb u) {
        start = f.frame_head;
        complete = data_complete;
        actual_length = 0;
        status = 0;
        pipeout = not f.has_in_pipe;
        bulk = f.has_in_pipe;
        transfer_buffer_length = n;
      } in
      let ready : Frames = set_urb (record held { frame_rx_length = 0 }) u reading in
      if not ((f.urb u).status == 0) || below_active f.ptp.state
      then some (bypass4 held u)
      else if n == 0
      then some (unlock (set_state ready bypassed))
      else some (record (unlock ready) { submitted = f.submitted ++ u ∷ [] })
]

abbrev pub is_timer_idle : FilterState → Bool
is_timer_idle FilterState.drop_frame = true
is_timer_idle sleep = true
is_timer_idle FilterState.sleep_wait = true
is_timer_idle st = below_active st

-- ptp_timer: a free URB sends the preview command.
unfoldable pub timer : ℕ → Frames → Option Frames
unfolding lock move_busy produce
timer frame_jiffies f = elim (lock f) [
  | none ↦ none
  | some held ↦ if is_timer_idle f.ptp.state then some (unlock held) else elim f.ptp.free_list [
    | [] ↦ some (unlock held)
    | w ∷ _ ↦
        let sending : FrameUrb = record (f.urb w.urb) {
          complete = cmd_complete;
          bytes = f.trigger_pdu;
          transfer_buffer_length = le32_to_cpu (take 4 f.trigger_pdu);
          pipeout = true;
          bulk = f.has_out_pipe;
        } in
        let f' : Frames = move_busy (set_urb held w.urb sending) w.urb in
        elim (produce (record f' { trigger_jiffies = f.trigger_jiffies + frame_jiffies })
          (some w.urb)) [ none ↦ none | some (ret, f'') ↦ some (unlock f'') ]
  ]
]
