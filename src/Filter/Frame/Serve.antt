-- ===== src/Filter/Frame/Serve.antt =====
-- filter_ptp.c: ptp_produce_ and ptp_on_tx; ptp_consume_, which serves the frames to the client.
use usbip.Base.{
  ℕ, ◌+◌, ◌*◌, ◌%◌, ◌^◌, Bool, true, false, not, ◌&&◌, ◌||◌, List, [], ◌∷◌, ◌++◌, Option, none,
  some, u32, leb, ltb, ◌==◌, if◌then◌else◌,
}
use usbip.Filter.Ptp.{
  FilterState, init, bypassed, idle, command, active, wait, sleep, sleep_wait, tx,
  container_response,
}
use usbip.Filter.Ptp.Parse.{le32_to_cpu, bulk_header_size}
use usbip.Filter.Frame.{
  FrameUrb, Frames, full_size, none_int, int_ltb, int_sub, framebuf_align, set_state, set_urb,
  is_data_complete, lock, unlock, segment,
}
use usbip.Filter.Frame.Produce.{
  is_busy, is_drop, parse_urb, is_preview, submit_urb, postpone, produce_command, produce_preview,
}
use usbip.Filter.Frame.Room.{produce_data}

unfoldable pub produce_urb : Bool → Frames → ℕ → Option (Bool × Frames)
unfolding is_preview produce_command produce_preview submit_urb produce_data
produce_urb pending f u =
    let urb : FrameUrb = f.urb u in
    if urb.pipeout
    then elim (is_preview f.ptp urb.bytes) [
      | none ↦ none
      | some preview ↦ if preview then produce_preview pending f u else produce_command pending f u
    ]
    else if is_data_complete urb.complete
    then produce_data pending f u
    else if is_busy f.ptp.state || is_drop f.ptp.state
    then some (true, postpone pending f u)
    else if pending
    then submit_urb pending f u
    else some (false, f)

-- ptp_produce_, for the given URB or else the first of the request queue: whether its result is not
-- 0, and the filter.
unfoldable pub produce : Frames → Option ℕ → Option (Bool × Frames)
unfolding produce_urb
produce f (some u) = produce_urb false f u
produce f none = elim f.ptp.request_queue [
  | [] ↦ some (false, f)
  | w ∷ _ ↦ produce_urb true f w.urb
]

abbrev pub is_bypassed : FilterState → Bool
is_bypassed bypassed = true
is_bypassed _ = false

abbrev pub is_init : FilterState → Bool
is_init init = true
is_init _ = false

-- The state after the response to a command of the client.
abbrev pub answered : FilterState → FilterState
answered wait = active
answered sleep_wait = sleep
answered command = idle
answered st = st

abbrev pub changes : FilterState → Bool
changes wait = true
changes sleep_wait = true
changes command = true
changes _ = false

-- The end of ptp_on_tx, after the parser has seen the end of a response.
unfoldable pub response_done : Frames → Option Frames
unfolding lock produce
response_done f = elim (lock f) [
  | none ↦ none
  | some held ↦
      let f' : Frames =
        if changes f.ptp.state then set_state held (answered f.ptp.state) else held in
      elim (produce f' none) [ none ↦ none | some (ret, f'') ↦ some (unlock f'') ]
]

-- ptp_on_tx
unfoldable pub on_tx : Frames → ℕ → Option Frames
unfolding response_done lock parse_urb
on_tx f u =
    let urb : FrameUrb = f.urb u in
    if is_bypassed f.ptp.state || not urb.bulk
    then some f
    else if not (urb.status == 0)
    then elim (lock f) [ none ↦ none | some held ↦ some (unlock (set_state held bypassed)) ]
    else elim (parse_urb tx f u) [
      | none ↦ none
      | some (done, f') ↦
          if urb.pipeout || is_init f'.ptp.state
          then some f'
          else if done
          then response_done f'
          else some f'
    ]

-- ptp_complete_urb: stub_complete asks ptp_on_tx and queues the reply to the client.
unfoldable pub complete_urb : Frames → ℕ → Option Frames
unfolding on_tx
complete_urb f u =
    let f' : Frames =
      set_urb (record f { frame_serving_urb = some u }) u (record (f.urb u) { status = 0 }) in
    elim (on_tx f' u) [
      | none ↦ none
      | some f'' ↦ some (record f'' { frame_serving_urb = none; returned = f''.returned ++ u ∷ [] })
    ]

-- How a round of ptp_consume_ begins: it leaves the loop, it returns with the filter bypassed, or it
-- copies.
pub data Begin : Type 0 where
  leave : Frames → Begin
  spoiled : Frames → Begin
  copies : Frames → Begin

-- The marks for the start of a frame.
abbrev pub pass_marks : Frames → Frames
pass_marks f =
    if f.frame_tail == f.frame_rx_tail2
    then record f { frame_rx_tail2 = none_int }
    else if f.frame_tail == f.frame_rx_tail
    then (if is_drop f.ptp.state then f else record f { frame_rx_tail = none_int })
    else f

-- The header at the tail, where a frame begins: ptp_bypass3 releases the lock.
unfoldable pub begin_frame : Frames → ℕ → ℕ → Begin
begin_frame f u count =
    let header : List ℕ = segment f.frame_buffer f.frame_tail 4 in
    let pdu_type : ℕ =
      f.frame_buffer (f.frame_tail + 4) + f.frame_buffer (f.frame_tail + 5) * 2 ^ 8 in
    let marked : Frames = pass_marks f in
    let f' : Frames = record marked { frame_pdu_end = pdu_type == container_response } in
    let f'' : Frames = record f' { frame_length = le32_to_cpu header } in
    if not (f.frame_tail == f.frame_rx_tail2)
      && (f.frame_tail == f.frame_rx_tail && is_drop f.ptp.state)
    then leave f
    else if ltb count bulk_header_size
    then leave marked
    else if not ((f.urb u).actual_length == 0)
    then spoiled (unlock (set_state f' bypassed))
    else if ltb (le32_to_cpu header) bulk_header_size
    then spoiled (unlock (set_state f'' bypassed))
    else copies f''

-- The three bounds on copy_length, an `int` that is compared with the `int` length and with the
-- unsigned frame_length.
unfoldable pub copy_length : ℕ → ℕ → ℕ → ℕ
copy_length wanted count frame_length =
    let n : ℕ = if int_ltb count wanted then count else wanted in
    if ltb frame_length n then frame_length else n

-- memset
abbrev pub fill : (ℕ → ℕ) → ℕ → ℕ → ℕ → ℕ
fill buffer start n i = if leb start i && ltb i (start + n) then 255 else buffer i

-- The copy of `n` bytes to the URB, and what follows up to the new frame_tail.
unfoldable pub copy_frame : Frames → ℕ → ℕ → Frames
copy_frame f u n =
    let urb : FrameUrb = f.urb u in
    let tail : ℕ = u32 (f.frame_tail + n) % f.frame_buffer_size in
    let rest : ℕ = int_sub f.frame_length n in
    let copied : Frames =
      set_urb
        (record f {
          frame_buffer = fill f.frame_buffer f.frame_tail n;
          frame_length = rest;
          frame_buffer_size = if int_ltb tail f.frame_tail then full_size else f.frame_buffer_size;
        })
        u
        (record urb {
          bytes = urb.bytes ++ segment f.frame_buffer f.frame_tail n;
          actual_length = u32 (urb.actual_length + n);
        }) in
    let ended : Frames = record copied { frame_tail = framebuf_align tail } in
    if rest == 0
    then (if f.frame_pdu_end
        then record ended { frame_serving = false; frame_count = int_sub f.frame_count 1 }
        else ended)
    else record copied { frame_tail = tail }
