-- ===== src/Filter/Frame/Produce.antt =====
-- filter_ptp.c: ptp_produce_, which submits the next URB.
use usbip.Base.{
  ℕ, ◌+◌, ◌*◌, ◌^◌, Bool, true, false, not, ◌||◌, List, [], ◌∷◌, ◌++◌, Option, none, some, leb,
  length, take, drop, ◌==◌, if◌then◌else◌, is_positive,
}
use usbip.Filter.Ptp.{
  Ptp, Which, send, FilterState, idle, command, active, busy, wait, drop_frame, sleep, sleep_wait,
  check_preview, is_sleep,
}
use usbip.Filter.Ptp.Parse.{parse, running, bypass, overrun, stuck}
use usbip.Filter.Frame.{
  FrameUrb, Frames, framebuf_space, machine_of, set_machine, set_state, set_urb, is_stub_complete,
  is_data_complete, take_out, move_request, move_busy, lock, unlock, segment, is_urb,
}

abbrev pub is_active : FilterState → Bool
is_active active = true
is_active _ = false

abbrev pub is_busy : FilterState → Bool
is_busy busy = true
is_busy _ = false

abbrev pub is_drop : FilterState → Bool
is_drop drop_frame = true
is_drop _ = false

-- The bytes that ptp_parse walks over.
unfoldable pub parsed : Frames → ℕ → List ℕ
parsed f u =
    let urb : FrameUrb = f.urb u in
    if is_data_complete urb.complete
    then segment f.frame_buffer urb.start urb.actual_length
    else take (if urb.pipeout then urb.transfer_buffer_length else urb.actual_length) urb.bytes

-- What ptp_parse wrote over them. In the frame buffer it changes nothing: only the machine `self`
-- reads there.
abbrev pub parsed_to : Frames → ℕ → List ℕ → Frames
parsed_to f u bytes =
    let urb : FrameUrb = f.urb u in
    if is_data_complete urb.complete
    then f
    else set_urb f u (record urb { bytes = bytes ++ drop (length bytes) urb.bytes })

-- ptp_parse, for an URB of the filter; `none` where it waits without end or reads past the end of
-- the bytes.
unfoldable pub parse_urb : Which → Frames → ℕ → Option (Bool × Frames)
unfolding parsed
parse_urb which f u =
    elim (parse which (is_urb f.frame_serving_urb u) f.ptp (machine_of which f) (parsed f u)) [
      | none ↦ none
      | some r ↦ elim r [
        | running s ↦ some (
          s.is_done,
          parsed_to (set_machine which s.machine (record f { ptp = s.filter })) u
              (s.before ++ s.data_bytes),
        )
        | bypass p m bytes ↦
            some (false, parsed_to (set_machine which m (record f { ptp = p })) u bytes)
        | overrun ↦ none
        | stuck ↦ none
      ]
    ]

-- The field `code` of the header that the bytes begin with; `none` where there are too few.
unfoldable pub header_code : List ℕ → Option ℕ
header_code (a ∷ b ∷ c ∷ d ∷ e ∷ f ∷ g ∷ h ∷ rest) = some (g + h * 2 ^ 8)
header_code _ = none

-- ptp_check_preview, which reads the code only for a vendor that it knows.
unfoldable pub is_preview : Ptp → List ℕ → Option Bool
unfolding header_code
is_preview p bytes =
    if p.vendor == 11
    then elim (header_code bytes) [ none ↦ none | some code ↦ some (check_preview p code) ]
    else some false

-- ptp_submit_urb: `pending` says that the URB comes from the request queue.
unfoldable pub submit_urb : Bool → Frames → ℕ → Option (Bool × Frames)
unfolding parse_urb take_out move_busy lock
submit_urb pending f u =
    let urb : FrameUrb = f.urb u in
    let moved : Frames =
      if pending
      then if is_stub_complete urb.complete then take_out f u else move_busy f u
      else f in
    let ready : Frames = unlock (set_urb moved u (record urb { actual_length = 0; status = 0 })) in
    let read : Option (Bool × Frames) =
      if urb.pipeout then parse_urb send ready u else some (false, ready) in
    elim read [
      | none ↦ none
      | some (done, f') ↦ elim (lock (record f' { submitted = f'.submitted ++ u ∷ [] })) [
        | none ↦ none
        | some f'' ↦ some (true, f'')
      ]
    ]

-- An URB that has to wait.
abbrev pub postpone : Bool → Frames → ℕ → Frames
postpone pending f u = if pending then f else move_request f u

-- A command of the client that asks for no preview.
unfoldable pub produce_command : Bool → Frames → ℕ → Option (Bool × Frames)
unfolding submit_urb
produce_command pending f u = elim f.ptp.state [
  | idle ↦ submit_urb pending (set_state f command) u
  | sleep ↦ submit_urb pending (set_state f sleep_wait) u
  | active ↦ submit_urb pending (set_state f wait) u
  | _ ↦ some (true, postpone pending f u)
]

-- A preview command that is sent now.
unfoldable pub send_preview : Bool → Frames → ℕ → Option (Bool × Frames)
unfolding submit_urb
send_preview pending f u =
    let f' : Frames = record f {
      frame_rx_tail2 = if is_positive f.frame_rx_tail then f.frame_rx_tail else f.frame_rx_tail2;
      frame_rx_tail = f.frame_head;
    } in
    submit_urb pending (set_state f' busy) u

unfoldable pub produce_preview : Bool → Frames → ℕ → Option (Bool × Frames)
unfolding send_preview
produce_preview pending f u =
    let space : ℕ = framebuf_space f.frame_buffer_size f.frame_head f.frame_tail in
    if is_sleep f.ptp.state
    then send_preview pending (set_state f active) u
    else if not (is_active f.ptp.state) || leb space f.out_pipe_size
    then some (false, postpone pending f u)
    else send_preview pending f u
