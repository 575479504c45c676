-- ===== src/Filter/Frame/Room.antt =====
-- filter_ptp.c: where in the frame buffer ptp_produce_ lets the next transfer be written.
use usbip.Base.{
  ℕ, ◌*◌, Bool, false, not, ◌&&◌, Option, some, u32, leb, ltb, ◌==◌, if◌then◌else◌, is_negative,
}
use usbip.Filter.Ptp.{bypassed, drop_frame}
use usbip.Filter.Frame.{
  FrameUrb, Frames, full_size, none_int, int_leb, int_ltb, int_sub, to_end_space, transfer_length,
  set_state, set_urb,
}
use usbip.Filter.Frame.Produce.{is_drop, submit_urb, postpone}

-- The variables of ptp_produce_: the filter, `head` and the length of the transfer.
pub record Room : Type 0 where
  pub filter : Frames
  pub head : ℕ
  pub length : ℕ

-- The room from head on; where it is small, the buffer is made larger again or head rolls over.
-- Then head is 0 only in the variable: frame_head still marks the end of the buffer.
unfoldable pub find_room : Frames → Room
find_room f =
    let head : ℕ = f.frame_head in
    let tail : ℕ = f.frame_tail in
    let space : ℕ = to_end_space f.frame_buffer_size head tail in
    let plain : Room = record { filter = f; head = head; length = space } in
    if ltb space f.out_pipe_size && int_ltb tail head
    then if leb f.out_pipe_size (int_sub full_size head)
      then record {
        filter = record f { frame_buffer_size = full_size };
        head = head;
        length = int_sub full_size head;
      }
      else if not (tail == 0)
      then record { filter = record f { frame_buffer_size = head }; head = 0; length = tail }
      else plain
    else plain

-- A round of the loop for a frame that is dropped: its bytes are written over its own start.
unfoldable pub drop_place : Frames → Frames
drop_place f =
    if int_leb f.frame_rx_tail f.frame_tail
    then record f { frame_head = f.frame_rx_tail }
    else if int_ltb f.frame_tail (int_sub full_size f.frame_rx_tail)
    then record f { frame_head = f.frame_rx_tail; frame_buffer_size = full_size }
    else record f { frame_head = 0 }

abbrev pub drop_space : Frames → ℕ
drop_space f = to_end_space f.frame_buffer_size f.frame_head f.frame_tail

-- Whether the frame before it is dropped as well. Then frame_rx_tail2 is negative, so there is no
-- third round.
abbrev pub drops_previous : Frames → Bool
drops_previous f =
    not (is_negative f.frame_rx_tail2)
    && (int_ltb 1 f.frame_count && ltb (drop_space f) (u32 (f.out_pipe_size * 32)))

unfoldable pub drop_loop : Frames → Frames
unfolding drop_place
drop_loop f =
    let f1 : Frames = drop_place f in
    if drops_previous f1
    then drop_place (record f1 { frame_rx_tail = f1.frame_rx_tail2; frame_rx_tail2 = none_int })
    else f1

-- Once there is room: the URB gets its place in the frame buffer.
unfoldable pub submit_room : Bool → Room → ℕ → Option (Bool × Frames)
submit_room pending r u =
    let n : ℕ = transfer_length r.filter.out_pipe_size r.length in
    let placed : FrameUrb = record (r.filter.urb u) {
      start = r.head;
      transfer_buffer_length = n;
    } in
    let f : Frames = set_urb r.filter u placed in
    if n == 0 then some (false, set_state f bypassed) else submit_urb pending f u

-- The room for a frame that is dropped, where the state says so.
unfoldable pub drop_room : Room → Room
unfolding drop_loop
drop_room r =
    let f : Frames = drop_loop r.filter in
    if is_drop r.filter.ptp.state
    then record { filter = f; head = f.frame_head; length = drop_space f }
    else r

-- ptp_produce_ for an URB of the filter that reads a frame.
unfoldable pub produce_data : Bool → Frames → ℕ → Option (Bool × Frames)
unfolding find_room drop_room submit_room
produce_data pending f u =
    let r : Room = find_room f in
    let kept : Frames =
      set_urb r.filter u (record (f.urb u) { transfer_buffer_length = r.length }) in
    let dropping : Room = record r { filter = set_state r.filter drop_frame } in
    if ltb r.length f.out_pipe_size
    then if is_negative f.frame_rx_tail
      then some (false, postpone pending kept u)
      else submit_room pending (drop_room dropping) u
    else submit_room pending (drop_room r) u
