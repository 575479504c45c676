-- ===== src/Filter/Frame/Stale.antt =====
-- Theorems on where the frame buffer and the answers to the client go wrong (filter_ptp.c).
use usbip.Base.{
  ℕ, ◌+◌, ◌-◌, ◌^◌, ◌<◌, ◌≡◌, refl, ◌∙◌, true, false, ◌++◌, arith, leb, ltb, ◌&&◌, ◌==◌,
}
use usbip.Filter.Frame.{Frames, full_size, to_end_space, to_end_count, int_sub, int_leb, int_ltb}
use usbip.Filter.Frame.Room.{find_room}
use usbip.Filter.Frame.Serve.{copy_frame}
use usbip.Filter.Frame.Ring.{IsRing, unread}
use usbip.Filter.Frame.Fifo.{Copied, copy_frame-Copied, next_wraps, tail_after}

-- The head rolls over.
find_room-rolls :
    (f : Frames)
    → IsRing f
    → 0 < f.frame_tail
    → f.frame_tail < f.frame_head
    → full_size < f.frame_head + f.out_pipe_size
    → (find_room f).filter ≡ record f { frame_buffer_size = f.frame_head }
unfolding find_room to_end_space
find_room-rolls f r p t h =
    let s : to_end_space f.frame_buffer_size f.frame_head f.frame_tail
        ≡ f.frame_buffer_size - f.frame_head =
      ground (arith, r.size, r.head) in
    let e : (ltb (f.frame_buffer_size - f.frame_head) f.out_pipe_size
          && int_ltb f.frame_tail f.frame_head)
        ≡ true =
      ground (arith, r.size, r.head) in
    let e' : leb f.out_pipe_size (int_sub full_size f.frame_head) ≡ false =
      ground (arith, r.size, r.head) in
    let e'' : (f.frame_tail == 0) ≡ false = ground arith in rw (find_room, s, e, e', e'') refl

-- Where the room for the next transfer is found by rolling over, and the consumer then takes
-- all bytes that were unread, but not all of the frame, before the transfer ends, the filter
-- counts as many bytes as the head is far from the start as unread.
pub stale_bytes :
    (f : Frames) (u : ℕ)
    → IsRing f
    → 0 < f.frame_tail
    → f.frame_tail < f.frame_head
    → full_size < f.frame_head + f.out_pipe_size
    → f.frame_head - f.frame_tail < f.frame_length
    → f.frame_length < 2 ^ 32
    → let g : Frames = copy_frame (find_room f).filter u (f.frame_head - f.frame_tail) in
      ((g.urb u).bytes ≡ (f.urb u).bytes ++ unread f)
      × (to_end_count g.frame_buffer_size g.frame_head g.frame_tail ≡ f.frame_head)
unfolding to_end_count
stale_bytes f u r p t h l w =
    let n : ℕ = f.frame_head - f.frame_tail in
    let rolled : Frames = record f { frame_buffer_size = f.frame_head } in
    let copied : Copied rolled u n (copy_frame rolled u n) =
      copy_frame-Copied rolled u n (ground arith) in
    let e : leb f.frame_tail f.frame_head ≡ true = ground arith in
    let z : tail_after f.frame_head f.frame_tail n ≡ 0 =
      next_wraps f.frame_head f.frame_tail n (omega arith) (omega arith)
        (omega (arith, r.head, r.size)) in
    let k : int_leb 0 f.frame_head ≡ true = ground (arith, r.head, r.size) in
    rw (find_room-rolls f r p t h) (
      copied.bytes ∙ rw e refl,
      rw (copied.size, copied.head, copied.tail, z, k) (omega (arith, r.head, r.size)),
    )
