-- ===== src/Filter/Frame/Bounds.antt =====
-- Theorems on where ptp_produce_ lets the next transfer be written (filter_ptp.c).
use usbip.Base.{
  ℕ, ◌+◌, ◌≤◌, ◌<◌, ◌≡◌, refl, ◌⊎◌, Bool, true, false, some, arith, ltb, leb, Bool-cases, ◌&&◌, inl,
  inr, ◌++◌, ◌∷◌, [], ◌==◌, if◌then◌else◌,
}
use usbip.Filter.Frame.{
  Frames, full_size, to_end_space, set_urb, int_sub, int_leb, int_ltb, take_out, move_busy, lock,
  is_stub_complete,
}
use usbip.Filter.Frame.Produce.{submit_urb}
use usbip.Filter.Frame.Room.{find_room}
use usbip.Filter.Frame.Ring.{IsRing}

-- A place of the buffer that holds an unread byte.
abbrev pub Unread : Frames → ℕ → Type 0
Unread f i =
    ((f.frame_tail ≤ i) × (i < f.frame_head))
    ⊎ ((f.frame_head < f.frame_tail)
        × (((f.frame_tail ≤ i) × (i < f.frame_buffer_size)) ⊎ (i < f.frame_head)))

-- Where a transfer of `n` bytes from `start` may be written.
abbrev pub Fits : ℕ → ℕ → ℕ → ℕ → Type 0
Fits head tail start n =
    (start + n ≤ full_size)
    × (((start ≡ head) × (head < tail → head + n ≤ tail))
        ⊎ ((start ≡ 0) × ((n ≤ tail) × (tail < head))))

to_end_space-Fits :
    (size head tail : ℕ)
    → head ≤ size
    → tail ≤ size
    → size ≤ full_size
    → Fits head tail head (to_end_space size head tail)
unfolding to_end_space
to_end_space-Fits size head tail h t s = elim (Bool-cases (int_leb tail head)) [
  | inl e ↦ rw (to_end_space, e) ((omega arith), inl (refl, λ k. absurd (ground (arith, e))))
  | inr e ↦ rw (to_end_space, e) ((ground (arith, e)), inl (refl, λ k. omega arith))
]

pub find_room-Fits :
    (f : Frames) → IsRing f → Fits f.frame_head f.frame_tail (find_room f).head (find_room f).length
unfolding find_room
find_room-Fits f r =
    let space : ℕ = to_end_space f.frame_buffer_size f.frame_head f.frame_tail in
    let plain : Fits f.frame_head f.frame_tail f.frame_head space =
      to_end_space-Fits f.frame_buffer_size f.frame_head f.frame_tail r.head r.tail r.size in
    elim (Bool-cases (ltb space f.out_pipe_size && int_ltb f.frame_tail f.frame_head)) [
      | inr e ↦ rw (find_room, e) plain
      | inl e ↦ elim (Bool-cases (leb f.out_pipe_size (int_sub full_size f.frame_head))) [
        | inl g ↦
            rw (find_room, e, g)
              ((omega (arith, r.head, r.size)), inl (refl, λ k. absurd (ground (arith, e))))
        | inr g ↦ elim (Bool-cases (f.frame_tail == 0)) [
          | inl k ↦ rw (find_room, e, g, k) plain
          | inr k ↦
              rw (find_room, e, g, k)
                ((omega (arith, r.tail, r.size)), inr (refl, (omega arith, ground (arith, e))))
        ]
      ]
    ]

-- The list moves of a submission.
abbrev pub moved : Bool → Frames → ℕ → Frames
moved pending f u =
    if pending
    then if is_stub_complete (f.urb u).complete then take_out f u else move_busy f u
    else f

pub moved-state :
    (pending : Bool) (f : Frames) (u : ℕ) → (moved pending f u).ptp.state ≡ f.ptp.state
unfolding take_out move_busy
moved-state pending f u = elim (Bool-cases pending) [
  | inr e ↦ rw e refl
  | inl e ↦ elim (Bool-cases (is_stub_complete (f.urb u).complete)) [
    | inl g ↦ rw (e, g) refl
    | inr g ↦ rw (e, g) refl
  ]
]

-- The filter after a submission of an URB that reads.
abbrev pub sent : Bool → Frames → ℕ → Frames
sent pending f u =
    let f' : Frames =
      set_urb (moved pending f u) u (record (f.urb u) { actual_length = 0; status = 0 }) in
    record f' { ptp = record f'.ptp { locked = true }; submitted = f'.submitted ++ u ∷ [] }

pub submit_urb-sent :
    (pending : Bool) (f : Frames) (u : ℕ)
    → (f.urb u).pipeout ≡ false
    → submit_urb pending f u ≡ some (true, sent pending f u)
unfolding submit_urb lock
submit_urb-sent pending f u e = rw (submit_urb, e) refl
