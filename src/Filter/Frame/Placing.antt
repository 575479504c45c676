-- ===== src/Filter/Frame/Placing.antt =====
-- The theorem on where ptp_produce_ lets the next transfer be written (filter_ptp.c).
use usbip.Base.{
  ℕ, ◌+◌, ◌≤◌, ◌<◌, ◌≡◌, refl, sym, ap, ◌∙◌, inl, inr, Bool, true, false, Option, some, arith, ltb,
  is_negative, ◌==◌, ==_iff, subst, Bool-cases,
}
use usbip.Filter.Ptp.{Ptp, FilterState, drop_frame, bypassed, change_state}
use usbip.Filter.Frame.{Frames, full_size, transfer_length, set_urb, set_state}
use usbip.Filter.Frame.Produce.{submit_urb, is_drop, postpone}
use usbip.Filter.Frame.Room.{
  Room, find_room, drop_place, drop_loop, drop_room, submit_room, produce_data,
}
use usbip.Filter.Frame.Ring.{IsRing}
use usbip.Filter.Frame.Bounds.{Fits, Unread, find_room-Fits, submit_urb-sent, moved-state}

find_room-kept :
    (f : Frames) → ((find_room f).filter.ptp ≡ f.ptp) × ((find_room f).filter.urb ≡ f.urb)
unfolding find_room
find_room-kept f = ground arith

drop_loop-kept : (f : Frames) → ((drop_loop f).ptp ≡ f.ptp) × ((drop_loop f).urb ≡ f.urb)
unfolding drop_loop drop_place
drop_loop-kept f = ground arith

drop_room-same : (r : Room) → is_drop r.filter.ptp.state ≡ false → drop_room r ≡ r
unfolding drop_room
drop_room-same r e = rw (drop_room, e) refl

drop_room-kept :
    (r : Room)
    → ((drop_room r).filter.ptp ≡ r.filter.ptp) × ((drop_room r).filter.urb ≡ r.filter.urb)
unfolding drop_room
drop_room-kept r = elim (Bool-cases (is_drop r.filter.ptp.state)) [
  | inl e ↦ rw (drop_room, e) (drop_loop-kept r.filter)
  | inr e ↦ rw (drop_room, e) (refl, refl)
]

abbrev filter_of : Option (Bool × Frames) → Frames → Frames
filter_of Option.none d = d
filter_of (some (ret, f)) d = f

-- A submission into a room.
abbrev Placed : Room → ℕ → Frames → Type 0
Placed r u f' =
    (f'.ptp.state ≡ r.filter.ptp.state)
    × ((f'.urb u).start ≡ r.head)
    × ((f'.urb u).transfer_buffer_length ≡ transfer_length r.filter.out_pipe_size r.length)

submit_room-Placed :
    (pending : Bool) (r : Room) (u : ℕ) (f' : Frames)
    → (r.filter.urb u).pipeout ≡ false
    → submit_room pending r u ≡ some (true, f')
    → Placed r u f'
unfolding submit_room
submit_room-Placed pending r u f' e p =
    let n : ℕ = transfer_length r.filter.out_pipe_size r.length in
    let f : Frames =
      set_urb r.filter u (record (r.filter.urb u) { start = r.head; transfer_buffer_length = n }) in
    let self : (u == u) ≡ true = (==_iff u u).1 refl in
    elim (Bool-cases (n == 0)) [
      | inl k ↦
          let fails : submit_room pending r u ≡ some (false, set_state f bypassed) =
            rw (submit_room, k) refl in
          cc
      | inr k ↦
          let step : submit_room pending r u ≡ submit_urb pending f u = rw (submit_room, k) refl in
          let reads : (f.urb u).pipeout ≡ false = rw self e in
          subst (Placed r u)
            (ap (λ o. filter_of o f) (sym (submit_urb-sent pending f u reads) ∙ (sym step ∙ p)))
            (moved-state pending f u, rw self refl, rw self refl)
    ]

change_state-state : (f : Ptp) (st : FilterState) → (change_state f st).state ≡ st
unfolding change_state
change_state-state f st = ground arith

-- A frame is dropped on.
drop_room-IsDrop :
    (pending : Bool) (r : Room) (u : ℕ) (f' : Frames)
    → (r.filter.urb u).pipeout ≡ false
    → is_drop r.filter.ptp.state ≡ true
    → submit_room pending (drop_room r) u ≡ some (true, f')
    → is_drop f'.ptp.state ≡ true
drop_room-IsDrop pending r u f' e k p =
    let kept = drop_room-kept r in
    let reads : ((drop_room r).filter.urb u).pipeout ≡ false = ap (λ g. (g u).pipeout) kept.1 ∙ e in
    let placed = submit_room-Placed pending (drop_room r) u f' reads p in
    ap is_drop (placed.0 ∙ ap (λ q. q.state) kept.0) ∙ k

-- What ptp_produce_ submits for a frame that it does not drop.
produce_data-Placed :
    (pending : Bool) (f : Frames) (u : ℕ) (f' : Frames)
    → (f.urb u).pipeout ≡ false
    → produce_data pending f u ≡ some (true, f')
    → is_drop f'.ptp.state ≡ false
    → Placed (find_room f) u f'
unfolding produce_data
produce_data-Placed pending f u f' e p d =
    let r : Room = find_room f in
    let kept = find_room-kept f in
    let reads : (r.filter.urb u).pipeout ≡ false = ap (λ g. (g u).pipeout) kept.1 ∙ e in
    elim (Bool-cases (ltb r.length f.out_pipe_size)) [
      | inr k ↦
          let step : produce_data pending f u ≡ submit_room pending (drop_room r) u =
            rw (produce_data, k) refl in
          elim (Bool-cases (is_drop r.filter.ptp.state)) [
            | inl g ↦
                let dropped : is_drop f'.ptp.state ≡ true =
                  drop_room-IsDrop pending r u f' reads g (sym step ∙ p) in
                cc
            | inr g ↦
                let same : drop_room r ≡ r = drop_room-same r g in
                submit_room-Placed pending r u f' reads
                  (ap (λ q. submit_room pending q u) (sym same) ∙ (sym step ∙ p))
          ]
      | inl k ↦
          let dropping : Room = record r { filter = set_state r.filter drop_frame } in
          elim (Bool-cases (is_negative f.frame_rx_tail)) [
            | inl g ↦
                let waits : produce_data pending f u
                    ≡ some (
                      false,
                      postpone pending
                          (set_urb r.filter u
                            (record (f.urb u) { transfer_buffer_length = r.length }))
                          u,
                    ) =
                  rw (produce_data, k, g) refl in
                cc
            | inr g ↦
                let step : produce_data pending f u ≡ submit_room pending (drop_room dropping) u =
                  rw (produce_data, k, g) refl in
                let drops : is_drop dropping.filter.ptp.state ≡ true =
                  ap is_drop (change_state-state r.filter.ptp drop_frame) in
                let dropped : is_drop f'.ptp.state ≡ true =
                  drop_room-IsDrop pending dropping u f' reads drops (sym step ∙ p) in
                cc
          ]
    ]

transfer_length-le : (size n : ℕ) → transfer_length size n ≤ n
unfolding transfer_length
transfer_length-le size n = grind arith

Fits-clear :
    (f : Frames) (start n i : ℕ)
    → Fits f.frame_head f.frame_tail start n
    → start ≤ i
    → i < start + n
    → (i < full_size) × ¬ Unread f i
Fits-clear f start n i (w, inl (e, room)) h k = (omega arith, clear)
  where
    clear : ¬ Unread f i
    clear (inl (t, b)) = omega arith
    clear (inr (b, inl (t, c))) = omega (arith, room b)
    clear (inr (b, inr c)) = omega arith
Fits-clear f start n i (w, inr (e, (room, b))) h k = (omega arith, clear)
  where
    clear : ¬ Unread f i
    clear (inl (t, c)) = omega arith
    clear (inr (c, x)) = omega arith

-- Where ptp_produce_ submits an URB that reads a frame which is not dropped, and both ends of
-- the frame buffer lie in it, the transfer is written within the memory of the buffer and over
-- no byte that is still unread.
pub produce_data-within :
    (pending : Bool) (f : Frames) (u : ℕ) (f' : Frames)
    → IsRing f
    → (f.urb u).pipeout ≡ false
    → produce_data pending f u ≡ some (true, f')
    → is_drop f'.ptp.state ≡ false
    → (i : ℕ) → (f'.urb u).start ≤ i
    → i < (f'.urb u).start + (f'.urb u).transfer_buffer_length
    → (i < full_size) × ¬ Unread f i
produce_data-within pending f u f' r e p d i h k =
    let placed = produce_data-Placed pending f u f' e p d in
    let fits = find_room-Fits f r in
    let less = transfer_length-le (find_room f).filter.out_pipe_size (find_room f).length in
    let end : (f'.urb u).start + (f'.urb u).transfer_buffer_length
        ≤ (find_room f).head + (find_room f).length =
      omega (arith, placed.1, placed.2, less) in
    Fits-clear f (find_room f).head (find_room f).length i fits (omega (arith, placed.1))
      (omega arith)
