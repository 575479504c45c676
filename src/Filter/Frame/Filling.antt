-- ===== src/Filter/Frame/Filling.antt =====
-- Theorems on the bytes that are received into the frame buffer (filter_ptp.c).
use mathlib.Core.List.{append_assoc, append-nil}
use usbip.Base.{
  ℕ, ◌+◌, ◌-◌, ◌%◌, ◌^◌, ◌≤◌, ◌<◌, ◌≡◌, refl, sym, ap, ◌∙◌, ◌⊎◌, inl, inr, true, false, Bool-cases,
  ◌++◌, arith, u32, leb, ltb, ◌==◌, some,
}
use usbip.Filter.Frame.{Frames, full_size, segment, int_sub}
use usbip.Filter.Frame.Produce.{is_drop}
use usbip.Filter.Frame.Consume.{receive}
use usbip.Filter.Frame.Ring.{IsRing, unread_of, unread, segment-zero, segment-add}
use usbip.Filter.Frame.Fifo.{next_tail, next_wraps}

-- A transfer of `n` bytes that does not reach the tail: behind the head, or at the start of the
-- buffer after the head has rolled over.
abbrev pub Leaves : ℕ → ℕ → ℕ → ℕ → ℕ → Type 0
Leaves size head tail start n =
    ((start ≡ head)
      × (head + n ≤ size)
      × (head < tail → head + n < tail)
      × ((head + n < size) ⊎ (0 < tail)))
    ⊎ ((start ≡ 0) × (head ≡ size) × (tail < head) × (n < tail))

-- The head after a transfer.
abbrev head_after : ℕ → ℕ → ℕ → ℕ
head_after size head n = u32 (head + n) % size

segment-join :
    (b : ℕ → ℕ) (tail head n : ℕ)
    → tail ≤ head
    → segment b tail (head + n - tail) ≡ segment b tail (head - tail) ++ segment b head n
segment-join b tail head n h =
    let e : head + n - tail ≡ head - tail + n = omega arith in
    let e' : tail + (head - tail) ≡ head = omega arith in
    ap (segment b tail) e
    ∙ segment-add b tail (head - tail) n
    ∙ ap (λ s. segment b tail (head - tail) ++ segment b s n) e'

fills-inside :
    (b : ℕ → ℕ) (size head tail n : ℕ)
    → size ≤ full_size
    → tail ≤ head
    → head + n < size
    → unread_of b size (head_after size head n) tail
      ≡ unread_of b size head tail ++ segment b head n
fills-inside b size head tail n s t h =
    let e : leb tail head ≡ true = ground arith in
    let e' : leb tail (head + n) ≡ true = ground arith in
    rw (next_tail size head n h s, e, e') (segment-join b tail head n t)

-- Up to the end of the buffer: the head goes back to its start.
fills-end :
    (b : ℕ → ℕ) (size head tail n : ℕ)
    → size ≤ full_size
    → tail ≤ head
    → head + n ≡ size
    → 0 < tail
    → unread_of b size (head_after size head n) tail
      ≡ unread_of b size head tail ++ segment b head n
fills-end b size head tail n s t h k =
    let e : leb tail head ≡ true = ground arith in
    let e' : leb tail 0 ≡ false = ground arith in
    rw (next_wraps size head n h (omega arith) s, e, e')
      (ap (◌++◌ (segment b tail (size - tail))) (segment-zero b 0)
        ∙ append-nil (segment b tail (size - tail))
        ∙ ap (λ m. segment b tail (m - tail)) (sym h)
        ∙ segment-join b tail head n t)

fills-below :
    (b : ℕ → ℕ) (size head tail n : ℕ)
    → size ≤ full_size
    → tail ≤ size
    → head + n < tail
    → unread_of b size (head_after size head n) tail
      ≡ unread_of b size head tail ++ segment b head n
fills-below b size head tail n s t h =
    let e : leb tail head ≡ false = ground arith in
    let e' : leb tail (head + n) ≡ false = ground arith in
    let z : ◌≡◌ {A = ℕ} (0 + head) head = omega arith in
    rw (next_tail size head n (omega arith) s, e, e')
      (ap (◌++◌ (segment b tail (size - tail)))
          (segment-add b 0 head n ∙ ap (λ s. segment b 0 head ++ segment b s n) z)
        ∙ sym (append_assoc (segment b tail (size - tail)) (segment b 0 head) (segment b head n)))

fills-rolled :
    (b : ℕ → ℕ) (size tail n : ℕ)
    → size ≤ full_size
    → tail < size
    → n < tail
    → unread_of b size (head_after size size n) tail ≡ unread_of b size size tail ++ segment b 0 n
fills-rolled b size tail n s t h =
    let e : leb tail size ≡ true = ground arith in
    let e' : leb tail n ≡ false = ground arith in
    let w : u32 (size + n) ≡ size + n = omega arith in
    let m : head_after size size n ≡ n = rw w (grind arith) in rw (m, e, e') refl

fills :
    (b : ℕ → ℕ) (size head tail start n : ℕ)
    → tail ≤ size
    → size ≤ full_size
    → Leaves size head tail start n
    → unread_of b size (head_after size head n) tail
      ≡ unread_of b size head tail ++ segment b start n
fills b size head tail start n t s (inr (e, h, k, l)) =
    rw (e, h) (fills-rolled b size tail n s (omega arith) l)
fills b size head tail start n t s (inl (e, k, clear, room)) = elim (Bool-cases (leb tail head)) [
  | inr g ↦ rw e (fills-below b size head tail n s t (clear (ground (arith, g))))
  | inl g ↦ elim (Bool-cases (ltb (head + n) size)) [
    | inl m ↦ rw e (fills-inside b size head tail n s (ground (arith, g)) (ground (arith, m)))
    | inr m ↦ rw e (
        fills-end b size head tail n s (ground (arith, g)) (ground (arith, m, k))
          (ground (arith, m, room)))
  ]
]

-- When a transfer, less than the rest of its frame, has been read behind the unread bytes, at
-- the head or at the start of a buffer that ends at the head, and does not reach the tail,
-- ptp_data_complete keeps the URB for the next part and adds exactly the bytes of the transfer
-- behind those that are unread, if the frame is not dropped.
pub receive-fifo :
    (buffer_count jiffies : ℕ) (f : Frames) (u : ℕ)
    → IsRing f
    → is_drop f.ptp.state ≡ false
    → (f.urb u).actual_length < f.frame_rx_length
    → f.frame_rx_length < 2 ^ 32
    → Leaves f.frame_buffer_size f.frame_head f.frame_tail (f.urb u).start (f.urb u).actual_length
    → ((receive buffer_count jiffies f u).0 ≡ some u)
      × (unread (receive buffer_count jiffies f u).1
          ≡ unread f ++ segment f.frame_buffer (f.urb u).start (f.urb u).actual_length)
unfolding receive
receive-fifo buffer_count jiffies f u r d l w h =
    let e : (int_sub f.frame_rx_length (f.urb u).actual_length == 0) ≡ false = ground arith in
    (
      rw (receive, e) refl,
      rw (receive, e, d)
          (fills f.frame_buffer f.frame_buffer_size f.frame_head f.frame_tail (f.urb u).start
            (f.urb u).actual_length r.tail r.size h),
    )
