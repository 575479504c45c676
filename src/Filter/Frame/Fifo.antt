-- ===== src/Filter/Frame/Fifo.antt =====
-- Theorems on the order of the bytes in the frame buffer (filter_ptp.c).
use mathlib.Core.List.{append_assoc}
use usbip.Base.{
  ℕ, ◌+◌, ◌-◌, ◌%◌, ◌^◌, ◌≤◌, ◌<◌, ◌≡◌, refl, ap, ◌∙◌, ◌⊎◌, inl, inr, true, false, Bool-cases, List,
  ◌++◌, arith, u32, leb, ltb, length, if◌then◌else◌, ◌==◌, ==_iff,
}
use usbip.Filter.Frame.{Frames, full_size, segment, to_end_count, int_ltb, int_sub}
use usbip.Filter.Frame.Serve.{fill, copy_frame}
use usbip.Filter.Frame.Ring.{
  IsRing, unread_of, unread, length-segment, segment-zero, segment-agree, segment-parts,
}

-- The memset after a copy changes nothing outside it.
fill-outside :
    (b : ℕ → ℕ) (start n s m : ℕ)
    → (s + m ≤ start) ⊎ (start + n ≤ s)
    → segment b s m ≡ segment (fill b start n) s m
fill-outside b start n s m (inl h) = segment-agree b (fill b start n) s m (λ i p q. ground arith)
fill-outside b start n s m (inr h) = segment-agree b (fill b start n) s m (λ i p q. ground arith)

pub next_tail :
    (size tail n : ℕ) → tail + n < size → size ≤ full_size → u32 (tail + n) % size ≡ tail + n
next_tail size tail n h s = let e : u32 (tail + n) ≡ tail + n = omega arith in rw e (grind arith)

pub next_wraps :
    (size tail n : ℕ) → tail + n ≡ size → 0 < size → size ≤ full_size → u32 (tail + n) % size ≡ 0
next_wraps size tail n h p s = let e : u32 (tail + n) ≡ size = omega arith in rw e (grind arith)

-- Bytes that are taken from the tail up to the head.
unread-below :
    (b : ℕ → ℕ) (size head tail n : ℕ)
    → tail + n ≤ head
    → unread_of b size head tail
      ≡ segment b tail n ++ unread_of (fill b tail n) size head (tail + n)
unread-below b size head tail n h =
    let e : leb tail head ≡ true = ground arith in
    let e' : leb (tail + n) head ≡ true = ground arith in
    let d : head - tail - n ≡ head - (tail + n) = omega arith in
    rw (e, e')
      (segment-parts b tail n (head - tail) (omega arith)
        ∙ ap (λ m. segment b tail n ++ segment b (tail + n) m) d
        ∙ ap (◌++◌ (segment b tail n))
            (fill-outside b tail n (tail + n) (head - (tail + n)) (inr (omega arith))))

-- Bytes that are taken before the end of the buffer, where the head has rolled over.
unread-above :
    (b : ℕ → ℕ) (size head tail n : ℕ)
    → head < tail
    → tail + n ≤ size
    → unread_of b size head tail
      ≡ segment b tail n
        ++ (segment (fill b tail n) (tail + n) (size - (tail + n))
            ++ segment (fill b tail n) 0 head)
unread-above b size head tail n h k =
    let e : leb tail head ≡ false = ground arith in
    let d : size - tail - n ≡ size - (tail + n) = omega arith in
    let rest : segment b tail (size - tail)
        ≡ segment b tail n ++ segment (fill b tail n) (tail + n) (size - (tail + n)) =
      segment-parts b tail n (size - tail) (omega arith)
      ∙ ap (λ m. segment b tail n ++ segment b (tail + n) m) d
      ∙ ap (◌++◌ (segment b tail n))
          (fill-outside b tail n (tail + n) (size - (tail + n)) (inr (omega arith))) in
    rw e (
      ap (λ xs. xs ++ segment b 0 head) rest
      ∙ ap (◌++◌ (segment b tail n ++ segment (fill b tail n) (tail + n) (size - (tail + n))))
          (fill-outside b tail n 0 head (inl (omega arith)))
      ∙ append_assoc (segment b tail n) (segment (fill b tail n) (tail + n) (size - (tail + n)))
          (segment (fill b tail n) 0 head))

-- The tail and the size after a copy.
abbrev pub tail_after : ℕ → ℕ → ℕ → ℕ
tail_after size tail n = u32 (tail + n) % size

abbrev pub size_after : ℕ → ℕ → ℕ → ℕ
size_after size tail n = if int_ltb (tail_after size tail n) tail then full_size else size

unread_next-inside :
    (b : ℕ → ℕ) (size head tail n : ℕ)
    → head < size
    → size ≤ full_size
    → tail + n < size
    → unread_of b size head tail
      ≡ segment b tail n ++ unread_of (fill b tail n) size head (tail + n)
    → unread_of b size head tail
      ≡ segment b tail n
        ++ unread_of (fill b tail n) (size_after size tail n) head (tail_after size tail n)
unread_next-inside b size head tail n h s k e =
    let e' : int_ltb (tail + n) tail ≡ false = ground arith in rw (next_tail size tail n k s, e') e

unread_next :
    (b : ℕ → ℕ) (size head tail n : ℕ)
    → head < size
    → tail ≤ size
    → size ≤ full_size
    → n ≤ to_end_count size head tail
    → unread_of b size head tail
      ≡ segment b tail n
        ++ unread_of (fill b tail n) (size_after size tail n) head (tail_after size tail n)
unfolding to_end_count
unread_next b size head tail n h t s c = elim (Bool-cases (leb tail head)) [
  | inl e ↦
      unread_next-inside b size head tail n h s (ground (arith, e, c))
        (unread-below b size head tail n (ground (arith, e, c)))
  | inr e ↦
      let above = unread-above b size head tail n (ground (arith, e)) (ground (arith, e, c)) in
      elim (Bool-cases (ltb (tail + n) size)) [
        | inl k ↦
            let e' : leb (tail + n) head ≡ false = ground (arith, e) in
            unread_next-inside b size head tail n h s (ground (arith, k)) (rw e' above)
        | inr k ↦
            let full : tail + n ≡ size = ground (arith, e, c, k) in
            let e' : int_ltb 0 tail ≡ true = ground (arith, e) in
            let e0 : leb 0 head ≡ true = ground arith in
            let z : size - (tail + n) ≡ 0 = omega arith in
            let z' : head - 0 ≡ head = omega arith in
            rw (next_wraps size tail n full (omega arith) s, e', z')
              (rw e0 (above ∙ rw (z, segment-zero (fill b tail n) (tail + n)) refl))
      ]
]

ring_after :
    (size head tail n : ℕ)
    → head < size
    → size ≤ full_size
    → (head ≤ size_after size tail n)
      × (tail_after size tail n ≤ size_after size tail n)
      × (size_after size tail n ≤ full_size)
ring_after size head tail n h s =
    let e : tail_after size tail n < size = grind arith in
    elim (Bool-cases (int_ltb (tail_after size tail n) tail)) [
      | inl k ↦ rw k (omega arith, omega arith, omega arith)
      | inr k ↦ rw k (omega arith, omega arith, omega arith)
    ]

-- The fields after a copy that does not reach the end of a phase.
pub record Copied (f : Frames) (u n : ℕ) (f' : Frames) : Type 0 where
  pub buffer : f'.frame_buffer ≡ fill f.frame_buffer f.frame_tail n
  pub size : f'.frame_buffer_size ≡ size_after f.frame_buffer_size f.frame_tail n
  pub head : f'.frame_head ≡ f.frame_head
  pub tail : f'.frame_tail ≡ tail_after f.frame_buffer_size f.frame_tail n
  pub bytes : (f'.urb u).bytes ≡ (f.urb u).bytes ++ segment f.frame_buffer f.frame_tail n

pub copy_frame-Copied :
    (f : Frames) (u n : ℕ)
    → (int_sub f.frame_length n == 0) ≡ false
    → Copied f u n (copy_frame f u n)
unfolding copy_frame
copy_frame-Copied f u n e =
    let self : (u == u) ≡ true = (==_iff u u).1 refl in
    record {
      buffer = rw (copy_frame, e) refl;
      size = rw (copy_frame, e) refl;
      head = rw (copy_frame, e) refl;
      tail = rw (copy_frame, e) refl;
      bytes = rw (copy_frame, e, self) refl;
    }

-- With both ends in the frame buffer and the head not at its end, what ptp_consume_ copies to
-- an URB, no more than lies there up to the end and less than the rest of the frame, is the
-- first of the bytes that are unread, appended to the URB; the others stay unread in their
-- order, also where the tail rolls over, and both ends still lie in the buffer.
pub copy_frame-fifo :
    (f : Frames) (u n : ℕ)
    → IsRing f
    → f.frame_head < f.frame_buffer_size
    → n ≤ to_end_count f.frame_buffer_size f.frame_head f.frame_tail
    → n < f.frame_length
    → f.frame_length < 2 ^ 32
    → (served : List ℕ) × (length served ≡ n)
      × ((copy_frame f u n).urb u).bytes ≡ (f.urb u).bytes ++ served
      × (unread f ≡ served ++ unread (copy_frame f u n))
      × IsRing (copy_frame f u n)
copy_frame-fifo f u n r h c l w =
    let copied : Copied f u n (copy_frame f u n) = copy_frame-Copied f u n (ground arith) in
    (
      segment f.frame_buffer f.frame_tail n,
      length-segment f.frame_buffer f.frame_tail n,
      copied.bytes,
      rw (copied.buffer, copied.size, copied.head, copied.tail)
          (unread_next f.frame_buffer f.frame_buffer_size f.frame_head f.frame_tail n h r.tail
            r.size c),
      let (hd, tl, sz) = ring_after f.frame_buffer_size f.frame_head f.frame_tail n h r.size in
          record {
            head = rw (copied.head, copied.size) hd;
            tail = rw (copied.tail, copied.size) tl;
            size = rw copied.size sz;
          },
    )
