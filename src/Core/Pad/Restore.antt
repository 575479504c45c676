-- ===== src/Core/Pad/Restore.antt =====
-- Theorems on usbip_pad_iso (usbip_common.c).
use usbip.Base.{
  ℕ, zero, suc, ◌+◌, ◌-◌, ◌^◌, ◌≤◌, ◌<◌, ◌≡◌, ◌≢◌, refl, ◌∙◌, List, Option, none, some, arith,
  length, get_elem?, ◌⊎◌, inl, inr, sym, ap, u32, true, false, ◌==◌, ◌||◌,
}
use usbip.Proto.Urb.{Urb, IsoPacket, is_isochronous}
use usbip.Core.Pad.{memmove, pad_loop, pad_iso, moves}
use usbip.Core.Pad.Bytes.{length-memmove, memmove_before, memmove_inside, memmove_after}

-- The offset and the length of packet `i`, and how many bytes the packets before it have.
abbrev pub offset_at : List IsoPacket → ℕ → ℕ
offset_at ps i = elim (get_elem? ps i) [ none ↦ 0 | some p ↦ p.offset ]

abbrev pub len_at : List IsoPacket → ℕ → ℕ
len_at ps i = elim (get_elem? ps i) [ none ↦ 0 | some p ↦ p.actual_length ]

abbrev pub start_at : List IsoPacket → ℕ → ℕ
start_at ps zero = 0
start_at ps (suc i) = start_at ps i + len_at ps i

-- The first `n` packets lie one behind the other in `size` bytes, the first one at the start, with
-- any padding between them.
pub record Laid (ps : List IsoPacket) (n size : ℕ) : Type 0 where
  pub first : offset_at ps 0 ≡ 0
  pub next : (i : ℕ) → suc i < n → offset_at ps i + len_at ps i ≤ offset_at ps (suc i)
  pub last : (i : ℕ) → i < n → offset_at ps i + len_at ps i ≤ size
  pub present : (i : ℕ) → i < n → (p : IsoPacket) × (get_elem? ps i ≡ some p)
  pub small : start_at ps n < 2 ^ 32

last_or_before : (i k : ℕ) → i < suc k → (i ≡ k) ⊎ (i < k)
last_or_before i k h = ground arith

module _ (ps : List IsoPacket) (n size : ℕ) (laid : Laid ps n size) where
  start-le-offset : (i : ℕ) → i < n → start_at ps i ≤ offset_at ps i
  start-le-offset zero h = omega arith
  start-le-offset (suc i) h = omega (arith, start-le-offset i (omega arith), laid.next i h)

  pub starts : (i k : ℕ) → i < k → start_at ps i + len_at ps i ≤ start_at ps k
  starts i zero h = absurd (omega arith)
  starts i (suc k) h = elim (last_or_before i k h) [
    | inl e ↦ rw e (omega arith)
    | inr b ↦ omega (arith, starts i k b)
  ]

  apart : (i k : ℕ) → i < k → k < n → offset_at ps i + len_at ps i ≤ offset_at ps k
  apart i zero h b = absurd (omega arith)
  apart i (suc k) h b = elim (last_or_before i k h) [
    | inl e ↦ rw e (laid.next k b)
    | inr c ↦ omega (arith, apart i k c (omega arith), laid.next k b)
  ]

  -- The start of packet `i` as the loop counts it down.
  count_down : (i : ℕ) → i < n → u32 (start_at ps (suc i) + (2 ^ 32 - len_at ps i)) ≡ start_at ps i
  count_down i h = omega (arith, laid.small, starts i n h)

  -- One round of the loop.
  round :
      (i : ℕ) (buf : List ℕ)
      → suc i < n
      → pad_loop (suc i) (start_at ps (suc (suc i))) ps buf
        ≡ pad_loop i
            (start_at ps (suc i))
            ps
            (memmove buf (offset_at ps (suc i)) (start_at ps (suc i)) (len_at ps (suc i)))
  unfolding pad_loop
  round i buf h =
      let (p, e) = laid.present (suc i) h in
      let same : len_at ps (suc i) ≡ p.actual_length = rw (e, len_at) refl in
      let counted : u32 (start_at ps (suc (suc i)) + (2 ^ 32 - p.actual_length))
          ≡ start_at ps (suc i) =
        ap (λ m. u32 (start_at ps (suc (suc i)) + (2 ^ 32 - m))) (sym same)
        ∙ count_down (suc i) h in
      rw (e, pad_loop, offset_at, len_at)
        (ap (λ m. pad_loop i m ps (memmove buf p.offset m p.actual_length)) counted)

  fits : (i : ℕ) → i < n → start_at ps i + len_at ps i ≤ size
  fits i h = omega (arith, start-le-offset i h, laid.last i h)

  -- The buffer after the round of packet `i`.
  abbrev after : ℕ → List ℕ → List ℕ
  after i buf = memmove buf (offset_at ps i) (start_at ps i) (len_at ps i)

  length-after : (i : ℕ) (buf : List ℕ) → length buf ≡ size → i < n → length (after i buf) ≡ size
  length-after i buf l h =
      length-memmove buf (offset_at ps i) (start_at ps i) (len_at ps i)
        (omega (arith, laid.last i h, l)) (omega (arith, fits i h, l))
      ∙ l

  -- Packets behind the loop stay where they are; the others are moved to their offsets.
  pad_loop-kept :
      (i j x : ℕ) (buf : List ℕ)
      → length buf ≡ size
      → i < j
      → j < n
      → x < len_at ps j
      → get_elem? (pad_loop i (start_at ps (suc i)) ps buf) (offset_at ps j + x)
        ≡ get_elem? buf (offset_at ps j + x)
  unfolding pad_loop
  pad_loop-kept zero j x buf l ij jn xl = refl
  pad_loop-kept (suc i) j x buf l ij jn xl =
      let h : suc i < n = omega arith in
      rw (round i buf h) (
        pad_loop-kept i j x (after (suc i) buf) (length-after (suc i) buf l h) (omega arith) jn xl
        ∙ memmove_after buf (offset_at ps (suc i)) (start_at ps (suc i)) (len_at ps (suc i))
            (offset_at ps j + x) (omega (arith, laid.last (suc i) h, l))
            (omega (arith, fits (suc i) h, l)) (omega (arith, apart (suc i) j ij jn)))

  pad_loop-moved :
      (i j x : ℕ) (buf : List ℕ)
      → length buf ≡ size
      → j ≤ i
      → i < n
      → x < len_at ps j
      → get_elem? (pad_loop i (start_at ps (suc i)) ps buf) (offset_at ps j + x)
        ≡ get_elem? buf (start_at ps j + x)
  unfolding pad_loop
  pad_loop-moved zero zero x buf l ji h xl = ap (λ m. get_elem? buf (m + x)) laid.first
  pad_loop-moved zero (suc j) x buf l ji h xl = absurd (omega arith)
  pad_loop-moved (suc i) j x buf l ji h xl = elim (last_or_before j (suc i) (omega arith)) [
    | inl e ↦
        rw (round i buf h, e)
          (pad_loop-kept i (suc i) x (after (suc i) buf) (length-after (suc i) buf l h)
              (omega arith) h (rw e at xl)
            ∙ memmove_inside buf (offset_at ps (suc i)) (start_at ps (suc i)) (len_at ps (suc i)) x
                (omega (arith, laid.last (suc i) h, l)) (omega (arith, fits (suc i) h, l))
                (rw e at xl))
    | inr b ↦ rw (round i buf h) (
        pad_loop-moved i j x (after (suc i) buf) (length-after (suc i) buf l h) (omega arith)
          (omega arith) xl
        ∙ memmove_before buf (offset_at ps (suc i)) (start_at ps (suc i)) (len_at ps (suc i))
            (start_at ps j + x) (omega (arith, laid.last (suc i) h, l))
            (omega (arith, starts j (suc i) b, start-le-offset (suc i) h)))
  ]

-- Byte `k` of the transfer buffer of an URB.
abbrev pub byte_at : Urb → ℕ → Option ℕ
byte_at urb k = elim urb.transfer_buffer [ none ↦ none | some buf ↦ get_elem? buf k ]

-- When the data of an isochronous URB lies in its buffer without padding, is not empty and not as
-- long as transfer_buffer_length, and its packets lie one behind the other in the buffer, then
-- usbip_pad_iso puts byte `x` of each packet `j` at the offset of that packet.
pub pad_iso_restores :
    (urb : Urb) (buf : List ℕ) (n j x : ℕ)
    → is_isochronous urb.pipe.pipetype ≡ true
    → urb.transfer_buffer ≡ some buf
    → urb.number_of_packets ≡ suc n
    → suc n < 2 ^ 31
    → urb.actual_length ≡ start_at urb.iso_frame_desc (suc n)
    → 0 < urb.actual_length
    → urb.actual_length ≢ urb.transfer_buffer_length
    → Laid urb.iso_frame_desc (suc n) (length buf)
    → j < suc n
    → x < len_at urb.iso_frame_desc j
    → byte_at (pad_iso urb) (offset_at urb.iso_frame_desc j + x)
      ≡ get_elem? buf (start_at urb.iso_frame_desc j + x)
unfolding pad_iso
pad_iso_restores urb buf n j x i t p small a pos differs laid jn xl =
    let count : moves urb.number_of_packets ≡ n = ground (arith, p) in
    let moved =
      pad_loop-moved urb.iso_frame_desc (suc n) (length buf) laid n j x buf refl (omega arith)
        (omega arith) xl in
    let guard : ((urb.number_of_packets == 0 || urb.actual_length == 0)
          || urb.actual_length == urb.transfer_buffer_length)
        ≡ false =
      ground (arith, p, pos, differs) in
    rw (i, guard, t, count, a) moved
