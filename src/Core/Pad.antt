-- ===== src/Core/Pad.antt =====
-- usbip_pad_iso of usbip_common.c: putting the padding back between isochronous packets.
pub mod Bytes
pub mod Restore
use usbip.Base.{
  ℕ, zero, suc, ◌+◌, ◌-◌, ◌^◌, ◌||◌, List, ◌++◌, Option, none, some, u32, take, drop, get_elem?,
  is_negative, ◌==◌, if◌then◌else◌,
}
use usbip.Proto.Urb.{Urb, IsoPacket, is_isochronous}

-- memmove(buf + target, buf + source, n)
unfoldable pub memmove : List ℕ → ℕ → ℕ → ℕ → List ℕ
memmove buf target source n = take target buf ++ (take n (drop source buf) ++ drop (target + n) buf)

-- The loop `for (i = np - 1; i > 0; i--)`, from `i` on; `offset` is `actualoffset`.
unfoldable pub pad_loop : ℕ → ℕ → List IsoPacket → List ℕ → List ℕ
pad_loop zero offset packets buf = buf
pad_loop (suc i) offset packets buf =
    let packet : Option IsoPacket = get_elem? packets (suc i) in
    elim packet [
      | none ↦ buf
      | some q ↦
          let offset' : ℕ = u32 (offset + (2 ^ 32 - q.actual_length)) in
          pad_loop i offset' packets (memmove buf q.offset offset' q.actual_length)
    ]

-- How many packets the loop moves: `np - 1`, or none at an `int` that is not positive.
abbrev pub moves : ℕ → ℕ
moves np = if is_negative np then 0 else np - 1

unfoldable pub pad_iso : Urb → Urb
unfolding pad_loop memmove
pad_iso urb =
    let padded : Urb = record urb {
      transfer_buffer = elim urb.transfer_buffer [
        | none ↦ none
        | some buf ↦
            some (pad_loop (moves urb.number_of_packets) urb.actual_length urb.iso_frame_desc buf)
      ];
    } in
    if is_isochronous urb.pipe.pipetype
    then if (urb.number_of_packets == 0 || urb.actual_length == 0)
        || urb.actual_length == urb.transfer_buffer_length
      then urb
      else padded
    else urb
