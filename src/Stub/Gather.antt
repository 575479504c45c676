-- ===== src/Stub/Gather.antt =====
-- Theorems on the isochronous data that stub_send_ret_submit gathers (stub_tx.c).
use usbip.Base.{
  ℕ, zero, suc, ◌+◌, ◌^◌, ◌≤◌, ◌<◌, ◌≡◌, ◌≢◌, refl, sym, ap, ◌∙◌, true, List, [], ◌∷◌, ◌++◌, some,
  arith, length, take, drop, get_elem?, length-append, length-drop, subst,
}
use usbip.Proto.Urb.{Urb, IsoPacket, is_isochronous}
use usbip.Core.Recv.{overwrite}
use usbip.Core.Pad.{pad_iso}
use usbip.Core.Pad.Bytes.{
  get_elem?-append_left, get_elem?-append_right, get_elem?-take, get_elem?-drop, length_moved,
}
use usbip.Core.Pad.Restore.{starts, offset_at, len_at, start_at, Laid, byte_at, pad_iso_restores}
use usbip.Stub.Tx.{gather}

-- All of the first `n` packets lie within `size` bytes.
abbrev pub Within : List IsoPacket → ℕ → ℕ → Type 0
Within ps n size = (i : ℕ) → i < n → offset_at ps i + len_at ps i ≤ size

start_at-cons :
    (p : IsoPacket) (ps : List IsoPacket) (i : ℕ)
    → start_at (p ∷ ps) (suc i) ≡ p.actual_length + start_at ps i
start_at-cons p ps zero = omega arith
start_at-cons p ps (suc i) = omega (arith, start_at-cons p ps i)

start_at-nil : (i : ℕ) → start_at [] i ≡ 0
start_at-nil zero = refl
start_at-nil (suc i) = omega (arith, start_at-nil i)

segment :
    (p : IsoPacket) (ps : List IsoPacket) (n : ℕ) (src : List ℕ)
    → Within (p ∷ ps) (suc n) (length src)
    → length (take p.actual_length (drop p.offset src)) ≡ p.actual_length
segment p ps n src w = length_moved src p.offset p.actual_length (w 0 (omega arith))

rest-Within :
    (p : IsoPacket) (ps : List IsoPacket) (n size : ℕ)
    → Within (p ∷ ps) (suc n) size
    → Within ps n size
rest-Within p ps n size w i h = w (suc i) (omega arith)

gather-at :
    (n : ℕ) (ps : List IsoPacket) (src : List ℕ) (j x : ℕ)
    → Within ps n (length src)
    → j < n
    → x < len_at ps j
    → get_elem? (gather n ps src) (start_at ps j + x) ≡ get_elem? src (offset_at ps j + x)
unfolding gather
gather-at zero ps src j x w h k = absurd (omega arith)
gather-at (suc n) [] src j x w h k = absurd (omega arith)
gather-at (suc n) (p ∷ ps) src zero x w h k =
    let piece : List ℕ = take p.actual_length (drop p.offset src) in
    ap (get_elem? (piece ++ gather n ps src)) (omega arith)
    ∙ get_elem?-append_left piece (gather n ps src) x (omega (arith, segment p ps n src w))
    ∙ get_elem?-take p.actual_length (drop p.offset src) x k
    ∙ get_elem?-drop p.offset src x
gather-at (suc n) (p ∷ ps) src (suc j) x w h k =
    let piece : List ℕ = take p.actual_length (drop p.offset src) in
    let place : start_at (p ∷ ps) (suc j) + x ≡ length piece + (start_at ps j + x) =
      omega (arith, start_at-cons p ps j, segment p ps n src w) in
    ap (get_elem? (piece ++ gather n ps src)) place
    ∙ get_elem?-append_right piece (gather n ps src) (start_at ps j + x)
    ∙ gather-at n ps src j x (rest-Within p ps n (length src) w) (omega arith) k

length-gather :
    (n : ℕ) (ps : List IsoPacket) (src : List ℕ)
    → Within ps n (length src)
    → length (gather n ps src) ≡ start_at ps n
unfolding gather
length-gather zero ps src w = refl
length-gather (suc n) [] src w = omega (arith, start_at-nil n)
length-gather (suc n) (p ∷ ps) src w = omega (
  arith,
  length-append (take p.actual_length (drop p.offset src)) (gather n ps src),
  segment p ps n src w,
  start_at-cons p ps n,
  length-gather n ps src (rest-Within p ps n (length src) w),
)

length-overwrite : (b got : List ℕ) → length got ≤ length b → length (overwrite b got) ≡ length b
unfolding overwrite
length-overwrite b got h =
    omega (arith, length-append got (drop (length got) b), length-drop (length got) b)

-- The stub sends the data of the packets of `src` without the padding between them. When it is not
-- empty and not as long as the transfer, the other end has received it at the start of a buffer that
-- has room for it, and its packets lie one behind the other there, then usbip_pad_iso makes byte `x`
-- of each packet `j` the one that it was in `src`.
pub isochronous_data_arrives :
    (urb : Urb) (src b : List ℕ) (n j x : ℕ)
    → is_isochronous urb.pipe.pipetype ≡ true
    → urb.transfer_buffer ≡ some (overwrite b (gather (suc n) urb.iso_frame_desc src))
    → urb.number_of_packets ≡ suc n
    → suc n < 2 ^ 31
    → urb.actual_length ≡ start_at urb.iso_frame_desc (suc n)
    → 0 < urb.actual_length
    → urb.actual_length ≢ urb.transfer_buffer_length
    → urb.actual_length ≤ length b
    → Laid urb.iso_frame_desc (suc n) (length b)
    → Within urb.iso_frame_desc (suc n) (length src)
    → j < suc n
    → x < len_at urb.iso_frame_desc j
    → byte_at (pad_iso urb) (offset_at urb.iso_frame_desc j + x)
      ≡ get_elem? src (offset_at urb.iso_frame_desc j + x)
unfolding overwrite
isochronous_data_arrives urb src b n j x i t p small a pos differs room laid w jn xl =
    let ps : List IsoPacket = urb.iso_frame_desc in
    let got : List ℕ = gather (suc n) ps src in
    let size = length-gather (suc n) ps src w in
    let same = length-overwrite b got (omega (arith, size)) in
    pad_iso_restores urb (overwrite b got) n j x i t p small a pos differs
      (subst (Laid ps (suc n)) (sym same) laid) jn xl
    ∙ get_elem?-append_left got (drop (length got) b) (start_at ps j + x)
        (omega (arith, size, starts ps (suc n) (length b) laid j (suc n) jn))
    ∙ gather-at (suc n) ps src j x w jn xl
