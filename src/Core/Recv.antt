-- ===== src/Core/Recv.antt =====
-- usbip_common.c: usbip_recv and usbip_recv_xbuff.
pub mod Bounds
use usbip.Base.{
  ℕ, zero, suc, ◌+◌, ◌-◌, Bool, true, false, ◌&&◌, List, [], ◌++◌, Option, none, some, length, drop,
  not, ◌||◌, ltb, ◌==◌, if◌then◌else◌, neg, einval, epipe, is_positive,
}
use usbip.Proto.Urb.{Urb}
use usbip.Core.Events.{Events, no_event, sdev_event_error_tcp, vdev_event_error_tcp}
use usbip.Core.Device.{Side, vhci, stub}
use usbip.Core.Socket.{Socket, Received, chunk, stop}

module _ (net : Socket) where
  open net use {S, recvmsg}

  -- The loop, on fuel: the result, the bytes stored, and the socket. What is read is at most what
  -- was asked for, so `size -= result` does not go below 0. `none` means that the fuel ran out.
  unfoldable pub recv_loop : ℕ → ℕ → ℕ → List ℕ → S → Option (ℕ × List ℕ × S)
  recv_loop zero size total buf s = none
  recv_loop (suc fuel) size total buf s =
      let (received, s') = recvmsg s size in
      elim received [
        | stop result ↦ some (result, buf, s')
        | chunk bytes ↦
            let size' : ℕ = size - length bytes in
            let rest = recv_loop fuel size' (total + length bytes) (buf ++ bytes) s' in
            if ltb 0 size' then rest else some (total + length bytes, buf ++ bytes, s')
      ]

  -- usbip_recv; `buf` says that the buffer is not NULL. Every round reads a byte or ends, so `size`
  -- rounds are enough and the case `none` is not met.
  unfoldable pub usbip_recv : Option S → Bool → ℕ → ℕ × List ℕ × Option S
  usbip_recv none buf size = (neg einval, [], none)
  usbip_recv (some s) buf size =
      let done : Option (ℕ × List ℕ × S) = recv_loop size size 0 [] s in
      if not buf || size == 0
      then (neg einval, [], some s)
      else elim done [ none ↦ (neg einval, [], some s) | some (ret, got, s') ↦ (ret, got, some s') ]

-- `received` written over the start of the buffer. What does not fit makes the list longer: it is
-- written past the end of the buffer.
unfoldable pub overwrite : List ℕ → List ℕ → List ℕ
overwrite buffer received = received ++ drop (length received) buffer

-- The socket's error event, by side.
unfoldable pub event_error_tcp : Side → Events
event_error_tcp stub = sdev_event_error_tcp
event_error_tcp vhci = vdev_event_error_tcp

module _ (net : Socket) where
  open net use {S}

  -- How many bytes of data follow a header; `none` for an URB of the other direction.
  pub xbuff_size : Side → Urb → Option ℕ
  xbuff_size stub urb = if urb.pipe.pipein then none else some urb.transfer_buffer_length
  xbuff_size vhci urb = if urb.pipe.pipein then some urb.actual_length else none

  -- The result of a failed usbip_recv_xbuff: only the virtual device makes it an error.
  pub xbuff_failure : Side → ℕ → ℕ
  xbuff_failure stub ret = ret
  xbuff_failure vhci ret = neg epipe

  abbrev pub has_buffer : Urb → Bool
  has_buffer urb = elim urb.transfer_buffer [ none ↦ false | some b ↦ true ]

  -- What usbip_recv did to the URB.
  abbrev pub store_xbuff : Urb → List ℕ → Urb
  store_xbuff urb got = record urb {
    transfer_buffer = elim urb.transfer_buffer [ none ↦ none | some b ↦ some (overwrite b got) ];
  }

  -- usbip_recv_xbuff: the result, the events raised, the URB and the socket.
  recv_sized : Side → Urb → Option S → ℕ → ℕ × Events × Urb × Option S
  unfolding xbuff_failure event_error_tcp
  recv_sized side urb sock size =
      let (ret, got, sock') = usbip_recv net sock (has_buffer urb) size in
      let urb' : Urb = store_xbuff urb got in
      if ret == size
      then (ret, no_event, urb', sock')
      else (xbuff_failure side ret, event_error_tcp side, urb', sock')

  unfoldable pub recv_xbuff : Side → Urb → Option S → ℕ × Events × Urb × Option S
  unfolding xbuff_size recv_sized
  recv_xbuff side urb sock = elim (xbuff_size side urb) [
    | none ↦ (0, no_event, urb, sock)
    | some size ↦
        if is_positive size then recv_sized side urb sock size else (0, no_event, urb, sock)
  ]
