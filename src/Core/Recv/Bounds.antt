-- ===== src/Core/Recv/Bounds.antt =====
-- Theorems on usbip_recv and usbip_recv_xbuff (usbip_common.c).
use mathlib.Core.List.{append_assoc}
use usbip.Base.{
  ℕ, zero, suc, ◌+◌, ◌-◌, ◌≤◌, ◌<◌, ◌≡◌, ◌≢◌, drop, refl, sym, ap, ◌∙◌, ◌⊎◌, inl, inr, true, false,
  List, [], ◌++◌, Option, some, arith, length, length-append, is_positive, ==-zero, neg, epipe, ltb,
  ltb→lt, Bool-cases, if◌then◌else◌, ◌==◌, ==_iff, is_negative,
}
use usbip.Core.Socket.{Socket, Received, chunk, stop}
use usbip.Core.Recv.{recv_loop, usbip_recv, recv_xbuff, overwrite}
use usbip.Core.Events.{Events, no_event, vdev_event_error_tcp}
use usbip.Core.Device.{vhci}
use usbip.Proto.Urb.{Urb}

pub Received-cases : (r : Received) → ((b : List ℕ) × (r ≡ chunk b)) ⊎ ((c : ℕ) × (r ≡ stop c))
Received-cases (chunk b) = inl (b, refl)
Received-cases (stop c) = inr (c, refl)

pub full :
    (size : ℕ) (bytes : List ℕ)
    → length bytes ≤ size
    → ltb 0 (size - length bytes) ≡ false
    → length bytes ≡ size
full size bytes h d = ground arith

overwrite-long : (b got : List ℕ) → length b < length got → length b < length (overwrite b got)
unfolding overwrite
overwrite-long b got h = omega (arith, length-append got (drop (length got) b))

not_positive : (n : ℕ) → is_positive n ≡ true → n ≢ neg epipe
not_positive n h e = ground (arith, h, e)

module _ (net : Socket) where
  open net use {S, recvmsg, pending}

  -- A loop that wanted `size` bytes behind the `total` in `buf` got them all.
  abbrev pub Stored : ℕ → ℕ → List ℕ → S → ℕ × List ℕ × S → Type 0
  Stored size total buf s r =
      (got : List ℕ) × (r.1 ≡ buf ++ got)
      × (length got ≡ size)
      × (pending s ≡ got ++ pending r.2)
      × (r.0 ≡ total + size)

  -- How such a loop ends.
  abbrev pub Outcome : ℕ → ℕ → List ℕ → S → ℕ × List ℕ × S → Type 0
  Outcome size total buf s r = Stored size total buf s r ⊎ ((r.0 ≡ 0) ⊎ (is_negative r.0 ≡ true))

  pub more-Stored :
      (size total : ℕ) (buf bytes : List ℕ) (s s' : S) (r : ℕ × List ℕ × S)
      → pending s ≡ bytes ++ pending s'
      → length bytes < size
      → Stored (size - length bytes) (total + length bytes) (buf ++ bytes) s' r
      → Stored size total buf s r
  more-Stored size total buf bytes s s' r p h (got, b, l, q, t) = (
    bytes ++ got,
    b ∙ append_assoc buf bytes got,
    omega (arith, length-append bytes got),
    p ∙ (ap (◌++◌ bytes) q ∙ sym (append_assoc bytes got (pending r.2))),
    omega arith,
  )

  more :
      (size total : ℕ) (buf bytes : List ℕ) (s s' : S) (r : ℕ × List ℕ × S)
      → pending s ≡ bytes ++ pending s'
      → length bytes < size
      → Outcome (size - length bytes) (total + length bytes) (buf ++ bytes) s' r
      → Outcome size total buf s r
  more size total buf bytes s s' r p h (inr e) = inr e
  more size total buf bytes s s' r p h (inl x) = inl (more-Stored size total buf bytes s s' r p h x)

  -- With as much fuel as bytes are wanted the loop ends by itself.
  pub loop-Outcome :
      (fuel size total : ℕ) (buf : List ℕ) (s : S)
      → 0 < size
      → size ≤ fuel
      → (r : ℕ × List ℕ × S) × (recv_loop net fuel size total buf s ≡ some r)
        × Outcome size total buf s r
  unfolding recv_loop
  loop-Outcome zero size total buf s h k = absurd (omega arith)
  loop-Outcome (suc fuel) size total buf s h k = elim (Received-cases (recvmsg s size).0) [
    | inr (c, e) ↦
        ((c, buf, (recvmsg s size).1), rw (e, recv_loop) refl, inr (net.stop_code s size c e))
    | inl (bytes, e) ↦ elim (Bool-cases (ltb 0 (size - length bytes))) [
      | inl m ↦
          let bound = net.chunk_bounds s size bytes e in
          let rest =
            loop-Outcome fuel (size - length bytes) (total + length bytes) (buf ++ bytes)
              (recvmsg s size).1 (ltb→lt _ _ m) (omega arith) in
          (
            rest.0,
            rw (e, recv_loop) (rw m rest.1),
            more size total buf bytes s (recvmsg s size).1 rest.0 (net.chunk_pending s size bytes e)
                (omega (arith, ltb→lt _ _ m)) rest.2,
          )
      | inr d ↦ (
        (total + length bytes, buf ++ bytes, (recvmsg s size).1),
        rw (e, recv_loop) (rw d refl),
        inl (
          bytes,
          refl,
          full size bytes (net.chunk_bounds s size bytes e).1 d,
          net.chunk_pending s size bytes e,
          omega (arith, full size bytes (net.chunk_bounds s size bytes e).1 d),
        ),
      )
    ]
  ]

  -- usbip_recv of at least one byte returns the size and the next `size` bytes of the stream, which
  -- the socket then no longer has; or it returns 0 or a negative number. It always returns.
  pub usbip_recv-Outcome :
      (s : S) (size : ℕ)
      → 0 < size
      → (r : ℕ × List ℕ × S) × (usbip_recv net (some s) true size ≡ (r.0, r.1, some r.2))
        × Outcome size 0 [] s r
  unfolding usbip_recv
  usbip_recv-Outcome s size h =
      let (r, e, o) = loop-Outcome size size 0 [] s h (omega arith) in
      (r, rw (e, usbip_recv) (rw (==-zero size h) refl), o)

  positive-lt : (size : ℕ) → is_positive size ≡ true → 0 < size
  positive-lt size h = ground arith

  -- What recv_xbuff makes of the data of a received URB, on the virtual device's side.
  abbrev pub FromHost : Urb → List ℕ → S → ℕ × Events × Urb × Option S → Type 0
  FromHost urb b s r =
      ((got : List ℕ) × (s' : S) × (r.0 ≡ urb.actual_length)
        × (r.1 ≡ no_event)
        × (r.2 ≡ record urb { transfer_buffer = some (overwrite b got) })
        × (r.3 ≡ some s')
        × (length got ≡ urb.actual_length)
        × (pending s ≡ got ++ pending s'))
      ⊎ ((r.0 ≡ neg epipe)
          × (r.1 ≡ vdev_event_error_tcp)
          × (((usbip_recv net (some s) true urb.actual_length).0 == urb.actual_length) ≡ false))

  -- recv_xbuff in terms of the result of usbip_recv.
  vhci_equation :
      (urb : Urb) (b : List ℕ) (s s' : S) (ret : ℕ) (got : List ℕ)
      → urb.pipe.pipein ≡ true
      → urb.transfer_buffer ≡ some b
      → is_positive urb.actual_length ≡ true
      → usbip_recv net (some s) true urb.actual_length ≡ (ret, got, some s')
      → recv_xbuff net vhci urb (some s) ≡ (
          if ret == urb.actual_length
          then (ret, no_event, record urb { transfer_buffer = some (overwrite b got) }, some s')
          else (
            neg epipe,
            vdev_event_error_tcp,
            record urb { transfer_buffer = some (overwrite b got) },
            some s',
          ))
  unfolding recv_xbuff
  vhci_equation urb b s s' ret got i t a e = ground (arith, e)

  success :
      (size : ℕ) (s : S) (r : ℕ × List ℕ × S)
      → is_positive size ≡ true
      → (r.0 == size) ≡ true
      → Outcome size 0 [] s r
      → (r.0 ≡ size) × (length r.1 ≡ size) × (pending s ≡ r.1 ++ pending r.2)
  success size s r p d (inl (got, b, l, q, t)) = ((==_iff r.0 size).0 d, rw b l, rw b q)
  success size s r p d (inr e) = absurd (ground (arith, p, d))

  -- For an IN request with a buffer and a positive actual_length, usbip_recv_xbuff of the
  -- virtual device either has stored the next actual_length bytes of the stream at the start of
  -- the buffer and raises no event, or returns -EPIPE and raises VDEV_EVENT_ERROR_TCP after
  -- usbip_recv has returned something other than actual_length.
  pub recv_xbuff-FromHost :
      (urb : Urb) (b : List ℕ) (s : S)
      → urb.pipe.pipein ≡ true
      → urb.transfer_buffer ≡ some b
      → is_positive urb.actual_length ≡ true
      → FromHost urb b s (recv_xbuff net vhci urb (some s))
  recv_xbuff-FromHost urb b s i t a =
      let (r, e, o) = usbip_recv-Outcome s urb.actual_length (positive-lt _ a) in
      rw (vhci_equation urb b s r.2 r.0 r.1 i t a e) (elim (Bool-cases (r.0 == urb.actual_length)) [
        | inr d ↦ rw d (inr (refl, refl, rw e d))
        | inl d ↦
            let (n, l, q) = success urb.actual_length s r a d o in
            rw d (inl (r.1, r.2, n, refl, refl, refl, l, q))
      ])

  -- The same data, when the reply of the peer names more bytes than the buffer has: whenever the
  -- call reports success, bytes were written past the end of the buffer.
  pub recv_xbuff_overruns :
      (urb : Urb) (b : List ℕ) (s : S)
      → urb.pipe.pipein ≡ true
      → urb.transfer_buffer ≡ some b
      → is_positive urb.actual_length ≡ true
      → length b < urb.actual_length
      → (recv_xbuff net vhci urb (some s)).0 ≡ urb.actual_length
      → (b' : List ℕ) × ((recv_xbuff net vhci urb (some s)).2.transfer_buffer ≡ some b')
        × (length b < length b')
  recv_xbuff_overruns urb b s i t a short ret = elim (recv_xbuff-FromHost urb b s i t a) [
    | inl (got, s', n, ev, u, k, l, q) ↦
        (overwrite b got, ap (λ (x : Urb). x.transfer_buffer) u, overwrite-long b got (omega arith))
    | inr (n, ev, d) ↦ absurd (not_positive urb.actual_length a (sym ret ∙ n))
  ]
