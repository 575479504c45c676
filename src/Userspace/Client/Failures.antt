-- ===== src/Userspace/Client/Failures.antt =====
-- Theorems on the replies with an error (userspace/client/client.c).
use usbip.Base.{ℕ, ◌≡◌, refl, ◌∙◌, ◌⊎◌, inl, inr, true, false, List, ◌++◌, some, arith, ◌==◌}
use usbip.Core.Socket.{Socket}
use usbip.Proto.Header.{Header, Fits, ret_submit, header_size}
use usbip.Proto.Endian.{ByteOrder}
use usbip.Proto.Wire.{sent_bytes, header_arrives, length-sent_bytes}
use usbip.Userspace.Network.Receiving.{net_recv-Ends, Failed}
use usbip.Userspace.Client.{
  Client, ClientUrb, device_find_urb, work_done, abort, goes_on, ended, reply, device_loop,
}
use usbip.Userspace.Client.Replies.{
  yield_read-Reads, yield_read-fails, device_loop-reply, device_loop-exit,
}

module _ (net : Socket) (o : ByteOrder) where
  open net use {S, pending}

  reply-fails :
      (c : Client) (s : S) (h : Header) (x : ClientUrb) (rest : List ClientUrb)
      → device_find_urb h.base.seqnum c.urb_list ≡ some (x, rest)
      → (h.u.word0 == 0) ≡ false
      → reply net o c s h
        ≡ some (goes_on (work_done (record c { urb_list = rest; loop_ret = true }) x) s)
  unfolding reply
  reply-fails c s h x rest e z = rw (reply, e) (rw z refl)

  -- A loop whose work has a result ends in its next round.
  device_loop-stops :
      (c : Client) (s : S)
      → c.loop_ret ≡ true
      → (s' : S) × (device_loop net o c s ≡ some (ended (abort c) s'))
  device_loop-stops c s e =
      let (r, k, ends) = net_recv-Ends net s header_size (omega arith) in
      (
        r.2,
        device_loop-exit net o c (abort c) s r.2
            (yield_read-fails net o c s header_size r refl k (ground (arith, e))),
      )

  -- When the stub sends a reply with an error to an URB that waits, and the work of device_loop
  -- has no error yet, either the connection is closed after a receive that failed, or the URB
  -- is finished with the result it had before, and the next round of device_loop, whatever has
  -- arrived, ends and closes the connection.
  pub device_loop-fails :
      (sender : ByteOrder) (c : Client) (s : S) (h : Header) (x : ClientUrb) (rest : List ClientUrb)
      (later : List ℕ) (v : S)
      → Fits h
      → h.base.command ≡ ret_submit
      → (h.u.word0 == 0) ≡ false
      → device_find_urb h.base.seqnum c.urb_list ≡ some (x, rest)
      → c.loop_ret ≡ false
      → pending s ≡ sent_bytes sender h ++ later
      → let c' : Client = work_done (record c { urb_list = rest; loop_ret = true }) x in
        (s' : S) × (((device_loop net o c s ≡ some (goes_on c' s'))
            × (pending s' ≡ later)
            × ((v' : S) × (device_loop net o c' v ≡ some (ended (abort c') v'))))
          ⊎ ((device_loop net o c s ≡ some (ended (abort c) s')) × Failed net s'))
  device_loop-fails sender c s h x rest later v f k z e free m =
      let c' : Client = work_done (record c { urb_list = rest; loop_ret = true }) x in
      let (s1, read) =
        yield_read-Reads net o c s header_size (sent_bytes sender h) later free (omega arith)
          (omega arith) (length-sent_bytes sender h f (inr k)) m in
      elim read [
        | inr (g, (got, b)) ↦
            (s1, inr (device_loop-exit net o c (abort c) s s1 g, (s, header_size, got, b)))
        | inl (g, t) ↦ (
          s1,
          inl (
            device_loop-reply net o c s s1 (sent_bytes sender h) h g
                  (header_arrives sender o h f (inr k)) k
                ∙ reply-fails c s1 h x rest e z,
            t,
            device_loop-stops c' v refl,
          ),
        )
      ]
