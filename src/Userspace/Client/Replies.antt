-- ===== src/Userspace/Client/Replies.antt =====
-- Theorems on device_loop (userspace/client/client.c).
use usbip.Base.{
  neg, ℕ, ◌^◌, ◌<◌, ◌≡◌, refl, ap, ◌∙◌, ◌⊎◌, inl, inr, true, false, List, ◌++◌, some, arith,
  is_negative, length, ◌==◌, ◌||◌,
}
use usbip.Core.Socket.{Socket}
use usbip.Core.Recv.{overwrite}
use usbip.Proto.Header.{Header, Fits, ret_submit, dir_in, header_size}
use usbip.Proto.Endian.{ByteOrder}
use usbip.Proto.Wire.{read_header, sent_bytes, header_arrives, length-sent_bytes}
use usbip.Userspace.Network.{net_recv}
use usbip.Userspace.Network.Receiving.{net_recv-Reads, Failed}
use usbip.Userspace.Client.{
  Client, ClientUrb, device_find_urb, work_done, abort, resumed, exited, yield_read, goes_on, ended,
  complete, reply, device_loop,
}

module _ (net : Socket) (o : ByteOrder) where
  open net use {S, pending}

  -- What a read of `size` bytes comes to.
  abbrev pub Reads : Client → S → ℕ → List ℕ → List ℕ → Type 0
  Reads c s size wanted later =
      (s' : S) × (((yield_read net o c s size ≡ some (resumed wanted s')) × (pending s' ≡ later))
        ⊎ ((yield_read net o c s size ≡ some (exited (abort c) s'))
            × ((got : List ℕ) × (net_recv net s size ≡ some (neg 1, got, s')))))

  yield_read-got :
      (c : Client) (s : S) (size : ℕ) (r : ℕ × List ℕ × S)
      → (size == 0) ≡ false
      → net_recv net s size ≡ some r
      → (c.loop_ret || is_negative r.0) ≡ false
      → yield_read net o c s size ≡ some (resumed r.1 r.2)
  unfolding yield_read
  yield_read-got c s size (n, got, s') z e k = rw (yield_read, z, e) (rw k refl)

  pub yield_read-fails :
      (c : Client) (s : S) (size : ℕ) (r : ℕ × List ℕ × S)
      → (size == 0) ≡ false
      → net_recv net s size ≡ some r
      → (c.loop_ret || is_negative r.0) ≡ true
      → yield_read net o c s size ≡ some (exited (abort c) r.2)
  unfolding yield_read
  yield_read-fails c s size (n, got, s') z e k = rw (yield_read, z, e) (rw k refl)

  -- A read of the next bytes of the stream.
  pub yield_read-Reads :
      (c : Client) (s : S) (size : ℕ) (wanted later : List ℕ)
      → c.loop_ret ≡ false
      → 0 < size
      → size < 2 ^ 31
      → length wanted ≡ size
      → pending s ≡ wanted ++ later
      → Reads c s size wanted later
  yield_read-Reads c s size wanted later free h k l p =
      let z : (size == 0) ≡ false = ground arith in
      let (s', read) = net_recv-Reads net s size wanted later h l p in
      elim read [
        | inl (e, q) ↦
            (s', inl (yield_read-got c s size (size, wanted, s') z e (ground (arith, free)), q))
        | inr (got, e) ↦ (
          s',
          inr (yield_read-fails c s size (neg 1, got, s') z e (ground (arith, free)), (got, e)),
        )
      ]

  -- The header of a reply is read, and the reply handled.
  pub device_loop-reply :
      (c : Client) (s s' : S) (bytes : List ℕ) (h : Header)
      → yield_read net o c s header_size ≡ some (resumed bytes s')
      → read_header o bytes ≡ h
      → h.base.command ≡ ret_submit
      → device_loop net o c s ≡ reply net o c s' h
  unfolding device_loop
  device_loop-reply c s s' bytes h e r k =
      let is_reply : ((read_header o bytes).base.command == ret_submit) ≡ true =
        ap (λ g. g.base.command == ret_submit) r ∙ ap (λ n. n == ret_submit) k in
      rw (device_loop, e) (rw is_reply (ap (reply net o c s') r))

  pub device_loop-exit :
      (c c' : Client) (s s' : S)
      → yield_read net o c s header_size ≡ some (exited c' s')
      → device_loop net o c s ≡ some (ended c' s')
  unfolding device_loop
  device_loop-exit c c' s s' e = rw (device_loop, e) refl

  reply-complete :
      (c : Client) (s : S) (h : Header) (x : ClientUrb) (rest : List ClientUrb)
      → device_find_urb h.base.seqnum c.urb_list ≡ some (x, rest)
      → h.u.word0 ≡ 0
      → reply net o c s h ≡ complete net o (record c { urb_list = rest }) s x h.u.word1
  unfolding reply
  reply-complete c s h x rest e z =
      let z' : (h.u.word0 == 0) ≡ true = ground arith in rw (reply, e) (rw z' refl)

  complete-resumed :
      (c : Client) (s s' : S) (x : ClientUrb) (actual : ℕ) (bytes : List ℕ)
      → x.direction ≡ dir_in
      → yield_read net o c s actual ≡ some (resumed bytes s')
      → complete net o c s x actual
        ≡ some (goes_on (work_done c (record x { buf = overwrite x.buf bytes; ret = actual })) s')
  unfolding complete
  complete-resumed c s s' x actual bytes d e =
      let d' : (x.direction == dir_in) ≡ true = ground arith in rw (complete, d', e) refl

  complete-exited :
      (c c' : Client) (s s' : S) (x : ClientUrb) (actual : ℕ)
      → x.direction ≡ dir_in
      → yield_read net o c s actual ≡ some (exited c' s')
      → complete net o c s x actual ≡ some (ended c' s')
  unfolding complete
  complete-exited c c' s s' x actual d e =
      let d' : (x.direction == dir_in) ≡ true = ground arith in rw (complete, d', e) refl

  -- When the stub sends a reply without error, with data, to an URB that reads and waits, and
  -- the work of device_loop has no error, a round of device_loop returns: either it has read
  -- exactly that reply, whatever the byte orders, and the URB has its data at the start of its
  -- buffer, the length as its result, and is finished; or the connection is closed after a
  -- receive that failed.
  pub device_loop-completes :
      (sender : ByteOrder) (c : Client) (s : S) (h : Header) (x : ClientUrb) (rest : List ClientUrb)
      (bytes later : List ℕ)
      → Fits h
      → h.base.command ≡ ret_submit
      → h.u.word0 ≡ 0
      → device_find_urb h.base.seqnum c.urb_list ≡ some (x, rest)
      → x.direction ≡ dir_in
      → 0 < h.u.word1
      → h.u.word1 < 2 ^ 31
      → length bytes ≡ h.u.word1
      → c.loop_ret ≡ false
      → pending s ≡ sent_bytes sender h ++ (bytes ++ later)
      → (s' : S) × (((device_loop net o c s
              ≡ some (
                  goes_on
                    (work_done
                      (record c { urb_list = rest })
                      (record x { buf = overwrite x.buf bytes; ret = h.u.word1 }))
                    s'))
            × (pending s' ≡ later))
          ⊎ (((device_loop net o c s ≡ some (ended (abort c) s'))
                ⊎ (device_loop net o c s ≡ some (ended (abort (record c { urb_list = rest })) s')))
              × Failed net s'))
  device_loop-completes sender c s h x rest bytes later f k z e d p q l free m =
      let c' : Client = record c { urb_list = rest } in
      let (s1, read) =
        yield_read-Reads c s header_size (sent_bytes sender h) (bytes ++ later) free (omega arith)
          (omega arith) (length-sent_bytes sender h f (inr k)) m in
      elim read [
        | inr (g, (got, b)) ↦
            (s1, inr (inl (device_loop-exit c (abort c) s s1 g), (s, header_size, got, b)))
        | inl (g, t) ↦
            let step : device_loop net o c s ≡ complete net o c' s1 x h.u.word1 =
              device_loop-reply c s s1 (sent_bytes sender h) h g
                (header_arrives sender o h f (inr k)) k
              ∙ reply-complete c s1 h x rest e z in
            let (s2, read') = yield_read-Reads c' s1 h.u.word1 bytes later free p q l t in
            elim read' [
              | inl (g', t') ↦
                  (s2, inl (step ∙ complete-resumed c' s1 s2 x h.u.word1 bytes d g', t'))
              | inr (g', (got, b)) ↦ (
                s2,
                inr (
                  inr (step ∙ complete-exited c' (abort c') s1 s2 x h.u.word1 d g'),
                  (s1, h.u.word1, got, b),
                ),
              )
            ]
      ]
