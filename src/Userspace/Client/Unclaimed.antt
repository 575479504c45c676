-- ===== src/Userspace/Client/Unclaimed.antt =====
-- Theorems on the replies that no URB waits for (userspace/client/client.c, stub_tx.c).
use mathlib.Core.List.{append_assoc}
use usbip.Base.{
  Bool, ℕ, zero, suc, ◌-◌, ◌<◌, ◌≤◌, ◌≡◌, refl, sym, ap, ◌∙◌, ◌⊎◌, inl, inr, true, false,
  Bool-cases, List, [], ◌∷◌, ◌++◌, Option, none, some, arith, length, take, drop, ltb, ◌==◌,
  if◌then◌else◌, ◌&&◌, length-take, length-drop, u32,
}
use usbip.Core.Socket.{Socket}
use usbip.Proto.Header.{Header, Fits, ret_submit, dir_in, header_size}
use usbip.Proto.Endian.{ByteOrder}
use usbip.Proto.Wire.{sent_bytes, header_arrives, length-sent_bytes}
use usbip.Userspace.Network.Receiving.{Failed}
use usbip.Proto.Urb.{Urb, is_isochronous}
use usbip.Proto.Pack.{pack_pdu}
use usbip.Stub.Tx.{setup_ret_submit_pdu, ret_submit_message, in_data}
use usbip.Userspace.Client.{
  Client, device_find_urb, abort, drop_size, resumed, exited, yield_read, Turn, goes_on, ended,
  drop_data, reply, device_loop,
}
use usbip.Userspace.Client.Replies.{yield_read-Reads, device_loop-reply, device_loop-exit}

take-drop_append : (n : ℕ) (xs : List ℕ) → take n xs ++ drop n xs ≡ xs
take-drop_append zero xs = refl
take-drop_append (suc n) [] = refl
take-drop_append (suc n) (x ∷ xs) = ap (◌∷◌ x) (take-drop_append n xs)

empty : (xs : List ℕ) → length xs ≡ 0 → xs ≡ []
empty [] h = refl
empty (x ∷ xs) h = absurd (omega arith)

module _ (net : Socket) (o : ByteOrder) where
  open net use {S, pending}

  -- The data of a reply has been dropped, or the loop has ended.
  abbrev Drops : Client → S → Option (Turn net o) → List ℕ → Type 0
  Drops c s turn later =
      (s' : S) × (((turn ≡ some (goes_on c s')) × (pending s' ≡ later))
        ⊎ ((turn ≡ some (ended (abort c) s')) × Failed net s'))

  drop_data-done :
      (fuel : ℕ) (c : Client) (s : S) → drop_data net o (suc fuel) c s 0 ≡ some (goes_on c s)
  unfolding drop_data
  drop_data-done fuel c s = refl

  drop_data-step :
      (fuel size actual : ℕ) (c : Client) (s s' : S) (bytes : List ℕ)
      → (if ltb actual drop_size then actual else drop_size) ≡ size
      → (actual == 0) ≡ false
      → yield_read net o c s size ≡ some (resumed bytes s')
      → drop_data net o (suc fuel) c s actual ≡ drop_data net o fuel c s' (actual - length bytes)
  unfolding drop_data
  drop_data-step fuel size actual c s s' bytes m z e = rw (drop_data, z) (rw (m, e) refl)

  drop_data-exit :
      (fuel size actual : ℕ) (c c' : Client) (s s' : S)
      → (if ltb actual drop_size then actual else drop_size) ≡ size
      → (actual == 0) ≡ false
      → yield_read net o c s size ≡ some (exited c' s')
      → drop_data net o (suc fuel) c s actual ≡ some (ended c' s')
  unfolding drop_data
  drop_data-exit fuel size actual c c' s s' m z e = rw (drop_data, z) (rw (m, e) refl)

  drop_data-Drops :
      (fuel actual : ℕ) (c : Client) (s : S) (junk later : List ℕ)
      → actual < fuel
      → c.loop_ret ≡ false
      → length junk ≡ actual
      → pending s ≡ junk ++ later
      → Drops c s (drop_data net o fuel c s actual) later
  drop_data-Drops zero actual c s junk later h free l p = absurd (omega arith)
  drop_data-Drops (suc fuel) actual c s junk later h free l p = elim (Bool-cases (actual == 0)) [
    | inl e ↦
        let none_left : actual ≡ 0 = ground (arith, e) in
        let no_junk : junk ≡ [] = empty junk (l ∙ none_left) in
        (
          s,
          inl (
            ap (drop_data net o (suc fuel) c s) none_left ∙ drop_data-done fuel c s,
            p ∙ ap (λ xs. xs ++ later) no_junk,
          ),
        )
    | inr e ↦
        let size : ℕ = if ltb actual drop_size then actual else drop_size in
        let bounds : (0 < size) × (size ≤ actual) × (size ≤ drop_size) = ground (arith, e) in
        let taken : length (take size junk) ≡ size =
          omega (arith, length-take size junk, bounds.1) in
        let split : pending s ≡ take size junk ++ (drop size junk ++ later) =
          p
          ∙ (ap (λ xs. xs ++ later) (sym (take-drop_append size junk))
              ∙ append_assoc (take size junk) (drop size junk) later) in
        let (s', read) =
          yield_read-Reads net o c s size (take size junk) (drop size junk ++ later) free bounds.0
            (omega (arith, bounds.2)) taken split in
        elim read [
          | inr (g, (got, b)) ↦ (
            s',
            inr (drop_data-exit fuel size actual c (abort c) s s' refl e g, (s, size, got, b)),
          )
          | inl (g, t) ↦
              let m : actual - length (take size junk) ≡ actual - size =
                ap (λ n. actual - n) taken in
              let step : drop_data net o (suc fuel) c s actual
                  ≡ drop_data net o fuel c s' (actual - size) =
                drop_data-step fuel size actual c s s' (take size junk) refl e g
                ∙ ap (drop_data net o fuel c s') m in
              let (s2, rest) =
                drop_data-Drops fuel (actual - size) c s' (drop size junk) later
                  (omega (arith, bounds.0)) free (omega (arith, length-drop size junk)) t in
              elim rest [
                | inl (a, b) ↦ (s2, inl (step ∙ a, b))
                | inr (a, b) ↦ (s2, inr (step ∙ a, b))
              ]
        ]
  ]

  reply-dropped :
      (c : Client) (s : S) (h : Header)
      → device_find_urb h.base.seqnum c.urb_list ≡ none
      → h.u.word0 ≡ 0
      → h.base.direction ≡ dir_in
      → reply net o c s h ≡ drop_data net o (suc h.u.word1) c s h.u.word1
  unfolding reply
  reply-dropped c s h e z d =
      let k : (h.u.word0 == 0 && h.base.direction == dir_in) ≡ true = ground arith in
      rw (reply, e) (rw k refl)

  reply-kept :
      (c : Client) (s : S) (h : Header)
      → device_find_urb h.base.seqnum c.urb_list ≡ none
      → (h.base.direction == dir_in) ≡ false
      → reply net o c s h ≡ some (goes_on c s)
  unfolding reply
  reply-kept c s h e d =
      let k : (h.u.word0 == 0 && h.base.direction == dir_in) ≡ false = ground arith in
      rw (reply, e) (rw k refl)

  -- When a reply without error arrives for which no URB waits, and the work of device_loop has
  -- no error, a round of device_loop returns: either the device is as before, and the data of
  -- the reply is dropped where its header says that it goes in, and is left in the stream
  -- before what follows where it does not, or the connection is closed after a receive that
  -- failed.
  pub device_loop-unclaimed :
      (sender : ByteOrder) (c : Client) (s : S) (h : Header) (bytes later : List ℕ)
      → Fits h
      → h.base.command ≡ ret_submit
      → h.u.word0 ≡ 0
      → device_find_urb h.base.seqnum c.urb_list ≡ none
      → length bytes ≡ h.u.word1
      → c.loop_ret ≡ false
      → pending s ≡ sent_bytes sender h ++ (bytes ++ later)
      → (s' : S) × (((device_loop net o c s ≡ some (goes_on c s'))
            × (pending s' ≡ (if h.base.direction == dir_in then later else bytes ++ later)))
          ⊎ ((device_loop net o c s ≡ some (ended (abort c) s')) × Failed net s'))
  device_loop-unclaimed sender c s h bytes later f k z e l free m =
      let (s1, read) =
        yield_read-Reads net o c s header_size (sent_bytes sender h) (bytes ++ later) free
          (omega arith) (omega arith) (length-sent_bytes sender h f (inr k)) m in
      elim read [
        | inr (g, (got, b)) ↦
            (s1, inr (device_loop-exit net o c (abort c) s s1 g, (s, header_size, got, b)))
        | inl (g, t) ↦
            let step : device_loop net o c s ≡ reply net o c s1 h =
              device_loop-reply net o c s s1 (sent_bytes sender h) h g
                (header_arrives sender o h f (inr k)) k in
            elim (Bool-cases (h.base.direction == dir_in)) [
              | inr d ↦ (s1, inl (step ∙ reply-kept c s1 h e d, rw d t))
              | inl d ↦
                  let (s2, drops) =
                    drop_data-Drops (suc h.u.word1) h.u.word1 c s1 bytes later (omega arith) free l
                      t in
                  let dropped = step ∙ reply-dropped c s1 h e z (ground arith) in
                  elim drops [
                    | inl (a, b) ↦ (s2, inl (dropped ∙ a, rw d b))
                    | inr (a, b) ↦ (s2, inr (dropped ∙ a, b))
                  ]
            ]
      ]

  reply_message :
      (sender : ByteOrder) (mem : Bool) (n size : ℕ) (urb : Urb) (message : List ℕ)
      → is_isochronous urb.pipe.pipetype ≡ false
      → ret_submit_message sender net mem n urb ≡ some (message, size)
      → sent_bytes sender (setup_ret_submit_pdu n urb) ++ ((in_data urb).0 ++ []) ≡ message
  unfolding ret_submit_message
  reply_message sender mem n size urb message i e = ground (arith, e, i)

  -- When the message of the stub for the result of an URB that is not isochronous arrives at
  -- libusbip, where no URB waits for its number and the work of device_loop has no error, a
  -- round of device_loop leaves the data of that message in the stream, before what follows,
  -- and the device as it was, or the connection is closed after a receive that failed.
  pub stub_reply_left :
      (sender : ByteOrder) (c : Client) (s : S) (mem : Bool) (n size : ℕ) (urb : Urb)
      (message later : List ℕ)
      → Fits (setup_ret_submit_pdu n urb)
      → is_isochronous urb.pipe.pipetype ≡ false
      → ret_submit_message sender net mem n urb ≡ some (message, size)
      → device_find_urb (u32 n) c.urb_list ≡ none
      → c.loop_ret ≡ false
      → pending s ≡ message ++ later
      → (s' : S) × (((device_loop net o c s ≡ some (goes_on c s'))
            × (pending s' ≡ (in_data urb).0 ++ later))
          ⊎ ((device_loop net o c s ≡ some (ended (abort c) s')) × Failed net s'))
  unfolding setup_ret_submit_pdu pack_pdu
  stub_reply_left sender c s mem n size urb message later f i q e free m =
      let h : Header = setup_ret_submit_pdu n urb in
      let split : pending s ≡ sent_bytes sender h ++ ((in_data urb).0 ++ later) =
        m
        ∙ (ap (λ b. b ++ later) (sym (reply_message sender mem n size urb message i q))
            ∙ (append_assoc (sent_bytes sender h) ((in_data urb).0 ++ []) later
                ∙ ap (λ b. sent_bytes sender h ++ b) (append_assoc (in_data urb).0 [] later))) in
      let (s1, read) =
        yield_read-Reads net o c s header_size (sent_bytes sender h) ((in_data urb).0 ++ later) free
          (omega arith) (omega arith) (length-sent_bytes sender h f (inr refl)) split in
      elim read [
        | inr (g, (got, b)) ↦
            (s1, inr (device_loop-exit net o c (abort c) s s1 g, (s, header_size, got, b)))
        | inl (g, t) ↦ (
          s1,
          inl (
            device_loop-reply net o c s s1 (sent_bytes sender h) h g
                  (header_arrives sender o h f (inr refl)) refl
                ∙ reply-kept c s1 h e refl,
            t,
          ),
        )
      ]
