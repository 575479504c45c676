-- ===== src/Stub/Rounds.antt =====
-- Theorems on one round of stub_send_ret_submit (stub_tx.c).
use usbip.Base.{
  ℕ, ◌≡◌, refl, ap, inl, inr, Bool, true, false, List, some, arith, Option-cases, Bool-cases,
  Option, none, ==_iff, ◌==◌, ◌&&◌, if◌then◌else◌,
}
use usbip.Proto.Endian.{ByteOrder}
use usbip.Core.Socket.{Socket}
use usbip.Core.Sending.{Round}
use usbip.Proto.Urb.{Urb}
use usbip.Stub.State.{StubPriv, Sdev}
use usbip.Stub.Tx.{send_one_submit, transmit, ret_submit_message, lengths_agree}

module _ (o : ByteOrder) (net : Socket) where
  open net use {S}

  -- The queues of a device that sending one reply leaves alone.
  abbrev pub SameQueues : Sdev S → Sdev S → Type 0
  SameQueues d k =
      (k.priv_tx ≡ d.priv_tx)
      × (k.priv_free ≡ d.priv_free)
      × (k.priv_init ≡ d.priv_init)
      × (k.unlink_tx ≡ d.unlink_tx)
      × (k.urb ≡ d.urb)

  transmit-SameQueues :
      (d : Sdev S) (bytes : List ℕ) (size : ℕ) → SameQueues d (transmit o net d bytes size).1
  unfolding transmit
  transmit-SameQueues d bytes size = ground arith

  pub send_one_submit-SameQueues :
      (iov mem : Bool) (d : Sdev S) (x : StubPriv)
      → SameQueues d (send_one_submit o net iov mem d x).1
  unfolding send_one_submit
  send_one_submit-SameQueues iov mem d x =
      elim (Option-cases (ret_submit_message o net mem x.seqnum (d.urb x.urb))) [
        | inl e ↦ ground (arith, e)
        | inr (m, e) ↦ ground (arith, e, transmit-SameQueues d m.0 m.1)
      ]

  -- What is sent for a completed request, for the memory of the URBs: nothing without memory for the
  -- vector, or where the lengths of the packets do not add up to that of the URB.
  abbrev pub message_of : Bool → Bool → (ℕ → Urb) → StubPriv → Option (List ℕ × ℕ)
  message_of iov mem urbs x =
      if iov && lengths_agree (urbs x.urb)
      then ret_submit_message o net mem x.seqnum (urbs x.urb)
      else none

  transmit-socket :
      (d : Sdev S) (size : ℕ) (bytes : List ℕ) (s : S)
      → d.ud.tcp_socket ≡ some s
      → ((transmit o net d bytes size).1.ud.tcp_socket ≡ some (net.sendmsg s bytes).1)
        × ((transmit o net d bytes size).0 ≡ ((net.sendmsg s bytes).0 == size))
  unfolding transmit
  transmit-socket d size bytes s e = elim (Bool-cases ((net.sendmsg s bytes).0 == size)) [
    | inl k ↦ (ground (arith, e, k), ground (arith, e, k))
    | inr k ↦ (ground (arith, e, k), ground (arith, e, k))
  ]

  transmit-Round :
      (message : StubPriv → Option (List ℕ × ℕ)) (x : StubPriv) (d : Sdev S) (size : ℕ)
      (bytes : List ℕ)
      → message x ≡ some (bytes, size)
      → Round net message x
          (transmit o net d bytes size).0
          d.ud.tcp_socket
          (transmit o net d bytes size).1.ud.tcp_socket
  unfolding transmit
  transmit-Round message x d size bytes m = elim (Option-cases d.ud.tcp_socket) [
    | inl e ↦ rw (transmit, e) (inl refl)
    | inr (s, e) ↦
        let (after, ok) = transmit-socket d size bytes s e in
        elim (Bool-cases ((net.sendmsg s bytes).0 == size)) [
          | inl k ↦
              let all : (net.sendmsg s bytes).0 ≡ size = (==_iff _ size).0 k in
              rw (ok, k)
                (
                  s,
                  (net.sendmsg s bytes).1,
                  bytes,
                  size,
                  e,
                  m,
                  ap (λ n. (n, (net.sendmsg s bytes).1)) all,
                  after,
                )
          | inr k ↦ rw (ok, k) (inr (inr (s, bytes, size, e, m, k)))
        ]
  ]

  pub send_one_submit-Round :
      (iov mem : Bool) (d : Sdev S) (x : StubPriv)
      → Round net
          (message_of iov mem d.urb)
          x
          (send_one_submit o net iov mem d x).0
          d.ud.tcp_socket
          (send_one_submit o net iov mem d x).1.ud.tcp_socket
  unfolding send_one_submit
  send_one_submit-Round false mem d x = inr (inl refl)
  send_one_submit-Round true mem d x = elim (Bool-cases (lengths_agree (d.urb x.urb))) [
    | inr l ↦ rw (send_one_submit, l) (inr (inl (rw l refl)))
    | inl l ↦ elim (Option-cases (ret_submit_message o net mem x.seqnum (d.urb x.urb))) [
      | inl e ↦ rw (send_one_submit, l, e) (inr (inl (rw (l, e) refl)))
      | inr ((bytes, size), e) ↦
          rw (send_one_submit, l, e)
            (transmit-Round (message_of true mem d.urb) x d size bytes (rw (l, e) refl))
    ]
  ]
