-- ===== src/Vhci/Rounds.antt =====
-- Theorems on one round of vhci_send_cmd_submit (vhci_tx.c).
use usbip.Base.{
  ℕ, ◌≡◌, refl, ap, Bool, List, some, arith, Bool-cases, Option-cases, inl, inr, Option, ==_iff,
  ◌==◌,
}
use usbip.Proto.Endian.{ByteOrder}
use usbip.Core.Socket.{Socket}
use usbip.Core.Sending.{Round}
use usbip.Proto.Urb.{Urb}
use usbip.Vhci.State.{Priv, Hcd}
use usbip.Vhci.Tx.{send_submit, transmit, submit_message}

module _ (o : ByteOrder) (net : Socket) where
  open net use {S}

  -- A queue of a port that sending leaves alone.
  abbrev pub SameQueues : Hcd S → Hcd S → ℕ → Type 0
  SameQueues h k p =
      ((k.vdev p).priv_tx ≡ (h.vdev p).priv_tx)
      × ((k.vdev p).priv_rx ≡ (h.vdev p).priv_rx)
      × (k.given_back ≡ h.given_back)
      × (k.seqnum ≡ h.seqnum)
      × ((k.vdev p).devid ≡ (h.vdev p).devid)
      × (k.urb ≡ h.urb)

  transmit-SameQueues :
      (h : Hcd S) (p : ℕ) (bytes : List ℕ) (size : ℕ)
      → SameQueues h (transmit o net h p bytes size).1 p
  unfolding transmit
  transmit-SameQueues h p bytes size = ground arith

  pub send_submit-SameQueues :
      (memory : Bool) (h : Hcd S) (p : ℕ) (x : Priv)
      → SameQueues h (send_submit o net memory h p x).1 p
  unfolding send_submit
  send_submit-SameQueues memory h p x =
      elim (Option-cases (submit_message o net memory x.seqnum (h.vdev p).devid (h.urb x.urb))) [
        | inl e ↦ ground (arith, e)
        | inr (m, e) ↦ ground (arith, e, transmit-SameQueues h p m.0 m.1)
      ]

  -- The message of a request, for the device id of the port and the memory of the URBs.
  abbrev pub message_of : Bool → ℕ → (ℕ → Urb) → Priv → Option (List ℕ × ℕ)
  message_of memory devid urbs x = submit_message o net memory x.seqnum devid (urbs x.urb)

  abbrev pub socket : Hcd S → ℕ → Option S
  socket h p = (h.vdev p).ud.tcp_socket

  transmit-socket :
      (h : Hcd S) (p size : ℕ) (bytes : List ℕ) (s : S)
      → socket h p ≡ some s
      → (socket (transmit o net h p bytes size).1 p ≡ some (net.sendmsg s bytes).1)
        × ((transmit o net h p bytes size).0 ≡ ((net.sendmsg s bytes).0 == size))
  unfolding transmit
  transmit-socket h p size bytes s e = elim (Bool-cases ((net.sendmsg s bytes).0 == size)) [
    | inl k ↦ (ground (arith, e, k), ground (arith, e, k))
    | inr k ↦ (ground (arith, e, k), ground (arith, e, k))
  ]

  transmit-Round :
      (message : Priv → Option (List ℕ × ℕ)) (x : Priv) (h : Hcd S) (p size : ℕ) (bytes : List ℕ)
      → message x ≡ some (bytes, size)
      → Round net message x
          (transmit o net h p bytes size).0
          (socket h p)
          (socket (transmit o net h p bytes size).1 p)
  unfolding transmit
  transmit-Round message x h p size bytes m = elim (Option-cases (socket h p)) [
    | inl e ↦ rw (transmit, e) (inl refl)
    | inr (s, e) ↦
        let (after, ok) = transmit-socket h p size bytes s e in
        elim (Bool-cases ((net.sendmsg s bytes).0 == size)) [
          | inl k ↦
              let all : (net.sendmsg s bytes).0 ≡ size = (==_iff _ size).0 k in
              rw (ok, k)
                (
                  s,
                  (net.sendmsg s bytes).1,
                  bytes,
                  size,
                  e,
                  m,
                  ap (λ n. (n, (net.sendmsg s bytes).1)) all,
                  after,
                )
          | inr k ↦ rw (ok, k) (inr (inr (s, bytes, size, e, m, k)))
        ]
  ]

  pub send_submit-Round :
      (memory : Bool) (h : Hcd S) (p : ℕ) (x : Priv)
      → Round net
          (message_of memory (h.vdev p).devid h.urb)
          x
          (send_submit o net memory h p x).0
          (socket h p)
          (socket (send_submit o net memory h p x).1 p)
  unfolding send_submit
  send_submit-Round memory h p x =
      elim (Option-cases (submit_message o net memory x.seqnum (h.vdev p).devid (h.urb x.urb))) [
        | inl e ↦ rw (send_submit, e) (inr (inl e))
        | inr ((bytes, size), e) ↦
            rw (send_submit, e)
              (transmit-Round (message_of memory (h.vdev p).devid h.urb) x h p size bytes e)
      ]
