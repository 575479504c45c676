-- ===== src/Vhci/Replies.antt =====
-- Theorems on vhci_recv_ret_submit (vhci_rx.c).
use usbip.Base.{
  ℕ, ◌+◌, ◌≡◌, refl, ◌∙◌, ap, Bool, true, false, List, ◌∷◌, Option, some, arith, is_negative,
}
use usbip.Proto.Header.{Header, ret_submit}
use usbip.Proto.Endian.{ByteOrder}
use usbip.Proto.Urb.{Urb}
use usbip.Proto.Pack.{pack_pdu}
use usbip.Core.Device.{vhci}
use usbip.Core.Events.{Events}
use usbip.Core.Socket.{Socket}
use usbip.Core.Recv.{recv_xbuff}
use usbip.Core.Iso.{recv_iso}
use usbip.Core.Pad.{pad_iso}
use usbip.Vhci.State.{Hcd, GivenBack, set_urb}
use usbip.Vhci.Hcd.{pickup_urb_and_free_priv}
use usbip.Vhci.Rx.{recv_ret_submit, recv_submit_found, recv_submit_xbuff, recv_submit_iso, received}
use usbip.Vhci.Balance.{one, pending, balance, returned, pickup_balance}

one_self : (a : ℕ) → one a a ≡ 1
one_self a = ground arith

pad_iso-status : (urb : Urb) → (pad_iso urb).status ≡ urb.status
unfolding pad_iso
pad_iso-status urb = ground arith

given : {S : Type 0} → ℕ → Hcd S → ℕ → List GivenBack
given a h status = record { urb = a; status = status } ∷ h.given_back

module _ (o : ByteOrder) (net : Socket) where
  open net use {S}

  recv_iso-status :
      (memory : Bool) (urb : Urb) (sock : Option S)
      → (recv_iso o net memory vhci urb sock).2.status ≡ urb.status
  unfolding recv_iso
  recv_iso-status memory urb sock = ground arith

  recv_xbuff-status :
      (urb : Urb) (sock : Option S) → (recv_xbuff net vhci urb sock).2.status ≡ urb.status
  unfolding recv_xbuff
  recv_xbuff-status urb sock = ground arith

  -- The URB as the reply's header fills it in.
  abbrev pub replied : Header → Urb → Urb
  replied pdu urb = (pack_pdu pdu urb ret_submit false).1

  -- Nothing was given back, and the entries of an URB on a port are as before.
  abbrev Kept : Hcd S → Hcd S → ℕ → ℕ → Type 0
  Kept h k p u = (k.given_back ≡ h.given_back) × (pending k p u ≡ pending h p u)

  received-Kept :
      (h : Hcd S) (p a : ℕ) (events : Events) (urb : Urb) (sock : Option S) (u : ℕ)
      → Kept h (received o net h p a events urb sock) p u
  received-Kept h p a events urb sock u = ground arith

  -- An URB was given back with a status, and it is not queued any more than before.
  abbrev Given : Hcd S → Hcd S → ℕ → ℕ → ℕ → ℕ → Type 0
  Given h k p a status u =
      (k.given_back ≡ record { urb = a; status = status } ∷ h.given_back)
      × (pending k p u ≡ pending h p u)

  recv_submit_iso-Kept :
      (h : Hcd S) (p a : ℕ) (r : ℕ × Events × Urb × Option S) (u : ℕ)
      → is_negative r.0 ≡ true
      → Kept h (recv_submit_iso o net h p a r) p u
  unfolding recv_submit_iso
  recv_submit_iso-Kept h p a (ret, events, urb, sock) u n =
      rw n (received-Kept h p a events urb sock u)

  recv_submit_iso-Given :
      (h : Hcd S) (p a : ℕ) (r : ℕ × Events × Urb × Option S) (u : ℕ)
      → is_negative r.0 ≡ false
      → Given h (recv_submit_iso o net h p a r) p a r.2.status u
  unfolding recv_submit_iso
  recv_submit_iso-Given h p a (ret, events, urb, sock) u n =
      rw n (ground (arith, pad_iso-status urb))

  recv_submit_xbuff-Kept :
      (memory : Bool) (h : Hcd S) (p a : ℕ) (r : ℕ × Events × Urb × Option S) (u : ℕ)
      → is_negative r.0 ≡ true
      → Kept h (recv_submit_xbuff o net memory h p a r) p u
  unfolding recv_submit_xbuff
  recv_submit_xbuff-Kept memory h p a (ret, events, urb, sock) u n =
      rw n (received-Kept h p a events urb sock u)

  recv_submit_xbuff-Given :
      (memory : Bool) (h : Hcd S) (p a : ℕ) (r : ℕ × Events × Urb × Option S) (u : ℕ)
      → is_negative r.0 ≡ false
      → is_negative (recv_iso o net memory vhci r.2 r.3).0 ≡ false
      → Given h (recv_submit_xbuff o net memory h p a r) p a r.2.status u
  unfolding recv_submit_xbuff given
  recv_submit_xbuff-Given memory h p a (ret, events, urb, sock) u n m =
      let h' : Hcd S = received o net h p a events urb sock in
      let (g, q) = recv_submit_iso-Given h' p a (recv_iso o net memory vhci urb sock) u m in
      let (g', q') = received-Kept h p a events urb sock u in
      rw n (g ∙ ap (given a h) (recv_iso-status memory urb sock), q ∙ q')

  replied-status : (pdu : Header) (urb : Urb) → (replied pdu urb).status ≡ pdu.u.word0
  unfolding pack_pdu
  replied-status pdu urb = refl

  -- What usbip_recv_xbuff and then usbip_recv_iso return for the reply `pdu` to URB `a`.
  abbrev pub data_read : Hcd S → ℕ → ℕ → Header → ℕ × Events × Urb × Option S
  data_read h p a pdu = recv_xbuff net vhci (replied pdu (h.urb a)) (h.vdev p).ud.tcp_socket

  abbrev pub packets_read : Bool → Hcd S → ℕ → ℕ → Header → ℕ × Events × Urb × Option S
  packets_read memory h p a pdu =
      recv_iso o net memory vhci (data_read h p a pdu).2 (data_read h p a pdu).3

  found-Given :
      (memory : Bool) (h : Hcd S) (p a : ℕ) (pdu : Header) (u : ℕ)
      → is_negative (data_read h p a pdu).0 ≡ false
      → is_negative (packets_read memory h p a pdu).0 ≡ false
      → Given h (recv_submit_found o net memory h p a pdu) p a pdu.u.word0 u
  unfolding recv_submit_found given
  found-Given memory h p a pdu u n m =
      let (g, q) =
        recv_submit_xbuff-Given memory (set_urb h a (replied pdu (h.urb a))) p a
          (data_read h p a pdu) u n m in
      (
        g
            ∙ ap (given a h) (
                recv_xbuff-status (replied pdu (h.urb a)) (h.vdev p).ud.tcp_socket
                ∙ replied-status pdu (h.urb a)),
        q,
      )

  found-Kept :
      (memory : Bool) (h : Hcd S) (p a : ℕ) (pdu : Header) (u : ℕ)
      → is_negative (data_read h p a pdu).0 ≡ true
      → Kept h (recv_submit_found o net memory h p a pdu) p u
  unfolding recv_submit_found
  found-Kept memory h p a pdu u n =
      recv_submit_xbuff-Kept memory (set_urb h a (replied pdu (h.urb a))) p a (data_read h p a pdu)
        u n

  -- When a reply's URB is pending and the data and the packet descriptors can be read, that URB is
  -- given back with the status in the reply, and no other; each URB is as often pending on the port
  -- or given back as before.
  pub recv_ret_submit_completes :
      (memory : Bool) (h : Hcd S) (p : ℕ) (pdu : Header) (a : ℕ) (h1 : Hcd S) (u : ℕ)
      → pickup_urb_and_free_priv h p pdu.base.seqnum ≡ some (a, h1)
      → is_negative (data_read h1 p a pdu).0 ≡ false
      → is_negative (packets_read memory h1 p a pdu).0 ≡ false
      → ((recv_ret_submit o net memory h p pdu).given_back
          ≡ record { urb = a; status = pdu.u.word0 } ∷ h.given_back)
        × (balance (recv_ret_submit o net memory h p pdu) p u ≡ balance h p u)
  unfolding recv_ret_submit
  recv_ret_submit_completes memory h p pdu a h1 u e n m =
      let (g, q) = found-Given memory h1 p a pdu u n m in
      let (taken, kept) = pickup_balance h p pdu.base.seqnum u e in
      rw (e, recv_ret_submit)
        (
          g ∙ ap (λ l. record { urb = a; status = pdu.u.word0 } ∷ l) kept,
          omega (arith, q, taken, ap (returned u) g, ap (returned u) kept),
        )

  -- If the data of a reply cannot be read, its URB, which was pending, is neither pending any more
  -- nor given back: nothing is given back.
  pub recv_ret_submit_loses :
      (memory : Bool) (h : Hcd S) (p : ℕ) (pdu : Header) (a : ℕ) (h1 : Hcd S)
      → pickup_urb_and_free_priv h p pdu.base.seqnum ≡ some (a, h1)
      → is_negative (data_read h1 p a pdu).0 ≡ true
      → ((recv_ret_submit o net memory h p pdu).given_back ≡ h.given_back)
        × (pending h p a ≡ 1 + pending (recv_ret_submit o net memory h p pdu) p a)
  unfolding recv_ret_submit
  recv_ret_submit_loses memory h p pdu a h1 e n =
      let (g, q) = found-Kept memory h1 p a pdu a n in
      let (taken, kept) = pickup_balance h p pdu.base.seqnum a e in
      rw (e, recv_ret_submit) (g ∙ kept, omega (arith, q, taken, one_self a))
