-- ===== src/Vhci/Trace/Receiving.antt =====
-- What receiving from the peer keeps (vhci_rx.c).
use usbip.Base.{
  ℕ, ◌<◌, refl, Bool, true, false, List, Option, arith, ◌==◌, Option-cases, Bool-cases, inl, inr,
  u32, is_negative, neg, eagain, ◌&&◌,
}
use usbip.Proto.Header.{Header, ret_submit, ret_unlink, header_size, load_header}
use usbip.Proto.Endian.{ByteOrder, header_correct_endian}
use usbip.Proto.Urb.{Urb}
use usbip.Core.Events.{Events}
use usbip.Core.Socket.{Socket}
use usbip.Core.Recv.{usbip_recv}
use usbip.Vhci.State.{Unlink, Hcd, vhci_nports, set_urb, find_unlink}
use usbip.Vhci.Hcd.{pickup_urb_and_free_priv}
use usbip.Vhci.Rx.{
  received, recv_submit_iso, recv_submit_xbuff, recv_submit_found, recv_ret_submit, settle_unlink,
  recv_ret_unlink, dispatch_pdu, rx_header, rx_pdu, set_socket, priv_tx_empty,
}
use usbip.Vhci.Trace.Ports.{Ends, pickup-Ends, urb_given-Ends, set_vdev-Same, event-Same}
use usbip.Vhci.Trace.Settles.{Same, Settles, Same-Settles, Same-trans, Settles-trans, Settles-refl}

module _ (o : ByteOrder) (net : Socket) where
  open net use {S}

  settle_unlink-Settles :
      (h : Hcd S) (p : ℕ) (x : Unlink) (pdu : Header)
      → p < vhci_nports
      → Settles h (settle_unlink o net h p x pdu)
  unfolding settle_unlink
  settle_unlink-Settles h p x pdu b =
      elim (Option-cases (pickup_urb_and_free_priv h p (u32 x.unlink_seqnum))) [
        | inl e ↦ rw (settle_unlink, e) (Settles-refl h)
        | inr ((a, h'), e) ↦
            rw (settle_unlink, e)
              (pickup-Ends h h' _ p (u32 x.unlink_seqnum) a b e (urb_given-Ends h' a _))
      ]

  recv_ret_unlink-Settles :
      (h : Hcd S) (p : ℕ) (pdu : Header)
      → p < vhci_nports
      → Settles h (recv_ret_unlink o net h p pdu)
  unfolding recv_ret_unlink
  recv_ret_unlink-Settles h p pdu b =
      elim (Option-cases (find_unlink pdu.base.seqnum (h.vdev p).unlink_rx)) [
        | inl e ↦ rw (recv_ret_unlink, e) (Settles-refl h)
        | inr (x, e) ↦
            rw (recv_ret_unlink, e)
              (Settles-trans (Same-Settles h _ (set_vdev-Same h p _ refl refl))
                (settle_unlink-Settles _ p x pdu b))
      ]

  received-Same :
      (h : Hcd S) (p a : ℕ) (events : Events) (urb : Urb) (sock : Option S)
      → Same h (received o net h p a events urb sock)
  received-Same h p a events urb sock = record {
    pending = λ q v. ground arith;
    given_back = refl;
    hcpriv = refl;
  }

  Ends-after : (h h' k : Hcd S) (a : ℕ) → Same h h' → Ends h' a k → Ends h a k
  unfolding Ends
  Ends-after h h' k a s (inl t) = inl (Same-trans s t)
  Ends-after h h' k a s (inr (k', t, is)) = inr (k', Same-trans s t, is)

  recv_submit_iso-Ends :
      (h : Hcd S) (p a : ℕ) (r : ℕ × Events × Urb × Option S)
      → Ends h a (recv_submit_iso o net h p a r)
  unfolding recv_submit_iso Ends
  recv_submit_iso-Ends h p a (ret, events, urb, sock) = elim (Bool-cases (is_negative ret)) [
    | inl e ↦ rw (recv_submit_iso, e) (inl (received-Same h p a events urb sock))
    | inr e ↦
        rw (recv_submit_iso, e)
          (Ends-after h (received o net h p a events urb sock) _ a
            (received-Same h p a events urb sock) (urb_given-Ends _ a _))
  ]

  recv_submit_xbuff-Ends :
      (memory : Bool) (h : Hcd S) (p a : ℕ) (r : ℕ × Events × Urb × Option S)
      → Ends h a (recv_submit_xbuff o net memory h p a r)
  unfolding recv_submit_xbuff Ends
  recv_submit_xbuff-Ends memory h p a (ret, events, urb, sock) =
      elim (Bool-cases (is_negative ret)) [
        | inl e ↦ rw (recv_submit_xbuff, e) (inl (received-Same h p a events urb sock))
        | inr e ↦
            rw (recv_submit_xbuff, e)
              (Ends-after h (received o net h p a events urb sock) _ a
                (received-Same h p a events urb sock) (recv_submit_iso-Ends _ p a _))
      ]

  recv_submit_found-Ends :
      (memory : Bool) (h : Hcd S) (p a : ℕ) (pdu : Header)
      → Ends h a (recv_submit_found o net memory h p a pdu)
  unfolding recv_submit_found
  recv_submit_found-Ends memory h p a pdu =
      Ends-after h _ _ a (record { pending = λ q v. refl; given_back = refl; hcpriv = refl })
        (recv_submit_xbuff-Ends memory (set_urb h a _) p a _)

  recv_ret_submit-Settles :
      (memory : Bool) (h : Hcd S) (p : ℕ) (pdu : Header)
      → p < vhci_nports
      → Settles h (recv_ret_submit o net memory h p pdu)
  unfolding recv_ret_submit
  recv_ret_submit-Settles memory h p pdu b =
      elim (Option-cases (pickup_urb_and_free_priv h p pdu.base.seqnum)) [
        | inl e ↦ rw (recv_ret_submit, e) (Same-Settles h _ (event-Same h p _))
        | inr ((a, h'), e) ↦
            rw (recv_ret_submit, e)
              (pickup-Ends h h' _ p pdu.base.seqnum a b e
                (recv_submit_found-Ends memory h' p a pdu))
      ]

  dispatch_pdu-Settles :
      (memory : Bool) (h : Hcd S) (p : ℕ) (pdu : Header)
      → p < vhci_nports
      → Settles h (dispatch_pdu o net memory h p pdu)
  unfolding dispatch_pdu
  dispatch_pdu-Settles memory h p pdu b = elim (Bool-cases (pdu.base.command == ret_submit)) [
    | inl e ↦ rw (dispatch_pdu, e) (recv_ret_submit-Settles memory h p pdu b)
    | inr e ↦ elim (Bool-cases (pdu.base.command == ret_unlink)) [
      | inl f ↦ rw (dispatch_pdu, e, f) (recv_ret_unlink-Settles h p pdu b)
      | inr f ↦ rw (dispatch_pdu, e, f) (Same-Settles h _ (event-Same h p _))
    ]
  ]

  rx_header-Settles :
      (memory : Bool) (h : Hcd S) (p ret : ℕ) (bytes : List ℕ)
      → p < vhci_nports
      → Settles h (rx_header o net memory h p ret bytes)
  unfolding rx_header
  rx_header-Settles memory h p ret bytes b = elim (Bool-cases (is_negative ret)) [
    | inl e ↦ elim (Bool-cases (ret == neg eagain && priv_tx_empty o net (h.vdev p))) [
      | inl f ↦ rw (rx_header, e, f) (Settles-refl h)
      | inr f ↦ rw (rx_header, e, f) (Same-Settles h _ (event-Same h p _))
    ]
    | inr e ↦ elim (Bool-cases (ret == 0)) [
      | inl f ↦ rw (rx_header, e, f) (Same-Settles h _ (event-Same h p _))
      | inr f ↦ elim (Bool-cases (ret == header_size)) [
        | inl g ↦
            rw (rx_header, e, f, g)
              (dispatch_pdu-Settles memory h p
                (header_correct_endian o (load_header o.load32 bytes) false) b)
        | inr g ↦ rw (rx_header, e, f, g) (Same-Settles h _ (event-Same h p _))
      ]
    ]
  ]

  -- Receiving a reply, whatever the peer sent.
  pub rx_pdu-Settles :
      (memory : Bool) (h : Hcd S) (p : ℕ) → p < vhci_nports → Settles h (rx_pdu o net memory h p)
  unfolding rx_pdu
  rx_pdu-Settles memory h p b =
      let got = usbip_recv net (h.vdev p).ud.tcp_socket true header_size in
      Settles-trans (Same-Settles h (set_socket o net h p got.2) (set_vdev-Same h p _ refl refl))
        (rx_header-Settles memory (set_socket o net h p got.2) p got.0 got.1 b)
