-- ===== src/Vhci/Trace/Status.antt =====
-- The status of the ports in the runs of the controller.
use usbip.Base.{
  ℕ, zero, suc, ◌≡◌, refl, ◌∙◌, subst, Bool, true, false, List, [], ◌∷◌, ◌++◌, Option, some, arith,
  Option-cases, Bool-cases, List-cases, inl, inr, u32, is_negative,
}
use usbip.Proto.Header.{Header, header_size, load_header}
use usbip.Proto.Endian.{ByteOrder, header_correct_endian}
use usbip.Proto.Urb.{Urb}
use usbip.Core.Events.{Events}
use usbip.Core.Socket.{Socket}
use usbip.Core.Recv.{usbip_recv}
use usbip.Core.Device.{Status}
use usbip.Vhci.State.{Hcd, Unlink, Priv, set_vdev, find_unlink, set_urb}
use usbip.Vhci.Hcd.{
  pickup_urb_and_free_priv, cleanup_one, cleanup_rx, unlink_cleanup, urb_dequeue, dequeue_closed,
  dequeue_open, tx_urb, tx_urb_at, get_vdev,
}
use usbip.Vhci.Rx.{
  rx_pdu, rx_header, dispatch_pdu, recv_ret_submit, recv_submit_found, recv_submit_xbuff,
  recv_submit_iso, recv_ret_unlink, settle_unlink, set_socket,
}
use usbip.Vhci.Tx.{
  send_cmd_submit, send_submit, transmit, submit_message, send_cmd_unlink, send_unlink,
  dequeue_from_priv_tx, dequeue_from_unlink_tx,
}

module _ {S : Type 0} where
  abbrev pub status : Hcd S → ℕ → Status
  status h q = (h.vdev q).ud.status

  abbrev pub SameStatus : Hcd S → Hcd S → Type 0
  SameStatus h h' = (q : ℕ) → status h' q ≡ status h q

  pickup-SameStatus :
      (h h' : Hcd S) (p n a : ℕ) → pickup_urb_and_free_priv h p n ≡ some (a, h') → SameStatus h h'
  unfolding pickup_urb_and_free_priv
  pickup-SameStatus h h' p n a e q = ground arith

  cleanup_one-SameStatus : (x : Unlink) (h : Hcd S) (p : ℕ) → SameStatus h (cleanup_one x h p)
  unfolding cleanup_one
  cleanup_one-SameStatus x h p q =
      elim (Option-cases (pickup_urb_and_free_priv h p (u32 x.unlink_seqnum))) [
        | inl e ↦ ground (arith, e)
        | inr ((a, h'), e) ↦ ground (arith, e, pickup-SameStatus h h' p _ a e q)
      ]

  cleanup_rx-SameStatus : (xs : List Unlink) (h : Hcd S) (p : ℕ) → SameStatus h (cleanup_rx xs h p)
  unfolding cleanup_rx
  cleanup_rx-SameStatus [] h p q = refl
  cleanup_rx-SameStatus (x ∷ xs) h p q =
      cleanup_rx-SameStatus xs (cleanup_one x h p) p q ∙ cleanup_one-SameStatus x h p q

  pub unlink_cleanup-SameStatus : (h : Hcd S) (p : ℕ) → SameStatus h (unlink_cleanup h p)
  unfolding unlink_cleanup
  unlink_cleanup-SameStatus h p q =
      let cleared : Hcd S = set_vdev h p (record (h.vdev p) { unlink_tx = [] }) in
      ground (
        arith,
        cleanup_rx-SameStatus (h.vdev p).unlink_rx cleared p q,
        cleanup_rx-SameStatus (h.vdev p).unlink_rx cleared p p,
      )

  pub urb_dequeue-SameStatus :
      (check u : ℕ) (memory : Bool) (h : Hcd S) → SameStatus h (urb_dequeue check memory h u).1
  unfolding urb_dequeue dequeue_closed dequeue_open
  urb_dequeue-SameStatus check u memory h q = ground arith

  pub tx_urb-SameStatus : (memory : Bool) (h : Hcd S) (u : ℕ) → SameStatus h (tx_urb memory h u)
  unfolding tx_urb tx_urb_at
  tx_urb-SameStatus memory h u q = elim (Option-cases (get_vdev h (h.urb u).dev.id)) [
    | inl e ↦ ground (arith, e)
    | inr (p, e) ↦ ground (arith, e)
  ]

module _ (o : ByteOrder) (net : Socket) where
  open net use {S}

  settle_unlink-SameStatus :
      (h : Hcd S) (p : ℕ) (x : Unlink) (pdu : Header) → SameStatus h (settle_unlink o net h p x pdu)
  unfolding settle_unlink
  settle_unlink-SameStatus h p x pdu q =
      elim (Option-cases (pickup_urb_and_free_priv h p (u32 x.unlink_seqnum))) [
        | inl e ↦ ground (arith, e)
        | inr ((a, h'), e) ↦ ground (arith, e, pickup-SameStatus h h' p _ a e q)
      ]

  recv_ret_unlink-SameStatus :
      (h : Hcd S) (p : ℕ) (pdu : Header) → SameStatus h (recv_ret_unlink o net h p pdu)
  unfolding recv_ret_unlink
  recv_ret_unlink-SameStatus h p pdu q =
      elim (Option-cases (find_unlink pdu.base.seqnum (h.vdev p).unlink_rx)) [
        | inl e ↦ ground (arith, e)
        | inr (x, e) ↦ rw (recv_ret_unlink, e) (settle_unlink-SameStatus _ p x pdu q ∙ ground arith)
      ]

  recv_submit_iso-SameStatus :
      (h : Hcd S) (p a : ℕ) (r : ℕ × Events × Urb × Option S)
      → SameStatus h (recv_submit_iso o net h p a r)
  unfolding recv_submit_iso
  recv_submit_iso-SameStatus h p a (ret, events, urb, sock) q = ground arith

  recv_submit_xbuff-SameStatus :
      (memory : Bool) (h : Hcd S) (p a : ℕ) (r : ℕ × Events × Urb × Option S)
      → SameStatus h (recv_submit_xbuff o net memory h p a r)
  unfolding recv_submit_xbuff
  recv_submit_xbuff-SameStatus memory h p a (ret, events, urb, sock) q =
      elim (Bool-cases (is_negative ret)) [
        | inl e ↦ rw (recv_submit_xbuff, e) (ground arith)
        | inr e ↦ rw (recv_submit_xbuff, e) (recv_submit_iso-SameStatus _ p a _ q ∙ ground arith)
      ]

  recv_ret_submit-SameStatus :
      (memory : Bool) (h : Hcd S) (p : ℕ) (pdu : Header)
      → SameStatus h (recv_ret_submit o net memory h p pdu)
  unfolding recv_ret_submit recv_submit_found
  recv_ret_submit-SameStatus memory h p pdu q =
      elim (Option-cases (pickup_urb_and_free_priv h p pdu.base.seqnum)) [
        | inl e ↦ ground (arith, e)
        | inr ((a, h'), e) ↦
            rw (recv_ret_submit, e)
              (recv_submit_xbuff-SameStatus memory (set_urb h' a _) p a _ q
                ∙ pickup-SameStatus h h' p pdu.base.seqnum a e q)
      ]

  dispatch_pdu-SameStatus :
      (memory : Bool) (h : Hcd S) (p : ℕ) (pdu : Header)
      → SameStatus h (dispatch_pdu o net memory h p pdu)
  unfolding dispatch_pdu
  dispatch_pdu-SameStatus memory h p pdu q =
      ground
        (arith, recv_ret_submit-SameStatus memory h p pdu q, recv_ret_unlink-SameStatus h p pdu q)

  rx_header-SameStatus :
      (memory : Bool) (h : Hcd S) (p ret : ℕ) (bytes : List ℕ)
      → SameStatus h (rx_header o net memory h p ret bytes)
  unfolding rx_header
  rx_header-SameStatus memory h p ret bytes q = ground (
    arith,
    dispatch_pdu-SameStatus memory h p (header_correct_endian o (load_header o.load32 bytes) false)
        q,
  )

  pub rx_pdu-SameStatus :
      (memory : Bool) (h : Hcd S) (p : ℕ) → SameStatus h (rx_pdu o net memory h p)
  unfolding rx_pdu
  rx_pdu-SameStatus memory h p q =
      let got = usbip_recv net (h.vdev p).ud.tcp_socket true header_size in
      rx_header-SameStatus memory (set_socket o net h p got.2) p got.0 got.1 q ∙ ground arith

  transmit-SameStatus :
      (h : Hcd S) (p : ℕ) (bytes : List ℕ) (size : ℕ)
      → SameStatus h (transmit o net h p bytes size).1
  unfolding transmit
  transmit-SameStatus h p bytes size q = ground arith

  send_submit-SameStatus :
      (memory : Bool) (h : Hcd S) (p : ℕ) (x : Priv)
      → SameStatus h (send_submit o net memory h p x).1
  unfolding send_submit
  send_submit-SameStatus memory h p x q =
      elim (Option-cases (submit_message o net memory x.seqnum (h.vdev p).devid (h.urb x.urb))) [
        | inl e ↦ ground (arith, e)
        | inr (m, e) ↦ ground (arith, e, transmit-SameStatus h p m.0 m.1 q)
      ]

  pub send_cmd_submit-SameStatus :
      (fuel : ℕ) (memory ok : Bool) (h h' : Hcd S) (p : ℕ)
      → send_cmd_submit o net fuel memory h p ≡ some (ok, h')
      → SameStatus h h'
  unfolding send_cmd_submit dequeue_from_priv_tx
  send_cmd_submit-SameStatus zero memory ok h h' p e q = absurd (ground arith)
  send_cmd_submit-SameStatus (suc fuel) memory ok h h' p e q =
      elim (List-cases (h.vdev p).priv_tx) [
        | inl t ↦ ground (arith, t)
        | inr (x, xs, t) ↦
            let h1 : Hcd S =
              set_vdev h p
                (record (h.vdev p) { priv_tx = xs; priv_rx = (h.vdev p).priv_rx ++ x ∷ [] }) in
            let moved : status h1 q ≡ status h q = ground arith in
            let step = send_submit-SameStatus memory h1 p x q ∙ moved in
            elim (Bool-cases (send_submit o net memory h1 p x).0) [
              | inr stop ↦
                  let is : (send_submit o net memory h1 p x).1 ≡ h' = ground (arith, t, stop) in
                  subst (λ k. status k q ≡ status h q) is step
              | inl more ↦
                  send_cmd_submit-SameStatus fuel memory ok (send_submit o net memory h1 p x).1 h' p
                    (ground (arith, t, more)) q
                  ∙ step
            ]
      ]

  send_unlink-SameStatus :
      (h : Hcd S) (p : ℕ) (x : Unlink) → SameStatus h (send_unlink o net h p x).1
  unfolding send_unlink
  send_unlink-SameStatus h p x = transmit-SameStatus h p _ _

  pub send_cmd_unlink-SameStatus :
      (fuel : ℕ) (ok : Bool) (h h' : Hcd S) (p : ℕ)
      → send_cmd_unlink o net fuel h p ≡ some (ok, h')
      → SameStatus h h'
  unfolding send_cmd_unlink dequeue_from_unlink_tx
  send_cmd_unlink-SameStatus zero ok h h' p e q = absurd (ground arith)
  send_cmd_unlink-SameStatus (suc fuel) ok h h' p e q = elim (List-cases (h.vdev p).unlink_tx) [
    | inl t ↦ ground (arith, t)
    | inr (x, xs, t) ↦
        let h1 : Hcd S =
          set_vdev h p
            (record (h.vdev p) { unlink_tx = xs; unlink_rx = (h.vdev p).unlink_rx ++ x ∷ [] }) in
        let moved : status h1 q ≡ status h q = ground arith in
        let step = send_unlink-SameStatus h1 p x q ∙ moved in
        elim (Bool-cases (send_unlink o net h1 p x).0) [
          | inr stop ↦
              let is : (send_unlink o net h1 p x).1 ≡ h' = ground (arith, t, stop) in
              subst (λ k. status k q ≡ status h q) is step
          | inl more ↦
              send_cmd_unlink-SameStatus fuel ok (send_unlink o net h1 p x).1 h' p
                (ground (arith, t, more)) q
              ∙ step
        ]
  ]
