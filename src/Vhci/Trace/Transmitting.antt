-- ===== src/Vhci/Trace/Transmitting.antt =====
-- What sending to the peer keeps (vhci_tx.c).
use usbip.Base.{
  ℕ, zero, suc, ◌≡◌, refl, ap, subst, Bool, List, [], ◌∷◌, ◌++◌, some, arith, Option-cases,
  Bool-cases, List-cases, inl, inr,
}
use usbip.Proto.Endian.{ByteOrder}
use usbip.Core.Socket.{Socket}
use usbip.Vhci.State.{Priv, Unlink, Hcd, set_vdev}
use usbip.Vhci.Tx.{
  send_cmd_submit, send_submit, transmit, send_cmd_unlink, send_unlink, submit_message,
  dequeue_from_priv_tx, dequeue_from_unlink_tx,
}
use usbip.Vhci.Balance.{queued, queued-append}
use usbip.Vhci.Trace.Settles.{Same, Same-trans, Same-refl}
use usbip.Vhci.Trace.Ports.{set_vdev-Same, event-Same}

module _ (o : ByteOrder) (net : Socket) where
  open net use {S}

  transmit-Same :
      (h : Hcd S) (p : ℕ) (bytes : List ℕ) (size : ℕ) → Same h (transmit o net h p bytes size).1
  unfolding transmit
  transmit-Same h p bytes size = record {
    pending = λ q v. ground arith;
    given_back = ground arith;
    hcpriv = ground arith;
  }

  send_submit-Same :
      (memory : Bool) (h : Hcd S) (p : ℕ) (x : Priv) → Same h (send_submit o net memory h p x).1
  unfolding send_submit
  send_submit-Same memory h p x =
      elim (Option-cases (submit_message o net memory x.seqnum (h.vdev p).devid (h.urb x.urb))) [
        | inl e ↦ rw (send_submit, e) (event-Same h p _)
        | inr (m, e) ↦ rw (send_submit, e) (transmit-Same h p m.0 m.1)
      ]

  -- An entry that goes from the unsent requests to the sent ones.
  moved-Same :
      (h : Hcd S) (p : ℕ) (x : Priv) (xs : List Priv)
      → (h.vdev p).priv_tx ≡ x ∷ xs
      → Same h (
          set_vdev h p (record (h.vdev p) { priv_tx = xs; priv_rx = (h.vdev p).priv_rx ++ x ∷ [] }))
  moved-Same h p x xs e = record {
    pending =
        λ q v. ground (arith, e, queued-append v (h.vdev p).priv_rx (x ∷ []), ap (queued v) e);
    given_back = refl;
    hcpriv = refl;
  }

  pub send_cmd_submit-Same :
      (fuel : ℕ) (memory ok : Bool) (h h' : Hcd S) (p : ℕ)
      → send_cmd_submit o net fuel memory h p ≡ some (ok, h')
      → Same h h'
  unfolding send_cmd_submit dequeue_from_priv_tx
  send_cmd_submit-Same zero memory ok h h' p e = absurd (ground arith)
  send_cmd_submit-Same (suc fuel) memory ok h h' p e = elim (List-cases (h.vdev p).priv_tx) [
    | inl t ↦ subst (Same h) (ground (arith, t)) (Same-refl h)
    | inr (x, xs, t) ↦
        let h1 : Hcd S =
          set_vdev h p
            (record (h.vdev p) { priv_tx = xs; priv_rx = (h.vdev p).priv_rx ++ x ∷ [] }) in
        let step = Same-trans (moved-Same h p x xs t) (send_submit-Same memory h1 p x) in
        elim (Bool-cases (send_submit o net memory h1 p x).0) [
          | inr stop ↦ subst (Same h) (ground (arith, t, stop)) step
          | inl more ↦ Same-trans step (
              send_cmd_submit-Same fuel memory ok (send_submit o net memory h1 p x).1 h' p
                (ground (arith, t, more)))
        ]
  ]

  send_unlink-Same : (h : Hcd S) (p : ℕ) (x : Unlink) → Same h (send_unlink o net h p x).1
  unfolding send_unlink
  send_unlink-Same h p x = transmit-Same h p _ _

  pub send_cmd_unlink-Same :
      (fuel : ℕ) (ok : Bool) (h h' : Hcd S) (p : ℕ)
      → send_cmd_unlink o net fuel h p ≡ some (ok, h')
      → Same h h'
  unfolding send_cmd_unlink dequeue_from_unlink_tx
  send_cmd_unlink-Same zero ok h h' p e = absurd (ground arith)
  send_cmd_unlink-Same (suc fuel) ok h h' p e = elim (List-cases (h.vdev p).unlink_tx) [
    | inl t ↦ subst (Same h) (ground (arith, t)) (Same-refl h)
    | inr (x, xs, t) ↦
        let h1 : Hcd S =
          set_vdev h p
            (record (h.vdev p) { unlink_tx = xs; unlink_rx = (h.vdev p).unlink_rx ++ x ∷ [] }) in
        let step = Same-trans (set_vdev-Same h p _ refl refl) (send_unlink-Same h1 p x) in
        elim (Bool-cases (send_unlink o net h1 p x).0) [
          | inr stop ↦ subst (Same h) (ground (arith, t, stop)) step
          | inl more ↦ Same-trans step (
              send_cmd_unlink-Same fuel ok (send_unlink o net h1 p x).1 h' p
                (ground (arith, t, more)))
        ]
  ]
