-- ===== src/Vhci/Sending.antt =====
-- Theorems on vhci_send_cmd_submit (vhci_tx.c).
use mathlib.Core.List.{append_assoc}
use usbip.Base.{
  ℕ, zero, suc, ◌<◌, ◌≡◌, refl, ap, ◌∙◌, Bool, true, false, List, [], ◌∷◌, ◌++◌, some, arith,
  length, ==-refl, Bool-cases, List-cases, inl, inr, Option, sym, subst,
}
use usbip.Proto.Endian.{ByteOrder}
use usbip.Core.Socket.{Socket}
use usbip.Core.Sending.{Sends, Sends-cons, Round, SentOne, NotSent, SentAll}
use usbip.Vhci.State.{Priv, Vdev, Hcd, set_vdev}
use usbip.Vhci.Tx.{send_cmd_submit, send_submit, dequeue_from_priv_tx}
use usbip.Vhci.Rounds.{SameQueues, send_submit-SameQueues, message_of, socket, send_submit-Round}

module _ (o : ByteOrder) (net : Socket) where
  open net use {S}

  -- What a run of vhci_send_cmd_submit leaves of the state `h`, and what it has sent.
  abbrev pub Sent : Bool → Hcd S → ℕ → Bool × Hcd S → Type 0
  Sent memory h p r =
      ((r.1.vdev p).priv_rx ++ (r.1.vdev p).priv_tx ≡ (h.vdev p).priv_rx ++ (h.vdev p).priv_tx)
      × (r.1.given_back ≡ h.given_back)
      × (r.1.seqnum ≡ h.seqnum)
      × Sends net (message_of o net memory (h.vdev p).devid h.urb) (h.vdev p).priv_tx r.0
          (r.1.vdev p).priv_tx (socket o net h p) (socket o net r.1 p)

  -- After one round: the oldest unsent request is the youngest sent one.
  moved : Hcd S → ℕ → Priv → List Priv → Hcd S
  moved h p x xs =
      set_vdev h p (record (h.vdev p) { priv_tx = xs; priv_rx = (h.vdev p).priv_rx ++ x ∷ [] })

  moved_tx :
      (h : Hcd S) (p : ℕ) (x : Priv) (xs : List Priv) → ((moved h p x xs).vdev p).priv_tx ≡ xs
  unfolding moved
  moved_tx h p x xs = rw (==-refl p)

  moved_rx :
      (h : Hcd S) (p : ℕ) (x : Priv) (xs : List Priv)
      → ((moved h p x xs).vdev p).priv_rx ≡ (h.vdev p).priv_rx ++ x ∷ []
  unfolding moved
  moved_rx h p x xs = rw (==-refl p)

  same_requests :
      (h k : Hcd S) (p : ℕ) (x : Priv) (xs : List Priv)
      → (h.vdev p).priv_tx ≡ x ∷ xs
      → (k.vdev p).priv_tx ≡ xs
      → (k.vdev p).priv_rx ≡ (h.vdev p).priv_rx ++ x ∷ []
      → (k.vdev p).priv_rx ++ (k.vdev p).priv_tx ≡ (h.vdev p).priv_rx ++ (h.vdev p).priv_tx
  same_requests h k p x xs e t q = rw (t, q, e) (append_assoc (h.vdev p).priv_rx (x ∷ []) xs)

  moved_at :
      (h : Hcd S) (p : ℕ) (x : Priv) (xs : List Priv)
      → (moved h p x xs).vdev p
        ≡ record (h.vdev p) { priv_tx = xs; priv_rx = (h.vdev p).priv_rx ++ x ∷ [] }
  unfolding moved
  moved_at h p x xs = rw (==-refl p) refl

  -- The round of the request that was moved, in terms of the state before.
  Round-moved :
      (memory ok : Bool) (h : Hcd S) (p : ℕ) (x : Priv) (xs : List Priv) (t : Option S)
      → Round net
          (message_of o net memory ((moved h p x xs).vdev p).devid (moved h p x xs).urb)
          x
          ok
          (socket o net (moved h p x xs) p)
          t
      → Round net (message_of o net memory (h.vdev p).devid h.urb) x ok (socket o net h p) t
  unfolding moved
  Round-moved memory ok h p x xs t =
      subst
        (λ (v : Vdev S). Round net (message_of o net memory v.devid h.urb) x ok v.ud.tcp_socket t)
        (moved_at h p x xs)

  Sent-moved :
      (memory : Bool) (h k : Hcd S) (p : ℕ) (x : Priv) (xs : List Priv) (r : Bool × Hcd S)
      → (h.vdev p).priv_tx ≡ x ∷ xs
      → SameQueues o net (moved h p x xs) k p
      → SentOne net
          (message_of o net memory (h.vdev p).devid h.urb)
          x
          (socket o net h p)
          (socket o net k p)
      → Sent memory k p r
      → Sent memory h p r
  unfolding moved
  Sent-moved memory h k p x xs r e (t, q, g, n, d, u) one (j, g', n', sends) =
      let device : (k.vdev p).devid ≡ (h.vdev p).devid =
        d ∙ ap (λ (v : Vdev S). v.devid) (moved_at h p x xs) in
      let same : message_of o net memory (k.vdev p).devid k.urb
          ≡ message_of o net memory (h.vdev p).devid h.urb =
        λ i. message_of o net memory (device i) (u i) in
      let left : List Priv = (r.1.vdev p).priv_tx in
      let rest : Sends net (message_of o net memory (h.vdev p).devid h.urb) xs r.0 left
          (socket o net k p) (socket o net r.1 p) =
        subst
          (λ l.
            Sends net (message_of o net memory (h.vdev p).devid h.urb) l r.0 left (socket o net k p)
              (socket o net r.1 p))
          (t ∙ moved_tx h p x xs)
          (subst
            (λ m. Sends net m (k.vdev p).priv_tx r.0 left (socket o net k p) (socket o net r.1 p))
            same sends) in
      (
        j ∙ same_requests h k p x xs e (t ∙ moved_tx h p x xs) (q ∙ moved_rx h p x xs),
        g' ∙ g,
        n' ∙ n,
        subst
            (λ l.
              Sends net (message_of o net memory (h.vdev p).devid h.urb) l r.0 left
                (socket o net h p) (socket o net r.1 p))
            (sym e)
            (Sends-cons net (message_of o net memory (h.vdev p).devid h.urb) x xs left r.0
              (socket o net h p) (socket o net k p) (socket o net r.1 p) one rest),
      )

  Sent-stopped :
      (memory : Bool) (h k : Hcd S) (p : ℕ) (x : Priv) (xs : List Priv)
      → (h.vdev p).priv_tx ≡ x ∷ xs
      → SameQueues o net (moved h p x xs) k p
      → NotSent net (message_of o net memory (h.vdev p).devid h.urb) x (socket o net h p)
      → Sent memory h p (false, k)
  unfolding moved
  Sent-stopped memory h k p x xs e (t, q, g, n, d, u) bad =
      let left : (k.vdev p).priv_tx ≡ xs = t ∙ moved_tx h p x xs in
      (
        same_requests h k p x xs e left (q ∙ moved_rx h p x xs),
        g,
        n,
        inr (refl, ([], x, socket o net h p, e ∙ ap (◌∷◌ x) (sym left), refl, bad)),
      )

  -- Vhci_send_cmd_submit ends within one round more than there are unsent requests; it gives no
  -- URB back and keeps the order of the requests, sent ones first; where it does not fail,
  -- kernel_sendmsg has sent the whole message of each unsent request, one after the other, and
  -- none is left, and where it fails, it has sent those before a request whose message could
  -- not be made or sent, and those after it are left.
  pub send_cmd_submit_total :
      (fuel : ℕ) (memory : Bool) (h : Hcd S) (p : ℕ)
      → length (h.vdev p).priv_tx < fuel
      → (r : Bool × Hcd S) × (send_cmd_submit o net fuel memory h p ≡ some r) × Sent memory h p r
  unfolding send_cmd_submit dequeue_from_priv_tx moved
  send_cmd_submit_total zero memory h p k = elim k [ ]
  send_cmd_submit_total (suc fuel) memory h p k = elim (List-cases (h.vdev p).priv_tx) [
    | inl e ↦ (
      (true, h),
      rw (e, send_cmd_submit) refl,
      (
        refl,
        refl,
        refl,
        inl (
          refl,
          e,
          subst
              (λ l.
                SentAll net (message_of o net memory (h.vdev p).devid h.urb) l (socket o net h p)
                  (socket o net h p))
              (sym e) refl,
        ),
      ),
    )
    | inr (x, xs, e) ↦
        let h1 : Hcd S = moved h p x xs in
        let h2 : Hcd S = (send_submit o net memory h1 p x).1 in
        let step = send_submit-SameQueues o net memory h1 p x in
        let round = send_submit-Round o net memory h1 p x in
        elim (Bool-cases (send_submit o net memory h1 p x).0) [
          | inr stop ↦ (
            (false, h2),
            rw (e, send_cmd_submit) (rw stop refl),
            Sent-stopped memory h h2 p x xs e step (
                Round-moved memory false h p x xs (socket o net h2 p) (
                  subst
                    (λ b.
                      Round net (message_of o net memory (h1.vdev p).devid h1.urb) x b
                        (socket o net h1 p) (socket o net h2 p))
                    stop round)),
          )
          | inl more ↦
              let rest =
                send_cmd_submit_total fuel memory h2 p
                  (omega (arith, ap length (step.0 ∙ moved_tx h p x xs), ap length e)) in
              (
                rest.0,
                rw (e, send_cmd_submit) (rw more rest.1),
                Sent-moved memory h h2 p x xs rest.0 e step
                    (Round-moved memory true h p x xs (socket o net h2 p) (
                      subst
                        (λ b.
                          Round net (message_of o net memory (h1.vdev p).devid h1.urb) x b
                            (socket o net h1 p) (socket o net h2 p))
                        more round))
                    rest.2,
              )
        ]
  ]
