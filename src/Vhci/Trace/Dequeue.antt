-- ===== src/Vhci/Trace/Dequeue.antt =====
-- What taking an URB back keeps (vhci_hcd.c).
use usbip.Base.{
  ℕ, ◌+◌, ◌≤◌, ◌<◌, ◌≡◌, ◌≢◌, refl, sym, subst, Bool, true, false, some, arith, ◌==◌, Option-cases,
  Bool-cases, inl, inr, ℕ_discrete,
}
use usbip.Vhci.State.{Hcd, Hcpriv, vhci_nports}
use usbip.Vhci.Hcd.{urb_dequeue, dequeue_closed, dequeue_open}
use usbip.Vhci.Balance.{returned, pending, queued-remove_urb, queued-remove_urb_ne}
use usbip.Vhci.Trace.Settles.{total, Same, Settles, Same-Settles, Settles-refl}
use usbip.Vhci.Trace.Ports.{Elsewhere, total_at, event-Same}

module _ {S : Type 0} where
  -- An URB with an `hcpriv` waits on the port that it names.
  abbrev pub IsNamed : Hcd S → Type 0
  IsNamed h =
      (v : ℕ) (x : Hcpriv) → h.hcpriv v ≡ some x → (x.port < vhci_nports) × (0 < pending h x.port v)

  pub Settles-IsNamed : (h h' : Hcd S) → Settles h h' → IsNamed h → IsNamed h'
  Settles-IsNamed h h' s i v x e =
      let (e', same) = s.named v x e in
      let (b, waits) = i v x e' in (b, omega (arith, same x.port, waits))

  closed-Elsewhere : (h : Hcd S) (u p : ℕ) → Elsewhere h (dequeue_closed h u p) p
  unfolding dequeue_closed
  closed-Elsewhere h u p q v d = ground arith

  closed_own :
      (h : Hcd S) (u p : ℕ)
      → 0 < pending h p u
      → pending (dequeue_closed h u p) p u + returned u (dequeue_closed h u p).given_back
        ≤ pending h p u + returned u h.given_back
  unfolding dequeue_closed
  closed_own h u p w =
      ground (arith, queued-remove_urb u (h.vdev p).priv_tx, queued-remove_urb u (h.vdev p).priv_rx)

  closed_other :
      (h : Hcd S) (u p v : ℕ)
      → u ≢ v
      → (pending (dequeue_closed h u p) p v ≡ pending h p v)
        × (returned v (dequeue_closed h u p).given_back ≡ returned v h.given_back)
  unfolding dequeue_closed
  closed_other h u p v d = ground (
    arith,
    queued-remove_urb_ne v u (h.vdev p).priv_tx d,
    queued-remove_urb_ne v u (h.vdev p).priv_rx d,
  )

  closed-hcpriv :
      (h : Hcd S) (u p v : ℕ) (x : Hcpriv)
      → (dequeue_closed h u p).hcpriv v ≡ some x
      → (h.hcpriv v ≡ some x) × (u ≢ v)
  unfolding dequeue_closed
  closed-hcpriv h u p v x e = (ground arith, ground arith)

  closed-Settles :
      (h : Hcd S) (u p : ℕ) → p < vhci_nports → 0 < pending h p u → Settles h (dequeue_closed h u p)
  closed-Settles h u p b w = record {
    total = λ v. elim (ℕ_discrete u v) [
      | yes same ↦
          subst (λ v. total (dequeue_closed h u p) v ≤ total h v) same
            (omega (
              arith,
              total_at h (dequeue_closed h u p) p u b (closed-Elsewhere h u p),
              closed_own h u p w,
            ))
      | no d ↦ omega (
        arith,
        total_at h (dequeue_closed h u p) p v b (closed-Elsewhere h u p),
        (closed_other h u p v d).0,
        (closed_other h u p v d).1,
      )
    ];
    named = λ v x e.
        let (e', d) = closed-hcpriv h u p v x e in
        (
          e',
          λ q. elim (ℕ_discrete q p) [
            | yes same ↦
                subst (λ q. pending (dequeue_closed h u p) q v ≡ pending h q v) (sym same)
                  (closed_other h u p v d).0
            | no other ↦ closed-Elsewhere h u p q v other
          ],
        );
  }

  open-Same : (memory : Bool) (h : Hcd S) (p target : ℕ) → Same h (dequeue_open memory h p target).1
  unfolding dequeue_open
  open-Same true h p target = record {
    pending = λ q v. ground arith;
    given_back = refl;
    hcpriv = refl;
  }
  open-Same false h p target = event-Same h p _

  pub urb_dequeue-Settles :
      (check u : ℕ) (memory : Bool) (h : Hcd S)
      → IsNamed h
      → Settles h (urb_dequeue check memory h u).1
  unfolding urb_dequeue
  urb_dequeue-Settles check u memory h i = elim (Option-cases (h.hcpriv u)) [
    | inl e ↦ rw (urb_dequeue, e) (Settles-refl h)
    | inr (x, e) ↦ elim (Bool-cases (check == 0)) [
      | inr c ↦ rw (urb_dequeue, e, c) (Settles-refl h)
      | inl c ↦ elim (Option-cases (h.vdev x.port).ud.tcp_socket) [
        | inl s ↦ rw (urb_dequeue, e, c, s) (closed-Settles h u x.port (i u x e).0 (i u x e).1)
        | inr (s, f) ↦
            rw (urb_dequeue, e, c, f) (Same-Settles h _ (open-Same memory h x.port x.seqnum))
      ]
    ]
  ]
