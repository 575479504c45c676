-- ===== src/Vhci/Trace/Enqueue.antt =====
-- What submitting an URB adds (vhci_hcd.c).
use usbip.Base.{
  ℕ, zero, suc, ◌+◌, ◌-◌, ◌≤◌, ◌<◌, ◌≡◌, ◌⊎◌, refl, sym, ap, subst, Bool, true, false, [], ◌∷◌,
  some, arith, ◌==◌, Option-cases, Bool-cases, inl, inr, neg, einprogress, u32, ◌^◌, ℕ_discrete,
}
use usbip.Vhci.State.{Hcd, Hcpriv, Vdev, vhci_nports, giveback, set_urb, to_ulong, next_seqnum}
use usbip.Vhci.Hcd.{
  urb_enqueue, enqueue_linked, enqueue_default, tx_urb, tx_urb_at, get_vdev, get_vdev_from, names,
  default_request, is_inactive,
}
use usbip.Vhci.Balance.{one, returned, pending, queued-append}
use usbip.Vhci.Trace.Settles.{total, Same, Same-Settles, Same-refl, Same-trans}
use usbip.Vhci.Trace.Ports.{Elsewhere, total_at, set_vdev-Same, event-Same}
use usbip.Vhci.Trace.Dequeue.{IsNamed, Settles-IsNamed}

one_same : (u v : ℕ) → u ≡ v → one u v ≡ 1
one_same u v e = ground arith

module _ {S : Type 0} where
  get_vdev_from-lt :
      (rounds i : ℕ) (vdev : ℕ → Vdev S) (d p : ℕ)
      → get_vdev_from rounds i vdev d ≡ some p
      → p < i + rounds
  unfolding get_vdev_from
  get_vdev_from-lt zero i vdev d p e = absurd (ground arith)
  get_vdev_from-lt (suc n) i vdev d p e = elim (Bool-cases (names (vdev i).udev d)) [
    | inl m ↦ ground arith
    | inr m ↦ omega (arith, get_vdev_from-lt n (suc i) vdev d p (ground arith))
  ]

  get_vdev-lt : (h : Hcd S) (d p : ℕ) → get_vdev h d ≡ some p → p < vhci_nports
  unfolding get_vdev
  get_vdev-lt h d p e = omega (arith, get_vdev_from-lt vhci_nports 0 h.vdev d p e)

  -- An operation that adds at most one entry, for URB `u`.
  pub record Adds (h h' : Hcd S) (u : ℕ) : Type 0 where
    pub total : (v : ℕ) → total h' v ≤ total h v + one u v
    pub named : IsNamed h → IsNamed h'

  Same-Adds : (h h' : Hcd S) (u : ℕ) → Same h h' → Adds h h' u
  Same-Adds h h' u s = record {
    total = λ v. omega (arith, (Same-Settles h h' s).total v);
    named = Settles-IsNamed h h' (Same-Settles h h' s);
  }

  Adds-after : (h h' k : Hcd S) (u : ℕ) → Same h h' → Adds h' k u → Adds h k u
  Adds-after h h' k u s a = record {
    total = λ v. omega (arith, (Same-Settles h h' s).total v, a.total v);
    named = λ i. a.named (Settles-IsNamed h h' (Same-Settles h h' s) i);
  }

  giveback-Adds : (h : Hcd S) (u : ℕ) → Adds h (giveback h u) u
  giveback-Adds h u = record { total = λ v. omega arith; named = λ i. i }

  -- vhci_tx_urb with memory.
  queued-Elsewhere : (h : Hcd S) (u p : ℕ) → Elsewhere h (tx_urb_at true h u p) p
  unfolding tx_urb_at
  queued-Elsewhere h u p q v d = ground arith

  queued-pending :
      (h : Hcd S) (u p v : ℕ) → pending (tx_urb_at true h u p) p v ≡ pending h p v + one u v
  unfolding tx_urb_at
  queued-pending h u p v = ground (
    arith,
    queued-append v (h.vdev p).priv_tx
        (record { seqnum = to_ulong (next_seqnum h.seqnum); urb = u } ∷ []),
  )

  queued-grows : (h : Hcd S) (u p q v : ℕ) → pending h q v ≤ pending (tx_urb_at true h u p) q v
  queued-grows h u p q v = elim (ℕ_discrete q p) [
    | yes same ↦
        subst (λ q. pending h q v ≤ pending (tx_urb_at true h u p) q v) (sym same)
          (omega (arith, queued-pending h u p v))
    | no d ↦ omega (arith, queued-Elsewhere h u p q v d)
  ]

  queued-given_back : (h : Hcd S) (u p : ℕ) → (tx_urb_at true h u p).given_back ≡ h.given_back
  unfolding tx_urb_at
  queued-given_back h u p = refl

  queued-hcpriv :
      (h : Hcd S) (u p v : ℕ) (x : Hcpriv)
      → (tx_urb_at true h u p).hcpriv v ≡ some x
      → (h.hcpriv v ≡ some x) ⊎ ((u ≡ v) × (x.port ≡ p))
  unfolding tx_urb_at
  queued-hcpriv h u p v x e = elim (Bool-cases (v == u)) [
    | inl m ↦ inr (ground arith, ground arith)
    | inr m ↦ inl (ground arith)
  ]

  tx_urb_at-Adds :
      (memory : Bool) (h : Hcd S) (u p : ℕ) → p < vhci_nports → Adds h (tx_urb_at memory h u p) u
  unfolding tx_urb_at
  tx_urb_at-Adds true h u p b = record {
    total = λ v. omega (
      arith,
      total_at h (tx_urb_at true h u p) p v b (queued-Elsewhere h u p),
      queued-pending h u p v,
      ap (returned v) (queued-given_back h u p),
    );
    named = λ i v x e. elim (queued-hcpriv h u p v x e) [
      | inl old ↦ ((i v x old).0, omega (arith, (i v x old).1, queued-grows h u p x.port v))
      | inr (same, port) ↦ (
        omega (arith, port, b),
        subst (λ q. 0 < pending (tx_urb_at true h u p) q v) (sym port)
            (omega (arith, queued-pending h u p v, one_same u v same)),
      )
    ];
  }
  tx_urb_at-Adds false h u p b = Same-Adds h _ u (event-Same h p _)

  tx_urb-Adds : (memory : Bool) (h : Hcd S) (u : ℕ) → Adds h (tx_urb memory h u) u
  unfolding tx_urb
  tx_urb-Adds memory h u = elim (Option-cases (get_vdev h (h.urb u).dev.id)) [
    | inl e ↦ rw (tx_urb, e) (Same-Adds h h u (Same-refl h))
    | inr (p, e) ↦ rw (tx_urb, e) (tx_urb_at-Adds memory h u p (get_vdev-lt h (h.urb u).dev.id p e))
  ]

  enqueue_default-Adds :
      (memory : Bool) (h : Hcd S) (u p request : ℕ)
      → Adds h (enqueue_default memory h u p request).1 u
  unfolding enqueue_default
  enqueue_default-Adds memory h u p request = elim (Bool-cases (request == 5)) [
    | inl e ↦
        rw (enqueue_default, e)
          (Adds-after h _ _ u
            (Same-trans (set_vdev-Same h p _ refl refl) (set_vdev-Same _ p _ refl refl))
            (Adds-after _ (set_urb _ u _) _ u
              (record { pending = λ q v. refl; given_back = refl; hcpriv = refl })
              (giveback-Adds _ u)))
    | inr e ↦ elim (Bool-cases (request == 6)) [
      | inl f ↦
          rw (enqueue_default, e, f)
            (Adds-after h _ _ u (set_vdev-Same h p _ refl refl) (tx_urb-Adds memory _ u))
      | inr f ↦ rw (enqueue_default, e, f) (giveback-Adds h u)
    ]
  ]

  enqueue_linked-Adds :
      (memory : Bool) (h : Hcd S) (u p : ℕ) → Adds h (enqueue_linked memory h u p).1 u
  unfolding enqueue_linked
  enqueue_linked-Adds memory h u p = elim (Bool-cases ((h.urb u).pipe.pipedevice == 0)) [
    | inr e ↦ rw (enqueue_linked, e) (tx_urb-Adds memory h u)
    | inl e ↦ elim (Option-cases (default_request (h.urb u))) [
      | inl f ↦ rw (enqueue_linked, e, f) (giveback-Adds h u)
      | inr (request, f) ↦ rw (enqueue_linked, e, f) (enqueue_default-Adds memory h u p request)
    ]
  ]

  -- vhci_urb_enqueue, on every branch.
  pub urb_enqueue-Adds :
      (link : ℕ) (memory : Bool) (h : Hcd S) (u : ℕ) → Adds h (urb_enqueue link memory h u).1 u
  unfolding urb_enqueue
  urb_enqueue-Adds link memory h u =
      let p : ℕ = u32 ((h.urb u).dev.portnum + (2 ^ 32 - 1)) in
      elim (Bool-cases ((h.urb u).status == neg einprogress)) [
        | inr e ↦ rw (urb_enqueue, e) (Same-Adds h h u (Same-refl h))
        | inl e ↦ elim (Bool-cases (is_inactive (h.vdev p).ud.status)) [
          | inl f ↦ rw (urb_enqueue, e, f) (Same-Adds h h u (Same-refl h))
          | inr f ↦ elim (Bool-cases (link == 0)) [
            | inl g ↦ rw (urb_enqueue, e, f, g) (enqueue_linked-Adds memory h u p)
            | inr g ↦ rw (urb_enqueue, e, f, g) (giveback-Adds h u)
          ]
        ]
      ]
