-- ===== src/Vhci/Trace/Ports.antt =====
-- What the operations at one port keep (vhci_hcd.c, vhci_rx.c, vhci_tx.c).
use usbip.Base.{
  ℕ_discrete, ℕ, ◌+◌, ◌<◌, ◌≡◌, ◌≢◌, ◌⊎◌, refl, sym, ap, subst, List, [], ◌∷◌, some, arith,
  Option-cases, inl, inr, u32,
}
use usbip.Proto.Urb.{Urb}
use usbip.Core.Events.{Events}
use usbip.Vhci.State.{
  Unlink, Hcd, Hcpriv, Vdev, vhci_nports, giveback, set_urb, set_vdev, vdev_event_add,
}
use usbip.Vhci.Hcd.{pickup_urb_and_free_priv, cleanup_one, cleanup_rx, unlink_cleanup}
use usbip.Vhci.Balance.{one, returned, pending, pickup_balance}
use usbip.Vhci.Trace.Settles.{
  total, sum_at, Same, Settles, Same-Settles, Settles-trans, Settles-refl,
}

one_ne : (a v : ℕ) → a ≢ v → one a v ≡ 0
one_ne a v d = ground arith

module _ {S : Type 0} where
  -- What stands for an URB on the ports but one.
  abbrev pub Elsewhere : Hcd S → Hcd S → ℕ → Type 0
  Elsewhere h h' p = (q v : ℕ) → q ≢ p → pending h' q v ≡ pending h q v

  pub total_at :
      (h h' : Hcd S) (p u : ℕ)
      → p < vhci_nports
      → Elsewhere h h' p
      → total h' u + (pending h p u + returned u h.given_back)
        ≡ total h u + (pending h' p u + returned u h'.given_back)
  total_at h h' p u b e =
      omega
        (arith, sum_at vhci_nports p (λ q. pending h q u) (λ q. pending h' q u) (λ q d. e q u d) b)

  pickup-Elsewhere :
      (h h' : Hcd S) (p n a : ℕ) → pickup_urb_and_free_priv h p n ≡ some (a, h') → Elsewhere h h' p
  unfolding pickup_urb_and_free_priv
  pickup-Elsewhere h h' p n a e q v d = ground arith

  pickup-named :
      (h h' : Hcd S) (p n a v : ℕ) (x : Hcpriv)
      → pickup_urb_and_free_priv h p n ≡ some (a, h')
      → h'.hcpriv v ≡ some x
      → (h.hcpriv v ≡ some x) × (a ≢ v)
  unfolding pickup_urb_and_free_priv
  pickup-named h h' p n a v x e f = (ground arith, ground arith)

  pickup-total :
      (h h' : Hcd S) (p n a u : ℕ)
      → p < vhci_nports
      → pickup_urb_and_free_priv h p n ≡ some (a, h')
      → total h u ≡ one a u + total h' u
  pickup-total h h' p n a u b e =
      let (taken, kept) = pickup_balance h p n u e in
      omega
        (arith, total_at h h' p u b (pickup-Elsewhere h h' p n a e), taken, ap (returned u) kept)

  -- Taking an URB off a port leaves all others where they are.
  pickup-Settles :
      (h h' : Hcd S) (p n a : ℕ)
      → p < vhci_nports
      → pickup_urb_and_free_priv h p n ≡ some (a, h')
      → Settles h h'
  pickup-Settles h h' p n a b e = record {
    total = λ u. omega (arith, pickup-total h h' p n a u b e);
    named = λ v x f.
        let (f', d) = pickup-named h h' p n a v x e f in
        (
          f',
          λ q. elim (ℕ_discrete q p) [
            | yes same ↦
                subst (λ q. pending h' q v ≡ pending h q v) (sym same)
                  (omega (arith, (pickup_balance h p n v e).0, one_ne a v d))
            | no other ↦ pickup-Elsewhere h h' p n a e q v other
          ],
        );
  }

  -- A state that was reached from `h` without touching the queues, but that one URB was given back.
  unfoldable pub Ends : Hcd S → ℕ → Hcd S → Type 0
  Ends h a k = Same h k ⊎ ((k' : Hcd S) × Same h k' × (k ≡ giveback k' a))

  pub pickup-Ends :
      (h h' k : Hcd S) (p n a : ℕ)
      → p < vhci_nports
      → pickup_urb_and_free_priv h p n ≡ some (a, h')
      → Ends h' a k
      → Settles h k
  unfolding Ends
  pickup-Ends h h' k p n a b e (inl s) =
      Settles-trans (pickup-Settles h h' p n a b e) (Same-Settles h' k s)
  pickup-Ends h h' k p n a b e (inr (k', s, is)) =
      let before = Settles-trans (pickup-Settles h h' p n a b e) (Same-Settles h' k' s) in
      rw is (record {
        total = λ u. omega (arith, pickup-total h h' p n a u b e, (Same-Settles h' k' s).total u);
        named = before.named;
      })

  pub urb_given-Ends : (h : Hcd S) (a : ℕ) (urb : Urb) → Ends h a (giveback (set_urb h a urb) a)
  unfolding Ends
  urb_given-Ends h a urb =
      inr
        (set_urb h a urb, record { pending = λ q v. refl; given_back = refl; hcpriv = refl }, refl)

  cleanup_one-Settles :
      (x : Unlink) (h : Hcd S) (p : ℕ) → p < vhci_nports → Settles h (cleanup_one x h p)
  unfolding cleanup_one
  cleanup_one-Settles x h p b =
      elim (Option-cases (pickup_urb_and_free_priv h p (u32 x.unlink_seqnum))) [
        | inl e ↦ rw (cleanup_one, e) (Settles-refl h)
        | inr ((a, h'), e) ↦
            rw (cleanup_one, e)
              (pickup-Ends h h' _ p (u32 x.unlink_seqnum) a b e (urb_given-Ends h' a _))
      ]

  -- A port whose queues of requests stay.
  pub set_vdev-Same :
      (h : Hcd S) (p : ℕ) (v : Vdev S)
      → v.priv_tx ≡ (h.vdev p).priv_tx
      → v.priv_rx ≡ (h.vdev p).priv_rx
      → Same h (set_vdev h p v)
  set_vdev-Same h p v t r = record {
    pending = λ q w. ground arith;
    given_back = refl;
    hcpriv = refl;
  }

  pub event-Same : (h : Hcd S) (p : ℕ) (e : Events) → Same h (vdev_event_add h p e)
  event-Same h p e = set_vdev-Same h p _ refl refl

  cleanup_rx-Settles :
      (xs : List Unlink) (h : Hcd S) (p : ℕ) → p < vhci_nports → Settles h (cleanup_rx xs h p)
  unfolding cleanup_rx
  cleanup_rx-Settles [] h p b = Settles-refl h
  cleanup_rx-Settles (x ∷ xs) h p b =
      Settles-trans (cleanup_one-Settles x h p b) (cleanup_rx-Settles xs (cleanup_one x h p) p b)

  pub unlink_cleanup-Settles :
      (h : Hcd S) (p : ℕ) → p < vhci_nports → Settles h (unlink_cleanup h p)
  unfolding unlink_cleanup
  unlink_cleanup-Settles h p b =
      let cleared : Hcd S = set_vdev h p (record (h.vdev p) { unlink_tx = [] }) in
      let settled : Hcd S = cleanup_rx (h.vdev p).unlink_rx cleared p in
      Settles-trans (Same-Settles h cleared (set_vdev-Same h p _ refl refl)) (
        Settles-trans (cleanup_rx-Settles (h.vdev p).unlink_rx cleared p b)
          (Same-Settles settled _ (set_vdev-Same settled p _ refl refl)))
