-- ===== src/Vhci/RootHub/Changes.antt =====
-- Theorems on vhci_hub_status (vhci_hcd.c).
use usbip.Base.{
  ℕ, zero, suc, ◌+◌, ◌≤◌, ◌<◌, ◌≡◌, refl, sym, subst, ◌≢◌, ◌&&◌, ◌∙◌, Bool, true, false, arith,
  ◌==◌, if◌then◌else◌, ℕ_discrete,
}
use usbip.Vhci.State.{Hcd, vhci_nports, update}
use usbip.Vhci.RootHub.{hub_status, hub_status_loop, port_changed}

module _ {S : Type 0} (h : Hcd S) where
  abbrev pub changed_at : ℕ → Bool
  changed_at p = port_changed (h.port_status p)

  -- One round of the loop.
  abbrev round : ℕ → Bool × (ℕ → Bool) → Bool × (ℕ → Bool)
  round r (c, b) = if changed_at r then (true, update b (suc r) true) else (c, b)

  round-before : (r i : ℕ) (s : Bool × (ℕ → Bool)) → i ≤ r → (round r s).1 i ≡ s.1 i
  round-before r i (c, b) e = ground arith

  loop-before : (n r i : ℕ) (s : Bool × (ℕ → Bool)) → i ≤ r → (hub_status_loop n r h s).1 i ≡ s.1 i
  unfolding hub_status_loop
  loop-before zero r i s e = refl
  loop-before (suc n) r i s e =
      loop-before n (suc r) i (round r s) (omega arith) ∙ round-before r i s e

  round-at :
      (r : ℕ) (s : Bool × (ℕ → Bool)) → s.1 (suc r) ≡ false → (round r s).1 (suc r) ≡ changed_at r
  round-at r (c, b) e = ground arith

  round-other : (r p : ℕ) (s : Bool × (ℕ → Bool)) → r ≢ p → (round r s).1 (suc p) ≡ s.1 (suc p)
  round-other r p (c, b) d = ground arith

  loop-at :
      (n r p : ℕ) (s : Bool × (ℕ → Bool))
      → r ≤ p
      → p < r + n
      → s.1 (suc p) ≡ false
      → (hub_status_loop n r h s).1 (suc p) ≡ changed_at p
  unfolding hub_status_loop
  loop-at zero r p s low high e = absurd (omega arith)
  loop-at (suc n) r p s low high e = elim (ℕ_discrete r p) [
    | yes same ↦
        subst (λ q. (hub_status_loop n (suc r) h (round r s)).1 (suc q) ≡ changed_at q) same
          (loop-before n (suc r) (suc r) (round r s) (omega arith)
            ∙ round-at r s (subst (λ q. s.1 (suc q) ≡ false) (sym same) e))
    | no d ↦ loop-at n (suc r) p (round r s) (omega arith) (omega arith) (round-other r p s d ∙ e)
  ]

  loop-changed : (n r : ℕ) (s : Bool × (ℕ → Bool)) → s.0 ≡ true → (hub_status_loop n r h s).0 ≡ true
  unfolding hub_status_loop
  loop-changed zero r s e = e
  loop-changed (suc n) r (c, b) e = loop-changed n (suc r) (round r (c, b)) (ground arith)

  -- The loop says that a port has changed only if one has, and it does say so.
  loop-sees :
      (n r p : ℕ) (s : Bool × (ℕ → Bool))
      → r ≤ p
      → p < r + n
      → changed_at p ≡ true
      → (hub_status_loop n r h s).0 ≡ true
  unfolding hub_status_loop
  loop-sees zero r p s low high e = absurd (omega arith)
  loop-sees (suc n) r p (c, b) low high e = elim (ℕ_discrete r p) [
    | yes same ↦
        loop-changed n (suc r) (round r (c, b))
          (ground (arith, subst (λ q. changed_at q ≡ true) (sym same) e))
    | no d ↦ loop-sees n (suc r) p (round r (c, b)) (omega arith) (omega arith) e
  ]

  round-quiet :
      (r : ℕ) (s : Bool × (ℕ → Bool)) → changed_at r ≡ false → s.0 ≡ false → (round r s).0 ≡ false
  round-quiet r (c, b) e f = ground arith

  loop-quiet :
      (n r : ℕ) (s : Bool × (ℕ → Bool))
      → ((p : ℕ) → p < r + n → changed_at p ≡ false)
      → s.0 ≡ false
      → (hub_status_loop n r h s).0 ≡ false
  unfolding hub_status_loop
  loop-quiet zero r s q e = e
  loop-quiet (suc n) r (c, b) q e =
      loop-quiet n (suc r) (round r (c, b)) (λ p l. q p (omega arith))
        (round-quiet r (c, b) (q r (omega arith)) e)

  -- With the hardware accessible, bit `p + 1` of the buffer of vhci_hub_status says whether one of
  -- the change bits of port `p` is set; the result is 2, the length of the buffer, if a port has
  -- changed, and 0 if none has. The root hub is resumed just if it is suspended and a port has
  -- changed.
  pub hub_status_reports :
      ((p : ℕ) → p < vhci_nports → (hub_status true h).1 (suc p) ≡ changed_at p)
      × ((p : ℕ) → p < vhci_nports → changed_at p ≡ true → (hub_status true h).0 ≡ 2)
      × (((p : ℕ) → p < vhci_nports → changed_at p ≡ false) → (hub_status true h).0 ≡ 0)
      × ((hub_status true h).2 ≡ (h.suspended && (hub_status true h).0 == 2))
  unfolding hub_status
  hub_status_reports = (
    λ p b. loop-at vhci_nports 0 p (false, λ i. false) (omega arith) (omega arith) refl,
    λ p b e. rw (loop-sees vhci_nports 0 p (false, λ i. false) (omega arith) (omega arith) e) refl,
    λ q. rw (loop-quiet vhci_nports 0 (false, λ i. false) q refl) refl,
    ground arith,
  )
