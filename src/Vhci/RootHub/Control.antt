-- ===== src/Vhci/RootHub/Control.antt =====
-- Theorems on the root hub (vhci_hcd.c).
use usbip.Base.{
  ℕ, ◌%◌, ◌-◌, ◌≤◌, ◌<◌, ◌≡◌, ◌≢◌, refl, subst, Bool, true, false, some, arith, Bool-cases,
  Option-cases, inl, inr, ◌==◌, neg, etimedout,
}
use usbip.Vhci.State.{Hcd, vhci_nports}
use usbip.Vhci.RootHub.{
  Clock, Answer, rhport_of, hub_control, hub_request, port_request, clear_feature, set_feature,
  finish_resume, clear_port_feature, get_port_status, no_answer, bytes, port_error, status_bytes,
  finish_reset, uses_port,
}

pub rhport_of-some :
    (w : ℕ) → 0 < w % 256 → w % 256 ≤ vhci_nports → rhport_of w ≡ some (w % 256 - 1)
unfolding rhport_of
rhport_of-some w low high = ground arith

module _ {S : Type 0} where
  -- What a request at port `p` leaves alone: the other ports, the devices, and what was given back.
  pub record Untouched (h h' : Hcd S) (p : ℕ) : Type 0 where
    pub port_status : (q bit : ℕ) → q ≢ p → h'.port_status q bit ≡ h.port_status q bit
    pub vdev : h'.vdev ≡ h.vdev
    pub given_back : h'.given_back ≡ h.given_back
    pub hcpriv : h'.hcpriv ≡ h.hcpriv

  Untouched-refl : (h : Hcd S) (p : ℕ) → Untouched h h p
  Untouched-refl h p = record {
    port_status = λ q bit d. refl;
    vdev = refl;
    given_back = refl;
    hcpriv = refl;
  }

  clear_feature-some :
      (clock : Clock) (h : Hcd S) (p value : ℕ)
      → value < 32
      → (h' : Hcd S) × (clear_feature clock h p value ≡ some h')
  unfolding clear_feature
  clear_feature-some clock h p value b = elim (Option-cases (clear_feature clock h p value)) [
    | inl e ↦ absurd (ground arith)
    | inr x ↦ x
  ]

  pub set_feature-some :
      (clock : Clock) (h : Hcd S) (p value : ℕ)
      → value < 32
      → (h' : Hcd S) × (set_feature clock h p value ≡ some h')
  unfolding set_feature
  set_feature-some clock h p value b = elim (Option-cases (set_feature clock h p value)) [
    | inl e ↦ absurd (ground arith)
    | inr x ↦ x
  ]

  clear_feature-Untouched :
      (clock : Clock) (h h' : Hcd S) (p value : ℕ)
      → clear_feature clock h p value ≡ some h'
      → Untouched h h' p
  unfolding clear_feature
  clear_feature-Untouched clock h h' p value e = record {
    port_status = λ q bit d. ground arith;
    vdev = ground arith;
    given_back = ground arith;
    hcpriv = ground arith;
  }

  set_feature-Untouched :
      (clock : Clock) (h h' : Hcd S) (p value : ℕ)
      → set_feature clock h p value ≡ some h'
      → Untouched h h' p
  unfolding set_feature
  set_feature-Untouched clock h h' p value e = record {
    port_status = λ q bit d. ground arith;
    vdev = ground arith;
    given_back = ground arith;
    hcpriv = ground arith;
  }

  poll-Untouched :
      (clock : Clock) (h : Hcd S) (p : ℕ)
      → Untouched h (finish_reset clock (finish_resume clock h p) p) p
  unfolding finish_resume finish_reset
  poll-Untouched clock h p = record {
    port_status = λ q bit d. ground arith;
    vdev = ground arith;
    given_back = ground arith;
    hcpriv = ground arith;
  }

  port_request-Untouched :
      (clock : Clock) (h : Hcd S) (request value w p : ℕ)
      → value < 32
      → (r : ℕ × Answer × Hcd S) × (port_request clock h request value w p ≡ some r)
        × Untouched h r.2 p
  unfolding port_request
  port_request-Untouched clock h request value w p b =
      let (c, c-is) = clear_feature-some clock h p value b in
      let (s, s-is) = set_feature-some clock h p value b in
      elim (Bool-cases (request == clear_port_feature)) [
        | inl e ↦ (
          (0, no_answer, c),
          ground (arith, e, c-is),
          clear_feature-Untouched clock h c p value c-is,
        )
        | inr e ↦ elim (Bool-cases (request == get_port_status)) [
          | inl g ↦ (
            (
              port_error w,
              bytes (status_bytes (finish_reset clock (finish_resume clock h p) p) p),
              finish_reset clock (finish_resume clock h p) p,
            ),
            ground (arith, e, g),
            poll-Untouched clock h p,
          )
          | inr g ↦ (
            (0, no_answer, s),
            ground (arith, e, g, s-is),
            set_feature-Untouched clock h s p value s-is,
          )
        ]
      ]

  hub_request-same : (h : Hcd S) (request : ℕ) → (hub_request h request).2 ≡ h
  unfolding hub_request
  hub_request-same h request = ground arith

  -- A request whose wIndex names one of the eight ports in its low byte, and whose wValue is below
  -- 32, is always answered: the code stays within the words of the ports. It leaves the other ports,
  -- the devices and what was given back alone.
  pub hub_control_within :
      (accessible : Bool) (clock : Clock) (h : Hcd S) (request value w : ℕ)
      → 0 < w % 256
      → w % 256 ≤ vhci_nports
      → value < 32
      → (r : ℕ × Answer × Hcd S) × (hub_control accessible clock h request value w ≡ some r)
        × Untouched h r.2 (w % 256 - 1)
  unfolding hub_control
  hub_control_within false clock h request value w low high b =
      ((neg etimedout, no_answer, h), refl, Untouched-refl h (w % 256 - 1))
  hub_control_within true clock h request value w low high b =
      elim (Bool-cases (uses_port request value)) [
        | inl e ↦
            let (r, is, same) = port_request-Untouched clock h request value w (w % 256 - 1) b in
            (r, ground (arith, e, rhport_of-some w low high, is), same)
        | inr e ↦ (
          hub_request h request,
          ground (arith, e),
          rw (hub_request-same h request) (Untouched-refl h (w % 256 - 1)),
        )
      ]

  -- What every request leaves alone.
  abbrev pub Kept : Hcd S → Hcd S → Type 0
  Kept h h' = (h'.vdev ≡ h.vdev) × (h'.given_back ≡ h.given_back) × (h'.hcpriv ≡ h.hcpriv)

  Untouched-Kept : (h h' : Hcd S) (p : ℕ) → Untouched h h' p → Kept h h'
  Untouched-Kept h h' p u = (u.vdev, u.given_back, u.hcpriv)

  port_request-Kept :
      (clock : Clock) (h : Hcd S) (request value w p : ℕ) (r : ℕ × Answer × Hcd S)
      → port_request clock h request value w p ≡ some r
      → Kept h r.2
  unfolding port_request
  port_request-Kept clock h request value w p r e =
      elim (Bool-cases (request == clear_port_feature)) [
        | inl c ↦ elim (Option-cases (clear_feature clock h p value)) [
          | inl f ↦ absurd (ground arith)
          | inr (h', f) ↦
              let is : h' ≡ r.2 = ground arith in
              subst (Kept h) is
                (Untouched-Kept h h' p (clear_feature-Untouched clock h h' p value f))
        ]
        | inr c ↦ elim (Bool-cases (request == get_port_status)) [
          | inl g ↦
              let polled : Hcd S = finish_reset clock (finish_resume clock h p) p in
              let is : polled ≡ r.2 = ground arith in
              subst (Kept h) is (Untouched-Kept h polled p (poll-Untouched clock h p))
          | inr g ↦ elim (Option-cases (set_feature clock h p value)) [
            | inl f ↦ absurd (ground arith)
            | inr (h', f) ↦
                let is : h' ≡ r.2 = ground arith in
                subst (Kept h) is
                  (Untouched-Kept h h' p (set_feature-Untouched clock h h' p value f))
          ]
        ]
      ]

  pub hub_control-Kept :
      (accessible : Bool) (clock : Clock) (h : Hcd S) (request value w : ℕ) (r : ℕ × Answer × Hcd S)
      → hub_control accessible clock h request value w ≡ some r
      → Kept h r.2
  unfolding hub_control
  hub_control-Kept false clock h request value w r e =
      let is : h ≡ r.2 = ground arith in subst (Kept h) is (refl, refl, refl)
  hub_control-Kept true clock h request value w r e = elim (Bool-cases (uses_port request value)) [
    | inl u ↦ elim (Option-cases (rhport_of w)) [
      | inl f ↦ absurd (ground arith)
      | inr (p, f) ↦ port_request-Kept clock h request value w p r (ground arith)
    ]
    | inr u ↦
        let is : h ≡ r.2 = ground (arith, hub_request-same h request) in
        subst (Kept h) is (refl, refl, refl)
  ]
