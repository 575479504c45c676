-- ===== src/Vhci/Trace/Settles.antt =====
-- What the operations of the controller keep: where URBs are counted, over all ports.
use usbip.Base.{ℕ, zero, suc, ◌+◌, ◌≤◌, ◌<◌, ◌≡◌, ◌≢◌, refl, sym, ap, ◌∙◌, some, arith, ℕ_discrete}
use usbip.Vhci.State.{Hcd, Hcpriv, vhci_nports}
use usbip.Vhci.Balance.{returned, pending}

abbrev pub sum : ℕ → (ℕ → ℕ) → ℕ
sum zero f = 0
sum (suc n) f = f n + sum n f

sum_below : (n p : ℕ) (f g : ℕ → ℕ) → ((q : ℕ) → q ≢ p → g q ≡ f q) → n ≤ p → sum n g ≡ sum n f
sum_below zero p f g e b = refl
sum_below (suc n) p f g e b =
    omega (arith, e n (λ same. absurd (omega (arith, same))), sum_below n p f g e (omega arith))

pub sum_at :
    (n p : ℕ) (f g : ℕ → ℕ) → ((q : ℕ) → q ≢ p → g q ≡ f q) → p < n → sum n g + f p ≡ sum n f + g p
sum_at zero p f g e b = absurd (omega arith)
sum_at (suc n) p f g e b = elim (ℕ_discrete n p) [
  | yes same ↦ omega (arith, ap f same, ap g same, sum_below n p f g e (omega (arith, same)))
  | no d ↦ omega (arith, e n d, sum_at n p f g e (omega arith))
]

pub sum_same : (n : ℕ) (f g : ℕ → ℕ) → ((q : ℕ) → g q ≡ f q) → sum n g ≡ sum n f
sum_same zero f g e = refl
sum_same (suc n) f g e = omega (arith, e n, sum_same n f g e)

module _ {S : Type 0} where
  -- How often an URB waits on one of the eight ports or was given back.
  abbrev pub total : Hcd S → ℕ → ℕ
  total h u = sum vhci_nports (λ p. pending h p u) + returned u h.given_back

  -- An operation that neither queues, gives back nor names an URB.
  pub record Same (h h' : Hcd S) : Type 0 where
    pub pending : (q v : ℕ) → pending h' q v ≡ pending h q v
    pub given_back : h'.given_back ≡ h.given_back
    pub hcpriv : h'.hcpriv ≡ h.hcpriv

  -- An operation that makes no URB more than it was. An URB that still has its `hcpriv` waits where
  -- it waited.
  pub record Settles (h h' : Hcd S) : Type 0 where
    pub total : (u : ℕ) → total h' u ≤ total h u
    pub named :
        (v : ℕ) (x : Hcpriv)
        → h'.hcpriv v ≡ some x
        → (h.hcpriv v ≡ some x) × ((q : ℕ) → pending h' q v ≡ pending h q v)

  pub Same-Settles : (h h' : Hcd S) → Same h h' → Settles h h'
  Same-Settles h h' s = record {
    total = λ u. omega (
      arith,
      sum_same vhci_nports (λ p. pending h p u) (λ p. pending h' p u) (λ q. s.pending q u),
      ap (returned u) s.given_back,
    );
    named = λ v x e. (sym (ap (λ f. f v) s.hcpriv) ∙ e, λ q. s.pending q v);
  }

  pub Same-trans : {h h' h'' : Hcd S} → Same h h' → Same h' h'' → Same h h''
  Same-trans s t = record {
    pending = λ q v. t.pending q v ∙ s.pending q v;
    given_back = t.given_back ∙ s.given_back;
    hcpriv = t.hcpriv ∙ s.hcpriv;
  }

  pub Settles-trans : {h h' h'' : Hcd S} → Settles h h' → Settles h' h'' → Settles h h''
  Settles-trans s t = record {
    total = λ u. omega (arith, s.total u, t.total u);
    named = λ v x e.
        let (e', p) = t.named v x e in let (e'', p') = s.named v x e' in (e'', λ q. p q ∙ p' q);
  }

  pub Same-refl : (h : Hcd S) → Same h h
  Same-refl h = record { pending = λ q v. refl; given_back = refl; hcpriv = refl }

  pub Settles-refl : (h : Hcd S) → Settles h h
  Settles-refl h = Same-Settles h h (Same-refl h)
