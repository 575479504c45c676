-- ===== src/Vhci/Order.antt =====
-- Theorems on the numbers of the requests on a port (vhci_tx_urb of vhci_hcd.c, vhci_rx.c).
use mathlib.Core.List.{append_assoc}
use usbip.Base.{
  ℕ, zero, suc, ◌+◌, ◌^◌, ◌≤◌, ◌<◌, ◌≡◌, refl, true, false, List, [], ◌∷◌, ◌++◌, none, some, arith,
  ==-refl, get_elem?, is_negative, subst, Option-cases, inl, inr,
}
use usbip.Vhci.State.{Priv, Vdev, Hcd, find, remove, to_ulong, next_seqnum}
use usbip.Vhci.Hcd.{tx_urb_at, pickup_urb_and_free_priv, free_priv}

-- The numbers rise strictly from above `lo`, and none is above `hi`.
abbrev pub Rising : ℕ → ℕ → List Priv → Type 0
Rising lo hi [] = lo ≤ hi
Rising lo hi (p ∷ ps) = (lo < p.seqnum) × Rising p.seqnum hi ps

Rising-le : (lo hi : ℕ) (ps : List Priv) → Rising lo hi ps → lo ≤ hi
Rising-le lo hi [] r = r
Rising-le lo hi (p ∷ ps) r = omega (arith, Rising-le p.seqnum hi ps r.1)

Rising-lower : (lo lo' hi : ℕ) (ps : List Priv) → lo ≤ lo' → Rising lo' hi ps → Rising lo hi ps
Rising-lower lo lo' hi [] h r = omega arith
Rising-lower lo lo' hi (p ∷ ps) h r = (omega arith, r.1)

Rising-snoc :
    (lo hi : ℕ) (ps : List Priv) (x : Priv)
    → Rising lo hi ps
    → hi < x.seqnum
    → Rising lo x.seqnum (ps ++ x ∷ [])
Rising-snoc lo hi [] x r h = (omega arith, omega arith)
Rising-snoc lo hi (p ∷ ps) x r h = (r.0, Rising-snoc p.seqnum hi ps x r.1 h)

Rising-remove :
    (lo hi n : ℕ) (ps qs : List Priv) → Rising lo hi (ps ++ qs) → Rising lo hi (remove n ps ++ qs)
unfolding remove
Rising-remove lo hi n [] qs r = r
Rising-remove lo hi n (p ∷ ps) qs r =
    ground (arith, Rising-remove p.seqnum hi n ps qs r.1, Rising-lower lo p.seqnum hi (ps ++ qs))

-- An entry is found by its number.
above :
    (lo hi i : ℕ) (ps qs : List Priv) (x : Priv)
    → Rising lo hi (ps ++ qs)
    → get_elem? ps i ≡ some x
    → lo < x.seqnum
above lo hi i [] qs x r e = absurd (ground (arith, e))
above lo hi zero (p ∷ ps) qs x r e = ground (arith, e)
above lo hi (suc i) (p ∷ ps) qs x r e = omega (arith, above p.seqnum hi i ps qs x r.1 e)

find_own :
    (lo hi i : ℕ) (ps qs : List Priv) (x : Priv)
    → Rising lo hi (ps ++ qs)
    → get_elem? ps i ≡ some x
    → find x.seqnum ps ≡ some x
unfolding find
find_own lo hi i [] qs x r e = absurd (ground (arith, e))
find_own lo hi zero (p ∷ ps) qs x r e = ground (arith, e)
find_own lo hi (suc i) (p ∷ ps) qs x r e =
    ground (arith, find_own p.seqnum hi i ps qs x r.1 e, above p.seqnum hi i ps qs x r.1 e)

not_negative : (c : ℕ) → c < 2 ^ 31 → is_negative c ≡ false
not_negative c h = ground arith

number : (c : ℕ) → c + 1 < 2 ^ 31 → next_seqnum c ≡ c + 1
number c h = omega arith

module _ {S : Type 0} where
  -- The sent requests of a port, and then the unsent ones, are numbered in the order of submission.
  abbrev pub IsOrdered : Hcd S → ℕ → Type 0
  IsOrdered h p = Rising 0 h.seqnum ((h.vdev p).priv_rx ++ (h.vdev p).priv_tx) × (h.seqnum < 2 ^ 31)

  -- A submission keeps the order, as long as the counter stays below 2 ^ 31.
  pub tx_urb_at-IsOrdered :
      (h : Hcd S) (u p : ℕ)
      → h.seqnum + 1 < 2 ^ 31
      → IsOrdered h p
      → IsOrdered (tx_urb_at true h u p) p
  unfolding tx_urb_at
  tx_urb_at-IsOrdered h u p b (r, k) =
      let n : ℕ = h.seqnum + 1 in
      let v : Vdev S = h.vdev p in
      let entry : Priv = record { seqnum = n; urb = u } in
      let queues : Rising 0 n (v.priv_rx ++ (v.priv_tx ++ entry ∷ [])) =
        rw (← append_assoc v.priv_rx v.priv_tx (entry ∷ []))
          (Rising-snoc 0 h.seqnum (v.priv_rx ++ v.priv_tx) entry r (omega arith)) in
      rw (==-refl p) (rw (number h.seqnum b) (rw (not_negative (h.seqnum + 1) b) (queues, b)))

  -- Taking a sent request out keeps the order.
  pub pickup-IsOrdered :
      (h : Hcd S) (p n a : ℕ) (h' : Hcd S)
      → pickup_urb_and_free_priv h p n ≡ some (a, h')
      → IsOrdered h p
      → IsOrdered h' p
  unfolding pickup_urb_and_free_priv
  pickup-IsOrdered h p n a h' e (r, k) = elim (Option-cases (find n (h.vdev p).priv_rx)) [
    | inl none_found ↦ absurd (ground (arith, e, none_found))
    | inr (x, found) ↦
        let same : free_priv h p n x.urb ≡ h' = ground (arith, e, found) in
        subst (λ k. IsOrdered k p) same
          (rw (==-refl p) (Rising-remove 0 h.seqnum n (h.vdev p).priv_rx (h.vdev p).priv_tx r, k))
  ]

  -- The reply that carries the number of a sent request finds the URB of that request.
  pub pickup_own :
      (h : Hcd S) (p i : ℕ) (x : Priv)
      → IsOrdered h p
      → get_elem? (h.vdev p).priv_rx i ≡ some x
      → (h' : Hcd S) × (pickup_urb_and_free_priv h p x.seqnum ≡ some (x.urb, h'))
  unfolding pickup_urb_and_free_priv
  pickup_own h p i x (r, k) e =
      let found = find_own 0 h.seqnum i (h.vdev p).priv_rx (h.vdev p).priv_tx x r e in
      (free_priv h p x.seqnum x.urb, rw (found, pickup_urb_and_free_priv) refl)

-- Requests that were numbered when the counter, an `int`, was negative.
abbrev pub AllPast : List Priv → Type 0
AllPast [] = Unit {0}
AllPast (p ∷ ps) = ((c : ℕ) × (is_negative c ≡ true) × (p.seqnum ≡ to_ulong c)) × AllPast ps

-- Requests whose numbers come from a negative counter, which is extended by its sign into 64 bits,
-- are found by no number that a reply can carry.
pub find_past : (n : ℕ) (ps : List Priv) → n < 2 ^ 32 → AllPast ps → find n ps ≡ none
unfolding find
find_past n [] h a = refl
find_past n (p ∷ ps) h ((c, neg, e), a) = ground (arith, e, neg, find_past n ps h a)
