-- ===== src/Vhci/Balance.antt =====
-- Theorems that count where URBs are: on a port or given back (vhci_rx.c, vhci_hcd.c).
use usbip.Base.{
  ℕ, ◌+◌, ◌-◌, ◌≡◌, ◌≢◌, refl, ◌∙◌, inl, inr, Bool, List, [], ◌∷◌, ◌++◌, none, some, arith, ◌==◌,
  if◌then◌else◌, Option-cases, u32,
}
use usbip.Proto.Header.{Header}
use usbip.Proto.Endian.{ByteOrder}
use usbip.Core.Socket.{Socket}
use usbip.Vhci.State.{
  Priv, Unlink, Hcd, Hcpriv, GivenBack, update, set_vdev, find, remove, remove_urb, find_unlink,
  remove_unlink,
}
use usbip.Vhci.Hcd.{cleanup_rx, cleanup_one, pickup_urb_and_free_priv, urb_dequeue, unlink_cleanup}
use usbip.Vhci.Rx.{settle_unlink, recv_ret_unlink}

abbrev pub one : ℕ → ℕ → ℕ
one a u = if a == u then 1 else 0

-- How many entries of a queue are for an URB, and how often it was given back.
abbrev pub queued : ℕ → List Priv → ℕ
queued u [] = 0
queued u (p ∷ ps) = one p.urb u + queued u ps

abbrev pub returned : ℕ → List GivenBack → ℕ
returned u [] = 0
returned u (g ∷ gs) = one g.urb u + returned u gs

module _ {S : Type 0} where
  -- The URB's entries on port `p`, sent or not.
  abbrev pub pending : Hcd S → ℕ → ℕ → ℕ
  pending h p u = queued u (h.vdev p).priv_tx + queued u (h.vdev p).priv_rx

  -- Waiting on port `p`, or given back.
  abbrev pub balance : Hcd S → ℕ → ℕ → ℕ
  balance h p u = pending h p u + returned u h.given_back

pub queued-append : (u : ℕ) (xs ys : List Priv) → queued u (xs ++ ys) ≡ queued u xs + queued u ys
queued-append u [] ys = omega arith
queued-append u (x ∷ xs) ys = omega (arith, queued-append u xs ys)

pub queued-remove :
    (u n : ℕ) (ps : List Priv) (x : Priv)
    → find n ps ≡ some x
    → queued u ps ≡ one x.urb u + queued u (remove n ps)
unfolding find remove
queued-remove u n [] x e = ground arith
queued-remove u n (p ∷ ps) x e = ground (arith, queued-remove u n ps x)

pub queued-remove_urb_ne :
    (u a : ℕ) (ps : List Priv) → a ≢ u → queued u (remove_urb a ps) ≡ queued u ps
unfolding remove_urb
queued-remove_urb_ne u a [] h = refl
queued-remove_urb_ne u a (p ∷ ps) h = ground (arith, queued-remove_urb_ne u a ps h)

pub queued-remove_urb : (u : ℕ) (ps : List Priv) → queued u (remove_urb u ps) ≡ queued u ps - 1
unfolding remove_urb
queued-remove_urb u [] = refl
queued-remove_urb u (p ∷ ps) = ground (arith, queued-remove_urb u ps)

update_at {ℓ} : {A : Type ℓ} (f : ℕ → A) (k : ℕ) (a : A) → update f k a k ≡ a
update_at f k a = ground arith

-- pickup_urb_and_free_priv, whatever its outcome: what it takes from the queue it returns.
pub pickup_balance :
    {S : Type 0} (h : Hcd S) (p n u : ℕ) {a : ℕ} {h' : Hcd S}
    → pickup_urb_and_free_priv h p n ≡ some (a, h')
    → (pending h p u ≡ one a u + pending h' p u) × (h'.given_back ≡ h.given_back)
unfolding pickup_urb_and_free_priv
pickup_balance h p n u e = elim (Option-cases (find n (h.vdev p).priv_rx)) [
  | inl none_found ↦ absurd (ground (arith, e, none_found))
  | inr (x, found) ↦ ground (arith, e, found, queued-remove u n (h.vdev p).priv_rx x found)
]

module _ (o : ByteOrder) (net : Socket) where
  open net use {S}

  settle_unlink-balance :
      (h : Hcd S) (p : ℕ) (x : Unlink) (pdu : Header) (u : ℕ)
      → balance (settle_unlink o net h p x pdu) p u ≡ balance h p u
  unfolding settle_unlink
  settle_unlink-balance h p x pdu u =
      elim (Option-cases (pickup_urb_and_free_priv h p (u32 x.unlink_seqnum))) [
        | inl e ↦ ground (arith, e)
        | inr (found, e) ↦ ground (arith, e, pickup_balance h p (u32 x.unlink_seqnum) u e)
      ]

  -- A reply to an unlink request neither loses an URB nor gives one back twice: each URB is as often
  -- pending on the port or given back as before.
  pub recv_ret_unlink-balance :
      (h : Hcd S) (p : ℕ) (pdu : Header) (u : ℕ)
      → balance (recv_ret_unlink o net h p pdu) p u ≡ balance h p u
  unfolding recv_ret_unlink
  recv_ret_unlink-balance h p pdu u =
      elim (Option-cases (find_unlink pdu.base.seqnum (h.vdev p).unlink_rx)) [
        | inl e ↦ ground (arith, e)
        | inr (x, e) ↦
            let h' : Hcd S = set_vdev h p (record (h.vdev p) {
              unlink_rx = remove_unlink pdu.base.seqnum (h.vdev p).unlink_rx;
            }) in
            ground (arith, e, settle_unlink-balance h' p x pdu u)
      ]

module _ {S : Type 0} where
  cleanup_one-balance :
      (x : Unlink) (h : Hcd S) (p u : ℕ) → balance (cleanup_one x h p) p u ≡ balance h p u
  unfolding cleanup_one
  cleanup_one-balance x h p u =
      elim (Option-cases (pickup_urb_and_free_priv h p (u32 x.unlink_seqnum))) [
        | inl e ↦ ground (arith, e)
        | inr (found, e) ↦ ground (arith, e, pickup_balance h p (u32 x.unlink_seqnum) u e)
      ]

  cleanup_rx-balance :
      (xs : List Unlink) (h : Hcd S) (p u : ℕ) → balance (cleanup_rx xs h p) p u ≡ balance h p u
  unfolding cleanup_rx
  cleanup_rx-balance [] h p u = refl
  cleanup_rx-balance (x ∷ xs) h p u =
      cleanup_rx-balance xs (cleanup_one x h p) p u ∙ cleanup_one-balance x h p u

  -- Settling the unanswered unlink requests of a port neither loses an URB nor gives one back twice.
  pub unlink_cleanup-balance :
      (h : Hcd S) (p u : ℕ) → balance (unlink_cleanup h p) p u ≡ balance h p u
  unfolding unlink_cleanup
  unlink_cleanup-balance h p u =
      let cleared : Hcd S = set_vdev h p (record (h.vdev p) { unlink_tx = [] }) in
      ground (arith, cleanup_rx-balance (h.vdev p).unlink_rx cleared p u)

  -- Without a connection, taking back an URB that waits once on its port gives it back, and leaves
  -- every other URB alone.
  pub urb_dequeue-balance :
      (memory : Bool) (h : Hcd S) (a u : ℕ) (x : Hcpriv)
      → h.hcpriv a ≡ some x
      → (h.vdev x.port).ud.tcp_socket ≡ none
      → pending h x.port a ≡ 1
      → (balance (urb_dequeue 0 memory h a).1 x.port u ≡ balance h x.port u)
        × (pending (urb_dequeue 0 memory h a).1 x.port a ≡ 0)
  unfolding urb_dequeue
  urb_dequeue-balance memory h a u x e c w = ground (
    arith,
    e,
    c,
    w,
    queued-remove_urb a (h.vdev x.port).priv_tx,
    queued-remove_urb a (h.vdev x.port).priv_rx,
    queued-remove_urb_ne u a (h.vdev x.port).priv_tx,
    queued-remove_urb_ne u a (h.vdev x.port).priv_rx,
  )
