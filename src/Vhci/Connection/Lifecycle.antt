-- ===== src/Vhci/Connection/Lifecycle.antt =====
-- Theorems on attaching a port and on losing its connection (vhci_sysfs.c, vhci_hcd.c).
use usbip.Base.{
  u32, ◌∷◌, ℕ, suc, ◌<◌, ◌≡◌, refl, ◌∙◌, ◌⊎◌, inl, inr, true, false, List, [], Option, none, some,
  arith, neg, einval, Option-cases, Bool-cases,
}
use usbip.Core.Events.{event_handler, no_event, vdev_event_down}
use usbip.Core.Events.Handler.{event_handler-due}
use usbip.Core.Device.{vdev_null, vdev_notassigned}
use usbip.Vhci.State.{Unlink, find, Vdev, Hcd, set_vdev, vhci_nports}
use usbip.Vhci.Hcd.{cleanup_rx, cleanup_one, pickup_urb_and_free_priv, unlink_cleanup}
use usbip.Vhci.Balance.{balance, unlink_cleanup-balance}
use usbip.Vhci.Connection.{
  shutdown_connection, device_reset, rh_port_disconnect, rh_port_connect, vhci_eh_ops, store_attach,
  valid_args, is_null, release,
}

module _ {S : Type 0} where
  -- A port without a connection, on which no unlink request waits.
  pub record IsFree (v : Vdev S) : Type 0 where
    pub status : v.ud.status ≡ vdev_null
    pub socket : v.ud.tcp_socket ≡ none
    pub udev : v.udev ≡ none
    pub unlink_tx : v.unlink_tx ≡ []
    pub unlink_rx : v.unlink_rx ≡ []

  -- The unlink requests of a port that are not sent yet.
  abbrev unsent : Hcd S → ℕ → List Unlink
  unsent h p = (h.vdev p).unlink_tx

  cleanup_one-unsent : (x : Unlink) (h : Hcd S) (p : ℕ) → unsent (cleanup_one x h p) p ≡ unsent h p
  unfolding cleanup_one pickup_urb_and_free_priv
  cleanup_one-unsent x h p = elim (Option-cases (find (u32 x.unlink_seqnum) (h.vdev p).priv_rx)) [
    | inl e ↦ ground (arith, e)
    | inr (found, e) ↦ ground (arith, e)
  ]

  cleanup_rx-unsent :
      (xs : List Unlink) (h : Hcd S) (p : ℕ) → unsent (cleanup_rx xs h p) p ≡ unsent h p
  unfolding cleanup_rx
  cleanup_rx-unsent [] h p = refl
  cleanup_rx-unsent (x ∷ xs) h p =
      cleanup_rx-unsent xs (cleanup_one x h p) p ∙ cleanup_one-unsent x h p

  -- The end of the handling of VDEV_EVENT_DOWN.
  abbrev pub down : Hcd S → ℕ → Hcd S
  down h p = device_reset (shutdown_connection h p) p

  down-IsFree : (h : Hcd S) (p : ℕ) → IsFree ((down h p).vdev p)
  unfolding device_reset shutdown_connection unlink_cleanup rh_port_disconnect
  down-IsFree h p = record {
    status = ground arith;
    socket = ground arith;
    udev = ground arith;
    unlink_tx = ground (
      arith,
      cleanup_rx-unsent (h.vdev p).unlink_rx
          (set_vdev (release h p) p (record ((release h p).vdev p) { unlink_tx = [] })) p,
    );
    unlink_rx = ground arith;
  }

  down-balance : (h : Hcd S) (p u : ℕ) → balance (down h p) p u ≡ balance h p u
  unfolding device_reset shutdown_connection rh_port_disconnect
  down-balance h p u = ground (arith, unlink_cleanup-balance (release h p) p u)

  -- When a port has lost its connection (VDEV_EVENT_DOWN) the event handler ends in two rounds and
  -- leaves the port free: no socket, no device, no unlink request. Each URB is as often pending on
  -- the port or given back as before.
  pub vdev_down_frees :
      (fuel : ℕ) (h : Hcd S) (p u : ℕ)
      → (h' : Hcd S) × (event_handler (vhci_eh_ops p) (suc (suc fuel)) (h, vdev_event_down)
          ≡ some ((h', no_event), false))
        × IsFree (h'.vdev p)
        × (balance h' p u ≡ balance h p u)
  vdev_down_frees fuel h p u = (
    down h p,
    event_handler-due (vhci_eh_ops p) fuel h vdev_event_down (λ d. refl, λ d. refl, λ d. refl),
    down-IsFree h p,
    down-balance h p u,
  )

  -- Attaching a port refuses with -EINVAL and leaves all as it was; or it returns the count, and the
  -- port, one of the eight, was free before and has then the socket and waits for its address.
  pub store_attach_cases :
      (h : Hcd S) (count rhport : ℕ) (socket : Option S) (devid speed : ℕ)
      → (store_attach h count rhport socket devid speed ≡ (neg einval, h))
        ⊎ (((store_attach h count rhport socket devid speed).0 ≡ count)
            × (rhport < vhci_nports)
            × (is_null (h.vdev rhport).ud.status ≡ true)
            × (((store_attach h count rhport socket devid speed).1.vdev rhport).ud.tcp_socket
                ≡ socket)
            × (((store_attach h count rhport socket devid speed).1.vdev rhport).ud.status
                ≡ vdev_notassigned))
  unfolding store_attach valid_args rh_port_connect
  store_attach_cases h count rhport none devid speed = inl (ground arith)
  store_attach_cases h count rhport (some s) devid speed =
      elim (Bool-cases (valid_args rhport speed)) [
        | inr e ↦ inl (ground (arith, e))
        | inl e ↦ elim (Bool-cases (is_null (h.vdev rhport).ud.status)) [
          | inr n ↦ inl (ground (arith, e, n))
          | inl n ↦ inr (
            ground (arith, e, n),
            ground (arith, e),
            n,
            ground (arith, e, n),
            ground (arith, e, n),
          )
        ]
      ]
