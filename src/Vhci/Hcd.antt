-- ===== src/Vhci/Hcd.antt =====
-- vhci_hcd.c: how URBs enter the driver and are taken back.
use usbip.Base.{
  ℕ, zero, suc, ◌+◌, ◌-◌, ◌^◌, Bool, true, false, List, [], ◌∷◌, ◌++◌, Option, none, some, u32, neg,
  einprogress, enodev, einval, enomem, get_elem?, ◌==◌, if◌then◌else◌,
}
use usbip.Proto.Urb.{Urb, is_control}
use usbip.Core.Events.{vdev_event_error_malloc}
use usbip.Core.Device.{Status, vdev_null, vdev_error, vdev_used}
use usbip.Vhci.State.{
  Priv, Unlink, Vdev, Hcd, set_vdev, set_urb, set_hcpriv, vdev_event_add, giveback, next_seqnum,
  to_ulong, vhci_nports, find, remove, remove_urb,
}

-- `udev == vdev->udev`
abbrev pub names : Option ℕ → ℕ → Bool
names none d = false
names (some e) d = e == d

abbrev pub is_inactive : Status → Bool
is_inactive vdev_null = true
is_inactive vdev_error = true
is_inactive _ = false

-- `ctrlreq->bRequest`; `none` where the pointer is NULL or the pipe is no control pipe.
abbrev pub default_request : Urb → Option ℕ
default_request urb =
    if is_control urb.pipe.pipetype
    then elim urb.setup_packet [ none ↦ none | some setup ↦ get_elem? setup 1 ]
    else none

module _ {S : Type 0} where
  -- The loop of get_vdev, from port `i` on.
  unfoldable pub get_vdev_from : ℕ → ℕ → (ℕ → Vdev S) → ℕ → Option ℕ
  get_vdev_from zero i vdev d = none
  get_vdev_from (suc rounds) i vdev d =
      let rest : Option ℕ = get_vdev_from rounds (suc i) vdev d in
      if names (vdev i).udev d then some i else rest

  -- get_vdev: the port whose device it is.
  unfoldable pub get_vdev : Hcd S → ℕ → Option ℕ
  unfolding get_vdev_from
  get_vdev h d = get_vdev_from vhci_nports 0 h.vdev d

  -- vhci_tx_urb, at the port that get_vdev found.
  unfoldable pub tx_urb_at : Bool → Hcd S → ℕ → ℕ → Hcd S
  tx_urb_at memory h u p =
      let n : ℕ = next_seqnum h.seqnum in
      let entry : Priv = record { seqnum = to_ulong n; urb = u } in
      let v : Vdev S = h.vdev p in
      let queued : Hcd S =
        set_vdev
          (set_hcpriv (record h { seqnum = n }) u (some (record { port = p; seqnum = to_ulong n })))
          p (record v { priv_tx = v.priv_tx ++ entry ∷ [] }) in
      if memory then queued else vdev_event_add h p vdev_event_error_malloc

  -- vhci_tx_urb; `memory` says whether there is memory for the entry.
  unfoldable pub tx_urb : Bool → Hcd S → ℕ → Hcd S
  unfolding tx_urb_at
  tx_urb memory h u = elim (get_vdev h (h.urb u).dev.id) [
    | none ↦ h
    | some p ↦ tx_urb_at memory h u p
  ]

  -- `if (vdev->udev) usb_put_dev(vdev->udev); vdev->udev = usb_get_dev(urb->dev);`
  abbrev set_udev : Hcd S → ℕ → ℕ → Hcd S
  set_udev h p u = set_vdev h p (record (h.vdev p) { udev = some (h.urb u).dev.id })

  abbrev set_status : Hcd S → ℕ → Status → Hcd S
  set_status h p st = set_vdev h p (record (h.vdev p) { ud = record (h.vdev p).ud { status = st } })

  -- The requests to device number 0, by `bRequest`: the result, and the new state.
  unfoldable pub enqueue_default : Bool → Hcd S → ℕ → ℕ → ℕ → ℕ × Hcd S
  enqueue_default memory h u p request =
      let addressed : Hcd S = set_status (set_udev h p u) p vdev_used in
      if request == 5
      then (0, giveback (set_urb addressed u (record (h.urb u) { status = 0 })) u)
      else if request == 6
      then (0, tx_urb memory (set_udev h p u) u)
      else (neg einval, giveback h u)

  -- Past usb_hcd_link_urb_to_ep.
  unfoldable pub enqueue_linked : Bool → Hcd S → ℕ → ℕ → ℕ × Hcd S
  unfolding enqueue_default
  enqueue_linked memory h u p =
      let urb : Urb = h.urb u in
      if urb.pipe.pipedevice == 0
      then elim (default_request urb) [
        | none ↦ (neg einval, giveback h u)
        | some request ↦ enqueue_default memory h u p request
      ]
      else (0, tx_urb memory h u)

  -- vhci_urb_enqueue: the result and the new state, at an URB that passes the BUG_ON: it has a buffer
  -- if it has a length. `link` is the result of usb_hcd_link_urb_to_ep.
  unfoldable pub urb_enqueue : ℕ → Bool → Hcd S → ℕ → ℕ × Hcd S
  unfolding enqueue_linked
  urb_enqueue link memory h u =
      let urb : Urb = h.urb u in
      let p : ℕ = u32 (urb.dev.portnum + (2 ^ 32 - 1)) in
      if urb.status == neg einprogress
      then if is_inactive (h.vdev p).ud.status
        then (neg enodev, h)
        else if link == 0
        then enqueue_linked memory h u p
        else (link, giveback h u)
      else (urb.status, h)

  -- vhci_urb_dequeue, for an entry at port `p`: without a connection the URB is given back here.
  unfoldable pub dequeue_closed : Hcd S → ℕ → ℕ → Hcd S
  dequeue_closed h u p =
      let v : Vdev S = h.vdev p in
      let v' : Vdev S = record v {
        priv_tx = remove_urb u v.priv_tx;
        priv_rx = remove_urb u v.priv_rx;
      } in
      giveback (set_hcpriv (set_vdev h p v') u none) u

  -- With a connection an unlink request is queued for the peer.
  unfoldable pub dequeue_open : Bool → Hcd S → ℕ → ℕ → ℕ × Hcd S
  dequeue_open memory h p target =
      let n : ℕ = next_seqnum h.seqnum in
      let v : Vdev S = h.vdev p in
      let x : Unlink = record { seqnum = to_ulong n; unlink_seqnum = target } in
      if memory
      then (
        0,
        set_vdev (record h { seqnum = n }) p (record v { unlink_tx = v.unlink_tx ++ x ∷ [] }),
      )
      else (neg enomem, vdev_event_add h p vdev_event_error_malloc)

  -- vhci_urb_dequeue: the result and the new state. `check` is the result of
  -- usb_hcd_check_unlink_urb.
  unfoldable pub urb_dequeue : ℕ → Bool → Hcd S → ℕ → ℕ × Hcd S
  unfolding dequeue_closed dequeue_open
  urb_dequeue check memory h u = elim (h.hcpriv u) [
    | none ↦ (0, h)
    | some x ↦
        if check == 0
        then elim (h.vdev x.port).ud.tcp_socket [
          | none ↦ (0, dequeue_closed h u x.port)
          | some s ↦ dequeue_open memory h x.port x.seqnum
        ]
        else (check, h)
  ]

  -- `list_del(&priv->list); kfree(priv); urb->hcpriv = NULL;` for the sent request `n` of URB `u`.
  abbrev pub free_priv : Hcd S → ℕ → ℕ → ℕ → Hcd S
  free_priv h p n u =
      let v : Vdev S = h.vdev p in
      set_hcpriv (set_vdev h p (record v { priv_rx = remove n v.priv_rx })) u none

  -- vhci_rx.c, pickup_urb_and_free_priv: the URB of a sent request, which is no longer pending.
  unfoldable pub pickup_urb_and_free_priv : Hcd S → ℕ → ℕ → Option (ℕ × Hcd S)
  pickup_urb_and_free_priv h p n = elim (find n (h.vdev p).priv_rx) [
    | none ↦ none
    | some x ↦ some (x.urb, free_priv h p n x.urb)
  ]

  -- One round of the loop over `unlink_rx` of vhci_device_unlink_cleanup. An URB that is still
  -- pending is given back with -ENODEV.
  unfoldable pub cleanup_one : Unlink → Hcd S → ℕ → Hcd S
  cleanup_one x h p = elim (pickup_urb_and_free_priv h p (u32 x.unlink_seqnum)) [
    | none ↦ h
    | some (u, h') ↦ giveback (set_urb h' u (record (h'.urb u) { status = neg enodev })) u
  ]

  unfoldable pub cleanup_rx : List Unlink → Hcd S → ℕ → Hcd S
  cleanup_rx [] h p = h
  cleanup_rx (x ∷ xs) h p = cleanup_rx xs (cleanup_one x h p) p

  -- vhci_device_unlink_cleanup: unsent unlink requests are dropped, unanswered ones are settled.
  unfoldable pub unlink_cleanup : Hcd S → ℕ → Hcd S
  unfolding cleanup_rx
  unlink_cleanup h p =
      let v : Vdev S = h.vdev p in
      let h' : Hcd S = cleanup_rx v.unlink_rx (set_vdev h p (record v { unlink_tx = [] })) p in
      set_vdev h' p (record (h'.vdev p) { unlink_rx = [] })
