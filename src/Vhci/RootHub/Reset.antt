-- ===== src/Vhci/RootHub/Reset.antt =====
-- Theorems on the reset of a port and on the changes that the root hub reports (vhci_hcd.c).
use usbip.Base.{
  ℕ, suc, ◌<◌, ◌≡◌, refl, ap, ◌∙◌, true, false, some, arith, Bool-cases, inl, inr, ◌==◌, ==-refl,
}
use usbip.Core.Device.{vdev_notassigned}
use usbip.Vhci.State.{Hcd, vhci_nports}
use usbip.Vhci.Connection.{
  store_attach, valid_args, is_null, rh_port_connect, attached, bit_connection, bit_c_connection,
  speed_high, speed_low,
}
use usbip.Vhci.RootHub.{
  Clock, Answer, no_answer, rhport_of, hub_control, port_request, set_feature, finish_resume,
  finish_reset, hub_status, get_port_status, set_port_feature, feat_reset, feat_c_reset, bit_enable,
  after, bytes, status_bytes,
}
use usbip.Vhci.RootHub.Control.{set_feature-some}
use usbip.Vhci.RootHub.Changes.{hub_status_reports}

rhport_of-suc : (p : ℕ) → p < vhci_nports → rhport_of (suc p) ≡ some p
unfolding rhport_of
rhport_of-suc p b = ground arith

module _ {S : Type 0} where
  -- A port whose reset was asked for and is done.
  pub record IsReset (h : Hcd S) (p : ℕ) : Type 0 where
    pub connected : h.port_status p bit_connection ≡ true
    pub enabled : h.port_status p bit_enable ≡ true
    pub reset : h.port_status p feat_reset ≡ false
    pub changed : h.port_status p feat_c_reset ≡ true

  -- A connected port that waits for its address, and no resume that is under way.
  pub record IsWaiting (h : Hcd S) (p : ℕ) : Type 0 where
    pub connected : h.port_status p bit_connection ≡ true
    pub status : (h.vdev p).ud.status ≡ vdev_notassigned
    pub resuming : h.resuming ≡ false

  set_feature-reset :
      (clock : Clock) (h h' : Hcd S) (p : ℕ)
      → IsWaiting h p
      → set_feature clock h p feat_reset ≡ some h'
      → IsWaiting h' p × (h'.port_status p feat_reset ≡ true) × (h'.re_timeout ≡ after clock 50)
  unfolding set_feature
  set_feature-reset clock h h' p i e = (
    record {
      connected = ground (arith, i.connected);
      status = ground (arith, i.status);
      resuming = ground (arith, i.resuming);
    },
    ground arith,
    ground arith,
  )

  poll-IsReset :
      (clock : Clock) (h : Hcd S) (p : ℕ)
      → IsWaiting h p
      → h.port_status p feat_reset ≡ true
      → clock.time_after clock.jiffies h.re_timeout ≡ true
      → IsReset (finish_reset clock (finish_resume clock h p) p) p
  unfolding finish_resume finish_reset
  poll-IsReset clock h p i r t = record {
    connected = rw (i.resuming, r, t, i.status, ==-refl p, i.connected) refl;
    enabled = rw (i.resuming, r, t, i.status, ==-refl p) refl;
    reset = rw (i.resuming, r, t, i.status, ==-refl p) refl;
    changed = rw (i.resuming, r, t, i.status, ==-refl p) refl;
  }

  rh_port_connect-word :
      (h : Hcd S) (p speed : ℕ)
      → ((rh_port_connect h p speed).port_status p bit_connection ≡ true)
        × ((rh_port_connect h p speed).port_status p bit_c_connection ≡ true)
  unfolding rh_port_connect
  rh_port_connect-word h p speed = elim (Bool-cases (speed == speed_high)) [
    | inl e ↦ (rw (e, ==-refl p) refl, rw (e, ==-refl p) refl)
    | inr e ↦ elim (Bool-cases (speed == speed_low)) [
      | inl f ↦ (rw (e, f, ==-refl p) refl, rw (e, f, ==-refl p) refl)
      | inr f ↦ (rw (e, f, ==-refl p) refl, rw (e, f, ==-refl p) refl)
    ]
  ]

  store_attach-IsWaiting :
      (h : Hcd S) (count p : ℕ) (s : S) (devid speed : ℕ)
      → valid_args p speed ≡ true
      → is_null (h.vdev p).ud.status ≡ true
      → h.resuming ≡ false
      → (store_attach h count p (some s) devid speed
          ≡ (count, rh_port_connect (attached h p devid speed s) p speed))
        × IsWaiting (rh_port_connect (attached h p devid speed s) p speed) p
  unfolding store_attach rh_port_connect
  store_attach-IsWaiting h count p s devid speed v n r = (
    ground arith,
    record {
      connected = (rh_port_connect-word (attached h p devid speed s) p speed).0;
      status = ground arith;
      resuming = ground arith;
    },
  )

  -- The requests of the USB core that reset port `p`, as hub_control takes them.
  hub_control-reset :
      (clock : Clock) (h h' : Hcd S) (p : ℕ)
      → p < vhci_nports
      → set_feature clock h p feat_reset ≡ some h'
      → hub_control true clock h set_port_feature feat_reset (suc p) ≡ some (0, no_answer, h')
  unfolding hub_control port_request
  hub_control-reset clock h h' p b e = ground (arith, rhport_of-suc p b, e)

  hub_control-poll :
      (clock : Clock) (h : Hcd S) (p : ℕ)
      → p < vhci_nports
      → hub_control true clock h get_port_status 0 (suc p)
        ≡ some (
          0,
          bytes (status_bytes (finish_reset clock (finish_resume clock h p) p) p),
          finish_reset clock (finish_resume clock h p) p,
        )
  unfolding hub_control port_request
  hub_control-poll clock h p b = ground (arith, rhport_of-suc p b)

  -- While no resume is under way on the hub, a free port that is attached with a valid speed is
  -- reported as changed by the root hub; the USB core resets it, and once the clock is past the
  -- 50 ms of the reset GetPortStatus succeeds and leaves the port connected and enabled, with
  -- the reset over and reported.
  pub attach_enables :
      (h : Hcd S) (count p : ℕ) (s : S) (devid speed : ℕ) (clock clock' : Clock)
      → p < vhci_nports
      → valid_args p speed ≡ true
      → is_null (h.vdev p).ud.status ≡ true
      → h.resuming ≡ false
      → clock'.time_after clock'.jiffies (after clock 50) ≡ true
      → (h1 : Hcd S) × (h2 : Hcd S) × (h3 : Hcd S) × (answer : Answer) × (store_attach h count p
            (some s)
            devid
            speed
          ≡ (count, h1))
        × ((hub_status true h1).1 (suc p) ≡ true)
        × (hub_control true clock h1 set_port_feature feat_reset (suc p) ≡ some (0, no_answer, h2))
        × (hub_control true clock' h2 get_port_status 0 (suc p) ≡ some (0, answer, h3))
        × IsReset h3 p
  attach_enables h count p s devid speed clock clock' b v n r t =
      let h1 : Hcd S = rh_port_connect (attached h p devid speed s) p speed in
      let (attached-is, waiting) = store_attach-IsWaiting h count p s devid speed v n r in
      let (h2, set) = set_feature-some clock h1 p feat_reset (omega arith) in
      let (waiting', asked, timeout) = set_feature-reset clock h1 h2 p waiting set in
      (
        h1,
        h2,
        finish_reset clock' (finish_resume clock' h2 p) p,
        bytes (status_bytes (finish_reset clock' (finish_resume clock' h2 p) p) p),
        attached-is,
        (hub_status_reports h1).0 p b
            ∙ ground (arith, (rh_port_connect-word (attached h p devid speed s) p speed).1),
        hub_control-reset clock h1 h2 p b set,
        hub_control-poll clock' h2 p b,
        poll-IsReset clock' h2 p waiting' asked (ap (clock'.time_after clock'.jiffies) timeout ∙ t),
      )
