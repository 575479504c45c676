-- ===== src/Userspace/Ports/Attaching.antt =====
-- The theorem on import_device of usbip attach, over store_attach of the driver.
use usbip.Base.{
  ℕ, zero, suc, ◌+◌, ◌%◌, ◌^◌, ◌<◌, ◌≤◌, ◌≡◌, refl, ◌⊎◌, inl, inr, true, false, Bool-cases, none,
  some, arith, is_negative, subst,
}
use usbip.Core.Device.{Status, vdev_notassigned}
use usbip.Vhci.State.{Hcd, vhci_nports}
use usbip.Vhci.Connection.{is_null, valid_args, attached, rh_port_connect, store_attach}
use usbip.Userspace.Devices.{UsbDevice}
use usbip.Userspace.Ports.{free_port_from, get_free_port, get_devid, import_device}

-- Each of the first n ports is in use.
abbrev pub AllUsed : ℕ → (ℕ → Status) → Type 0
AllUsed zero idev = Unit
AllUsed (suc n) idev = AllUsed n idev × (is_null (idev n) ≡ false)

free_port_from-cases :
    (n i m : ℕ) (idev : ℕ → Status)
    → n + i ≡ m
    → AllUsed i idev
    → ((free_port_from n i idev ≡ none) × AllUsed m idev)
      ⊎ ((p : ℕ) × (free_port_from n i idev ≡ some p)
          × (p < m)
          × (is_null (idev p) ≡ true)
          × AllUsed p idev)
unfolding free_port_from
free_port_from-cases zero i m idev h used =
    let same : i ≡ m = omega arith in inl (refl, subst (λ k. AllUsed k idev) same used)
free_port_from-cases (suc n) i m idev h used = elim (Bool-cases (is_null (idev i))) [
  | inl e ↦ inr (i, rw (free_port_from, e) refl, omega arith, e, used)
  | inr e ↦ elim (free_port_from-cases n (suc i) m idev (omega arith) (used, e)) [
    | inl (f, all) ↦ inl (rw (free_port_from, e) f, all)
    | inr (p, f, k, z, rest) ↦ inr (p, rw (free_port_from, e) f, k, z, rest)
  ]
]

module _ {S : Type 0} (h : Hcd S) (count : ℕ) (s : S) (udev : UsbDevice) where
  abbrev pub statuses : ℕ → Status
  statuses p = (h.vdev p).ud.status

  -- The write to the attribute of the driver, with the socket of the descriptor.
  abbrev pub write_attach : ℕ → ℕ → ℕ → Hcd S → ℕ × Hcd S
  write_attach port devid speed g = store_attach g count port (some s) devid speed

  accepted :
      (p : ℕ)
      → p < vhci_nports
      → 0 < udev.speed
      → udev.speed ≤ 4
      → is_null (statuses p) ≡ true
      → write_attach (p % 2 ^ 8) (get_devid udev.busnum udev.devnum) udev.speed h ≡ (
        count,
        rh_port_connect
            (attached h p (get_devid udev.busnum udev.devnum) udev.speed s)
            p
            udev.speed,
      )
  unfolding store_attach valid_args
  accepted p k l m e =
      let byte : p % 2 ^ 8 ≡ p = omega arith in
      let valid : valid_args p udev.speed ≡ true = ground arith in
      rw byte (rw (store_attach, valid) (rw e refl))

  connected :
      (p devid speed : ℕ)
      → let g : Hcd S = rh_port_connect (attached h p devid speed s) p speed in
        ((g.vdev p).ud.tcp_socket ≡ some s)
        × ((g.vdev p).devid ≡ devid)
        × ((g.vdev p).ud.status ≡ vdev_notassigned)
  unfolding rh_port_connect
  connected p devid speed = (ground arith, ground arith, ground arith)

  import-some :
      (p : ℕ) (g : Hcd S)
      → get_free_port vhci_nports statuses ≡ some p
      → count < 2 ^ 31
      → write_attach (p % 2 ^ 8) (get_devid udev.busnum udev.devnum) udev.speed h ≡ (count, g)
      → import_device write_attach vhci_nports statuses udev h ≡ (some p, g)
  unfolding import_device
  import-some p g f c e =
      let positive : is_negative count ≡ false = ground arith in
      rw (import_device, f) (rw e (rw positive refl))

  import-none :
      get_free_port vhci_nports statuses ≡ none
      → import_device write_attach vhci_nports statuses udev h ≡ (none, h)
  unfolding import_device
  import-none f = rw (import_device, f) refl

  -- Where the statuses that were read are those of the controller and the device has a speed
  -- from 1 to 4, import_device leaves the controller as it was and returns -1, with all its
  -- ports in use, or it attaches the first free port, which then has the socket and the device
  -- id and waits for its address, and returns the port.
  pub import_device_attaches :
      count < 2 ^ 31
      → 0 < udev.speed
      → udev.speed ≤ 4
      → ((import_device write_attach vhci_nports statuses udev h ≡ (none, h))
          × AllUsed vhci_nports statuses)
        ⊎ ((p : ℕ) × (g : Hcd S) × (import_device write_attach vhci_nports statuses udev h
              ≡ (some p, g))
            × (p < vhci_nports)
            × AllUsed p statuses
            × (is_null (statuses p) ≡ true)
            × ((g.vdev p).ud.tcp_socket ≡ some s)
            × ((g.vdev p).devid ≡ get_devid udev.busnum udev.devnum)
            × ((g.vdev p).ud.status ≡ vdev_notassigned))
  unfolding get_free_port
  import_device_attaches c l m =
      elim (free_port_from-cases vhci_nports 0 vhci_nports statuses (omega arith) tt) [
        | inl (f, all) ↦ inl (import-none f, all)
        | inr (p, f, k, e, used) ↦
            let devid : ℕ = get_devid udev.busnum udev.devnum in
            let g : Hcd S = rh_port_connect (attached h p devid udev.speed s) p udev.speed in
            let (socket, id, status) = connected p devid udev.speed in
            inr (p, g, import-some p g f c (accepted p k l m e), k, used, e, socket, id, status)
      ]
