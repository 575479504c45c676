-- ===== src/Stub/Probe.antt =====
-- stub_dev.c: how the stub driver claims the interfaces of a device and lets them go, on the table of
-- bus ids.
pub mod Lifecycle
use usbip.Base.{
  ℕ, zero, suc, ◌+◌, ◌-◌, ◌^◌, Bool, true, false, not, ◌&&◌, ◌||◌, List, [], ◌∷◌, Option, none,
  some, neg, u32, enodev, enomem, ltb, ◌==◌, if◌then◌else◌, ◌≡◌, refl, arith, Bool-cases, inl, inr,
  ap, ◌∙◌,
}
use usbip.Stub.Busid.{
  BusIdPriv, BusidStatus, added, alloc, remov, other, get_busid_priv, get_busid_idx,
  del_match_busid, is_alloc, is_remov, is_other, matches, del_at, del_entry,
}

-- What `stub_probe` finds: a hub, a device of vhci_hcd, memory for a stub_device, and the result of
-- stub_add_files, which is 0 or an error.
pub record Found : Type 0 where
  pub is_hub : Bool
  pub on_vhci : Bool
  pub memory : Bool
  pub add_files : ℕ

-- An assignment through the pointer that get_busid_priv returns.
unfoldable pub put_busid_priv : (BusIdPriv → BusIdPriv) → List BusIdPriv → List ℕ → List BusIdPriv
put_busid_priv f [] busid = []
put_busid_priv f (b ∷ bs) busid =
    if matches busid b then f b ∷ bs else b ∷ put_busid_priv f bs busid

-- The case of stub_probe where a device is in use: one more interface.
unfoldable pub probe_alloc : Found → List BusIdPriv → List ℕ → BusIdPriv → ℕ × List BusIdPriv × Bool
probe_alloc x table busid b =
    if not b.sdev
    then (neg enodev, table, false)
    else if x.add_files == 0
    then (
      0,
      put_busid_priv (λ b. record b { interf_count = u32 (b.interf_count + 1) }) table busid,
      true,
    )
    else (x.add_files, table, false)

-- The case where it is not: a stub device is made, and freed again if the files cannot be added.
unfoldable pub probe_new : Found → List BusIdPriv → List ℕ → ℕ × List BusIdPriv × Bool
probe_new x table busid =
    if not x.memory
    then (neg enomem, table, false)
    else if x.add_files == 0
    then (
      0,
      put_busid_priv
          (λ b. record b { interf_count = 1; shutdown_busid = false; sdev = true; status = alloc })
          table busid,
      true,
    )
    else (
      x.add_files,
      put_busid_priv (λ b. record b { interf_count = 0; shutdown_busid = false; sdev = false })
          table busid,
      false,
    )

-- stub_probe: the result, the table, and whether the interface has the stub device as its data.
unfoldable pub probe : Found → List BusIdPriv → List ℕ → ℕ × List BusIdPriv × Bool
unfolding probe_alloc probe_new
probe x table busid = elim (get_busid_priv table busid) [
  | none ↦ (neg enodev, table, false)
  | some b ↦
      if is_remov b.status || is_other b.status
      then (neg enodev, table, false)
      else if x.is_hub
      then (neg enodev, table, false)
      else if x.on_vhci
      then (neg enodev, table, false)
      else if is_alloc b.status
      then probe_alloc x table busid b
      else probe_new x table busid
]

-- shutdown_busid: the entry, and whether SDEV_EVENT_REMOVED is raised for its device, whose handler
-- then runs to its end.
abbrev pub shutdown_busid : BusIdPriv → BusIdPriv × Bool
shutdown_busid b =
    if b.sdev && not b.shutdown_busid
    then (record b { shutdown_busid = true }, true)
    else (b, false)

-- `interf_count > 1`, an `int`
abbrev pub is_shared : ℕ → Bool
is_shared count = ltb 1 count && ltb count (2 ^ 31)

-- The end of stub_disconnect, where the last interface goes.
abbrev pub free_busid : BusIdPriv → BusIdPriv
free_busid b =
    let closed : BusIdPriv = record (shutdown_busid (record b { interf_count = 0 })).0 {
      sdev = false;
    } in
    if is_alloc closed.status
    then record closed { status = added }
    else record closed { status = other }

unfoldable pub disconnect_last : List BusIdPriv → List ℕ → BusIdPriv → List BusIdPriv
disconnect_last table busid b =
    let freed : List BusIdPriv = put_busid_priv free_busid table busid in
    if is_alloc b.status then freed else (del_match_busid freed busid).1

-- stub_disconnect, for an interface whose data is set or not; `own` says whether the event handler
-- of the device is the caller. The table, and whether SDEV_EVENT_REMOVED was raised; `none` for
-- BUG() and where the code follows a NULL pointer.
unfoldable pub disconnect : Bool → Bool → List BusIdPriv → List ℕ → Option (List BusIdPriv × Bool)
unfolding disconnect_last
disconnect intfdata own table busid = elim (get_busid_priv table busid) [
  | none ↦ none
  | some b ↦
      let one_less : BusIdPriv → BusIdPriv =
        λ b. record b { interf_count = u32 (b.interf_count + (2 ^ 32 - 1)) } in
      if not intfdata
      then some (table, false)
      else if not b.sdev
      then none
      else if own
      then some (put_busid_priv one_less table busid, false)
      else if is_shared b.interf_count
      then some
          (put_busid_priv (λ b. (shutdown_busid (one_less b)).0) table busid, (shutdown_busid b).1)
      else some (disconnect_last table busid b, (shutdown_busid b).1)
]
