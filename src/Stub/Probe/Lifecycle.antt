-- ===== src/Stub/Probe/Lifecycle.antt =====
-- Theorems on claiming a device and letting it go (stub_dev.c, stub_main.c).
use usbip.Base.{
  ℕ, ◌≡◌, refl, sym, ap, ◌∙◌, Bool, true, false, ◌&&◌, List, [], ◌∷◌, some, arith, Bool-cases, inl,
  inr,
}
use usbip.Stub.Busid.{
  BusIdPriv, added, alloc, remov, other, get_busid_priv, del_match_busid, matches, del_at,
  del_entry, same_name,
}
use usbip.Stub.Busid.Table.{status_of, get_busid_idx-status}
use usbip.Stub.Probe.{
  Found, put_busid_priv, probe, probe_new, disconnect, disconnect_last, free_busid,
}

-- A change of an entry that leaves its name.
abbrev KeepsName : (BusIdPriv → BusIdPriv) → Type 0
KeepsName f = (b : BusIdPriv) → (f b).name ≡ b.name

matches-same :
    (busid : List ℕ) (a b : BusIdPriv) → a.name ≡ b.name → matches busid a ≡ matches busid b
matches-same busid a b e =
    ap (λ n. (elim n as (λ _. Bool) [ [] ↦ false | c ∷ cs ↦ true ]) && same_name n busid) e

get-put :
    (f : BusIdPriv → BusIdPriv) (table : List BusIdPriv) (busid : List ℕ) (b : BusIdPriv)
    → KeepsName f
    → get_busid_priv table busid ≡ some b
    → get_busid_priv (put_busid_priv f table busid) busid ≡ some (f b)
unfolding get_busid_priv put_busid_priv
get-put f [] busid b k e = absurd (ground arith)
get-put f (a ∷ rest) busid b k e = elim (Bool-cases (matches busid a)) [
  | inl m ↦
      let same : a ≡ b = ground (arith, m, e) in
      rw (m, matches-same busid (f a) a (k a), m) (ap (λ c. some (f c)) same)
  | inr m ↦ ground (arith, m, get-put f rest busid b k (ground (arith, m, e)))
]

put-put :
    (f g : BusIdPriv → BusIdPriv) (table : List BusIdPriv) (busid : List ℕ)
    → KeepsName f
    → put_busid_priv g (put_busid_priv f table busid) busid
      ≡ put_busid_priv (λ b. g (f b)) table busid
unfolding put_busid_priv
put-put f g [] busid k = refl
put-put f g (a ∷ rest) busid k = elim (Bool-cases (matches busid a)) [
  | inl m ↦ rw (m, matches-same busid (f a) a (k a), m) refl
  | inr m ↦ rw (m, m, put-put f g rest busid k) refl
]

put-same :
    (f g : BusIdPriv → BusIdPriv) (table : List BusIdPriv) (busid : List ℕ) (b : BusIdPriv)
    → get_busid_priv table busid ≡ some b
    → f b ≡ g b
    → put_busid_priv f table busid ≡ put_busid_priv g table busid
unfolding put_busid_priv get_busid_priv
put-same f g [] busid b e s = refl
put-same f g (a ∷ rest) busid b e s = elim (Bool-cases (matches busid a)) [
  | inl m ↦
      let same : a ≡ b = ground (arith, m, e) in
      rw m (ap (λ c. c ∷ rest) (ap f same ∙ s ∙ sym (ap g same)))
  | inr m ↦ rw (m, put-same f g rest busid b (ground (arith, m, e)) s) refl
]

del_at-put :
    (table : List BusIdPriv) (busid : List ℕ)
    → del_at table busid ≡ put_busid_priv del_entry table busid
unfolding del_at put_busid_priv
del_at-put [] busid = refl
del_at-put (a ∷ rest) busid = rw (del_at-put rest busid) refl

del-put :
    (table : List BusIdPriv) (busid : List ℕ) (b : BusIdPriv)
    → get_busid_priv table busid ≡ some b
    → del_match_busid table busid ≡ (true, put_busid_priv del_entry table busid)
unfolding del_match_busid
del-put table busid b e =
    let (i, found) = get_busid_idx-status table busid b.status (rw (status_of, e) refl) in
    rw (del_match_busid, found, del_at-put table busid) refl

-- What stub_probe makes of an entry, `del` in between, and stub_disconnect at last.
abbrev pub claimed : BusIdPriv → BusIdPriv
claimed b = record b { interf_count = 1; shutdown_busid = false; sdev = true; status = alloc }

abbrev pub let_go : BusIdPriv → BusIdPriv
let_go b = record b { interf_count = 0; shutdown_busid = true; sdev = false; status = added }

abbrev pub freed : BusIdPriv → BusIdPriv
freed b = record b {
  name = [];
  interf_count = 0;
  shutdown_busid = true;
  sdev = false;
  status = other;
}

-- A device that the driver can use, with memory and files.
abbrev pub usable : Found
usable = record { is_hub = false; on_vhci = false; memory = true; add_files = 0 }

probe-claimed :
    (table : List BusIdPriv) (busid : List ℕ) (b : BusIdPriv)
    → get_busid_priv table busid ≡ some b
    → b.status ≡ added
    → probe usable table busid ≡ (0, put_busid_priv claimed table busid, true)
unfolding probe probe_new
probe-claimed table busid b e s = rw (probe, e, s) refl

disconnect-let_go :
    (table : List BusIdPriv) (busid : List ℕ) (b : BusIdPriv)
    → get_busid_priv table busid ≡ some (claimed b)
    → disconnect true false table busid ≡ some (put_busid_priv let_go table busid, true)
unfolding disconnect disconnect_last
disconnect-let_go table busid b e =
    rw (disconnect, e, put-same free_busid let_go table busid (claimed b) e refl) refl

abbrev removed : BusIdPriv → BusIdPriv
removed b = record (claimed b) { status = remov }

free_busid-KeepsName : KeepsName free_busid
free_busid-KeepsName b = ground arith

disconnect-freed :
    (table : List BusIdPriv) (busid : List ℕ) (b : BusIdPriv)
    → get_busid_priv table busid ≡ some (removed b)
    → disconnect true false table busid ≡ some (put_busid_priv freed table busid, true)
unfolding disconnect disconnect_last
disconnect-freed table busid b e =
    rw
      (
        disconnect,
        e,
        del-put (put_busid_priv free_busid table busid) busid (free_busid (removed b))
            (get-put free_busid table busid (removed b) free_busid-KeepsName e),
        put-put free_busid del_entry table busid free_busid-KeepsName,
        put-same (λ b. del_entry (free_busid b)) freed table busid (removed b) e refl,
      )
      refl

-- stub_probe claims a usable device whose bus id is marked as added, and marks it as in use;
-- stub_disconnect of its last interface raises SDEV_EVENT_REMOVED and marks the bus id as added
-- again. If the bus id was deleted in between, stub_disconnect frees its entry. No other entry of
-- the table changes.
pub probe-disconnect :
    (table : List BusIdPriv) (busid : List ℕ) (b : BusIdPriv)
    → get_busid_priv table busid ≡ some b
    → b.status ≡ added
    → (t : List BusIdPriv) × (probe usable table busid ≡ (0, t, true))
      × (get_busid_priv t busid ≡ some (claimed b))
      × (disconnect true false t busid ≡ some (put_busid_priv let_go table busid, true))
      × (disconnect true false (del_match_busid t busid).1 busid
          ≡ some (put_busid_priv freed table busid, true))
probe-disconnect table busid b e s =
    let found : get_busid_priv (put_busid_priv claimed table busid) busid ≡ some (claimed b) =
      get-put claimed table busid b (λ b. refl) e in
    let deleted : del_match_busid (put_busid_priv claimed table busid) busid
        ≡ (true, put_busid_priv removed table busid) =
      del-put (put_busid_priv claimed table busid) busid (claimed b) found
      ∙ ap (λ t. (true, t)) (put-put claimed del_entry table busid (λ b. refl)) in
    let found_removed = get-put removed table busid b (λ b. refl) e in
    (
      put_busid_priv claimed table busid,
      probe-claimed table busid b e s,
      found,
      disconnect-let_go (put_busid_priv claimed table busid) busid b found
          ∙ ap (λ t. some (t, true)) (put-put claimed let_go table busid (λ b. refl)),
      ap (λ r. disconnect true false r.1 busid) deleted
          ∙ disconnect-freed (put_busid_priv removed table busid) busid b found_removed
          ∙ ap (λ t. some (t, true)) (put-put removed freed table busid (λ b. refl)),
    )
