-- ===== src/Stub/Busid/Table.antt =====
-- Theorems on adding and deleting bus ids (stub_main.c).
use usbip.Base.{
  ℕ, suc, ◌<◌, ◌≡◌, refl, true, false, List, [], ◌∷◌, Option, none, some, arith, take, length,
  ==-refl, Option-cases, Bool-cases, inl, inr, take_all, length-take,
}
use usbip.Stub.Busid.{
  BusIdPriv, BusidStatus, added, alloc, get_busid_idx, get_busid_priv, add_free, add_entry,
  add_match_busid, del_at, del_entry, del_match_busid, may_claim, matches, same_bytes, busid_size,
  is_named,
}

same_bytes_refl : (xs : List ℕ) → same_bytes xs xs ≡ true
unfolding same_bytes
same_bytes_refl [] = refl
same_bytes_refl (x ∷ xs) = ground (arith, ==-refl x, same_bytes_refl xs)

-- The status of the entry that is found.
abbrev pub status_of : List BusIdPriv → List ℕ → Option BusidStatus
status_of table busid = elim (get_busid_priv table busid) [ none ↦ none | some b ↦ some b.status ]

del_entry-added : (b : BusIdPriv) → b.status ≡ added → del_entry b ≡ b
del_entry-added b h = ground (arith, h)

pub get_busid_idx-status :
    (table : List BusIdPriv) (busid : List ℕ) (s : BusidStatus)
    → status_of table busid ≡ some s
    → (i : ℕ) × (get_busid_idx table busid ≡ some i)
unfolding get_busid_priv get_busid_idx
get_busid_idx-status [] busid s h = ground (arith, h)
get_busid_idx-status (b ∷ bs) busid s h = elim (Bool-cases (matches busid b)) [
  | inl e ↦ (0, ground (arith, e))
  | inr e ↦
      let rest = get_busid_idx-status bs busid s (ground (arith, h, e)) in
      (suc rest.0, ground (arith, e, rest.1))
]

del_at-added :
    (table : List BusIdPriv) (busid : List ℕ)
    → status_of table busid ≡ some added
    → del_at table busid ≡ table
unfolding get_busid_priv del_at
del_at-added [] busid h = refl
del_at-added (b ∷ bs) busid h = elim (Bool-cases (matches busid b)) [
  | inl e ↦ ground (arith, e, del_entry-added b (ground (arith, h, e)))
  | inr e ↦ ground (arith, e, del_at-added bs busid (ground (arith, h, e)))
]

may_claim-added :
    (table : List BusIdPriv) (busid : List ℕ)
    → status_of table busid ≡ some added
    → may_claim table busid ≡ true
unfolding may_claim
may_claim-added table busid h = elim (Option-cases (get_busid_priv table busid)) [
  | inl e ↦ ground (arith, h, e)
  | inr (b, e) ↦ ground (arith, h, e)
]

-- Deleting a bus id whose entry is marked as added succeeds and leaves the table as it was, so the
-- driver goes on claiming its devices.
pub del_match_busid-added :
    (table : List BusIdPriv) (busid : List ℕ)
    → status_of table busid ≡ some added
    → (del_match_busid table busid ≡ (true, table)) × (may_claim table busid ≡ true)
unfolding del_match_busid
del_match_busid-added table busid e = (
  ground (arith, del_at-added table busid e, (get_busid_idx-status table busid added e).1),
  may_claim-added table busid e,
)

del_at-alloc :
    (table : List BusIdPriv) (busid : List ℕ)
    → status_of table busid ≡ some alloc
    → may_claim (del_at table busid) busid ≡ false
unfolding get_busid_priv del_at may_claim
del_at-alloc [] busid h = ground (arith, h)
del_at-alloc (b ∷ bs) busid h = elim (Bool-cases (matches busid b)) [
  | inl e ↦ ground (arith, e, h)
  | inr e ↦ ground (arith, e, del_at-alloc bs busid (ground (arith, h, e)))
]

-- Deleting a bus id of which a device is in use succeeds, and the driver claims no device of that
-- bus id any more.
pub del_match_busid-alloc :
    (table : List BusIdPriv) (busid : List ℕ)
    → status_of table busid ≡ some alloc
    → ((del_match_busid table busid).0 ≡ true)
      × (may_claim (del_match_busid table busid).1 busid ≡ false)
unfolding del_match_busid
del_match_busid-alloc table busid e =
    let found = get_busid_idx-status table busid alloc e in
    (ground (arith, found.1), ground (arith, found.1, del_at-alloc table busid e))

matches-named :
    (b : BusIdPriv) (busid : List ℕ)
    → 0 < length busid
    → b.name ≡ take busid_size busid
    → matches busid b ≡ true
matches-named b [] pos h = absurd (omega arith)
matches-named b (c ∷ cs) pos h =
    let twice : take busid_size (take busid_size (c ∷ cs)) ≡ take busid_size (c ∷ cs) =
      take_all busid_size (take busid_size (c ∷ cs))
        (omega (arith, length-take busid_size (c ∷ cs))) in
    rw (h, twice, same_bytes_refl (take busid_size (c ∷ cs)))

get_busid_idx-here :
    (b : BusIdPriv) (bs : List BusIdPriv) (busid : List ℕ)
    → matches busid b ≡ true
    → (i : ℕ) × (get_busid_idx (b ∷ bs) busid ≡ some i)
unfolding get_busid_idx
get_busid_idx-here b bs busid h = (0, ground (arith, h))

get_busid_idx-next :
    (b : BusIdPriv) (bs : List BusIdPriv) (busid : List ℕ)
    → ((i : ℕ) × (get_busid_idx bs busid ≡ some i))
    → (i : ℕ) × (get_busid_idx (b ∷ bs) busid ≡ some i)
unfolding get_busid_idx
get_busid_idx-next b bs busid (i, h) = elim (Bool-cases (matches busid b)) [
  | inl e ↦ (0, ground (arith, e))
  | inr e ↦ (suc i, ground (arith, e, h))
]

get_busid_idx-rest :
    (b : BusIdPriv) (bs : List BusIdPriv) (busid : List ℕ)
    → get_busid_idx (b ∷ bs) busid ≡ none
    → get_busid_idx bs busid ≡ none
unfolding get_busid_idx
get_busid_idx-rest b bs busid h = ground (arith, h)

add_free-found :
    (table t : List BusIdPriv) (busid : List ℕ)
    → 0 < length busid
    → get_busid_idx table busid ≡ none
    → add_free table busid ≡ some t
    → (i : ℕ) × (get_busid_idx t busid ≡ some i)
unfolding add_free
add_free-found [] t busid pos h e = absurd (ground arith)
add_free-found (b ∷ bs) t busid pos h e = elim (Bool-cases (is_named b)) [
  | inl n ↦ elim (Option-cases (add_free bs busid)) [
    | inl f ↦ absurd (ground (arith, e, n, f))
    | inr (rest, f) ↦
        let shape : t ≡ b ∷ rest = ground (arith, e, n, f) in
        rw shape (
          get_busid_idx-next b rest busid
            (add_free-found bs rest busid pos (get_busid_idx-rest b bs busid h) f))
  ]
  | inr n ↦
      let shape : t ≡ add_entry b busid ∷ bs = ground (arith, e, n) in
      rw shape (
        get_busid_idx-here (add_entry b busid) bs busid
          (matches-named (add_entry b busid) busid pos refl))
]

-- A bus id, not empty, that was added is found in the table.
pub add_match_busid-found :
    (table : List BusIdPriv) (busid : List ℕ)
    → 0 < length busid
    → (add_match_busid table busid).0 ≡ true
    → (i : ℕ) × (get_busid_idx (add_match_busid table busid).1 busid ≡ some i)
unfolding add_match_busid
add_match_busid-found table busid pos h = elim (Option-cases (get_busid_idx table busid)) [
  | inr (i, e) ↦ (i, ground (arith, e))
  | inl e ↦ elim (Option-cases (add_free table busid)) [
    | inl n ↦ absurd (ground (arith, h, e, n))
    | inr (t, n) ↦ let r = add_free-found table t busid pos e n in (r.0, ground (arith, e, n, r.1))
  ]
]
