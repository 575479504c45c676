-- ===== src/Stub/Busid.antt =====
-- stub_main.c: the table of the bus ids that the driver may claim, and the test of stub_probe.
pub mod Table
use usbip.Base.{
  ℕ, zero, suc, ◌+◌, ◌-◌, ◌≤◌, ◌<◌, Bool, true, false, not, ◌&&◌, ◌||◌, List, [], ◌∷◌, ◌++◌, Option,
  none, some, neg, u32, enodev, enomem, einval, take, drop, length, ltb, ◌==◌, if◌then◌else◌,
}

pub data BusidStatus : Type 0 where
  other remov added alloc : BusidStatus

-- `struct bus_id_priv`. A name is a C string, its bytes up to the NUL; `name[0]` is 0 if there are
-- none. `sdev` says whether a stub device is there.
pub record BusIdPriv : Type 0 where
  pub name : List ℕ
  pub status : BusidStatus
  pub interf_count : ℕ
  pub sdev : Bool
  pub shutdown_busid : Bool

abbrev pub max_busid : ℕ
max_busid = 16

abbrev pub busid_size : ℕ
busid_size = 32

abbrev pub is_other : BusidStatus → Bool
is_other other = true
is_other _ = false

abbrev pub is_added : BusidStatus → Bool
is_added added = true
is_added _ = false

abbrev pub is_remov : BusidStatus → Bool
is_remov remov = true
is_remov _ = false

abbrev pub is_alloc : BusidStatus → Bool
is_alloc alloc = true
is_alloc _ = false

unfoldable pub same_bytes : List ℕ → List ℕ → Bool
same_bytes [] [] = true
same_bytes [] (y ∷ ys) = false
same_bytes (x ∷ xs) [] = false
same_bytes (x ∷ xs) (y ∷ ys) = x == y && same_bytes xs ys

-- `!strncmp(a, b, BUSID_SIZE)`
abbrev pub same_name : List ℕ → List ℕ → Bool
same_name a b = same_bytes (take busid_size a) (take busid_size b)

-- `name[0]`
abbrev pub is_named : BusIdPriv → Bool
is_named b = elim b.name [ [] ↦ false | c ∷ cs ↦ true ]

abbrev pub matches : List ℕ → BusIdPriv → Bool
matches busid b = is_named b && same_name b.name busid

-- get_busid_idx; `none` is -1.
unfoldable pub get_busid_idx : List BusIdPriv → List ℕ → Option ℕ
get_busid_idx [] busid = none
get_busid_idx (b ∷ bs) busid =
    let rest : Option ℕ = elim (get_busid_idx bs busid) [ none ↦ none | some i ↦ some (suc i) ] in
    if matches busid b then some zero else rest

-- get_busid_priv
unfoldable pub get_busid_priv : List BusIdPriv → List ℕ → Option BusIdPriv
get_busid_priv [] busid = none
get_busid_priv (b ∷ bs) busid = if matches busid b then some b else get_busid_priv bs busid

-- What add_match_busid does to the entry that it takes.
abbrev pub add_entry : BusIdPriv → List ℕ → BusIdPriv
add_entry b busid = record b {
  name = take busid_size busid;
  status = if (is_alloc b.status || is_remov b.status) then b.status else added;
}

-- The loop of add_match_busid: the name goes into the first free entry; `none` if there is none.
unfoldable pub add_free : List BusIdPriv → List ℕ → Option (List BusIdPriv)
add_free [] busid = none
add_free (b ∷ bs) busid =
    let rest : Option (List BusIdPriv) = elim (add_free bs busid) [
      | none ↦ none
      | some t ↦ some (b ∷ t)
    ] in
    if is_named b then rest else some (add_entry b busid ∷ bs)

-- add_match_busid: whether it returned 0, and the table.
unfoldable pub add_match_busid : List BusIdPriv → List ℕ → Bool × List BusIdPriv
add_match_busid table busid = elim (get_busid_idx table busid) [
  | some i ↦ (true, table)
  | none ↦ elim (add_free table busid) [ none ↦ (false, table) | some t ↦ (true, t) ]
]

-- What del_match_busid does to the entry that it finds.
abbrev pub del_entry : BusIdPriv → BusIdPriv
del_entry b =
    let cleared : BusIdPriv = if is_other b.status then record b { name = [] } else b in
    if (is_other cleared.status || is_added cleared.status)
    then cleared
    else record cleared { status = remov }

unfoldable pub del_at : List BusIdPriv → List ℕ → List BusIdPriv
del_at [] busid = []
del_at (b ∷ bs) busid = if matches busid b then del_entry b ∷ bs else b ∷ del_at bs busid

-- del_match_busid
unfoldable pub del_match_busid : List BusIdPriv → List ℕ → Bool × List BusIdPriv
del_match_busid table busid = elim (get_busid_idx table busid) [
  | none ↦ (false, table)
  | some i ↦ (true, del_at table busid)
]

-- The bytes of a C string, at most `n`: strnlen and strncpy.
unfoldable pub c_string : ℕ → List ℕ → List ℕ
c_string zero bytes = []
c_string (suc n) [] = []
c_string (suc n) (b ∷ bs) = let rest : List ℕ = c_string n bs in if b == 0 then [] else b ∷ rest

-- store_match_busid on the bytes written: the result, an `int`, and the table. The words are
-- "add " and "del ".
unfoldable pub store_match_busid : List BusIdPriv → List ℕ → ℕ × List BusIdPriv
store_match_busid table buf =
    let busid : List ℕ = c_string busid_size (drop 4 buf) in
    let added_to = add_match_busid table busid in
    let deleted = del_match_busid table busid in
    let word : List ℕ = take 4 buf in
    if ltb (length buf) 5
    then (neg einval, table)
    else if not (ltb (length busid) busid_size)
    then (neg einval, table)
    else if same_bytes word (b'a' ∷ b'd' ∷ b'd' ∷ b' ' ∷ [])
    then (if added_to.0 then (length buf, added_to.1) else (neg enomem, table))
    else if same_bytes word (b'd' ∷ b'e' ∷ b'l' ∷ b' ' ∷ [])
    then (if deleted.0 then (length buf, deleted.1) else (neg enodev, table))
    else (neg einval, table)

-- The first test of stub_probe: whether the driver goes on with a device of that bus id.
unfoldable pub may_claim : List BusIdPriv → List ℕ → Bool
may_claim table busid = elim (get_busid_priv table busid) [
  | none ↦ false
  | some b ↦ not (is_remov b.status || is_other b.status)
]
