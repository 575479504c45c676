-- ===== src/Filter/Registry.antt =====
-- usbip_common.c: the filter drivers, the filters of a device, and how they are asked.
use usbip.Base.{ℕ, ◌==◌, Bool, List, [], ◌∷◌, ◌++◌, Option, none, some, if◌then◌else◌}

-- `struct usbip_filter_driver`, at the address `id`. `D` is what a driver sees of the device that it
-- is asked about, `P` its private data, and `A` what on_rx and on_tx may change.
pub record FilterDriver (D P A : Type 0) : Type 0 where
  pub id : ℕ
  pub probe : Option (D → Option P)
  pub on_rx : Option (P → A → ℕ × A)
  pub on_tx : Option (P → A → ℕ × A)

-- `struct usbip_filter`
pub record Filter (D P A : Type 0) : Type 0 where
  pub drv : FilterDriver D P A
  pub priv : P

-- `drv->on_rx(filter, ...)` and `drv->on_tx(filter, ...)`, where there is such a function.
abbrev pub asked : {P A : Type 0} → Option (P → A → ℕ × A) → P → A → ℕ × A
asked none priv a = (0, a)
asked (some f) priv a = f priv a

module _ {D P A : Type 0} where
  -- usbip_filter_register
  abbrev pub register : List (FilterDriver D P A) → FilterDriver D P A → List (FilterDriver D P A)
  register drivers drv = drivers ++ drv ∷ []

  -- usbip_filter_unregister
  unfoldable pub unregister : List (FilterDriver D P A) → ℕ → List (FilterDriver D P A)
  unregister [] id = []
  unregister (d ∷ ds) id = if d.id == id then ds else d ∷ unregister ds id

  -- `drv->probe(ud, interface)`
  abbrev pub probed : FilterDriver D P A → D → Option P
  probed drv d = elim drv.probe [ none ↦ none | some f ↦ f d ]

  -- usbip_filter_probe; `memory` says whether there is memory for the filter of a driver. The head of
  -- the device's list is put into the ring of the new filter, so that the list then holds this filter
  -- alone.
  unfoldable pub filter_probe :
      (ℕ → Bool) → List (FilterDriver D P A) → D → List (Filter D P A) → List (Filter D P A)
  filter_probe memory [] d filters = filters
  filter_probe memory (drv ∷ ds) d filters =
      let next : Option P → List (Filter D P A) =
        λ o. elim o [ none ↦ filters | some priv ↦ record { drv = drv; priv = priv } ∷ [] ] in
      let rest : List (Filter D P A) = filter_probe memory ds d (next (probed drv d)) in
      elim (probed drv d) [ none ↦ rest | some priv ↦ if memory drv.id then rest else filters ]

  -- usbip_filter_remove, for a driver at an address or for NULL: `!drv && drv != filter->drv` holds
  -- for every filter if `drv` is NULL and for none if it is not.
  abbrev pub filter_remove : Option ℕ → List (Filter D P A) → List (Filter D P A)
  filter_remove none filters = filters
  filter_remove (some id) filters = []

  -- usbip_filter_on_rx and usbip_filter_on_tx: the filters are asked in their order until one takes
  -- over.
  unfoldable pub on_rx : List (Filter D P A) → A → ℕ × A
  on_rx [] a = (0, a)
  on_rx (x ∷ xs) a =
      let (ret, a') = asked x.drv.on_rx x.priv a in
      let rest : ℕ × A = on_rx xs a' in if ret == 0 then rest else (ret, a')

  unfoldable pub on_tx : List (Filter D P A) → A → ℕ × A
  on_tx [] a = (0, a)
  on_tx (x ∷ xs) a =
      let (ret, a') = asked x.drv.on_tx x.priv a in
      let rest : ℕ × A = on_tx xs a' in if ret == 0 then rest else (ret, a')
