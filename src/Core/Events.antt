-- ===== src/Core/Events.antt =====
-- The pending events of a device (`ud->event`) and their handler: usbip_common.h, usbip_event.c.
pub mod Handler
use usbip.Base.{
  ℕ, zero, suc, ◌≡◌, refl, Bool, true, false, not, ◌&&◌, ◌||◌, Option, none, some, arith,
  if◌then◌else◌,
}

-- The four bits USBIP_EH_SHUTDOWN, USBIP_EH_BYE, USBIP_EH_RESET and USBIP_EH_UNUSABLE.
pub record Events : Type 0 where
  pub shutdown : Bool
  pub bye : Bool
  pub reset : Bool
  pub unusable : Bool

abbrev pub no_event : Events
no_event = record { shutdown = false; bye = false; reset = false; unusable = false }

-- `a | b`
abbrev pub union : Events → Events → Events
union a b = record {
  shutdown = a.shutdown || b.shutdown;
  bye = a.bye || b.bye;
  reset = a.reset || b.reset;
  unusable = a.unusable || b.unusable;
}

abbrev pub sdev_event_removed : Events
sdev_event_removed = record { shutdown = true; bye = true; reset = true; unusable = false }

abbrev pub sdev_event_down : Events
sdev_event_down = record { shutdown = true; bye = false; reset = true; unusable = false }

abbrev pub sdev_event_error_tcp : Events
sdev_event_error_tcp = record { shutdown = true; bye = false; reset = true; unusable = false }

abbrev pub sdev_event_error_submit : Events
sdev_event_error_submit = record { shutdown = true; bye = false; reset = true; unusable = false }

abbrev pub sdev_event_error_malloc : Events
sdev_event_error_malloc = record { shutdown = true; bye = false; reset = false; unusable = true }

abbrev pub vdev_event_removed : Events
vdev_event_removed = record { shutdown = true; bye = true; reset = false; unusable = false }

abbrev pub vdev_event_down : Events
vdev_event_down = record { shutdown = true; bye = false; reset = true; unusable = false }

abbrev pub vdev_event_error_tcp : Events
vdev_event_error_tcp = record { shutdown = true; bye = false; reset = true; unusable = false }

abbrev pub vdev_event_error_malloc : Events
vdev_event_error_malloc = record { shutdown = true; bye = false; reset = false; unusable = true }

-- usbip_event_happened
abbrev pub event_happened : Events → Bool
event_happened e = e.shutdown || (e.bye || (e.reset || e.unusable))

-- `ud->eh_ops`, on a device of type `D`. An operation may raise events while it runs.
pub record EhOps (D : Type 0) : Type 0 where
  pub shutdown : D → D × Events
  pub reset : D → D × Events
  pub unusable : D → D × Events

module _ {D : Type 0} (ops : EhOps D) where
  -- The three `if` statements of the loop: the operation runs if its bit is set, and the bit is
  -- cleared afterwards, also if it was raised again meanwhile.
  handle_shutdown : D × Events → D × Events
  handle_shutdown (d, e) =
      let (d', raised) = ops.shutdown d in
      if e.shutdown then (d', record (union e raised) { shutdown = false }) else (d, e)

  handle_reset : D × Events → D × Events
  handle_reset (d, e) =
      let (d', raised) = ops.reset d in
      if e.reset then (d', record (union e raised) { reset = false }) else (d, e)

  handle_unusable : D × Events → D × Events
  handle_unusable (d, e) =
      let (d', raised) = ops.unusable d in
      if e.unusable then (d', record (union e raised) { unusable = false }) else (d, e)

  -- One round of the loop.
  unfoldable pub handle_events : D × Events → D × Events
  unfolding handle_shutdown handle_reset handle_unusable
  handle_events s = handle_unusable (handle_reset (handle_shutdown s))

  -- event_handler, on fuel: the device, its events, and whether the handler must stop (-1).
  -- `none` means that the fuel ran out.
  unfoldable pub event_handler : ℕ → D × Events → Option ((D × Events) × Bool)
  event_handler zero s = none
  event_handler (suc fuel) s =
      let s' : D × Events = handle_events s in
      let rest = event_handler fuel s' in
      if event_happened s.1 then (if s'.1.bye then some (s', true) else rest) else some (s, false)
