-- ===== src/Core/Events/Handler.antt =====
-- Theorems on event_handler (usbip_event.c).
use usbip.Base.{ℕ, suc, ◌≡◌, some, arith, if◌then◌else◌}
use usbip.Core.Events.{Events, EhOps, no_event, handle_events, event_handler}

module _ {D : Type 0} (ops : EhOps D) where
  -- The operations that are due, applied in the order shutdown, reset, unusable.
  abbrev pub due : Events → D → D
  due e d =
      let d1 : D = if e.shutdown then (ops.shutdown d).0 else d in
      let d2 : D = if e.reset then (ops.reset d1).0 else d1 in
      if e.unusable then (ops.unusable d2).0 else d2

  -- An operation that raises no event of its own.
  abbrev pub IsQuiet : Type 0
  IsQuiet =
      ((d : D) → (ops.shutdown d).1 ≡ no_event)
      × ((d : D) → (ops.reset d).1 ≡ no_event)
      × ((d : D) → (ops.unusable d).1 ≡ no_event)

  -- With operations that raise no event the handler ends in two rounds: it has applied those whose
  -- bit was set, in the order shutdown, reset, unusable, cleared their bits, and it tells its thread
  -- to stop exactly when the bye bit is set, which stays.
  pub event_handler-due :
      (fuel : ℕ) (d : D) (e : Events)
      → IsQuiet
      → event_handler ops (suc (suc fuel)) (d, e)
        ≡ some ((due e d, record no_event { bye = e.bye }), e.bye)
  unfolding event_handler handle_events
  event_handler-due fuel d e (q1, q2, q3) =
      let d1 : D = if e.shutdown then (ops.shutdown d).0 else d in
      let d2 : D = if e.reset then (ops.reset d1).0 else d1 in
      ground (arith, q1 d, q2 d, q2 (ops.shutdown d).0, q3 d1, q3 d2)
