-- ===== src/Examples/Hub.antt =====
-- The theorems on the root hub, at concrete inputs.
use usbip.Base.{
  ℕ, suc, ◌*◌, ◌<◌, ◌≡◌, refl, true, false, List, [], ◌∷◌, some, arith, ltb, ◌==◌, ◌&&◌,
}
use usbip.Vhci.State.{Hcd}
use usbip.Vhci.Connection.{store_attach, valid_args}
use usbip.Vhci.RootHub.{
  Clock, Answer, no_answer, hub_control, hub_status, set_port_feature, get_port_status, feat_reset,
}
use usbip.Vhci.RootHub.Control.{Untouched, hub_control_within}
use usbip.Vhci.RootHub.Changes.{changed_at, hub_status_reports}
use usbip.Vhci.RootHub.Reset.{IsReset, attach_enables}
use usbip.Examples.States.{idle, controller}

-- A clock with four ticks to the millisecond that does not wrap around.
abbrev clock_at : ℕ → Clock
clock_at now = record {
  jiffies = now;
  msecs_to_jiffies = λ ms. 4 * ms;
  time_after = λ a b. ltb b a;
}

hub_control_within_example :
    (r : ℕ × Answer × Hcd (List ℕ)) × (hub_control true
        (clock_at 100)
        controller
        set_port_feature
        feat_reset
        1
      ≡ some r)
    × Untouched controller r.2 0
hub_control_within_example =
    hub_control_within true (clock_at 100) controller set_port_feature feat_reset 1 (omega arith)
      (omega arith) (omega arith)

abbrev unplugged : Hcd (List ℕ)
unplugged = record controller { port_status = λ p bit. p == 3 && bit == 16 }

hub_status_reports_example :
    ((p : ℕ) → p < 8 → (hub_status true unplugged).1 (suc p) ≡ changed_at unplugged p)
    × ((p : ℕ) → p < 8 → changed_at unplugged p ≡ true → (hub_status true unplugged).0 ≡ 2)
    × (((p : ℕ) → p < 8 → changed_at unplugged p ≡ false) → (hub_status true unplugged).0 ≡ 0)
    × ((hub_status true unplugged).2 ≡ (unplugged.suspended && (hub_status true unplugged).0 == 2))
hub_status_reports_example = hub_status_reports unplugged

attach_enables_example :
    (h1 : Hcd (List ℕ)) × (h2 : Hcd (List ℕ)) × (h3 : Hcd (List ℕ)) × (answer : Answer)
    × (store_attach idle 12 2 (some (1 ∷ [])) 65538 3 ≡ (12, h1))
    × ((hub_status true h1).1 3 ≡ true)
    × (hub_control true (clock_at 100) h1 set_port_feature feat_reset 3 ≡ some (0, no_answer, h2))
    × (hub_control true (clock_at 400) h2 get_port_status 0 3 ≡ some (0, answer, h3))
    × IsReset h3 2
unfolding valid_args
attach_enables_example =
    attach_enables idle 12 2 (1 ∷ []) 65538 3 (clock_at 100) (clock_at 400) (omega arith) refl refl
      refl refl
