-- ===== src/Filter/Ptp/Session.antt =====
-- Theorems on ptp_check_new_session (filter_ptp.c).
use usbip.Base.{ℕ, ◌≡◌, refl, true, false, ◌||◌, List, arith, ◌==◌, if◌then◌else◌}
use usbip.Filter.Ptp.{
  Ptp, Machine, rx, FilterState, idle, done, deadlock, change_state, check_new_session,
  container_command, open_session, close_session,
}
use usbip.Filter.Ptp.Parse.{bypass1, stuck}

-- A machine that has read the header of an OpenSession or CloseSession request.
pub record IsSession (m : Machine) : Type 0 where
  pub pdu_type : m.pdu_type ≡ container_command
  pub code : (m.pdu_code == open_session || m.pdu_code == close_session) ≡ true

change_state-locked : (f : Ptp) (st : FilterState) → (change_state f st).locked ≡ f.locked
unfolding change_state
change_state-locked f st = ground arith

-- The filter after such a request.
abbrev pub after_session : Ptp → Machine → Ptp
after_session f m =
    change_state
      (record f { locked = true; trans_id = if m.pdu_code == open_session then 0 else f.trans_id })
      idle

after_session-locked : (f : Ptp) (m : Machine) → (after_session f m).locked ≡ true
after_session-locked f m = change_state-locked _ idle

-- A request of the client that opens or closes a session leaves the lock of the filter held: where
-- the parser then meets such a request, or gives up, it waits for the lock without end.
pub session_deadlocks :
    (f : Ptp) (m m' : Machine) (bytes : List ℕ)
    → IsSession m
    → IsSession m'
    → f.locked ≡ false
    → (check_new_session rx f m ≡ done (after_session f m))
      × (check_new_session rx (after_session f m) m' ≡ deadlock)
      × (bypass1 (after_session f m) m' bytes ≡ stuck)
unfolding check_new_session
session_deadlocks f m m' bytes i i' free = (
  rw (check_new_session, i.pdu_type, i.code, free) refl,
  rw (check_new_session, i'.pdu_type, i'.code, after_session-locked f m) refl,
  rw (after_session-locked f m) refl,
)
