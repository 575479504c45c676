-- ===== src/Examples/Filters.antt =====
-- The theorems on the PTP filter, at concrete inputs.
use usbip.Base.{◌≡◌, refl, true, false, List, [], ◌∷◌, some, arith, ◌||◌}
use usbip.Filter.Ptp.{
  Ptp, Machine, self, rx, active, no_phase, done, deadlock, check_new_session, open_session,
  close_session, container_command,
}
use usbip.Filter.Ptp.Parse.{running, stuck, bypass1, parse}
use usbip.Filter.Ptp.Container.{
  Container, stream, filter_after, bytes_after, machine_after, has_response, AreContainers,
}
use usbip.Filter.Ptp.Stream.{parse-stream}
use usbip.Filter.Ptp.Session.{after_session, session_deadlocks}

-- An active filter, and a machine between two phases.
abbrev pub filter : Ptp
filter = record {
  state = active;
  vendor = 11;
  locked = false;
  timer = true;
  request_queue = [];
  free_list = [];
  trans_id = 7;
  rx_trans_id = 1 ∷ 0 ∷ 0 ∷ 0 ∷ [];
}

abbrev pub machine : Machine
machine = record {
  state = no_phase;
  size = 0;
  pdu_length = 0;
  pdu_type = 0;
  pdu_code = 0;
  pdu_trans_id = 0;
}

-- A data phase of three bytes and a response.
abbrev phases : List Container
phases =
    record { pdu_type = 2; code = 0x9153; trans_id = 7; payload = 1 ∷ 2 ∷ 3 ∷ [] }
    ∷ record { pdu_type = 3; code = 0x2001; trans_id = 7; payload = [] }
    ∷ []

phases-AreContainers : AreContainers phases
phases-AreContainers = (
  record { pdu_type = (omega arith, omega arith); code = omega arith; trans_id = omega arith },
  (
    record { pdu_type = (omega arith, omega arith); code = omega arith; trans_id = omega arith },
    tt,
  ),
)

parse-stream_example :
    parse self false filter machine (stream phases)
    ≡ some (
        running (record {
          filter = filter_after false filter phases;
          machine = machine_after machine phases;
          before = bytes_after self false filter phases;
          data_bytes = [];
          length = 0;
          is_done = has_response phases || false;
        }))
parse-stream_example =
    parse-stream self false filter machine phases phases-AreContainers refl refl (omega arith)

abbrev opening : Machine
opening = record machine { pdu_type = container_command; pdu_code = open_session }

abbrev closing : Machine
closing = record machine { pdu_type = container_command; pdu_code = close_session }

session_deadlocks_example :
    (check_new_session rx filter opening ≡ done (after_session filter opening))
    × (check_new_session rx (after_session filter opening) closing ≡ deadlock)
    × (bypass1 (after_session filter opening) closing [] ≡ stuck)
session_deadlocks_example =
    session_deadlocks filter opening closing [] (record { pdu_type = refl; code = refl })
      (record { pdu_type = refl; code = refl }) refl
