-- ===== src/Filter/Ptp.antt =====
-- filter_ptp.c: the states of the PTP filter and its parser of the bulk transfers.
pub mod Parse
pub mod Container
pub mod Round
pub mod Stream
pub mod Session
use usbip.Base.{
  ℕ, zero, suc, ◌+◌, ◌-◌, ◌*◌, ◌/◌, ◌%◌, ◌^◌, Bool, true, false, not, ◌&&◌, ◌||◌, List, [], ◌∷◌,
  ◌++◌, Option, none, some, u32, ltb, length, take, drop, ◌==◌, if◌then◌else◌,
}

-- `enum ptp_filter_state` and `enum ptp_parser_state`
pub data FilterState : Type 0 where
  init bypassed idle command active busy wait drop_frame sleep sleep_wait : FilterState

pub data ParserState : Type 0 where
  no_phase data_phase response_phase command_phase unknown_phase wait_response : ParserState

-- Which of the four state machines of the filter is meant.
pub data Which : Type 0 where
  tx rx self send : Which

-- `struct ptp_state_machine`, with the fields of its `ptpdu`.
pub record Machine : Type 0 where
  pub state : ParserState
  pub size : ℕ
  pub pdu_length : ℕ
  pub pdu_type : ℕ
  pub pdu_code : ℕ
  pub pdu_trans_id : ℕ

-- A waiting URB, and whether its completion function is ptp_cmd_complete.
pub record Waiting : Type 0 where
  pub urb : ℕ
  pub is_command : Bool

-- `struct ptp_filter`, without the frame buffer. `rx_trans_id` is kept as its four bytes in memory;
-- `locked` says whether the lock is held, `timer` whether the timer is pending.
pub record Ptp : Type 0 where
  pub state : FilterState
  pub vendor : ℕ
  pub locked : Bool
  pub timer : Bool
  pub request_queue : List Waiting
  pub free_list : List Waiting
  pub trans_id : ℕ
  pub rx_trans_id : List ℕ

-- `state < ptpfs_active`
abbrev pub below_active : FilterState → Bool
below_active init = true
below_active bypassed = true
below_active idle = true
below_active command = true
below_active _ = false

abbrev pub is_sleep : FilterState → Bool
is_sleep sleep = true
is_sleep _ = false

unfoldable pub commands : Bool → List Waiting → List Waiting
commands kind [] = []
commands kind (w ∷ ws) =
    let rest : List Waiting = commands kind ws in
    if w.is_command then (if kind then w ∷ rest else rest) else if kind then rest else w ∷ rest

-- ptp_change_state_, past its lock.
unfoldable pub change_state : Ptp → FilterState → Ptp
unfolding commands
change_state f st =
    if below_active st && not (below_active f.state)
    then record f { timer = false; state = st }
    else if is_sleep st
    then record f {
      request_queue = commands false f.request_queue;
      free_list = f.free_list ++ commands true f.request_queue;
      timer = false;
      state = st;
    }
    else record f { state = st }

-- PTP_USB_CONTAINER_COMMAND 1, PTP_USB_CONTAINER_DATA 2, PTP_USB_CONTAINER_RESPONSE 3,
-- PTP_OC_OpenSession 0x1002, PTP_OC_CloseSession 0x1003, PTP_VENDOR_CANON 11 and
-- PTP_OC_CANON_EOS_GetViewFinderData 0x9153 of ptp.h
abbrev pub container_command : ℕ
container_command = 1

abbrev pub container_data : ℕ
container_data = 2

abbrev pub container_response : ℕ
container_response = 3

abbrev pub open_session : ℕ
open_session = 0x1002

abbrev pub close_session : ℕ
close_session = 0x1003

-- ptp_check_preview, for the code of the URB's header.
unfoldable pub check_preview : Ptp → ℕ → Bool
check_preview f code = f.vendor == 11 && code == 0x9153

abbrev pub is_rx : Which → Bool
is_rx rx = true
is_rx _ = false

-- A lock that is held already is waited for without end.
pub data Outcome {ℓ} (A : Type ℓ) : Type ℓ where
  done : A → Outcome A
  deadlock : Outcome A

-- ptp_check_new_session: it takes the lock and does not release it.
unfoldable pub check_new_session : Which → Ptp → Machine → Outcome Ptp
unfolding change_state
check_new_session which f m =
    let opens : Bool = m.pdu_code == open_session in
    let f' : Ptp = record f { locked = true; trans_id = if opens then 0 else f.trans_id } in
    if is_rx which && (m.pdu_type == container_command && (opens || m.pdu_code == close_session))
    then (if f.locked then deadlock else done (change_state f' idle))
    else done f
