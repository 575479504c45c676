-- ===== src/Filter/Ptp/Parse.antt =====
-- filter_ptp.c: ptp_parse, which follows the phases of a PTP transaction and rewrites its numbers.
use usbip.Base.{
  ℕ, zero, suc, ◌+◌, ◌-◌, ◌*◌, ◌/◌, ◌%◌, ◌^◌, Bool, true, false, not, ◌||◌, List, [], ◌∷◌, ◌++◌,
  Option, none, some, u32, ltb, length, take, drop, ◌==◌, if◌then◌else◌,
}
use usbip.Filter.Ptp.{
  Ptp, Machine, Which, rx, tx, self, send, ParserState, no_phase, data_phase, response_phase,
  command_phase, unknown_phase, wait_response, done, deadlock, bypassed, change_state,
  check_new_session, container_command, container_data, container_response, is_rx,
}

-- The loop of ptp_parse: the filter, the machine, the bytes before `data` as they are now, those from
-- `data` on, the variable `length`, and `done`.
pub record Scan : Type 0 where
  pub filter : Ptp
  pub machine : Machine
  pub before : List ℕ
  pub data_bytes : List ℕ
  pub length : ℕ
  pub is_done : Bool

-- How a round ends: the loop goes on; ptp_bypass1 returns, with the bytes as they are then; the code reads past the end of the buffer;
-- it waits for a lock without end.
pub data Round : Type 0 where
  running : Scan → Round
  bypass : Ptp → Machine → List ℕ → Round
  overrun : Round
  stuck : Round

-- `struct PTPUSBBulkHeader` as it lies in memory: length, type, code and the four bytes of trans_id,
-- and the bytes behind it.
pub record BulkHeader : Type 0 where
  pub pdu_length : ℕ
  pub pdu_type : ℕ
  pub code : ℕ
  pub fields : List ℕ
  pub trans_id : List ℕ
  pub rest : List ℕ

abbrev pub le32_to_cpu : List ℕ → ℕ
le32_to_cpu (a ∷ b ∷ c ∷ d ∷ []) = a + b * 2 ^ 8 + c * 2 ^ 16 + d * 2 ^ 24
le32_to_cpu _ = 0

abbrev pub cpu_to_le32 : ℕ → List ℕ
cpu_to_le32 x = x % 256 ∷ x / 2 ^ 8 % 256 ∷ x / 2 ^ 16 % 256 ∷ x / 2 ^ 24 % 256 ∷ []

abbrev pub bulk_header_size : ℕ
bulk_header_size = 12

abbrev pub bulk_header : List ℕ → Option BulkHeader
bulk_header (a ∷ b ∷ c ∷ d ∷ e ∷ f ∷ g ∷ h ∷ i ∷ j ∷ k ∷ l ∷ rest) = some (record {
  pdu_length = a + b * 2 ^ 8 + c * 2 ^ 16 + d * 2 ^ 24;
  pdu_type = e + f * 2 ^ 8;
  code = g + h * 2 ^ 8;
  fields = a ∷ b ∷ c ∷ d ∷ e ∷ f ∷ g ∷ h ∷ [];
  trans_id = i ∷ j ∷ k ∷ l ∷ [];
  rest = rest;
})
bulk_header _ = none

-- ptp_bypass1
abbrev pub bypass1 : Ptp → Machine → List ℕ → Round
bypass1 f m bytes =
    let f' : Ptp = change_state f bypassed in if f.locked then stuck else bypass f' m bytes

abbrev pub between : ParserState → Bool
between no_phase = true
between wait_response = true
between _ = false

abbrev pub is_response : ParserState → Bool
is_response response_phase = true
is_response _ = false

-- The case `default` of the switch: the rest of a phase. `serving` says whether the URB is
-- `frame_serving_urb`.
unfoldable pub phase : Which → Bool → Scan → Scan
phase which serving s =
    let m : Machine = s.machine in
    let offset : ℕ = u32 (m.pdu_length + (2 ^ 32 - m.size)) in
    let ended : Scan = record s {
      before = s.before ++ take offset s.data_bytes;
      data_bytes = drop offset s.data_bytes;
      length = u32 (s.length + (2 ^ 32 - offset));
    } in
    let counted : Ptp =
      if is_rx which || serving
      then s.filter
      else record s.filter { trans_id = u32 (s.filter.trans_id + 1) } in
    if ltb (u32 (s.length + m.size)) m.pdu_length
    then record s { machine = record m { size = u32 (m.size + s.length) }; length = 0 }
    else if is_response m.state
    then record ended { filter = counted; machine = record m { state = no_phase }; is_done = true }
    else record ended { machine = record m { state = wait_response } }

-- What is written to the field trans_id of a header, and what is kept of it.
abbrev pub rewritten : Which → Ptp → List ℕ → List ℕ
rewritten rx f raw = cpu_to_le32 f.trans_id
rewritten tx f raw = f.rx_trans_id
rewritten send f raw = cpu_to_le32 f.trans_id
rewritten self f raw = raw

abbrev pub backed_up : Which → Ptp → List ℕ → Ptp
backed_up rx f raw = record f { rx_trans_id = raw }
backed_up _ f raw = f

-- The state of the parser for the type of a header; `none` where ptp_parse gives up.
abbrev pub phase_of : ℕ → Option ParserState
phase_of t =
    if t == container_command
    then some command_phase
    else if t == container_response
    then some response_phase
    else if t == container_data
    then some data_phase
    else none

-- After ptp_check_new_session.
unfoldable pub enter_phase : Which → Bool → Scan → BulkHeader → Machine → Ptp → Round
unfolding phase
enter_phase which serving s header m f =
    let f' : Ptp = backed_up which f header.trans_id in
    let m' : Machine = record m { size = bulk_header_size } in
    let passed : List ℕ = s.before ++ (header.fields ++ rewritten which f header.trans_id) in
    elim (phase_of m.pdu_type) [
      | none ↦ bypass1 f' (record m' { state = unknown_phase }) (passed ++ header.rest)
      | some st ↦ running (
          phase which serving (record s {
            filter = f';
            machine = record m' { state = st };
            before = passed;
            data_bytes = header.rest;
            length = s.length - bulk_header_size;
          }))
    ]

-- One round of the loop.
unfoldable pub round : Which → Bool → Scan → Round
unfolding enter_phase
round which serving s =
    if not (between s.machine.state)
    then running (phase which serving s)
    else if ltb s.length bulk_header_size
    then bypass1 s.filter s.machine (s.before ++ s.data_bytes)
    else elim (bulk_header s.data_bytes) [
      | none ↦ overrun
      | some header ↦
          let m : Machine = record s.machine {
            pdu_length = header.pdu_length;
            pdu_type = header.pdu_type;
            pdu_code = header.code;
            pdu_trans_id = le32_to_cpu header.trans_id;
          } in
          elim (check_new_session which s.filter m) [
            | deadlock ↦ stuck
            | done f ↦ enter_phase which serving s header m f
          ]
    ]

-- The loop, on fuel; `none` means that the fuel ran out.
unfoldable pub parse_loop : ℕ → Which → Bool → Scan → Option Round
parse_loop zero which serving s = none
parse_loop (suc fuel) which serving s =
    if s.length == 0 then some (running s) else elim (round which serving s) [
      | running s' ↦ parse_loop fuel which serving s'
      | bypass f m bytes ↦ some (bypass f m bytes)
      | overrun ↦ some overrun
      | stuck ↦ some stuck
    ]

-- ptp_parse, on the bytes of an URB: the loop, at the end of which `done` is returned.
unfoldable pub parse : Which → Bool → Ptp → Machine → List ℕ → Option Round
unfolding parse_loop
parse which serving f m bytes = parse_loop (suc (length bytes)) which serving (record {
  filter = f;
  machine = m;
  before = [];
  data_bytes = bytes;
  length = length bytes;
  is_done = false;
})
