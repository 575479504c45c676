-- ===== src/Filter/Ptp/Container.antt =====
-- Streams of PTP containers, and what ptp_parse is to make of them (filter_ptp.c).
use usbip.Base.{
  ℕ, ◌+◌, ◌/◌, ◌%◌, ◌^◌, ◌<◌, Bool, false, ◌||◌, List, [], ◌∷◌, ◌++◌, u32, length, ◌==◌,
  if◌then◌else◌,
}
use usbip.Filter.Ptp.{Ptp, Machine, Which, no_phase, wait_response, container_response}
use usbip.Filter.Ptp.Parse.{cpu_to_le32, rewritten}

-- A container of PTP: one phase of a transaction.
pub record Container : Type 0 where
  pub pdu_type : ℕ
  pub code : ℕ
  pub trans_id : ℕ
  pub payload : List ℕ

-- It is a command, a data phase or a response, and its fields hold 16 and 32 bits.
pub record IsContainer (c : Container) : Type 0 where
  pub pdu_type : (0 < c.pdu_type) × (c.pdu_type < 4)
  pub code : c.code < 2 ^ 16
  pub trans_id : c.trans_id < 2 ^ 32

abbrev pub pdu_length : Container → ℕ
pdu_length c = 12 + length c.payload

-- The fields length, type and code.
abbrev pub fields : Container → List ℕ
fields c =
    cpu_to_le32 (pdu_length c)
    ++ (c.pdu_type % 256 ∷ c.pdu_type / 2 ^ 8 % 256 ∷ c.code % 256 ∷ c.code / 2 ^ 8 % 256 ∷ [])

-- Its bytes on the wire, with these bytes in the field trans_id.
abbrev pub encoded : Container → List ℕ → List ℕ
encoded c raw = fields c ++ (raw ++ c.payload)

-- The header of a machine after a container, and the state it is left in.
abbrev pub ended : Container → Machine
ended c = record {
  state = if c.pdu_type == container_response then no_phase else wait_response;
  size = 12;
  pdu_length = pdu_length c;
  pdu_type = c.pdu_type;
  pdu_code = c.code;
  pdu_trans_id = c.trans_id;
}

-- The filter after a container: each response that the client is not served from the buffer is
-- counted.
abbrev pub counted : Bool → Ptp → Container → Ptp
counted serving f c =
    if c.pdu_type == container_response
    then (if serving then f else record f { trans_id = u32 (f.trans_id + 1) })
    else f

-- The bytes of a stream of containers.
abbrev pub stream : List Container → List ℕ
stream [] = []
stream (c ∷ cs) = encoded c (cpu_to_le32 c.trans_id) ++ stream cs

abbrev pub AreContainers : List Container → Type 0
AreContainers [] = Unit
AreContainers (c ∷ cs) = IsContainer c × AreContainers cs

-- What ptp_parse makes of a stream: the filter, the bytes, the machine, and whether a response ended.
abbrev pub filter_after : Bool → Ptp → List Container → Ptp
filter_after serving f [] = f
filter_after serving f (c ∷ cs) = filter_after serving (counted serving f c) cs

abbrev pub bytes_after : Which → Bool → Ptp → List Container → List ℕ
bytes_after which serving f [] = []
bytes_after which serving f (c ∷ cs) =
    encoded c (rewritten which f (cpu_to_le32 c.trans_id))
    ++ bytes_after which serving (counted serving f c) cs

abbrev pub machine_after : Machine → List Container → Machine
machine_after m [] = m
machine_after m (c ∷ cs) = machine_after (ended c) cs

abbrev pub has_response : List Container → Bool
has_response [] = false
has_response (c ∷ cs) = (c.pdu_type == container_response) || has_response cs
