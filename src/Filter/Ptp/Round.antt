-- ===== src/Filter/Ptp/Round.antt =====
-- Theorems on one round of the loop of ptp_parse (filter_ptp.c).
use usbip.Base.{
  ℕ, ◌+◌, ◌-◌, ◌*◌, ◌/◌, ◌%◌, ◌^◌, ◌<◌, ◌≡◌, refl, ap, ◌∙◌, Bool, true, false, ◌||◌, List, ◌++◌,
  some, arith, u32, ltb, length, take, drop, take-append_len, drop-append_len, ◌==◌, if◌then◌else◌,
  Bool-cases, inl, inr,
}
use usbip.Filter.Ptp.{
  Ptp, Machine, Which, tx, rx, self, send, ParserState, no_phase, data_phase, response_phase,
  command_phase, wait_response, check_new_session, container_command, container_response, is_rx,
}
use usbip.Filter.Ptp.Parse.{
  Scan, running, phase, enter_phase, round, phase_of, between, is_response, cpu_to_le32, rewritten,
  backed_up, bulk_header, BulkHeader, bulk_header_size,
}
use usbip.Filter.Ptp.Container.{Container, IsContainer, pdu_length, fields, encoded, ended, counted}

-- The rest of a phase that ends inside the buffer.
phase_is :
    (which : Which) (serving : Bool) (s : Scan) (payload tail : List ℕ)
    → s.machine.size ≡ 12
    → s.machine.pdu_length ≡ 12 + length payload
    → s.data_bytes ≡ payload ++ tail
    → s.length ≡ length payload + length tail
    → s.length + 12 < 2 ^ 32
    → is_rx which ≡ false
    → phase which serving s ≡ record s {
      filter =
          if is_response s.machine.state
          then (if serving
              then s.filter
              else record s.filter { trans_id = u32 (s.filter.trans_id + 1) })
          else s.filter;
      machine = record s.machine {
        state = if is_response s.machine.state then no_phase else wait_response;
      };
      before = s.before ++ payload;
      data_bytes = tail;
      length = length tail;
      is_done = is_response s.machine.state || s.is_done;
    }
unfolding phase
phase_is which serving s payload tail size pdu bytes len bound notrx =
    let offset : u32 (s.machine.pdu_length + (2 ^ 32 - s.machine.size)) ≡ length payload =
      omega (arith, size, pdu, len, bound) in
    let left : u32 (s.length + (2 ^ 32 - length payload)) ≡ length tail =
      omega (arith, len, bound) in
    let full : ltb (u32 (s.length + s.machine.size)) s.machine.pdu_length ≡ false =
      ground (arith, size, pdu, len, bound) in
    let taken : take (length payload) s.data_bytes ≡ payload =
      rw bytes (take-append_len (length payload) payload tail refl) in
    let dropped : drop (length payload) s.data_bytes ≡ tail =
      rw bytes (drop-append_len (length payload) payload tail refl) in
    elim (Bool-cases (is_response s.machine.state)) [
      | inl r ↦ rw (full, r, offset, taken, dropped, left, notrx) refl
      | inr r ↦ rw (full, r, offset, taken, dropped, left) refl
    ]

word32 :
    (x : ℕ)
    → x < 2 ^ 32
    → x % 256 + x / 2 ^ 8 % 256 * 2 ^ 8 + x / 2 ^ 16 % 256 * 2 ^ 16 + x / 2 ^ 24 % 256 * 2 ^ 24 ≡ x
word32 x b = omega arith

word16 : (x : ℕ) → x < 2 ^ 16 → x % 256 + x / 2 ^ 8 % 256 * 2 ^ 8 ≡ x
word16 x b = omega arith

header_of : Container → List ℕ → BulkHeader
header_of c tail = record {
  pdu_length = pdu_length c;
  pdu_type = c.pdu_type;
  code = c.code;
  fields = fields c;
  trans_id = cpu_to_le32 c.trans_id;
  rest = c.payload ++ tail;
}

bulk_header-encoded :
    (c : Container) (tail : List ℕ)
    → IsContainer c
    → pdu_length c < 2 ^ 32
    → bulk_header (encoded c (cpu_to_le32 c.trans_id) ++ tail) ≡ some (header_of c tail)
unfolding header_of
bulk_header-encoded c tail i b =
    rw
      (
        word32 (pdu_length c) b,
        word16 c.pdu_type (omega (arith, i.pdu_type.1)),
        word16 c.code i.code,
      )
      refl

phase_of-container :
    (t : ℕ)
    → 0 < t
    → t < 4
    → (st : ParserState) × (phase_of t ≡ some st) × (is_response st ≡ (t == container_response))
phase_of-container t low high = elim (Bool-cases (t == container_command)) [
  | inl e ↦ (command_phase, ground arith, ground arith)
  | inr e ↦ elim (Bool-cases (t == container_response)) [
    | inl f ↦ (response_phase, ground arith, ground arith)
    | inr f ↦ (data_phase, ground arith, ground arith)
  ]
]

backed_up-other :
    (which : Which) (f : Ptp) (raw : List ℕ) → is_rx which ≡ false → backed_up which f raw ≡ f
backed_up-other tx f raw e = refl
backed_up-other rx f raw e = absurd (ground arith)
backed_up-other self f raw e = refl
backed_up-other send f raw e = refl

-- The loop after a container.
unfoldable pub passed : Which → Bool → Scan → Container → List ℕ → Scan
passed which serving s c tail = record s {
  filter = counted serving s.filter c;
  machine = ended c;
  before =
      (s.before ++ (fields c ++ rewritten which s.filter (cpu_to_le32 c.trans_id))) ++ c.payload;
  data_bytes = tail;
  length = length tail;
  is_done = (c.pdu_type == container_response) || s.is_done;
}

-- The machine once it has read the header of a container, and the loop before its payload.
abbrev read_header : Machine → Container → Machine
read_header m c = record m {
  pdu_length = pdu_length c;
  pdu_type = c.pdu_type;
  pdu_code = c.code;
  pdu_trans_id = c.trans_id;
}

entered : Which → Scan → Container → List ℕ → ParserState → Scan
entered which s c tail st = record s {
  machine = record (read_header s.machine c) { size = 12; state = st };
  before = s.before ++ (fields c ++ rewritten which s.filter (cpu_to_le32 c.trans_id));
  data_bytes = c.payload ++ tail;
  length = s.length - 12;
}

enter_entered :
    (which : Which) (serving : Bool) (s : Scan) (c : Container) (tail : List ℕ) (st : ParserState)
    → is_rx which ≡ false
    → phase_of c.pdu_type ≡ some st
    → enter_phase which serving s (header_of c tail) (read_header s.machine c) s.filter
      ≡ running (phase which serving (entered which s c tail st))
unfolding enter_phase header_of entered
enter_entered which serving s c tail st notrx e =
    rw (enter_phase, e, backed_up-other which s.filter (cpu_to_le32 c.trans_id) notrx) refl

entered-passed :
    (which : Which) (serving : Bool) (s : Scan) (c : Container) (tail : List ℕ) (st : ParserState)
    → is_rx which ≡ false
    → is_response st ≡ (c.pdu_type == container_response)
    → s.length ≡ pdu_length c + length tail
    → s.length < 2 ^ 32
    → phase which serving (entered which s c tail st) ≡ passed which serving s c tail
unfolding entered passed
entered-passed which serving s c tail st notrx r len bound =
    phase_is which serving (entered which s c tail st) c.payload tail refl refl refl
      (omega (arith, len)) (omega (arith, bound, len)) notrx
    ∙ rw r refl

pub round_is :
    (which : Which) (serving : Bool) (s : Scan) (c : Container) (tail : List ℕ)
    → IsContainer c
    → is_rx which ≡ false
    → between s.machine.state ≡ true
    → s.data_bytes ≡ encoded c (cpu_to_le32 c.trans_id) ++ tail
    → s.length ≡ pdu_length c + length tail
    → s.length < 2 ^ 32
    → round which serving s ≡ running (passed which serving s c tail)
unfolding round check_new_session header_of
round_is which serving s c tail i notrx b bytes len bound =
    let long : ltb s.length bulk_header_size ≡ false = ground (arith, len) in
    let header : bulk_header s.data_bytes ≡ some (header_of c tail) =
      ap bulk_header bytes ∙ bulk_header-encoded c tail i (omega (arith, len, bound)) in
    let (st, phase-is, response-is) = phase_of-container c.pdu_type i.pdu_type.0 i.pdu_type.1 in
    let read : Machine = record s.machine {
      pdu_length = pdu_length c;
      pdu_type = c.pdu_type;
      pdu_code = c.code;
    } in
    rw (round, b, long, header, notrx)
      (ap
          (λ t.
            enter_phase which serving s (header_of c tail) (record read { pdu_trans_id = t })
              s.filter)
          (word32 c.trans_id i.trans_id)
        ∙ enter_entered which serving s c tail st notrx phase-is
        ∙ ap running (entered-passed which serving s c tail st notrx response-is len bound))
