-- ===== src/Filter/Ptp/Stream.antt =====
-- Theorems on ptp_parse (filter_ptp.c).
use mathlib.Core.List.{append_assoc, append-nil}
use usbip.Base.{
  ℕ, zero, suc, ◌+◌, ◌^◌, ◌<◌, ◌≡◌, refl, sym, ap, ◌∙◌, Bool, true, false, ◌||◌, List, [], ◌∷◌,
  ◌++◌, Option, some, arith, length, length-append, ◌==◌,
}
use usbip.Filter.Ptp.{Ptp, Machine, Which, container_response, is_rx}
use usbip.Filter.Ptp.Parse.{
  Scan, Round, running, parse_loop, parse, between, cpu_to_le32, rewritten,
}
use usbip.Filter.Ptp.Container.{
  Container, pdu_length, fields, encoded, ended, counted, stream, AreContainers, filter_after,
  bytes_after, machine_after, has_response,
}
use usbip.Filter.Ptp.Round.{passed, round_is}

between-ended : (c : Container) → between (ended c).state ≡ true
between-ended c = ground arith

length-encoded : (c : Container) → length (encoded c (cpu_to_le32 c.trans_id)) ≡ pdu_length c
length-encoded c = omega arith

passed_bytes :
    (before fields raw payload rest : List ℕ)
    → ((before ++ (fields ++ raw)) ++ payload) ++ rest
      ≡ before ++ ((fields ++ (raw ++ payload)) ++ rest)
passed_bytes before fields raw payload rest =
    rw
      (
        append_assoc before (fields ++ raw) payload,
        append_assoc fields raw payload,
        append_assoc before (fields ++ (raw ++ payload)) rest,
      )
      refl

or_swap : (a b c : Bool) → (a || (b || c)) ≡ ((b || a) || c)
or_swap a b c = ground arith

loop_is :
    (fuel : ℕ) (which : Which) (serving : Bool) (cs : List Container) (s : Scan)
    → AreContainers cs
    → is_rx which ≡ false
    → between s.machine.state ≡ true
    → s.data_bytes ≡ stream cs
    → s.length ≡ length (stream cs)
    → s.length < 2 ^ 32
    → s.length < fuel
    → parse_loop fuel which serving s
      ≡ some (
          running (record s {
            filter = filter_after serving s.filter cs;
            machine = machine_after s.machine cs;
            before = s.before ++ bytes_after which serving s.filter cs;
            data_bytes = [];
            length = 0;
            is_done = has_response cs || s.is_done;
          }))
unfolding parse_loop passed
loop_is zero which serving cs s all notrx b bytes len bound enough = absurd (omega arith)
loop_is (suc fuel) which serving [] s all notrx b bytes len bound enough =
    let empty : (s.length == 0) ≡ true = ground (arith, len) in
    rw (parse_loop, empty)
      (sym (
        ap (λ x. some (running (record s { before = x; data_bytes = []; length = 0 })))
          (append-nil s.before)
        ∙ ap (λ n. some (running (record s { data_bytes = []; length = n }))) (sym len)
        ∙ ap (λ d. some (running (record s { data_bytes = d }))) (sym bytes)))
loop_is (suc fuel) which serving (c ∷ cs) s (i, all) notrx b bytes len bound enough =
    let whole : s.length ≡ pdu_length c + length (stream cs) = omega (
      arith,
      len,
      length-append (encoded c (cpu_to_le32 c.trans_id)) (stream cs),
      length-encoded c,
    ) in
    let more : (s.length == 0) ≡ false = ground (arith, whole) in
    let f' : Ptp = counted serving s.filter c in
    let result : List ℕ → Bool → Option Round = λ bytes d. some (
      running (record s {
        filter = filter_after serving f' cs;
        machine = machine_after (ended c) cs;
        before = bytes;
        data_bytes = [];
        length = 0;
        is_done = d;
      })) in
    rw (parse_loop, more, round_is which serving s c (stream cs) i notrx b bytes whole bound)
      (loop_is fuel which serving cs (passed which serving s c (stream cs)) all notrx
          (between-ended c) refl refl (omega (arith, whole, bound)) (omega (arith, whole, enough))
        ∙ ap (λ x. result x (has_response cs || ((c.pdu_type == container_response) || s.is_done)))
            (passed_bytes s.before (fields c) (rewritten which s.filter (cpu_to_le32 c.trans_id))
              c.payload (bytes_after which serving f' cs))
        ∙ ap (result (s.before ++ bytes_after which serving s.filter (c ∷ cs)))
            (or_swap (has_response cs) (c.pdu_type == container_response) s.is_done))

-- A stream of containers, from a machine that is between two phases, for a direction other than the
-- client's requests: ptp_parse ends. It has taken all bytes and written to each header the number
-- that belongs there, it has counted the responses, unless the URB serves the client from the
-- buffer, and tells whether there was one.
pub parse-stream :
    (which : Which) (serving : Bool) (f : Ptp) (m : Machine) (cs : List Container)
    → AreContainers cs
    → is_rx which ≡ false
    → between m.state ≡ true
    → length (stream cs) < 2 ^ 32
    → parse which serving f m (stream cs)
      ≡ some (
          running (record {
            filter = filter_after serving f cs;
            machine = machine_after m cs;
            before = bytes_after which serving f cs;
            data_bytes = [];
            length = 0;
            is_done = has_response cs || false;
          }))
unfolding parse
parse-stream which serving f m cs all notrx b bound =
    loop_is (suc (length (stream cs))) which serving cs
      (record {
        filter = f;
        machine = m;
        before = [];
        data_bytes = stream cs;
        length = length (stream cs);
        is_done = false;
      })
      all notrx b refl refl bound (omega arith)
