-- ===== src/Proto/Wire.antt =====
-- Theorems on the byte-order functions of usbip_common.c and the bytes of a header.
use usbip.Base.{
  ℕ, ◌^◌, ◌<◌, ◌≡◌, ◌⊎◌, sym, ap, ◌∙◌, true, false, List, ◌++◌, arith, be_bytes, take_all, length,
}
use usbip.Proto.Header.{Header, Fits, cmd_submit, ret_submit, memory, header_size}
use usbip.Proto.Endian.{ByteOrder, header_correct_endian}
use usbip.Proto.Header.{load_header, first_word, after_word, first_word-store, after_word-store}

module _ (o : ByteOrder) where
  -- A header whose words hold 32 bits comes out of sending and receiving as it went in, whatever
  -- its command.
  pub correct_endian_round_trip :
      (h : Header) → Fits h → header_correct_endian o (header_correct_endian o h true) false ≡ h
  unfolding header_correct_endian
  correct_endian_round_trip h f = ground (
    arith,
    o.be32-cpu h.base.command f.command,
    o.be32-cpu h.base.seqnum f.seqnum,
    o.be32-cpu h.base.devid f.devid,
    o.be32-cpu h.base.direction f.direction,
    o.be32-cpu h.base.ep f.ep,
    o.be32-cpu h.u.word0 f.word0,
    o.be32-cpu h.u.word1 f.word1,
    o.be32-cpu h.u.word2 f.word2,
    o.be32-cpu h.u.word3 f.word3,
    o.be32-cpu h.u.word4 f.word4,
  )

  -- The bytes of a submission or of its result, once converted for sending, are the words of the
  -- header in network order, followed by `setup`.
  pub memory-correct_endian :
      (h : Header)
      → Fits h
      → (h.base.command ≡ cmd_submit) ⊎ (h.base.command ≡ ret_submit)
      → memory o.store32 (header_correct_endian o h true) ≡ memory be_bytes h
  unfolding header_correct_endian memory
  memory-correct_endian h f c = ground (
    arith,
    o.store32-be h.base.command f.command,
    o.store32-be h.base.seqnum f.seqnum,
    o.store32-be h.base.devid f.devid,
    o.store32-be h.base.direction f.direction,
    o.store32-be h.base.ep f.ep,
    o.store32-be h.u.word0 f.word0,
    o.store32-be h.u.word1 f.word1,
    o.store32-be h.u.word2 f.word2,
    o.store32-be h.u.word3 f.word3,
    o.store32-be h.u.word4 f.word4,
  )

  first_word-store32 :
      (x : ℕ) (rest : List ℕ) → x < 2 ^ 32 → first_word o.load32 (o.store32 x ++ rest) ≡ x
  first_word-store32 x rest h =
      first_word-store o.load32 (o.store32 x) x rest (o.length-store32 x) (o.load32-store32 x h)

  after_word-store32 : (x : ℕ) (rest : List ℕ) → after_word (o.store32 x ++ rest) ≡ rest
  after_word-store32 x rest = after_word-store (o.store32 x) rest (o.length-store32 x)

  -- The bytes of a header in memory are read back as that header.
  pub load_header-memory : (h : Header) → Fits h → load_header o.load32 (memory o.store32 h) ≡ h
  unfolding load_header memory
  load_header-memory h f =
      simp after_word-store32 (grind (arith, first_word-store32, take_all 8 h.u.setup))

  correct_endian-Fits : (h : Header) → Fits h → Fits (header_correct_endian o h true)
  unfolding header_correct_endian
  correct_endian-Fits h f = record {
    command = o.cpu_to_be32-lt h.base.command f.command;
    seqnum = o.cpu_to_be32-lt h.base.seqnum f.seqnum;
    devid = o.cpu_to_be32-lt h.base.devid f.devid;
    direction = o.cpu_to_be32-lt h.base.direction f.direction;
    ep = o.cpu_to_be32-lt h.base.ep f.ep;
    word0 = ground (arith, f.word0, o.cpu_to_be32-lt h.u.word0 f.word0);
    word1 = ground (arith, f.word1, o.cpu_to_be32-lt h.u.word1 f.word1);
    word2 = ground (arith, f.word2, o.cpu_to_be32-lt h.u.word2 f.word2);
    word3 = ground (arith, f.word3, o.cpu_to_be32-lt h.u.word3 f.word3);
    word4 = ground (arith, f.word4, o.cpu_to_be32-lt h.u.word4 f.word4);
    setup = ground (arith, f.setup);
  }

-- What a machine makes of the bytes of a header that it received.
abbrev pub read_header : ByteOrder → List ℕ → Header
read_header o bytes = header_correct_endian o (load_header o.load32 bytes) false

-- The bytes of a header that a machine sends.
abbrev pub sent_bytes : ByteOrder → Header → List ℕ
sent_bytes o h = memory o.store32 (header_correct_endian o h true)

-- The header of a submission or of its result that one machine sends is read as the same header by
-- any other, whatever their byte orders.
pub header_arrives :
    (sender receiver : ByteOrder) (h : Header)
    → Fits h
    → (h.base.command ≡ cmd_submit) ⊎ (h.base.command ≡ ret_submit)
    → read_header receiver (sent_bytes sender h) ≡ h
header_arrives sender receiver h f c =
    let same : sent_bytes sender h ≡ sent_bytes receiver h =
      memory-correct_endian sender h f c ∙ sym (memory-correct_endian receiver h f c) in
    let read =
      load_header-memory receiver (header_correct_endian receiver h true)
        (correct_endian-Fits receiver h f) in
    rw (same, read) (correct_endian_round_trip receiver h f)

length-memory_be : (h : Header) → Fits h → length (memory be_bytes h) ≡ header_size
unfolding memory
length-memory_be h f = omega (arith, f.setup)

pub length-sent_bytes :
    (o : ByteOrder) (h : Header)
    → Fits h
    → (h.base.command ≡ cmd_submit) ⊎ (h.base.command ≡ ret_submit)
    → length (sent_bytes o h) ≡ header_size
length-sent_bytes o h f c = ap length (memory-correct_endian o h f c) ∙ length-memory_be h f
