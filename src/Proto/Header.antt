-- ===== src/Proto/Header.antt =====
-- usbip_struct.h: the header of every packet, and the order of its bytes.
-- A `__u32` or `__s32` field is its 32-bit pattern.
use usbip.Base.{
  ℕ, ◌^◌, ◌<◌, ◌≡◌, List, [], ◌∷◌, ◌++◌, length, take, drop, take-append_len, drop-append_len,
}

pub record HeaderBasic : Type 0 where
  pub command : ℕ
  pub seqnum : ℕ
  pub devid : ℕ
  pub direction : ℕ
  pub ep : ℕ

-- The union `u`. Its four members overlay one another from the first byte, and all fields but
-- `setup` are words, so it is five words and the eight bytes of `setup`.
-- cmd_submit: transfer_flags, transfer_buffer_length, start_frame, number_of_packets, interval.
-- ret_submit: status, actual_length, start_frame, number_of_packets, error_count.
-- cmd_unlink: seqnum. ret_unlink: status.
pub record Payload : Type 0 where
  pub word0 : ℕ
  pub word1 : ℕ
  pub word2 : ℕ
  pub word3 : ℕ
  pub word4 : ℕ
  pub setup : List ℕ

pub record Header : Type 0 where
  pub base : HeaderBasic
  pub u : Payload

-- `usbip_header_cmd_unlink.seqnum` and `usbip_header_ret_unlink.status`.
abbrev pub unlink_seqnum : Header → ℕ
unlink_seqnum h = h.u.word0

abbrev pub unlink_status : Header → ℕ
unlink_status h = h.u.word0

abbrev pub cmd_submit : ℕ
cmd_submit = 1

abbrev pub cmd_unlink : ℕ
cmd_unlink = 2

abbrev pub ret_submit : ℕ
ret_submit = 3

abbrev pub ret_unlink : ℕ
ret_unlink = 4

abbrev pub dir_out : ℕ
dir_out = 0

abbrev pub dir_in : ℕ
dir_in = 1

-- `memset(&pdu, 0, sizeof(pdu))`
abbrev pub zero_header : Header
zero_header = record {
  base = record { command = 0; seqnum = 0; devid = 0; direction = 0; ep = 0 };
  u = record {
    word0 = 0;
    word1 = 0;
    word2 = 0;
    word3 = 0;
    word4 = 0;
    setup = 0 ∷ 0 ∷ 0 ∷ 0 ∷ 0 ∷ 0 ∷ 0 ∷ 0 ∷ [];
  };
}

abbrev pub header_size : ℕ
header_size = 48

-- Every word holds 32 bits, and `setup` has its eight bytes.
pub record Fits (h : Header) : Type 0 where
  pub command : h.base.command < 2 ^ 32
  pub seqnum : h.base.seqnum < 2 ^ 32
  pub devid : h.base.devid < 2 ^ 32
  pub direction : h.base.direction < 2 ^ 32
  pub ep : h.base.ep < 2 ^ 32
  pub word0 : h.u.word0 < 2 ^ 32
  pub word1 : h.u.word1 < 2 ^ 32
  pub word2 : h.u.word2 < 2 ^ 32
  pub word3 : h.u.word3 < 2 ^ 32
  pub word4 : h.u.word4 < 2 ^ 32
  pub setup : length h.u.setup ≡ 8

-- The bytes of a header in memory, where `store` is how the machine lays out a word.
unfoldable pub memory : (ℕ → List ℕ) → Header → List ℕ
memory store h =
    store h.base.command
    ++ (store h.base.seqnum
        ++ (store h.base.devid
            ++ (store h.base.direction
                ++ (store h.base.ep
                    ++ (store h.u.word0
                        ++ (store h.u.word1
                            ++ (store h.u.word2
                                ++ (store h.u.word3 ++ (store h.u.word4 ++ h.u.setup)))))))))

-- The first word of a piece of memory, and what follows it.
pub first_word : (List ℕ → ℕ) → List ℕ → ℕ
first_word load bytes = load (take 4 bytes)

pub after_word : List ℕ → List ℕ
after_word bytes = drop 4 bytes

-- The header that received bytes stand for in memory.
unfoldable pub load_header : (List ℕ → ℕ) → List ℕ → Header
load_header load b0 =
    let b1 : List ℕ = after_word b0 in
    let b2 : List ℕ = after_word b1 in
    let b3 : List ℕ = after_word b2 in
    let b4 : List ℕ = after_word b3 in
    let b5 : List ℕ = after_word b4 in
    let b6 : List ℕ = after_word b5 in
    let b7 : List ℕ = after_word b6 in
    let b8 : List ℕ = after_word b7 in
    let b9 : List ℕ = after_word b8 in
    record {
      base = record {
        command = first_word load b0;
        seqnum = first_word load b1;
        devid = first_word load b2;
        direction = first_word load b3;
        ep = first_word load b4;
      };
      u = record {
        word0 = first_word load b5;
        word1 = first_word load b6;
        word2 = first_word load b7;
        word3 = first_word load b8;
        word4 = first_word load b9;
        setup = take 8 (after_word b9);
      };
    }

pub first_word-store :
    (load : List ℕ → ℕ) (word : List ℕ) (x : ℕ) (rest : List ℕ)
    → length word ≡ 4
    → load word ≡ x
    → first_word load (word ++ rest) ≡ x
unfolding first_word
first_word-store load word x rest l e = rw (take-append_len 4 word rest l) e

pub after_word-store : (word rest : List ℕ) → length word ≡ 4 → after_word (word ++ rest) ≡ rest
unfolding after_word
after_word-store word rest l = drop-append_len 4 word rest l
