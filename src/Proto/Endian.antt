-- ===== src/Proto/Endian.antt =====
-- The byte-order functions of usbip_common.c: usbip_header_correct_endian and its parts.
use usbip.Base.{ℕ, ◌^◌, ◌<◌, ◌≡◌, Bool, true, false, List, length, be_bytes, ◌==◌, if◌then◌else◌}
use usbip.Proto.Header.{
  HeaderBasic, Payload, Header, cmd_submit, cmd_unlink, ret_submit, ret_unlink,
}

-- What the kernel's <asm/byteorder.h> gives, and how the machine lays out a word in memory.
pub record ByteOrder : Type 0 where
  pub cpu_to_be32 : ℕ → ℕ
  pub be32_to_cpu : ℕ → ℕ
  pub store32 : ℕ → List ℕ
  pub load32 : List ℕ → ℕ
  pub be32-cpu : (x : ℕ) → x < 2 ^ 32 → be32_to_cpu (cpu_to_be32 x) ≡ x
  pub cpu_to_be32-lt : (x : ℕ) → x < 2 ^ 32 → cpu_to_be32 x < 2 ^ 32
  pub length-store32 : (x : ℕ) → length (store32 x) ≡ 4
  pub load32-store32 : (x : ℕ) → x < 2 ^ 32 → load32 (store32 x) ≡ x
  pub store32-be : (x : ℕ) → x < 2 ^ 32 → store32 (cpu_to_be32 x) ≡ be_bytes x

module _ (o : ByteOrder) where
  -- One word, on its way out or in.
  abbrev pub convert : Bool → ℕ → ℕ
  convert true x = o.cpu_to_be32 x
  convert false x = o.be32_to_cpu x

  correct_endian_basic : HeaderBasic → Bool → HeaderBasic
  correct_endian_basic base send = record {
    command = convert send base.command;
    seqnum = convert send base.seqnum;
    devid = convert send base.devid;
    direction = convert send base.direction;
    ep = convert send base.ep;
  }

  correct_endian_cmd_submit : Payload → Bool → Payload
  correct_endian_cmd_submit u send = record u {
    word0 = convert send u.word0;
    word1 = convert send u.word1;
    word2 = convert send u.word2;
    word3 = convert send u.word3;
    word4 = convert send u.word4;
  }

  correct_endian_ret_submit : Payload → Bool → Payload
  correct_endian_ret_submit u send = record u {
    word0 = convert send u.word0;
    word1 = convert send u.word1;
    word2 = convert send u.word2;
    word3 = convert send u.word3;
    word4 = convert send u.word4;
  }

  correct_endian_cmd_unlink : Payload → Bool → Payload
  correct_endian_cmd_unlink u send = record u { word0 = convert send u.word0 }

  correct_endian_ret_unlink : Payload → Bool → Payload
  correct_endian_ret_unlink u send = record u { word0 = convert send u.word0 }

  -- The `switch`; an unknown command leaves the union alone.
  correct_endian_payload : ℕ → Payload → Bool → Payload
  unfolding correct_endian_cmd_submit correct_endian_ret_submit correct_endian_cmd_unlink
      correct_endian_ret_unlink
  correct_endian_payload cmd u send =
      if cmd == cmd_submit
      then correct_endian_cmd_submit u send
      else if cmd == ret_submit
      then correct_endian_ret_submit u send
      else if cmd == cmd_unlink
      then correct_endian_cmd_unlink u send
      else if cmd == ret_unlink
      then correct_endian_ret_unlink u send
      else u

  -- `cmd` is the command in the machine's order: read before it is sent, or after it is received.
  unfoldable pub header_correct_endian : Header → Bool → Header
  unfolding correct_endian_basic correct_endian_payload
  header_correct_endian h send =
      let base : HeaderBasic = correct_endian_basic h.base send in
      let cmd : ℕ = if send then h.base.command else base.command in
      record { base = base; u = correct_endian_payload cmd h.u send }
