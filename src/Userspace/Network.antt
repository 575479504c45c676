-- ===== src/Userspace/Network.antt =====
-- userspace/src/usbip_network.c: receiving, and the message that starts every exchange of the
-- usbip command and usbipd.
pub mod Messages
pub mod Receiving
use usbip.Base.{
  ℕ, zero, suc, ◌+◌, ◌-◌, ◌/◌, ◌%◌, ◌^◌, ◌<◌, ◌≡◌, Bool, true, false, not, ◌&&◌, List, [], ◌∷◌,
  ◌++◌, Option, none, some, length, take, drop, ltb, is_negative, ◌==◌, if◌then◌else◌, neg,
}
use usbip.Core.Socket.{Socket, chunk, stop}
use usbip.Proto.Endian.{ByteOrder}

module _ (net : Socket) where
  open net use {S, recvmsg}

  -- The loop of usbip_net_xmit that receives, on fuel: the result, the bytes stored, and the
  -- socket. `none` means that the fuel ran out; every round reads a byte or ends.
  unfoldable pub xmit_loop : ℕ → ℕ → ℕ → List ℕ → S → Option (ℕ × List ℕ × S)
  xmit_loop zero bufflen total buff s = none
  xmit_loop (suc fuel) bufflen total buff s =
      let (received, s') = recvmsg s bufflen in
      elim received [
        | stop nbytes ↦ some (neg 1, buff, s')
        | chunk bytes ↦
            let bufflen' : ℕ = bufflen - length bytes in
            let rest = xmit_loop fuel bufflen' (total + length bytes) (buff ++ bytes) s' in
            if ltb 0 bufflen' then rest else some (total + length bytes, buff ++ bytes, s')
      ]

  -- usbip_net_recv
  unfoldable pub net_recv : S → ℕ → Option (ℕ × List ℕ × S)
  net_recv s bufflen =
      let done = xmit_loop bufflen bufflen 0 [] s in if bufflen == 0 then some (0, [], s) else done

-- What <arpa/inet.h> gives for 16 bits, and how the machine lays out 16 bits in memory.
pub record ShortOrder : Type 0 where
  pub htons : ℕ → ℕ
  pub ntohs : ℕ → ℕ
  pub store16 : ℕ → List ℕ
  pub load16 : List ℕ → ℕ
  pub ntohs-htons : (x : ℕ) → x < 2 ^ 16 → ntohs (htons x) ≡ x
  pub htons-lt : (x : ℕ) → x < 2 ^ 16 → htons x < 2 ^ 16
  pub length-store16 : (x : ℕ) → length (store16 x) ≡ 2
  pub load16-store16 : (x : ℕ) → x < 2 ^ 16 → load16 (store16 x) ≡ x
  pub store16-be : (x : ℕ) → x < 2 ^ 16 → store16 (htons x) ≡ x / 2 ^ 8 ∷ x % 2 ^ 8 ∷ []

-- struct op_common
pub record OpCommon : Type 0 where
  pub version : ℕ
  pub code : ℕ
  pub status : ℕ

-- USBIP_VERSION of the userspace programs.
abbrev pub usbip_version : ℕ
usbip_version = 273

-- OP_UNSPEC
abbrev pub op_unspec : ℕ
op_unspec = 0

-- ST_OK
abbrev pub st_ok : ℕ
st_ok = 0

-- The checks of usbip_net_recv_op_common, for the code that the caller expects: the code of the
-- message, `none` where it returns -1.
unfoldable pub check_op_common : ℕ → OpCommon → Option ℕ
check_op_common wanted op =
    if not (op.version == usbip_version)
    then none
    else if not (wanted == op_unspec) && not (op.code == wanted)
    then none
    else if not (op.status == st_ok)
    then none
    else some op.code

-- htonl and ntohl are the functions of 32 bits.
module _ (o : ByteOrder) (short : ShortOrder) where
  -- usbip_net_pack_uint32_t
  abbrev pub pack_uint32 : Bool → ℕ → ℕ
  pack_uint32 pack num = if pack then o.cpu_to_be32 num else o.be32_to_cpu num

  -- usbip_net_pack_uint16_t
  abbrev pub pack_uint16 : Bool → ℕ → ℕ
  pack_uint16 pack num = if pack then short.htons num else short.ntohs num

  -- PACK_OP_COMMON
  abbrev pub pack_op_common : Bool → OpCommon → OpCommon
  pack_op_common pack op = record {
    version = pack_uint16 pack op.version;
    code = pack_uint16 pack op.code;
    status = pack_uint32 pack op.status;
  }

  -- The structure in memory, and read from there.
  abbrev pub op_memory : OpCommon → List ℕ
  op_memory op = short.store16 op.version ++ (short.store16 op.code ++ o.store32 op.status)

  abbrev pub load_op : List ℕ → OpCommon
  load_op bytes = record {
    version = short.load16 (take 2 bytes);
    code = short.load16 (take 2 (drop 2 bytes));
    status = o.load32 (drop 2 (drop 2 bytes));
  }

  -- The bytes that usbip_net_send_op_common hands to usbip_net_send; the code is cut to 16 bits.
  unfoldable pub send_op_common : ℕ → ℕ → List ℕ
  send_op_common code status = op_memory (
      pack_op_common true
        (record { version = usbip_version; code = code % 2 ^ 16; status = status }))

  -- What usbip_net_recv_op_common makes of the bytes received.
  unfoldable pub recv_op_common : ℕ → List ℕ → Option ℕ
  recv_op_common wanted bytes = check_op_common wanted (pack_op_common false (load_op bytes))

module _ (net : Socket) (o : ByteOrder) (short : ShortOrder) where
  open net use {S}

  -- usbip_net_recv_op_common: the code of the message, `none` where it returns -1, and the socket.
  unfoldable pub net_recv_op_common : ℕ → S → Option (Option ℕ × S)
  net_recv_op_common wanted s = elim (net_recv net s 8) [
    | none ↦ none
    | some (rc, bytes, s') ↦
        if is_negative rc then some (none, s') else some (recv_op_common o short wanted bytes, s')
  ]
