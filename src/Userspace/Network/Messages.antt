-- ===== src/Userspace/Network/Messages.antt =====
-- Theorems on the messages of usbip_network.c.
use usbip.Base.{
  ℕ, ◌%◌, ◌^◌, ◌<◌, ◌≡◌, refl, sym, ap, ◌∙◌, true, false, ◌&&◌, ◌||◌, List, ◌++◌, none, some, arith,
  ◌==◌, if◌then◌else◌, Bool-cases, inl, inr, take-append_len, drop-append_len,
}
use usbip.Proto.Endian.{ByteOrder}
use usbip.Userspace.Network.{
  ShortOrder, OpCommon, usbip_version, op_unspec, st_ok, pack_op_common, op_memory, load_op,
  send_op_common, check_op_common, recv_op_common,
}

module _ (o o' : ByteOrder) (short short' : ShortOrder) where
  -- Both machines put 16 bits on the wire in the same way.
  pub store16_agree :
      (x : ℕ) → x < 2 ^ 16 → short.store16 (short.htons x) ≡ short'.store16 (short'.htons x)
  store16_agree x h = short.store16-be x h ∙ sym (short'.store16-be x h)

  memory_agree :
      (version code status : ℕ)
      → version < 2 ^ 16
      → code < 2 ^ 16
      → status < 2 ^ 32
      → op_memory o short
          (pack_op_common o short true (record { version = version; code = code; status = status }))
        ≡ op_memory o' short' (
            pack_op_common o' short' true
              (record { version = version; code = code; status = status }))
  memory_agree version code status v c s =
      rw
        (
          store16_agree version v,
          store16_agree code c,
          o.store32-be status s,
          o'.store32-be status s,
        )
        refl

module _ (o : ByteOrder) (short : ShortOrder) where
  load_op-memory :
      (op : OpCommon)
      → op.version < 2 ^ 16
      → op.code < 2 ^ 16
      → op.status < 2 ^ 32
      → load_op o short (op_memory o short op) ≡ op
  load_op-memory op v c s =
      let rest : List ℕ = short.store16 op.code ++ o.store32 op.status in
      rw
        (
          take-append_len 2 (short.store16 op.version) rest (short.length-store16 op.version),
          drop-append_len 2 (short.store16 op.version) rest (short.length-store16 op.version),
          take-append_len 2 (short.store16 op.code) (o.store32 op.status)
              (short.length-store16 op.code),
          drop-append_len 2 (short.store16 op.code) (o.store32 op.status)
              (short.length-store16 op.code),
          short.load16-store16 op.version v,
          short.load16-store16 op.code c,
          o.load32-store32 op.status s,
        )
        refl

  unpack_pack :
      (op : OpCommon)
      → op.version < 2 ^ 16
      → op.code < 2 ^ 16
      → op.status < 2 ^ 32
      → pack_op_common o short false (pack_op_common o short true op) ≡ op
  unpack_pack op v c s =
      rw (short.ntohs-htons op.version v, short.ntohs-htons op.code c, o.be32-cpu op.status s) refl

check-ok :
    (code status wanted : ℕ)
    → check_op_common wanted (record { version = usbip_version; code = code; status = status })
      ≡ (if (wanted == op_unspec || code == wanted) && status == st_ok then some code else none)
unfolding check_op_common
check-ok code status wanted = elim (Bool-cases (wanted == op_unspec)) [
  | inl e ↦ elim (Bool-cases (status == st_ok)) [ inl f ↦ rw (e, f) refl | inr f ↦ rw (e, f) refl ]
  | inr e ↦ elim (Bool-cases (code == wanted)) [
    | inr g ↦ rw (e, g) refl
    | inl g ↦ elim (Bool-cases (status == st_ok)) [
      | inl f ↦ rw (e, g, f) refl
      | inr f ↦ rw (e, g, f) refl
    ]
  ]
]

-- Whatever the byte order of each, a message that one machine sends with a code of 16 bits is accepted by another exactly where its
-- status is ST_OK and the other waits for this code or for any; the other then learns the code.
pub op_common_arrives :
    (o o' : ByteOrder) (short short' : ShortOrder) (code status wanted : ℕ)
    → code < 2 ^ 16
    → status < 2 ^ 32
    → recv_op_common o' short' wanted (send_op_common o short code status)
      ≡ (if (wanted == op_unspec || code == wanted) && status == st_ok then some code else none)
unfolding recv_op_common send_op_common
op_common_arrives o o' short short' code status wanted c s =
    let cut : OpCommon = record {
      version = usbip_version;
      code = code % 2 ^ 16;
      status = status;
    } in
    let same : code % 2 ^ 16 ≡ code = omega arith in
    let packed : OpCommon = pack_op_common o' short' true cut in
    ap (λ bytes. check_op_common wanted (pack_op_common o' short' false (load_op o' short' bytes)))
      (memory_agree o o' short short' usbip_version (code % 2 ^ 16) status (omega arith)
        (omega arith) s)
    ∙ (ap (λ op. check_op_common wanted (pack_op_common o' short' false op))
          (load_op-memory o' short' packed (short'.htons-lt usbip_version (omega arith))
            (short'.htons-lt (code % 2 ^ 16) (omega arith)) (o'.cpu_to_be32-lt status s))
        ∙ (ap (check_op_common wanted) (unpack_pack o' short' cut (omega arith) (omega arith) s)
            ∙ rw same (check-ok code status wanted)))
