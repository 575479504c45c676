-- ===== src/Userspace/Client/Submission.antt =====
-- Theorems on the submissions of libusbip (userspace/client/client.c), as the stub reads them.
use usbip.Base.{
  ℕ, ◌-◌, ◌/◌, ◌%◌, ◌^◌, ◌<◌, ◌≡◌, refl, inl, inr, true, not, ◌||◌, Bool-cases, List, [], ◌∷◌, ◌++◌,
  none, some, arith, u32, length, ◌==◌, if◌then◌else◌, Option-cases,
}
use usbip.Proto.Header.{Header, Fits, cmd_submit, dir_in, dir_out, zero_header}
use usbip.Proto.Endian.{ByteOrder}
use usbip.Proto.Wire.{read_header, sent_bytes, header_arrives}
use usbip.Userspace.Client.{
  Client, ClientUrb, Request, control_msg, start_transfer, wait_reply, device_find_urb,
}

-- The setup packet of a control request: its fields, with the low byte first.
abbrev pub setup_packet : ℕ → ℕ → ℕ → ℕ → ℕ → List ℕ
setup_packet requesttype request value index size =
    requesttype % 256
    ∷ request % 256
    ∷ value % 256
    ∷ value / 256 % 256
    ∷ index % 256
    ∷ index / 256 % 256
    ∷ size % 256
    ∷ size / 256 % 256
    ∷ []

-- The header of a control request.
abbrev pub control_header : Client → ℕ → ℕ → ℕ → ℕ → ℕ → Header
control_header c requesttype request value index size = record {
  base = record {
    command = cmd_submit;
    seqnum = c.seqnum;
    devid = c.devid;
    direction = if requesttype / 128 % 2 == 0 then dir_out else dir_in;
    ep = 0;
  };
  u = record {
    word0 = 0;
    word1 = u32 size;
    word2 = 0;
    word3 = 0;
    word4 = 0;
    setup = setup_packet requesttype request value index size;
  };
}

control_msg-header :
    (c : Client) (requesttype request value index : ℕ) (bytes : List ℕ)
    → (start_transfer c (control_msg zero_header requesttype request value index bytes)).0
      ≡ control_header c requesttype request value index (length bytes)
unfolding start_transfer control_msg
control_msg-header c requesttype request value index bytes = refl

control_header-Fits :
    (c : Client) (requesttype request value index size : ℕ)
    → c.seqnum < 2 ^ 32
    → c.devid < 2 ^ 32
    → Fits (control_header c requesttype request value index size)
control_header-Fits c requesttype request value index size s d = record {
  command = omega arith;
  seqnum = s;
  devid = d;
  direction = ground arith;
  ep = omega arith;
  word0 = omega arith;
  word1 = omega arith;
  word2 = omega arith;
  word3 = omega arith;
  word4 = omega arith;
  setup = refl;
}

device_find_urb-append :
    (n : ℕ) (xs : List ClientUrb) (x : ClientUrb)
    → device_find_urb n xs ≡ none
    → x.has_work ≡ true
    → x.seqnum ≡ n
    → device_find_urb n (xs ++ x ∷ []) ≡ some (x, xs)
unfolding device_find_urb
device_find_urb-append n [] x h w e = ground arith
device_find_urb-append n (y ∷ ys) x h w e =
    elim (Bool-cases (not y.has_work || not (y.seqnum == n))) [
      | inr k ↦
          let found : device_find_urb n (y ∷ ys) ≡ some (y, ys) = rw (device_find_urb, k) refl in cc
      | inl k ↦ elim (Option-cases (device_find_urb n ys)) [
        | inl f ↦ rw (device_find_urb, k) (rw (device_find_urb-append n ys x f w e) refl)
        | inr (r, f) ↦
            let found : device_find_urb n (y ∷ ys) ≡ some (r.0, y ∷ r.1) =
              rw (device_find_urb, k) (rw f refl) in
            cc
      ]
    ]

-- The header that device_urb_transfer sends for libusbip_control_msg is read by any stub with
-- the number and the device id of the device and the fields of the control request, and the
-- number then finds the waiting URB with the buffer of the user, if no other URB waits under
-- it.
pub control_arrives :
    (sender receiver : ByteOrder) (c : Client) (requesttype request value index : ℕ)
    (bytes : List ℕ)
    → c.seqnum < 2 ^ 32
    → c.devid < 2 ^ 32
    → device_find_urb c.seqnum c.urb_list ≡ none
    → let r : Request = control_msg zero_header requesttype request value index bytes in
      let h : Header = (start_transfer c r).0 in
      (read_header receiver (sent_bytes sender h)
        ≡ control_header c requesttype request value index (length bytes))
      × (device_find_urb c.seqnum (wait_reply (start_transfer c r).1 h r).urb_list
          ≡ some (
            record {
              seqnum = c.seqnum;
              direction = if requesttype / 128 % 2 == 0 then dir_out else dir_in;
              has_work = true;
              buf = bytes;
              ret = 2 ^ 32 - 1;
              work_ret = 0;
            },
            c.urb_list,
          ))
unfolding start_transfer control_msg wait_reply
control_arrives sender receiver c requesttype request value index bytes s d e =
    let h : Header = control_header c requesttype request value index (length bytes) in
    (
      header_arrives sender receiver h
          (control_header-Fits c requesttype request value index (length bytes) s d) (inl refl),
      device_find_urb-append c.seqnum c.urb_list _ e refl refl,
    )
