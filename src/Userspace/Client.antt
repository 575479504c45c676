-- ===== src/Userspace/Client.antt =====
-- userspace/client/client.c: the URBs that libusbip sends, and device_loop, which reads the replies.
pub mod Replies
pub mod Failures
pub mod Unclaimed
pub mod Submission
use usbip.Base.{
  ℕ, zero, suc, ◌+◌, ◌-◌, ◌/◌, ◌%◌, ◌^◌, Bool, true, false, not, ◌&&◌, ◌||◌, List, [], ◌∷◌, ◌++◌,
  Option, none, some, u32, is_negative, ltb, length, ◌==◌, if◌then◌else◌,
}
use usbip.Core.Socket.{Socket}
use usbip.Core.Recv.{overwrite}
use usbip.Proto.Header.{Header, cmd_submit, ret_submit, dir_in, dir_out, header_size, load_header}
use usbip.Proto.Endian.{ByteOrder, header_correct_endian}
use usbip.Userspace.Network.{net_recv}

-- `struct urb_s`: `buf` is the memory of the user, `ret` what `*ret` holds, `work_ret` the result of
-- its work, which the user is given when the work is done.
pub record ClientUrb : Type 0 where
  pub seqnum : ℕ
  pub direction : ℕ
  pub has_work : Bool
  pub buf : List ℕ
  pub ret : ℕ
  pub work_ret : ℕ

-- enum device_state_t
pub data DeviceState : Type 0 where
  closed closing restarting opening running : DeviceState

-- `struct device_s`, with the result of the work of device_loop: `loop_ret` says whether it is set.
-- `finished` are the URBs whose work is done, newest last.
pub record Client : Type 0 where
  pub state : DeviceState
  pub devid : ℕ
  pub seqnum : ℕ
  pub urb_list : List ClientUrb
  pub finished : List ClientUrb
  pub loop_ret : Bool

-- The head of urb_list whose number is the given one, and the list without it.
unfoldable pub device_find_urb : ℕ → List ClientUrb → Option (ClientUrb × List ClientUrb)
device_find_urb n [] = none
device_find_urb n (x ∷ xs) =
    let rest : Option (ClientUrb × List ClientUrb) = elim (device_find_urb n xs) [
      | none ↦ none
      | some (y, ys) ↦ some (y, x ∷ ys)
    ] in
    if not x.has_work || not (x.seqnum == n) then rest else some (x, xs)

-- work_done of the work of an URB.
abbrev pub work_done : Client → ClientUrb → Client
work_done c x = record c { finished = c.finished ++ x ∷ [] }

-- `state >= devs_opening`
abbrev pub is_open : DeviceState → Bool
is_open opening = true
is_open running = true
is_open _ = false

-- DEVICE_CLOSE
abbrev pub device_close : Client → Client
device_close c = if is_open c.state then record c { state = closing } else c

-- WORK_ABORT and WORK_EXIT of device_loop: when its work is deleted the device is closed.
abbrev pub abort : Client → Client
abort c = device_close (record c { loop_ret = true })

-- socket_close_cb: the URBs that wait end with -UV_ECANCELED, unless they have a result.
abbrev pub cancel : ℕ → ClientUrb → ClientUrb
cancel ecanceled x = if x.work_ret == 0 then record x { work_ret = ecanceled } else x

unfoldable pub cancel_all : ℕ → List ClientUrb → List ClientUrb
cancel_all ecanceled [] = []
cancel_all ecanceled (x ∷ xs) = cancel ecanceled x ∷ cancel_all ecanceled xs

unfoldable pub socket_closed : ℕ → Client → Client
unfolding cancel_all
socket_closed ecanceled c = record c {
  state = closed;
  urb_list = [];
  finished = c.finished ++ cancel_all ecanceled c.urb_list;
}

-- The buffer of device_loop.
abbrev pub drop_size : ℕ
drop_size = 65536

module _ (net : Socket) (o : ByteOrder) where
  open net use {S}

  -- How WORK_YIELD goes on after a read: with the bytes, or not at all.
  pub data Yield : Type 0 where
    resumed : List ℕ → S → Yield
    exited : Client → S → Yield

  -- READ_PREPARE, read_cb and WORK_YIELD: a read is done when all its bytes are there. `none` is a
  -- read of no bytes, which is left to libuv.
  unfoldable pub yield_read : Client → S → ℕ → Option Yield
  yield_read c s size = if size == 0 then none else elim (net_recv net s size) [
    | none ↦ none
    | some (n, bytes, s') ↦
        if c.loop_ret || is_negative n then some (exited (abort c) s') else some (resumed bytes s')
  ]

  -- What a round of device_loop ends in.
  pub data Turn : Type 0 where
    goes_on : Client → S → Turn
    ended : Client → S → Turn

  -- The data of a reply that nobody waits for, on fuel.
  unfoldable pub drop_data : ℕ → Client → S → ℕ → Option Turn
  unfolding yield_read
  drop_data zero c s actual = none
  drop_data (suc fuel) c s actual =
      let size : ℕ = if ltb actual drop_size then actual else drop_size in
      let read : Option Turn = elim (yield_read c s size) [
        | none ↦ none
        | some y ↦ elim y [
          | exited c' s' ↦ some (ended c' s')
          | resumed bytes s' ↦ drop_data fuel c s' (actual - length bytes)
        ]
      ] in
      if actual == 0 then some (goes_on c s) else read

  -- A reply without error to an URB, which is off the list.
  unfoldable pub complete : Client → S → ClientUrb → ℕ → Option Turn
  unfolding yield_read
  complete c s x actual =
      if x.direction == dir_in
      then elim (yield_read c s actual) [
        | none ↦ none
        | some y ↦ elim y [
          | exited c' s' ↦ some (ended c' s')
          | resumed bytes s' ↦
              some
                (goes_on (work_done c (record x { buf = overwrite x.buf bytes; ret = actual })) s')
        ]
      ]
      else some (goes_on (work_done c (record x { ret = actual })) s)

  -- The reply to a submission. Where its status is not 0, it is the work of device_loop that gets
  -- the error.
  unfoldable pub reply : Client → S → Header → Option Turn
  unfolding complete drop_data
  reply c s h = elim (device_find_urb h.base.seqnum c.urb_list) [
    | none ↦
        if h.u.word0 == 0 && h.base.direction == dir_in
        then drop_data (suc h.u.word1) c s h.u.word1
        else some (goes_on c s)
    | some (x, rest) ↦
        let c' : Client = record c { urb_list = rest } in
        if h.u.word0 == 0
        then complete c' s x h.u.word1
        else some (goes_on (work_done (record c' { loop_ret = true }) x) s)
  ]

  -- A round of the loop of device_loop.
  unfoldable pub device_loop : Client → S → Option Turn
  unfolding reply yield_read
  device_loop c s = elim (yield_read c s header_size) [
    | none ↦ none
    | some y ↦ elim y [
      | exited c' s' ↦ some (ended c' s')
      | resumed bytes s' ↦
          let h : Header = header_correct_endian o (load_header o.load32 bytes) false in
          if h.base.command == ret_submit then reply c s' h else some (ended (abort c) s')
    ]
  ]

-- What a user asks of device_urb_transfer: the header as far as it is filled in, and the buffer.
pub record Request : Type 0 where
  pub header : Header
  pub buf : List ℕ

-- libusbip_control_msg; htole16 puts the low byte first.
unfoldable pub control_msg : Header → ℕ → ℕ → ℕ → ℕ → List ℕ → Request
control_msg zero_header requesttype request value index bytes = record {
  header = record {
    base = record zero_header.base {
      command = cmd_submit;
      direction = if requesttype / 128 % 2 == 0 then dir_out else dir_in;
      ep = 0;
    };
    u = record zero_header.u {
      setup =
          requesttype % 256
          ∷ request % 256
          ∷ value % 256
          ∷ value / 256 % 256
          ∷ index % 256
          ∷ index / 256 % 256
          ∷ length bytes % 256
          ∷ length bytes / 256 % 256
          ∷ [];
    };
  };
  buf = bytes;
}

-- libusbip_urb_transfer
unfoldable pub urb_transfer : Header → ℕ → List ℕ → Request
urb_transfer zero_header ep bytes = record {
  header = record zero_header {
    base = record zero_header.base {
      command = cmd_submit;
      direction = if ep / 128 % 2 == 0 then dir_out else dir_in;
      ep = ep % 256;
    };
  };
  buf = bytes;
}

-- The header that device_urb_transfer fills in, before it is packed.
abbrev pub filled_header : Client → Request → Header
filled_header c r = record r.header {
  base = record r.header.base { seqnum = c.seqnum; devid = c.devid };
  u = record r.header.u { word1 = u32 (length r.buf) };
}

-- device_urb_transfer up to its write: the header, and the client.
unfoldable pub start_transfer : Client → Request → Header × Client
start_transfer c r = (filled_header c r, record c { seqnum = u32 (c.seqnum + 1) })

-- Its end, once the write is done: the URB waits for its reply.
unfoldable pub wait_reply : Client → Header → Request → Client
wait_reply c h r = record c {
  urb_list =
      c.urb_list
      ++ record {
        seqnum = h.base.seqnum;
        direction = h.base.direction;
        has_work = true;
        buf = r.buf;
        ret = 2 ^ 32 - 1;
        work_ret = 0;
      }
        ∷ [];
}
