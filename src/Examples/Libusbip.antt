-- ===== src/Examples/Libusbip.antt =====
-- The theorems on the userspace client, at concrete replies.
use usbip.Base.{
  ℕ, ◌+◌, ◌-◌, ◌^◌, ◌<◌, ◌≡◌, refl, ◌⊎◌, true, false, List, [], ◌∷◌, ◌++◌, none, some, arith,
}
use usbip.Core.Recv.{overwrite}
use usbip.Proto.Header.{Header, Fits, ret_submit, dir_in, zero_header, header_size}
use usbip.Proto.Wire.{read_header, sent_bytes}
use usbip.Userspace.Client.{
  Client, ClientUrb, running, device_find_urb, work_done, abort, goes_on, ended, device_loop,
  Request, control_msg, start_transfer, wait_reply,
}
use usbip.Userspace.Client.Replies.{device_loop-completes}
use usbip.Userspace.Client.Failures.{device_loop-fails}
use usbip.Userspace.Client.Unclaimed.{device_loop-unclaimed, stub_reply_left}
use usbip.Userspace.Network.Receiving.{Failed}
use usbip.Proto.Urb.{Urb}
use usbip.Proto.Pack.{pack_pdu}
use usbip.Stub.Tx.{setup_ret_submit_pdu, ret_submit_message, in_data}
use usbip.Examples.States.{in_urb}
use usbip.Userspace.Client.Submission.{control_header, control_arrives}
use usbip.Examples.{little_endian, big_endian, script}

-- A request for two bytes waits under the number 5.
abbrev waiting_urb : ClientUrb
waiting_urb = record {
  seqnum = 5;
  direction = dir_in;
  has_work = true;
  buf = 0 ∷ 0 ∷ [];
  ret = 2 ^ 32 - 1;
  work_ret = 0;
}

abbrev client : Client
client = record {
  state = running;
  devid = 65538;
  seqnum = 6;
  urb_list = waiting_urb ∷ [];
  finished = [];
  loop_ret = false;
}

-- The reply with the given number, status and length.
abbrev answer : ℕ → ℕ → ℕ → Header
answer n status actual = record zero_header {
  base = record zero_header.base { command = ret_submit; seqnum = n; direction = dir_in };
  u = record zero_header.u { word0 = status; word1 = actual };
}

answer-Fits :
    (n status actual : ℕ)
    → n < 2 ^ 32
    → status < 2 ^ 32
    → actual < 2 ^ 32
    → Fits (answer n status actual)
answer-Fits n status actual h k l = record {
  command = omega arith;
  seqnum = h;
  devid = omega arith;
  direction = omega arith;
  ep = omega arith;
  word0 = k;
  word1 = l;
  word2 = omega arith;
  word3 = omega arith;
  word4 = omega arith;
  setup = refl;
}

found : device_find_urb 5 client.urb_list ≡ some (waiting_urb, [])
unfolding device_find_urb
found = refl

not_found : (device_find_urb 9 client.urb_list ≡ none) × (device_find_urb 6 client.urb_list ≡ none)
unfolding device_find_urb
not_found = (refl, refl)

abbrev stream : List ℕ
stream = sent_bytes big_endian (answer 5 0 2) ++ ((1 ∷ 2 ∷ []) ++ 7 ∷ [])

device_loop-completes_example :
    (s' : List ℕ) × (((device_loop script little_endian client stream
          ≡ some (
              goes_on
                (work_done
                  (record client { urb_list = [] })
                  (record waiting_urb { buf = overwrite (0 ∷ 0 ∷ []) (1 ∷ 2 ∷ []); ret = 2 }))
                s'))
        × (s' ≡ 7 ∷ []))
      ⊎ (((device_loop script little_endian client stream ≡ some (ended (abort client) s'))
            ⊎ (device_loop script little_endian client stream
                ≡ some (ended (abort (record client { urb_list = [] })) s')))
          × Failed script s'))
device_loop-completes_example =
    device_loop-completes script little_endian big_endian client stream (answer 5 0 2) waiting_urb
      [] (1 ∷ 2 ∷ []) (7 ∷ []) (answer-Fits 5 0 2 (omega arith) (omega arith) (omega arith)) refl
      refl found refl (omega arith) (omega arith) refl refl refl

abbrev strange : List ℕ
strange = sent_bytes big_endian (answer 9 0 2) ++ ((1 ∷ 2 ∷ []) ++ 7 ∷ [])

device_loop-unclaimed_example :
    (s' : List ℕ) × (((device_loop script little_endian client strange ≡ some (goes_on client s'))
        × (s' ≡ 7 ∷ []))
      ⊎ ((device_loop script little_endian client strange ≡ some (ended (abort client) s'))
          × Failed script s'))
device_loop-unclaimed_example =
    device_loop-unclaimed script little_endian big_endian client strange (answer 9 0 2) (1 ∷ 2 ∷ [])
      (7 ∷ []) (answer-Fits 9 0 2 (omega arith) (omega arith) (omega arith)) refl refl not_found.0
      refl refl refl

-- The stub's result of an URB that read two bytes, under the number 9.
abbrev result : Urb
result = record in_urb { status = 0; actual_length = 2; transfer_buffer = some (1 ∷ 2 ∷ []) }

result-Fits : Fits (setup_ret_submit_pdu 9 result)
unfolding setup_ret_submit_pdu pack_pdu
result-Fits = record {
  command = omega arith;
  seqnum = omega arith;
  devid = omega arith;
  direction = omega arith;
  ep = omega arith;
  word0 = omega arith;
  word1 = omega arith;
  word2 = omega arith;
  word3 = omega arith;
  word4 = omega arith;
  setup = refl;
}

abbrev result_message : List ℕ
result_message = sent_bytes big_endian (setup_ret_submit_pdu 9 result) ++ (1 ∷ 2 ∷ [])

result_message-is :
    ret_submit_message big_endian script true 9 result ≡ some (result_message, header_size + 2)
unfolding ret_submit_message in_data
result_message-is = refl

stub_reply_left_example :
    (s' : List ℕ) × (((device_loop script little_endian client (result_message ++ 7 ∷ [])
          ≡ some (goes_on client s'))
        × (s' ≡ (in_data result).0 ++ 7 ∷ []))
      ⊎ ((device_loop script little_endian client (result_message ++ 7 ∷ [])
            ≡ some (ended (abort client) s'))
          × Failed script s'))
stub_reply_left_example =
    stub_reply_left script little_endian big_endian client (result_message ++ 7 ∷ []) true 9
      (header_size + 2) result result_message (7 ∷ []) result-Fits refl result_message-is
      not_found.0 refl refl

-- The endpoint is stalled: -EPIPE.
abbrev stalled : List ℕ
stalled = sent_bytes big_endian (answer 5 (2 ^ 32 - 32) 0) ++ 7 ∷ []

device_loop-fails_example :
    let c' : Client = work_done (record client { urb_list = []; loop_ret = true }) waiting_urb in
    (s' : List ℕ) × (((device_loop script little_endian client stalled ≡ some (goes_on c' s'))
        × (s' ≡ 7 ∷ [])
        × ((v' : List ℕ) × (device_loop script little_endian c' (7 ∷ [])
              ≡ some (ended (abort c') v'))))
      ⊎ ((device_loop script little_endian client stalled ≡ some (ended (abort client) s'))
          × Failed script s'))
device_loop-fails_example =
    device_loop-fails script little_endian big_endian client stalled (answer 5 (2 ^ 32 - 32) 0)
      waiting_urb [] (7 ∷ []) (7 ∷ [])
      (answer-Fits 5 (2 ^ 32 - 32) 0 (omega arith) (omega arith) (omega arith)) refl refl found refl
      refl

control_arrives_example :
    let r : Request = control_msg zero_header 128 6 256 0 (0 ∷ 0 ∷ []) in
    let h : Header = (start_transfer client r).0 in
    (read_header little_endian (sent_bytes big_endian h) ≡ control_header client 128 6 256 0 2)
    × (device_find_urb 6 (wait_reply (start_transfer client r).1 h r).urb_list
        ≡ some (record waiting_urb { seqnum = 6 }, waiting_urb ∷ []))
control_arrives_example =
    control_arrives big_endian little_endian client 128 6 256 0 (0 ∷ 0 ∷ []) (omega arith)
      (omega arith) not_found.1
