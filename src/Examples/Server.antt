-- ===== src/Examples/Server.antt =====
-- The theorems on the exported device and on its bus ids, at concrete inputs.
use usbip.Base.{ℕ, List, [], ◌∷◌, Bool, ◌+◌, ◌≡◌, refl, true, false, some, arith, if◌then◌else◌}
use usbip.Proto.Header.{unlink_seqnum}
use usbip.Stub.State.{find_urb, Sdev}
use usbip.Stub.Rx.{Memory, recv_cmd_unlink}
use usbip.Stub.Tx.{complete, send_ret_submit}
use usbip.Stub.Owed.{owed, ready, same, is_pending, recv_cmd_unlink-owed, complete-owed}
use usbip.Stub.Busid.{
  get_busid_idx, get_busid_priv, add_match_busid, add_free, added, alloc, same_bytes,
}
use usbip.Stub.Busid.Table.{status_of}
use usbip.Stub.Sending.{Sent, send_ret_submit_total}
use usbip.Examples.{little_endian, script}
use usbip.Examples.States.{exported, unlink_request, busids, busid_added, busid_alloc, busid_new}

abbrev enough : Memory
enough = record { priv = true; urb = true; buffer = true; setup = true; iso = true; unlink = true }

recv_cmd_unlink-owed_example :
    owed (recv_cmd_unlink enough exported unlink_request) 5
      + (if is_pending (unlink_seqnum unlink_request) exported.priv_init
          then same (unlink_seqnum unlink_request) 5
          else 0)
    ≡ owed exported 5 + same unlink_request.base.seqnum 5
recv_cmd_unlink-owed_example = recv_cmd_unlink-owed enough exported unlink_request 5 refl

pending_urb :
    find_urb 7 exported.priv_init ≡ some (record { seqnum = 5; urb = 7; unlinking = false })
unfolding find_urb
pending_urb = refl

complete-owed_example :
    (owed (complete true false exported 7) 5 ≡ owed exported 5)
    × (ready (complete true false exported 7) 5 ≡ ready exported 5 + 1)
complete-owed_example =
    complete-owed true exported 7 (record { seqnum = 5; urb = 7; unlinking = false }) 5 refl refl
      pending_urb

is_added_in : status_of busids busid_added ≡ some added
unfolding get_busid_priv same_bytes
is_added_in = refl

is_alloc_in : status_of busids busid_alloc ≡ some alloc
unfolding get_busid_priv same_bytes
is_alloc_in = refl

is_new_in : (add_match_busid busids busid_new).0 ≡ true
unfolding add_match_busid add_free get_busid_idx same_bytes
is_new_in = refl

-- The device when its request is completed.
abbrev completed : Sdev (List ℕ)
completed = record exported {
  priv_init = [];
  priv_tx = record { seqnum = 5; urb = 7; unlinking = false } ∷ [];
}

send_ret_submit_total_example :
    (r : Bool × Sdev (List ℕ)) × (send_ret_submit little_endian script 2 true true completed
      ≡ some r)
    × Sent little_endian script true true completed r
send_ret_submit_total_example =
    send_ret_submit_total little_endian script 2 true true completed (omega arith)
