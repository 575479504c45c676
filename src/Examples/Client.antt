-- ===== src/Examples/Client.antt =====
-- The theorems on the virtual host controller, at concrete inputs.
use usbip.Base.{
  ◌<◌, ◌⊎◌, neg, einval, ℕ, ◌+◌, ◌≡◌, refl, true, false, List, [], ◌∷◌, some, arith, Bool,
  is_negative,
}
use usbip.Proto.Pack.{pack_pdu}
use usbip.Vhci.State.{Hcd, find}
use usbip.Vhci.Hcd.{pickup_urb_and_free_priv, free_priv}
use usbip.Vhci.Rx.{recv_ret_submit}
use usbip.Vhci.Tx.{send_cmd_submit}
use usbip.Vhci.Balance.{balance, pending}
use usbip.Vhci.Replies.{data_read, packets_read, recv_ret_submit_completes, recv_ret_submit_loses}
use usbip.Vhci.Order.{IsOrdered, pickup_own}
use usbip.Vhci.Sending.{Sent, send_cmd_submit_total}
use usbip.Core.Recv.{recv_xbuff, usbip_recv, recv_loop}
use usbip.Core.Iso.{recv_iso}
use usbip.Examples.{little_endian, script}
use usbip.Core.Events.{event_handler, no_event, vdev_event_down}
use usbip.Core.Device.{vdev_notassigned}
use usbip.Vhci.Connection.{vhci_eh_ops, store_attach, is_null}
use usbip.Vhci.Connection.Lifecycle.{IsFree, vdev_down_frees, store_attach_cases}
use usbip.Examples.States.{idle, controller, closing, reply}

taken : pickup_urb_and_free_priv controller 0 5 ≡ some (7, free_priv controller 0 5 7)
unfolding pickup_urb_and_free_priv find
taken = refl

taken_closing : pickup_urb_and_free_priv closing 0 5 ≡ some (7, free_priv closing 0 5 7)
unfolding pickup_urb_and_free_priv find
taken_closing = refl

data_good :
    is_negative (data_read little_endian script (free_priv controller 0 5 7) 0 7 reply).0 ≡ false
unfolding pack_pdu recv_xbuff usbip_recv recv_loop
data_good = refl

packets_good :
    is_negative (packets_read little_endian script true (free_priv controller 0 5 7) 0 7 reply).0
    ≡ false
unfolding pack_pdu recv_xbuff usbip_recv recv_loop recv_iso
packets_good = refl

data_bad : is_negative (data_read little_endian script (free_priv closing 0 5 7) 0 7 reply).0 ≡ true
unfolding pack_pdu recv_xbuff usbip_recv recv_loop
data_bad = refl

recv_ret_submit_completes_example :
    ((recv_ret_submit little_endian script true controller 0 reply).given_back
      ≡ record { urb = 7; status = 0 } ∷ [])
    × (balance (recv_ret_submit little_endian script true controller 0 reply) 0 7
        ≡ balance controller 0 7)
recv_ret_submit_completes_example =
    recv_ret_submit_completes little_endian script true controller 0 reply 7
      (free_priv controller 0 5 7) 7 taken data_good packets_good

recv_ret_submit_loses_example :
    ((recv_ret_submit little_endian script true closing 0 reply).given_back ≡ [])
    × (pending closing 0 7
        ≡ 1 + pending (recv_ret_submit little_endian script true closing 0 reply) 0 7)
recv_ret_submit_loses_example =
    recv_ret_submit_loses little_endian script true closing 0 reply 7 (free_priv closing 0 5 7)
      taken_closing data_bad

controller-IsOrdered : IsOrdered controller 0
controller-IsOrdered = ((omega arith, (omega arith, omega arith)), omega arith)

pickup_own_example : (h : Hcd (List ℕ)) × (pickup_urb_and_free_priv controller 0 5 ≡ some (7, h))
pickup_own_example =
    pickup_own controller 0 0 (record { seqnum = 5; urb = 7 }) controller-IsOrdered refl

send_cmd_submit_total_example :
    (r : Bool × Hcd (List ℕ)) × (send_cmd_submit little_endian script 2 true controller 0 ≡ some r)
    × Sent little_endian script true controller 0 r
send_cmd_submit_total_example =
    send_cmd_submit_total little_endian script 2 true controller 0 (omega arith)

vdev_down_frees_example :
    (h : Hcd (List ℕ)) × (event_handler (vhci_eh_ops 0) 2 (controller, vdev_event_down)
      ≡ some ((h, no_event), false))
    × IsFree (h.vdev 0)
    × (balance h 0 7 ≡ balance controller 0 7)
vdev_down_frees_example = vdev_down_frees 0 controller 0 7

store_attach_cases_example :
    (store_attach idle 12 2 (some (1 ∷ [])) 65538 3 ≡ (neg einval, idle))
    ⊎ (((store_attach idle 12 2 (some (1 ∷ [])) 65538 3).0 ≡ 12)
        × (2 < 8)
        × (is_null (idle.vdev 2).ud.status ≡ true)
        × (((store_attach idle 12 2 (some (1 ∷ [])) 65538 3).1.vdev 2).ud.tcp_socket
            ≡ some (1 ∷ []))
        × (((store_attach idle 12 2 (some (1 ∷ [])) 65538 3).1.vdev 2).ud.status
            ≡ vdev_notassigned))
store_attach_cases_example = store_attach_cases idle 12 2 (some (1 ∷ [])) 65538 3
