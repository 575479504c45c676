-- ===== src/Examples/Export.antt =====
-- The theorems on connecting, cleaning up and claiming a device, at concrete inputs.
use usbip.Base.{ℕ, List, [], ◌∷◌, Option, ◌≡◌, refl, true, false, none, some, neg, einval, ◌==◌}
use usbip.Core.Events.{event_handler, no_event, sdev_event_down}
use usbip.Core.Device.{sdev_available, sdev_used}
use usbip.Stub.State.{Sdev}
use usbip.Stub.Connection.{stub_eh_ops, sockfd_attach, sockfd_used, store_sockfd}
use usbip.Stub.Connection.Cleanup.{IsStopped, sdev_down_frees, sockfd_race}
use usbip.Stub.Busid.{BusIdPriv, get_busid_priv, del_match_busid, same_bytes}
use usbip.Stub.Probe.{probe, disconnect, put_busid_priv}
use usbip.Stub.Probe.Lifecycle.{usable, claimed, let_go, freed, probe-disconnect}
use usbip.Examples.States.{exported, busids, busid_added, entry_added}

sdev_down_frees_example :
    (d : Sdev (List ℕ)) × (event_handler (stub_eh_ops 0 0) 2 (exported, sdev_event_down)
      ≡ some ((d, no_event), false))
    × IsStopped d
    × (d.ud.status ≡ sdev_available)
sdev_down_frees_example = sdev_down_frees 0 0 0 exported

-- The device before its connection.
abbrev waiting : Sdev (List ℕ)
waiting = record exported {
  priv_init = [];
  ud = record exported.ud {
    status = sdev_available;
    tcp_socket = none;
    tcp_rx = false;
    tcp_tx = false;
  };
}

abbrev connected : Sdev (List ℕ)
connected = record waiting {
  ud = record waiting.ud { tcp_socket = some (1 ∷ []); tcp_rx = true; tcp_tx = true };
}

attached : sockfd_attach waiting (some (1 ∷ [])) ≡ some connected
unfolding sockfd_attach
attached = refl

sockfd_race_example :
    (d : Sdev (List ℕ)) × (connected.ud.tcp_socket ≡ some (1 ∷ []))
    × (event_handler (stub_eh_ops 0 0) 2 (connected, sdev_event_down) ≡ some ((d, no_event), false))
    × ((sockfd_used d).ud.status ≡ sdev_used)
    × ((sockfd_used d).ud.tcp_socket ≡ none)
    × ((count sockfd : ℕ) (socket : Option (List ℕ))
        → (sockfd == neg 1) ≡ false
        → store_sockfd (sockfd_used d) count sockfd socket ≡ (neg einval, sockfd_used d))
sockfd_race_example = sockfd_race 0 0 0 waiting connected (1 ∷ []) attached

found_added : get_busid_priv busids busid_added ≡ some entry_added
unfolding get_busid_priv same_bytes
found_added = refl

probe-disconnect_example :
    (t : List BusIdPriv) × (probe usable busids busid_added ≡ (0, t, true))
    × (get_busid_priv t busid_added ≡ some (claimed entry_added))
    × (disconnect true false t busid_added ≡ some (put_busid_priv let_go busids busid_added, true))
    × (disconnect true false (del_match_busid t busid_added).1 busid_added
        ≡ some (put_busid_priv freed busids busid_added, true))
probe-disconnect_example = probe-disconnect busids busid_added entry_added found_added refl
