-- ===== src/Stub/Connection.antt =====
-- stub_dev.c, stub_main.c: how an exported device gets a connection, loses it and is cleaned up.
pub mod Cleanup
use usbip.Base.{
  ℕ, zero, suc, ◌+◌, ◌*◌, ◌^◌, bit_or, Bool, true, false, not, List, [], ◌∷◌, ◌++◌, Option, none,
  some, neg, einval, u32, is_negative, length, ◌==◌, if◌then◌else◌,
}
use usbip.Proto.Urb.{Urb, PipeType}
use usbip.Core.Events.{EhOps, no_event, sdev_event_down}
use usbip.Core.Device.{Status, sdev_available, sdev_used, sdev_error, stub}
use usbip.Stub.State.{StubPriv, Sdev, sdev_event_add}

abbrev pub is_available : Status → Bool
is_available sdev_available = true
is_available _ = false

abbrev pub is_used : Status → Bool
is_used sdev_used = true
is_used _ = false

module _ {S : Type 0} where
  -- stub_device_alloc, for a device with the given numbers and endpoints; `urb` is the memory.
  unfoldable pub device_alloc :
      ℕ → ℕ → (ℕ → Option PipeType) → (ℕ → Option PipeType) → (ℕ → Urb) → Sdev S
  device_alloc busnum devnum ep_in ep_out urb = record {
    devid = bit_or (u32 (busnum * 2 ^ 16)) devnum;
    devnum = devnum;
    ep_in = ep_in;
    ep_out = ep_out;
    ud = record {
      side = stub;
      status = sdev_available;
      tcp_socket = none;
      tcp_rx = false;
      tcp_tx = false;
      event = no_event;
    };
    priv_init = [];
    priv_tx = [];
    priv_free = [];
    unlink_tx = [];
    unlink_free = [];
    next_urb = 0;
    urb = urb;
    submitted = [];
  }

  abbrev pub set_status : Sdev S → Status → Sdev S
  set_status d st = record d { ud = record d.ud { status = st } }

  -- store_sockfd up to the start of the threads, for a descriptor that is not -1: `none` where it
  -- returns -EINVAL. `socket` is what sockfd_to_socket finds.
  unfoldable pub sockfd_attach : Sdev S → Option S → Option (Sdev S)
  sockfd_attach d socket = if not (is_available d.ud.status) then none else elim socket [
    | none ↦ none
    | some s ↦
        some (record d { ud = record d.ud { tcp_socket = some s; tcp_rx = true; tcp_tx = true } })
  ]

  -- Its end, under the lock that is taken a second time.
  abbrev pub sockfd_used : Sdev S → Sdev S
  sockfd_used d = set_status d sdev_used

  -- store_sockfd without interruption, for a device that has its data, with the descriptor that was
  -- read from the `count` bytes written, an `int`.
  unfoldable pub store_sockfd : Sdev S → ℕ → ℕ → Option S → ℕ × Sdev S
  unfolding sockfd_attach
  store_sockfd d count sockfd socket =
      if not (sockfd == neg 1)
      then elim (sockfd_attach d socket) [
        | none ↦ (neg einval, d)
        | some d' ↦ (count, sockfd_used d')
      ]
      else if not (is_used d.ud.status)
      then (neg einval, d)
      else (count, sdev_event_add d sdev_event_down)

  -- stub_priv_pop
  unfoldable pub priv_pop : Sdev S → Option (StubPriv × Sdev S)
  priv_pop d = elim d.priv_init [
    | x ∷ xs ↦ some (x, record d { priv_init = xs })
    | [] ↦ elim d.priv_tx [
      | x ∷ xs ↦ some (x, record d { priv_tx = xs })
      | [] ↦ elim d.priv_free [ x ∷ xs ↦ some (x, record d { priv_free = xs }) | [] ↦ none ]
    ]
  ]

  -- stub_device_cleanup_urbs, on fuel: the URBs that were killed and freed, in that order. An URB
  -- that is killed completes with -ENOENT, at which stub_complete does nothing.
  unfoldable pub cleanup_urbs : ℕ → Sdev S → Option (List ℕ × Sdev S)
  unfolding priv_pop
  cleanup_urbs zero d = none
  cleanup_urbs (suc fuel) d = elim (priv_pop d) [
    | none ↦ some ([], d)
    | some (x, d') ↦ elim (cleanup_urbs fuel d') [
      | none ↦ none
      | some (freed, d'') ↦ some (x.urb ∷ freed, d'')
    ]
  ]

  -- The number of requests of a device, which is the number of rounds.
  abbrev pub held : Sdev S → ℕ
  held d = length d.priv_init + length d.priv_tx + length d.priv_free

  abbrev pub release : Sdev S → Sdev S
  release d = record d { ud = record d.ud { tcp_rx = false; tcp_tx = false; tcp_socket = none } }

  -- stub_shutdown_connection
  unfoldable pub shutdown_connection : Sdev S → Sdev S
  unfolding cleanup_urbs
  shutdown_connection d =
      let d' : Sdev S = elim (cleanup_urbs (suc (held d)) (release d)) [
        | none ↦ release d
        | some (freed, d') ↦ d'
      ] in
      record d' { unlink_tx = []; unlink_free = [] }

  -- stub_device_reset, for the results of usb_lock_device_for_reset and usb_reset_device.
  unfoldable pub device_reset : ℕ → ℕ → Sdev S → Sdev S
  device_reset lock reset d =
      if is_negative lock
      then set_status d sdev_error
      else if reset == 0
      then set_status d sdev_available
      else set_status d sdev_error

  -- stub_device_unusable
  unfoldable pub device_unusable : Sdev S → Sdev S
  device_unusable d = set_status d sdev_error

  -- `sdev->ud.eh_ops`
  abbrev pub stub_eh_ops : ℕ → ℕ → EhOps (Sdev S)
  stub_eh_ops lock reset = record {
    shutdown = λ d. (shutdown_connection d, no_event);
    reset = λ d. (device_reset lock reset d, no_event);
    unusable = λ d. (device_unusable d, no_event);
  }
