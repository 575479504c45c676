-- ===== src/Stub/Connection/Cleanup.antt =====
-- Theorems on the end of a connection (stub_dev.c, stub_main.c).
use usbip.Base.{
  ℕ, zero, suc, ◌<◌, ◌≡◌, refl, false, List, [], ◌++◌, map, Option, none, some, arith, List-cases,
  inl, inr, is_negative, ◌==◌, if◌then◌else◌, neg, einval,
}
use usbip.Core.Events.{event_handler, no_event, sdev_event_down}
use usbip.Core.Events.Handler.{event_handler-due}
use usbip.Core.Device.{Status, sdev_available, sdev_used, sdev_error}
use usbip.Stub.State.{Sdev}
use usbip.Stub.Owed.{owed}
use usbip.Stub.Connection.{
  priv_pop, cleanup_urbs, held, release, shutdown_connection, device_reset, stub_eh_ops,
  sockfd_attach, sockfd_used, store_sockfd,
}

-- The status after a reset with these results.
abbrev pub reset_status : ℕ → ℕ → Status
reset_status lock reset =
    if is_negative lock then sdev_error else if reset == 0 then sdev_available else sdev_error

module _ {S : Type 0} where
  -- The URBs that a device holds, in the order of its queues.
  abbrev pub held_urbs : Sdev S → List ℕ
  held_urbs d =
      map (λ x. x.urb) d.priv_init ++ (map (λ x. x.urb) d.priv_tx ++ map (λ x. x.urb) d.priv_free)

  abbrev pub emptied : Sdev S → Sdev S
  emptied d = record d { priv_init = []; priv_tx = []; priv_free = [] }

  -- stub_device_cleanup_urbs ends within one round more than there are requests, with all queues
  -- empty; each URB was freed once.
  pub cleanup_urbs_total :
      (fuel : ℕ) (d : Sdev S) → held d < fuel → cleanup_urbs fuel d ≡ some (held_urbs d, emptied d)
  unfolding cleanup_urbs priv_pop
  cleanup_urbs_total zero d b = absurd (omega arith)
  cleanup_urbs_total (suc fuel) d b = elim (List-cases d.priv_init) [
    | inr (x, xs, e) ↦
        ground (arith, e, cleanup_urbs_total fuel (record d { priv_init = xs }) (ground (arith, e)))
    | inl e ↦ elim (List-cases d.priv_tx) [
      | inr (x, xs, f) ↦
          ground
            (arith, e, f, cleanup_urbs_total fuel (record d { priv_tx = xs }) (ground (arith, f)))
      | inl f ↦ elim (List-cases d.priv_free) [
        | inr (x, xs, g) ↦ ground (
          arith,
          e,
          f,
          g,
          cleanup_urbs_total fuel (record d { priv_free = xs }) (ground (arith, g)),
        )
        | inl g ↦ ground (arith, e, f, g)
      ]
    ]
  ]

  -- What is left of a device whose connection is gone.
  abbrev pub stopped : ℕ → ℕ → Sdev S → Sdev S
  stopped lock reset d = device_reset lock reset (shutdown_connection d)

  shutdown_connection-is :
      (d : Sdev S)
      → shutdown_connection d ≡ record (emptied (release d)) { unlink_tx = []; unlink_free = [] }
  unfolding shutdown_connection
  shutdown_connection-is d =
      ground (arith, cleanup_urbs_total (suc (held d)) (release d) (omega arith))

  -- A device without a connection that holds no request and owes no reply.
  pub record IsStopped (d : Sdev S) : Type 0 where
    pub socket : d.ud.tcp_socket ≡ none
    pub threads : (d.ud.tcp_rx ≡ false) × (d.ud.tcp_tx ≡ false)
    pub held : held d ≡ 0
    pub owed : (n : ℕ) → owed d n ≡ 0

  stopped-IsStopped : (lock reset : ℕ) (d : Sdev S) → IsStopped (stopped lock reset d)
  unfolding device_reset
  stopped-IsStopped lock reset d = record {
    socket = ground (arith, shutdown_connection-is d);
    threads = (ground (arith, shutdown_connection-is d), ground (arith, shutdown_connection-is d));
    held = ground (arith, shutdown_connection-is d);
    owed = λ n. ground (arith, shutdown_connection-is d);
  }

  stopped-status :
      (lock reset : ℕ) (d : Sdev S) → (stopped lock reset d).ud.status ≡ reset_status lock reset
  unfolding device_reset
  stopped-status lock reset d = ground arith

  -- After SDEV_EVENT_DOWN the event handler ends in two rounds. The device has then neither socket
  -- nor threads, holds no request and owes no reply. It is available again if it could be locked and
  -- reset, and in error if not.
  pub sdev_down_frees :
      (fuel lock reset : ℕ) (d : Sdev S)
      → (d' : Sdev S) × (event_handler
            (stub_eh_ops lock reset)
            (suc (suc fuel))
            (d, sdev_event_down)
          ≡ some ((d', no_event), false))
        × IsStopped d'
        × (d'.ud.status ≡ reset_status lock reset)
  sdev_down_frees fuel lock reset d = (
    stopped lock reset d,
    event_handler-due (stub_eh_ops lock reset) fuel d sdev_event_down
        (λ d. refl, λ d. refl, λ d. refl),
    stopped-IsStopped lock reset d,
    stopped-status lock reset d,
  )

  used_refuses :
      (d : Sdev S) (count sockfd : ℕ) (socket : Option S)
      → (sockfd == neg 1) ≡ false
      → store_sockfd (sockfd_used d) count sockfd socket ≡ (neg einval, sockfd_used d)
  unfolding store_sockfd sockfd_attach
  used_refuses d count sockfd socket e = ground (arith, e)

  -- If the new connection fails before store_sockfd takes the lock for the second time, the event
  -- handler has released its socket and store_sockfd marks the device as used all the same: it is
  -- used without a socket, and every descriptor that is written then is refused with -EINVAL.
  pub sockfd_race :
      (fuel lock reset : ℕ) (d d1 : Sdev S) (s : S)
      → sockfd_attach d (some s) ≡ some d1
      → (d2 : Sdev S) × (d1.ud.tcp_socket ≡ some s)
        × (event_handler (stub_eh_ops lock reset) (suc (suc fuel)) (d1, sdev_event_down)
            ≡ some ((d2, no_event), false))
        × ((sockfd_used d2).ud.status ≡ sdev_used)
        × ((sockfd_used d2).ud.tcp_socket ≡ none)
        × ((count sockfd : ℕ) (socket : Option S)
            → (sockfd == neg 1) ≡ false
            → store_sockfd (sockfd_used d2) count sockfd socket ≡ (neg einval, sockfd_used d2))
  unfolding sockfd_attach
  sockfd_race fuel lock reset d d1 s e =
      let (d2, run, free, status) = sdev_down_frees fuel lock reset d1 in
      (d2, ground (arith, e), run, refl, free.socket, used_refuses d2)
