-- ===== src/Vhci/Trace/Life.antt =====
-- Theorems on the life of a port: the runs of the controller against a machine of the transitions of a port
-- (vhci_hcd.c, vhci_sysfs.c).
use usbip.Base.{
  ℕ, ◌+◌, ◌-◌, ◌^◌, ◌≡◌, sym, ap, ◌∙◌, subst, Bool, true, false, List, Option, none, some, arith,
  ◌==◌, if◌then◌else◌, Option-cases, Bool-cases, inl, inr, u32, neg, einprogress,
}
use usbip.Proto.Endian.{ByteOrder}
use usbip.Core.Socket.{Socket}
use usbip.Core.Device.{Status, vdev_null, vdev_error, vdev_notassigned, vdev_used}
use usbip.Vhci.State.{Hcd}
use usbip.Vhci.Hcd.{urb_enqueue, enqueue_linked, enqueue_default, is_inactive, default_request}
use usbip.Vhci.Connection.{
  shutdown_connection, device_reset, device_unusable, store_attach, store_detach, port_disconnect,
  rh_port_disconnect, rh_port_connect, is_null, valid_args,
}
use usbip.Vhci.RootHub.{Clock, Answer, hub_control}
use usbip.Vhci.RootHub.Control.{hub_control-Kept}
use usbip.Vhci.Trace.{
  Step, dequeue, receive, send, send_unlink, shutdown, reset, unusable, attach, detach, hub, Run,
  here, next, submit,
}
use usbip.Vhci.Trace.Status.{
  status, SameStatus, unlink_cleanup-SameStatus, urb_dequeue-SameStatus, rx_pdu-SameStatus,
  send_cmd_submit-SameStatus, send_cmd_unlink-SameStatus, tx_urb-SameStatus,
}

-- What a step of a run does to a port: the port is reset, becomes unusable, may be attached, may be
-- given its address, or none of these.
pub data Cause : Type 0 where
  resetting breaking attaching addressing other : Cause

-- The transitions of a port, by cause.
pub data PortStep : Cause → Status → Status → Type 0 where
  kept : (s : Status) → PortStep other s s
  refused : (s : Status) → PortStep attaching s s
  attached : PortStep attaching vdev_null vdev_notassigned
  unchanged : (s : Status) → PortStep addressing s s
  addressed : (s : Status) → is_inactive s ≡ false → PortStep addressing s vdev_used
  freed : (s : Status) → PortStep resetting s vdev_null
  broken : (s : Status) → PortStep breaking s vdev_error

keep : (s t : Status) → t ≡ s → PortStep other s t
keep s t e = subst (PortStep other s) (sym e) (kept s)

refuse : (s t : Status) → t ≡ s → PortStep attaching s t
refuse s t e = subst (PortStep attaching s) (sym e) (refused s)

leave : (s t : Status) → t ≡ s → PortStep addressing s t
leave s t e = subst (PortStep addressing s) (sym e) (unchanged s)

-- The cause at port `q` of a step that is about port `p`.
abbrev pub cause_at : ℕ → ℕ → Cause → Cause
cause_at p q c = if q == p then c else other

-- A transition of port `p` alone, among ports with the statuses `f`.
step_at :
    (f : ℕ → Status) (p q : ℕ) (c : Cause) (st t : Status)
    → t ≡ (if q == p then st else f q)
    → PortStep c (f p) st
    → PortStep (cause_at p q c) (f q) t
step_at f p q c st t e step = elim (Bool-cases (q == p)) [
  | inl k ↦
      let same : q ≡ p = ground (arith, k) in
      let is : st ≡ t = ground (arith, e, k) in
      rw k (subst (λ n. PortStep c (f n) t) (sym same) (subst (PortStep c (f p)) is step))
  | inr k ↦ rw k (keep (f q) t (ground (arith, e, k)))
]

is_null-is : (s : Status) → is_null s ≡ true → s ≡ vdev_null
is_null-is s e = ground arith

module _ {S : Type 0} where
  shutdown-SameStatus : (h : Hcd S) (p : ℕ) → SameStatus h (shutdown_connection h p)
  unfolding shutdown_connection rh_port_disconnect
  shutdown-SameStatus h p q = unlink_cleanup-SameStatus _ p q ∙ ground arith

  reset-PortStep :
      (h : Hcd S) (p q : ℕ)
      → PortStep (cause_at p q resetting) (status h q) (status (device_reset h p) q)
  unfolding device_reset
  reset-PortStep h p q =
      step_at (status h) p q resetting vdev_null _ (ground arith) (freed (status h p))

  unusable-PortStep :
      (h : Hcd S) (p q : ℕ)
      → PortStep (cause_at p q breaking) (status h q) (status (device_unusable h p) q)
  unfolding device_unusable
  unusable-PortStep h p q =
      step_at (status h) p q breaking vdev_error _ (ground arith) (broken (status h p))

  attach-same :
      (h : Hcd S) (rhport q : ℕ) (t : Status)
      → t ≡ status h q
      → PortStep (cause_at rhport q attaching) (status h q) t
  attach-same h rhport q t e = elim (Bool-cases (q == rhport)) [
    | inl k ↦ rw k (refuse (status h q) t e)
    | inr k ↦ rw k (keep (status h q) t e)
  ]

  attach-PortStep :
      (h : Hcd S) (count rhport : ℕ) (socket : Option S) (devid speed q : ℕ)
      → PortStep
          (cause_at rhport q attaching)
          (status h q)
          (status (store_attach h count rhport socket devid speed).1 q)
  unfolding store_attach rh_port_connect
  attach-PortStep h count rhport none devid speed q = attach-same h rhport q _ (ground arith)
  attach-PortStep h count rhport (some s) devid speed q =
      elim (Bool-cases (is_null (h.vdev rhport).ud.status)) [
        | inr n ↦ attach-same h rhport q _ (ground arith)
        | inl n ↦ elim (Bool-cases (valid_args rhport speed)) [
          | inr v ↦ attach-same h rhport q _ (ground arith)
          | inl v ↦
              step_at (status h) rhport q attaching vdev_notassigned _ (ground arith)
                (subst (λ s. PortStep attaching s vdev_notassigned) (sym (is_null-is _ n)) attached)
        ]
      ]

  detach-SameStatus : (h : Hcd S) (count rhport : ℕ) → SameStatus h (store_detach h count rhport).1
  unfolding store_detach port_disconnect
  detach-SameStatus h count rhport q = ground arith

  hub-SameStatus :
      (h h' : Hcd S) (accessible : Bool) (clock : Clock) (request value w ret : ℕ) (answer : Answer)
      → hub_control accessible clock h request value w ≡ some (ret, answer, h')
      → SameStatus h h'
  hub-SameStatus h h' accessible clock request value w ret answer e q =
      ap (λ f. (f q).ud.status)
        (hub_control-Kept accessible clock h request value w (ret, answer, h') e).0

  address :
      (h : Hcd S) (p q : ℕ) (t : Status)
      → is_inactive (status h p) ≡ false
      → t ≡ (if q == p then vdev_used else status h q)
      → PortStep addressing (status h q) t
  address h p q t n e = elim (Bool-cases (q == p)) [
    | inl k ↦
        let same : p ≡ q = ground (arith, k) in
        let active : is_inactive (status h q) ≡ false =
          subst (λ m. is_inactive (status h m) ≡ false) same n in
        let is : vdev_used ≡ t = ground (arith, e, k) in
        subst (PortStep addressing (status h q)) is (addressed (status h q) active)
    | inr k ↦ leave (status h q) t (ground (arith, e, k))
  ]

  default-PortStep :
      (memory : Bool) (h : Hcd S) (u p request q : ℕ)
      → is_inactive (status h p) ≡ false
      → PortStep addressing (status h q) (status (enqueue_default memory h u p request).1 q)
  unfolding enqueue_default
  default-PortStep memory h u p request q n = elim (Bool-cases (request == 5)) [
    | inl e ↦ address h p q _ n (ground (arith, e))
    | inr e ↦ elim (Bool-cases (request == 6)) [
      | inl f ↦
          rw (enqueue_default, e, f)
            (leave (status h q) _ (tx_urb-SameStatus memory _ u q ∙ ground arith))
      | inr f ↦ leave (status h q) _ (ground (arith, e, f))
    ]
  ]

  linked-PortStep :
      (memory : Bool) (h : Hcd S) (u p q : ℕ)
      → is_inactive (status h p) ≡ false
      → PortStep addressing (status h q) (status (enqueue_linked memory h u p).1 q)
  unfolding enqueue_linked
  linked-PortStep memory h u p q n = elim (Bool-cases ((h.urb u).pipe.pipedevice == 0)) [
    | inr e ↦ rw (enqueue_linked, e) (leave (status h q) _ (tx_urb-SameStatus memory h u q))
    | inl e ↦ elim (Option-cases (default_request (h.urb u))) [
      | inl f ↦ rw (enqueue_linked, e, f) (unchanged (status h q))
      | inr (request, f) ↦ rw (enqueue_linked, e, f) (default-PortStep memory h u p request q n)
    ]
  ]

  enqueue-PortStep :
      (link : ℕ) (memory : Bool) (h : Hcd S) (u q : ℕ)
      → PortStep addressing (status h q) (status (urb_enqueue link memory h u).1 q)
  unfolding urb_enqueue
  enqueue-PortStep link memory h u q =
      let p : ℕ = u32 ((h.urb u).dev.portnum + (2 ^ 32 - 1)) in
      elim (Bool-cases ((h.urb u).status == neg einprogress)) [
        | inr e ↦ rw (urb_enqueue, e) (unchanged (status h q))
        | inl e ↦ elim (Bool-cases (is_inactive (h.vdev p).ud.status)) [
          | inl f ↦ rw (urb_enqueue, e, f) (unchanged (status h q))
          | inr f ↦ elim (Bool-cases (link == 0)) [
            | inl g ↦ rw (urb_enqueue, e, f, g) (linked-PortStep memory h u p q f)
            | inr g ↦ rw (urb_enqueue, e, f, g) (unchanged (status h q))
          ]
        ]
      ]

module _ (o : ByteOrder) (net : Socket) where
  open net use {S}

  -- What a step does to port `q`.
  abbrev pub cause : {h h' : Hcd S} → ℕ → Step o net h h' → Cause
  cause q (reset h p b) = cause_at p q resetting
  cause q (unusable h p b) = cause_at p q breaking
  cause q (attach h count rhport socket devid speed) = cause_at rhport q attaching
  cause q (dequeue h check u memory) = other
  cause q (receive h p memory b) = other
  cause q (send h h' fuel p memory ok b e) = other
  cause q (send_unlink h h' fuel p ok b e) = other
  cause q (shutdown h p b) = other
  cause q (detach h count rhport) = other
  cause q (hub h h' accessible clock request value w ret _ e) = other

  -- Each step of a run takes port `q` through a transition of its cause; the submission of an URB
  -- may give it its address.
  abbrev pub Life : {start h : Hcd S} {us : List ℕ} → ℕ → Run o net start h us → Type 0
  Life q here = Unit
  Life q (next {h} {h'} run step) = Life q run × PortStep (cause q step) (status h q) (status h' q)
  Life q (submit {h} link u memory run) =
      Life q run × PortStep addressing (status h q) (status (urb_enqueue link memory h u).1 q)

  Step-PortStep :
      {h h' : Hcd S} (q : ℕ) (step : Step o net h h')
      → PortStep (cause q step) (status h q) (status h' q)
  Step-PortStep q (dequeue h check u memory) =
      keep (status h q) _ (urb_dequeue-SameStatus check u memory h q)
  Step-PortStep q (receive h p memory b) =
      keep (status h q) _ (rx_pdu-SameStatus o net memory h p q)
  Step-PortStep q (send h h' fuel p memory ok b e) =
      keep (status h q) _ (send_cmd_submit-SameStatus o net fuel memory ok h h' p e q)
  Step-PortStep q (send_unlink h h' fuel p ok b e) =
      keep (status h q) _ (send_cmd_unlink-SameStatus o net fuel ok h h' p e q)
  Step-PortStep q (shutdown h p b) = keep (status h q) _ (shutdown-SameStatus h p q)
  Step-PortStep q (reset h p b) = reset-PortStep h p q
  Step-PortStep q (unusable h p b) = unusable-PortStep h p q
  Step-PortStep q (attach h count rhport socket devid speed) =
      attach-PortStep h count rhport socket devid speed q
  Step-PortStep q (detach h count rhport) = keep (status h q) _ (detach-SameStatus h count rhport q)
  Step-PortStep q (hub h h' accessible clock request value w ret answer e) =
      keep (status h q) _ (hub-SameStatus h h' accessible clock request value w ret answer e q)

  -- In every run of the controller, its operations in any order and whatever the peer sends,
  -- each step takes each port through a transition that its cause allows: only a reset of that
  -- port frees it, only the handler of its failure breaks it, only attaching that port connects
  -- it, and then it was free, only the submission of an URB gives an address, and then the port
  -- was active; every other step leaves its status as it was.
  pub Run-Life : {start h : Hcd S} {us : List ℕ} (q : ℕ) (run : Run o net start h us) → Life q run
  Run-Life q here = tt
  Run-Life q (next run step) = (Run-Life q run, Step-PortStep q step)
  Run-Life q (submit {h} link u memory run) = (Run-Life q run, enqueue-PortStep link memory h u q)
