-- ===== src/Vhci/RootHub.antt =====
-- vhci_hcd.c: the emulated root hub, its start and stop, and its power management.
pub mod Control
pub mod Changes
pub mod Reset
use usbip.Base.{
  ℕ, zero, suc, ◌+◌, ◌-◌, ◌*◌, ◌%◌, ◌^◌, Bool, true, false, not, ◌&&◌, ◌||◌, List, [], ◌∷◌, Option,
  none, some, neg, epipe, etimedout, eshutdown, ltb, leb, ◌==◌, if◌then◌else◌,
}
use usbip.Core.Events.{vdev_event_removed}
use usbip.Core.Device.{Status, vdev_notassigned}
use usbip.Vhci.State.{Hcd, update, set_vdev, vdev_event_add, vhci_nports}
use usbip.Vhci.Connection.{
  set_bit, device_init, bit_connection, bit_low_speed, bit_high_speed, speed_high, speed_low,
}

-- Numbers of bits: USB_PORT_STAT_ENABLE 0x2 and the features of a port in <linux/usb/ch11.h>.
abbrev pub bit_enable : ℕ
bit_enable = 1

abbrev pub feat_suspend : ℕ
feat_suspend = 2

abbrev pub feat_reset : ℕ
feat_reset = 4

abbrev pub feat_power : ℕ
feat_power = 8

abbrev pub feat_c_suspend : ℕ
feat_c_suspend = 18

abbrev pub feat_c_reset : ℕ
feat_c_reset = 20

-- The requests, `typeReq`, of <linux/usb/hcd.h>.
abbrev pub clear_hub_feature : ℕ
clear_hub_feature = 0x2001

abbrev pub clear_port_feature : ℕ
clear_port_feature = 0x2301

abbrev pub get_hub_descriptor : ℕ
get_hub_descriptor = 0xa006

abbrev pub get_hub_status : ℕ
get_hub_status = 0xa000

abbrev pub get_port_status : ℕ
get_port_status = 0xa300

abbrev pub set_hub_feature : ℕ
set_hub_feature = 0x2003

abbrev pub set_port_feature : ℕ
set_port_feature = 0x2303

-- The clock of the kernel at the time of a call: `jiffies`, msecs_to_jiffies and time_after.
pub record Clock : Type 0 where
  pub jiffies : ℕ
  pub msecs_to_jiffies : ℕ → ℕ
  pub time_after : ℕ → ℕ → Bool

-- `jiffies + msecs_to_jiffies(ms)`, an `unsigned long`
abbrev pub after : Clock → ℕ → ℕ
after clock ms = (clock.jiffies + clock.msecs_to_jiffies ms) % 2 ^ 64

-- `port_status & PORT_C_MASK`: the bits 16 to 20.
abbrev pub port_changed : (ℕ → Bool) → Bool
port_changed word = word 16 || (word 17 || (word 18 || (word 19 || word 20)))

-- The `struct usb_hub_descriptor`; the bytes that are not named are 0.
pub record HubDescriptor : Type 0 where
  pub desc_length : ℕ
  pub descriptor_type : ℕ
  pub nbr_ports : ℕ
  pub hub_characteristics : ℕ
  pub device_removable : List ℕ

abbrev pub hub_descriptor : HubDescriptor
hub_descriptor = record {
  desc_length = 9;
  descriptor_type = 0x29;
  nbr_ports = vhci_nports;
  hub_characteristics = 1;
  device_removable = 0xff ∷ 0xff ∷ [];
}

-- What a request writes to `buf`: nothing, the descriptor, or some bytes.
pub data Answer : Type 0 where
  no_answer : Answer
  descriptor : HubDescriptor → Answer
  bytes : List ℕ → Answer

-- The byte whose lowest bit is bit `i` of a word.
abbrev pub bit_value : Bool → ℕ → ℕ
bit_value b weight = if b then weight else 0

abbrev pub byte_at : (ℕ → Bool) → ℕ → ℕ
byte_at word i =
    bit_value (word i) 1
    + bit_value (word (i + 1)) 2
    + bit_value (word (i + 2)) 4
    + bit_value (word (i + 3)) 8
    + bit_value (word (i + 4)) 16
    + bit_value (word (i + 5)) 32
    + bit_value (word (i + 6)) 64
    + bit_value (word (i + 7)) 128

abbrev pub is_notassigned : Status → Bool
is_notassigned vdev_notassigned = true
is_notassigned _ = false

-- `rhport`, from the low byte of wIndex; `none` where it is no index of `port_status`.
unfoldable pub rhport_of : ℕ → Option ℕ
rhport_of w =
    let low : ℕ = w % 256 in
    if low == 0 then none else if leb low vhci_nports then some (low - 1) else none

-- `if (wIndex > VHCI_NPORTS || wIndex < 1)` only sets the result.
abbrev pub port_error : ℕ → ℕ
port_error w = if ltb vhci_nports w || ltb w 1 then neg epipe else 0

-- Whether the request reads or writes the word of a port: ClearPortFeature, GetPortStatus, and
-- SetPortFeature but for USB_PORT_FEAT_SUSPEND.
abbrev pub uses_port : ℕ → ℕ → Bool
uses_port request value =
    request == clear_port_feature
    || (request == get_port_status || (request == set_port_feature && not (value == feat_suspend)))

module _ {S : Type 0} where
  -- The loop of vhci_hub_status, from port `rhport` on: `changed` and the bits of the buffer.
  unfoldable pub hub_status_loop : ℕ → ℕ → Hcd S → Bool × (ℕ → Bool) → Bool × (ℕ → Bool)
  hub_status_loop zero rhport h s = s
  hub_status_loop (suc rounds) rhport h (changed, buf) = hub_status_loop rounds (suc rhport) h (
      if port_changed (h.port_status rhport)
      then (true, update buf (suc rhport) true)
      else (changed, buf))

  -- vhci_hub_status: the result, the bits of the buffer, and whether the root hub is resumed.
  -- `accessible` is HCD_HW_ACCESSIBLE.
  unfoldable pub hub_status : Bool → Hcd S → ℕ × (ℕ → Bool) × Bool
  unfolding hub_status_loop
  hub_status accessible h =
      let s = hub_status_loop vhci_nports 0 h (false, λ i. false) in
      if accessible
      then (if s.0 then 2 else 0, s.1, h.suspended && s.0)
      else (0, (λ i. false), false)

  -- `port_status[rhport] |= 1 << wValue` and `&= ~(1 << wValue)`; `none` where the shift has no
  -- meaning.
  abbrev pub put_bit : Hcd S → ℕ → ℕ → Bool → Option (Hcd S)
  put_bit h p value to = if ltb value 32 then some (set_bit h p value to) else none

  -- The switch on the speed under USB_PORT_FEAT_C_RESET.
  abbrev restore_speed : Hcd S → ℕ → Hcd S
  restore_speed h p =
      if (h.vdev p).speed == speed_high
      then set_bit h p bit_high_speed true
      else if (h.vdev p).speed == speed_low
      then set_bit h p bit_low_speed true
      else h

  -- ClearPortFeature
  unfoldable pub clear_feature : Clock → Hcd S → ℕ → ℕ → Option (Hcd S)
  clear_feature clock h p value =
      if value == feat_suspend
      then (if h.port_status p feat_suspend
          then some (record h { resuming = true; re_timeout = after clock 20 })
          else some h)
      else if value == feat_power
      then some (record h { port_status = update h.port_status p (λ bit. false); resuming = false })
      else if value == feat_c_reset
      then put_bit (restore_speed h p) p value false
      else put_bit h p value false

  -- The two tests of GetPortStatus: the end of a resume, and the end of a reset.
  unfoldable pub finish_resume : Clock → Hcd S → ℕ → Hcd S
  finish_resume clock h p =
      if h.resuming && clock.time_after clock.jiffies h.re_timeout
      then record (set_bit (set_bit h p feat_c_suspend true) p feat_suspend false) {
        resuming = false;
        re_timeout = 0;
      }
      else h

  unfoldable pub finish_reset : Clock → Hcd S → ℕ → Hcd S
  finish_reset clock h p =
      let done : Hcd S = record (set_bit (set_bit h p feat_c_reset true) p feat_reset false) {
        re_timeout = 0;
      } in
      if h.port_status p feat_reset && clock.time_after clock.jiffies h.re_timeout
      then (if is_notassigned (h.vdev p).ud.status then set_bit done p bit_enable true else done)
      else h

  -- The word of a port as the two 16-bit numbers, low byte first.
  abbrev pub status_bytes : Hcd S → ℕ → List ℕ
  status_bytes h p =
      byte_at (h.port_status p) 0
      ∷ byte_at (h.port_status p) 8
      ∷ byte_at (h.port_status p) 16
      ∷ byte_at (h.port_status p) 24
      ∷ []

  -- SetPortFeature
  unfoldable pub set_feature : Clock → Hcd S → ℕ → ℕ → Option (Hcd S)
  set_feature clock h p value =
      let disabled : Hcd S =
        set_bit (set_bit (set_bit h p bit_enable false) p bit_low_speed false) p bit_high_speed
          false in
      let cleared : Hcd S = if h.port_status p bit_enable then disabled else h in
      if value == feat_suspend
      then some h
      else if value == feat_reset
      then put_bit (record cleared { re_timeout = after clock 50 }) p value true
      else put_bit h p value true

  -- The three requests that name a port.
  abbrev pub answered : ℕ → Answer → Hcd S → ℕ × Answer × Hcd S
  answered ret a h = (ret, a, h)

  unfoldable pub port_request : Clock → Hcd S → ℕ → ℕ → ℕ → ℕ → Option (ℕ × Answer × Hcd S)
  unfolding clear_feature set_feature finish_resume finish_reset
  port_request clock h request value w p =
      let polled : Hcd S = finish_reset clock (finish_resume clock h p) p in
      if request == clear_port_feature
      then elim (clear_feature clock h p value) [
        | none ↦ none
        | some h' ↦ some (answered 0 no_answer h')
      ]
      else if request == get_port_status
      then some (answered (port_error w) (bytes (status_bytes polled p)) polled)
      else elim (set_feature clock h p value) [
        | none ↦ none
        | some h' ↦ some (answered 0 no_answer h')
      ]

  -- The requests that name no port, and those that are unknown.
  unfoldable pub hub_request : Hcd S → ℕ → ℕ × Answer × Hcd S
  hub_request h request =
      if request == clear_hub_feature
      then answered 0 no_answer h
      else if request == get_hub_descriptor
      then answered 0 (descriptor hub_descriptor) h
      else if request == get_hub_status
      then answered 0 (bytes (0 ∷ 0 ∷ 0 ∷ 0 ∷ [])) h
      else if request == set_port_feature
      then answered 0 no_answer h
      else answered (neg epipe) no_answer h

  -- vhci_hub_control, for the numbers typeReq, wValue and wIndex: the result, what is written to
  -- `buf`, and the new state. `none` where the code reads past the ends of `port_status` or shifts
  -- by more than a word has bits.
  unfoldable pub hub_control : Bool → Clock → Hcd S → ℕ → ℕ → ℕ → Option (ℕ × Answer × Hcd S)
  unfolding port_request hub_request rhport_of
  hub_control accessible clock h request value w =
      if not accessible
      then some (answered (neg etimedout) no_answer h)
      else if uses_port request value
      then elim (rhport_of w) [ none ↦ none | some p ↦ port_request clock h request value w p ]
      else some (hub_request h request)

  -- The loop of vhci_start: vhci_device_init for each port, and its number.
  unfoldable pub start_ports : ℕ → ℕ → Hcd S → Hcd S
  start_ports zero rhport h = h
  start_ports (suc rounds) rhport h =
      start_ports rounds (suc rhport) (set_vdev h rhport (record device_init { rhport = rhport }))

  -- vhci_start; `err` is the result of sysfs_create_group.
  unfoldable pub start : ℕ → Hcd S → ℕ × Hcd S
  unfolding start_ports
  start err h =
      let h' : Hcd S = record (start_ports vhci_nports 0 h) { seqnum = 0 } in
      if err == 0 then (0, h') else (err, h')

  -- vhci_bus_suspend and vhci_bus_resume
  unfoldable pub bus_suspend : Hcd S → ℕ × Hcd S
  bus_suspend h = (0, record h { suspended = true })

  unfoldable pub bus_resume : Bool → Hcd S → ℕ × Hcd S
  bus_resume accessible h =
      if accessible then (0, record h { suspended = false }) else (neg eshutdown, h)
