-- ===== src/Stub/Requests.antt =====
-- stub_rx.c: reading the control requests that need special care, the pipe of an endpoint, and the
-- flags of an URB.
use Prim.Native.Nat.{bit_and}
use usbip.Base.{
  ℕ, ◌+◌, ◌*◌, ◌/◌, ◌%◌, Bool, not, ◌&&◌, ◌||◌, List, ◌∷◌, Option, none, some, ◌==◌, if◌then◌else◌,
}
use usbip.Proto.Header.{dir_in, dir_out}
use usbip.Proto.Urb.{Urb, Pipe, PipeType, isochronous, interrupt, control, bulk, is_control}
use usbip.Stub.State.{Sdev}

-- `struct usb_ctrlrequest`, with `wValue` and `wIndex` in the machine's order.
pub record CtrlRequest : Type 0 where
  pub request_type : ℕ
  pub request : ℕ
  pub value : ℕ
  pub index : ℕ
  pub length : ℕ

-- The eight bytes of a setup packet.
abbrev pub ctrl_request : List ℕ → Option CtrlRequest
ctrl_request (a ∷ b ∷ c ∷ d ∷ e ∷ f ∷ g ∷ h ∷ rest) = some (record {
  request_type = a;
  request = b;
  value = c + 256 * d;
  index = e + 256 * f;
  length = g + 256 * h;
})
ctrl_request _ = none

-- USB_REQ_CLEAR_FEATURE 1, USB_RECIP_ENDPOINT 2, USB_ENDPOINT_HALT 0
pub is_clear_halt_cmd : CtrlRequest → Bool
is_clear_halt_cmd r = r.request == 1 && (r.request_type == 2 && r.value == 0)

-- USB_REQ_SET_INTERFACE 11, USB_RECIP_INTERFACE 1
pub is_set_interface_cmd : CtrlRequest → Bool
is_set_interface_cmd r = r.request == 11 && r.request_type == 1

-- USB_REQ_SET_CONFIGURATION 9, USB_RECIP_DEVICE 0
pub is_set_configuration_cmd : CtrlRequest → Bool
is_set_configuration_cmd r = r.request == 9 && r.request_type == 0

-- USB_REQ_SET_FEATURE 3, USB_RT_PORT 0x23, USB_PORT_FEAT_RESET 4
pub is_reset_device_cmd : CtrlRequest → Bool
is_reset_device_cmd r = r.request == 3 && (r.request_type == 0x23 && r.value == 4)

-- What the driver asks of the USB core: usb_clear_halt of an endpoint (IN or not), usb_set_interface,
-- nothing for a set_configuration, or usb_reset_device.
pub data Tweak : Type 0 where
  no_tweak : Tweak
  clear_halt : ℕ → Bool → Tweak
  set_interface : ℕ → ℕ → Tweak
  set_configuration : ℕ → Tweak
  reset_device : Tweak

tweak_request : CtrlRequest → Tweak
unfolding is_clear_halt_cmd is_set_interface_cmd is_set_configuration_cmd is_reset_device_cmd
tweak_request r =
    if is_clear_halt_cmd r
    then clear_halt (r.index % 16) (not (r.index / 128 % 2 == 0))
    else if is_set_interface_cmd r
    then set_interface r.index r.value
    else if is_set_configuration_cmd r
    then set_configuration r.value
    else if is_reset_device_cmd r
    then reset_device
    else no_tweak

-- tweak_special_requests
unfoldable pub tweak_special_requests : Urb → Tweak
unfolding tweak_request
tweak_special_requests urb =
    let request : Option CtrlRequest = elim urb.setup_packet [
      | none ↦ none
      | some setup ↦ ctrl_request setup
    ] in
    elim request [
      | none ↦ no_tweak
      | some r ↦ if is_control urb.pipe.pipetype then tweak_request r else no_tweak
    ]

module _ {S : Type 0} where
  -- get_pipe; `none` stands for BUG(), where the device has no such endpoint.
  unfoldable pub get_pipe : Sdev S → ℕ → ℕ → Option Pipe
  get_pipe d epnum dir =
      let ep : Option PipeType =
        if dir == dir_in then d.ep_in (epnum % 128) else d.ep_out (epnum % 128) in
      elim ep [
        | none ↦ none
        | some t ↦ some (record {
          pipein = not (dir == dir_out);
          pipetype = t;
          pipedevice = d.devnum;
          pipeendpoint = epnum % 16;
        })
      ]

-- URB_NO_TRANSFER_DMA_MAP, URB_NO_INTERRUPT, URB_DIR_MASK and URB_FREE_BUFFER of <linux/usb.h>
abbrev pub base_flags : ℕ
base_flags = 0x0004 + 0x0080 + 0x0200 + 0x0100

-- The flags that are allowed for a type of transfer and a direction: URB_ZERO_PACKET 0x40,
-- URB_NO_FSBR 0x20, URB_SHORT_NOT_OK 1, URB_ISO_ASAP 2.
unfoldable pub allowed_flags : PipeType → Bool → ℕ
allowed_flags bulk is_out = if is_out then base_flags + 0x40 + 0x20 else base_flags + 0x20 + 1
allowed_flags control is_out = if is_out then base_flags + 0x20 else base_flags + 0x20 + 1
allowed_flags interrupt is_out = if is_out then base_flags else base_flags + 1
allowed_flags isochronous is_out = base_flags + 2

-- Whether a request sends data, or `none` where masking_bogus_flags gives up.
abbrev pub is_out : Urb → Option Bool
is_out urb =
    if is_control urb.pipe.pipetype
    then elim urb.setup_packet [
      | none ↦ none
      | some setup ↦ elim (ctrl_request setup) [
        | none ↦ none
        | some r ↦ some (r.request_type / 128 % 2 == 0 || r.length == 0)
      ]
    ]
    else some (not urb.pipe.pipein)

-- masking_bogus_flags, on an URB whose device is present and whose endpoint exists.
unfoldable pub masking_bogus_flags : Urb → Urb
unfolding allowed_flags
masking_bogus_flags urb = elim (is_out urb) [
  | none ↦ urb
  | some out ↦ record urb {
    transfer_flags = bit_and urb.transfer_flags (allowed_flags urb.pipe.pipetype out);
  }
]
