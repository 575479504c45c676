-- ===== src/Filter/Frame/Probe.antt =====
-- filter_ptp.c: ptp_probe, which makes the filter of a device, and ptp_remove.
use usbip.Base.{ℕ, false, List, [], ◌∷◌, Option, none, some, ◌&&◌, ◌==◌, if◌then◌else◌, map}
use usbip.Core.Device.{Side, stub, vhci}
use usbip.Filter.Ptp.{Machine, Waiting, init, idle, no_phase, change_state}
use usbip.Filter.Frame.{Frames, FrameUrb}

-- An entry of `models`, as far as ptp_probe copies it.
pub record Model : Type 0 where
  pub usb_vendor : ℕ
  pub usb_product : ℕ
  pub vendor_extension_id : ℕ

-- "Canon:EOS 650D", with PTP_VENDOR_CANON
abbrev pub models : List Model
models = record { usb_vendor = 0x04a9; usb_product = 0x323b; vendor_extension_id = 11 } ∷ []

pub find_model : List Model → ℕ → ℕ → Option Model
find_model [] vendor product = none
find_model (m ∷ ms) vendor product =
    let rest : Option Model = find_model ms vendor product in
    if m.usb_vendor == vendor && m.usb_product == product then some m else rest

-- kzalloc
abbrev pub zero_machine : Machine
zero_machine = record {
  state = no_phase;
  size = 0;
  pdu_length = 0;
  pdu_type = 0;
  pdu_code = 0;
  pdu_trans_id = 0;
}

abbrev pub zero_filter : (ℕ → FrameUrb) → Frames
zero_filter urb = record {
  ptp = record {
    state = init;
    vendor = 0;
    locked = false;
    timer = false;
    request_queue = [];
    free_list = [];
    trans_id = 0;
    rx_trans_id = 0 ∷ 0 ∷ 0 ∷ 0 ∷ [];
  };
  tx_machine = zero_machine;
  rx_machine = zero_machine;
  self_machine = zero_machine;
  send_machine = zero_machine;
  urb = urb;
  frame_count = 0;
  frame_serving = false;
  has_in_pipe = false;
  has_out_pipe = false;
  out_pipe_size = 0;
  has_frame_buffer = false;
  frame_buffer = λ i. 0;
  frame_head = 0;
  frame_tail = 0;
  frame_length = 0;
  frame_pdu_end = false;
  frame_rx_length = 0;
  frame_rx_pdu_end = false;
  frame_buffer_size = 0;
  frame_rx_tail = 0;
  frame_rx_tail2 = 0;
  client_queue = [];
  busy_queue = [];
  frame_serving_urb = none;
  trigger_jiffies = 0;
  trigger_pdu = [];
  submitted = [];
  returned = [];
}

-- ptp_probe, built without PTP_CONFIG_PARSE_DEVICE_INFO; that there is memory is not tested. `urb`
-- is the memory of the URBs.
unfoldable pub probe : Side → ℕ → ℕ → (ℕ → FrameUrb) → Option Frames
unfolding find_model
probe vhci vendor product urb = none
probe stub vendor product urb = elim (find_model models vendor product) [
  | none ↦ none
  | some m ↦
      let f : Frames = zero_filter urb in
      some (record f { ptp = change_state (record f.ptp { vendor = m.vendor_extension_id }) idle })
]

-- ptp_remove: the URBs that it frees, those of the free list.
unfoldable pub remove : Frames → List ℕ
remove f = map (λ (w : Waiting). w.urb) (change_state f.ptp idle).free_list
