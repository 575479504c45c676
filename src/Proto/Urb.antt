-- ===== src/Proto/Urb.antt =====
-- The fields of the kernel's `struct urb` that the drivers read and write.
use usbip.Base.{ℕ, List, Option, Bool, true, false}

pub data PipeType : Type 0 where
  isochronous interrupt control bulk : PipeType

-- `urb->pipe`, as usb_pipein, usb_pipetype, usb_pipedevice and usb_pipeendpoint read it.
pub record Pipe : Type 0 where
  pub pipein : Bool
  pub pipetype : PipeType
  pub pipedevice : ℕ
  pub pipeendpoint : ℕ

abbrev pub is_isochronous : PipeType → Bool
is_isochronous isochronous = true
is_isochronous _ = false

abbrev pub is_control : PipeType → Bool
is_control control = true
is_control _ = false

-- `struct usb_iso_packet_descriptor`
pub record IsoPacket : Type 0 where
  pub offset : ℕ
  pub length : ℕ
  pub status : ℕ
  pub actual_length : ℕ

-- `struct usb_device`, by its identity, with the port of the hub that it hangs on.
pub record UsbDevice : Type 0 where
  pub id : ℕ
  pub portnum : ℕ

-- An `int` is its 32-bit pattern. The pointers `transfer_buffer` and `setup_packet` may be NULL.
pub record Urb : Type 0 where
  pub dev : UsbDevice
  pub pipe : Pipe
  pub transfer_flags : ℕ
  pub transfer_buffer : Option (List ℕ)
  pub transfer_buffer_length : ℕ
  pub setup_packet : Option (List ℕ)
  pub start_frame : ℕ
  pub number_of_packets : ℕ
  pub interval : ℕ
  pub status : ℕ
  pub actual_length : ℕ
  pub error_count : ℕ
  pub iso_frame_desc : List IsoPacket
