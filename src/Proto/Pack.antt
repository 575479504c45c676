-- ===== src/Proto/Pack.antt =====
-- usbip_common.c: copying between an URB and the header that stands for it.
use usbip.Base.{ℕ, ◌-◌, ◌^◌, Bool, true, false, bit_and, ◌==◌, if◌then◌else◌}
use usbip.Proto.Header.{Header, cmd_submit, ret_submit}
use usbip.Proto.Urb.{Urb}

-- URB_NO_TRANSFER_DMA_MAP of <linux/usb.h>
abbrev pub no_transfer_dma_map : ℕ
no_transfer_dma_map = 4

-- `flags &= ~URB_NO_TRANSFER_DMA_MAP`
unfoldable pub tweak_transfer_flags : ℕ → ℕ
tweak_transfer_flags flags = bit_and flags (2 ^ 32 - 1 - no_transfer_dma_map)

pack_cmd_submit : Header → Urb → Bool → Header × Urb
pack_cmd_submit h urb true = (
  record h {
    u = record h.u {
      word0 = tweak_transfer_flags urb.transfer_flags;
      word1 = urb.transfer_buffer_length;
      word2 = urb.start_frame;
      word3 = urb.number_of_packets;
      word4 = urb.interval;
    };
  },
  urb,
)
pack_cmd_submit h urb false = (
  h,
  record urb {
    transfer_flags = h.u.word0;
    transfer_buffer_length = h.u.word1;
    start_frame = h.u.word2;
    number_of_packets = h.u.word3;
    interval = h.u.word4;
  },
)

pack_ret_submit : Header → Urb → Bool → Header × Urb
pack_ret_submit h urb true = (
  record h {
    u = record h.u {
      word0 = urb.status;
      word1 = urb.actual_length;
      word2 = urb.start_frame;
      word3 = urb.number_of_packets;
      word4 = urb.error_count;
    };
  },
  urb,
)
pack_ret_submit h urb false = (
  h,
  record urb {
    status = h.u.word0;
    actual_length = h.u.word1;
    start_frame = h.u.word2;
    number_of_packets = h.u.word3;
    error_count = h.u.word4;
  },
)

-- `pack` says which way to copy; any other command copies nothing.
unfoldable pub pack_pdu : Header → Urb → ℕ → Bool → Header × Urb
unfolding pack_cmd_submit pack_ret_submit
pack_pdu h urb cmd pack =
    if cmd == cmd_submit
    then pack_cmd_submit h urb pack
    else if cmd == ret_submit
    then pack_ret_submit h urb pack
    else (h, urb)
