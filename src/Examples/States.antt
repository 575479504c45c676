-- ===== src/Examples/States.antt =====
-- States of the controller, of an exported device and of the table of bus ids.
use usbip.Base.{◌==◌, ℕ, true, false, List, [], ◌∷◌, none, some, neg, einprogress, replicate}
use usbip.Proto.Header.{Header, zero_header, ret_submit, ret_unlink, cmd_unlink}
use usbip.Proto.Urb.{Urb, bulk}
use usbip.Core.Events.{no_event}
use usbip.Core.Device.{vhci, stub, vdev_used, vdev_null, sdev_used}
use usbip.Vhci.State.{Vdev, Hcd}
use usbip.Stub.State.{Sdev}
use usbip.Stub.Busid.{BusIdPriv, added, alloc, other}

-- An IN request with a buffer of four bytes.
abbrev pub in_urb : Urb
in_urb = record {
  dev = record { id = 1; portnum = 1 };
  pipe = record { pipein = true; pipetype = bulk; pipedevice = 3; pipeendpoint = 1 };
  transfer_flags = 0;
  transfer_buffer = some (replicate 4 0);
  transfer_buffer_length = 4;
  setup_packet = none;
  start_frame = 0;
  number_of_packets = 0;
  interval = 0;
  status = neg einprogress;
  actual_length = 0;
  error_count = 0;
  iso_frame_desc = [];
}

-- Its result of four bytes, and one that claims six.
abbrev pub filled_urb : Urb
filled_urb = record in_urb { actual_length = 4 }

abbrev pub long_urb : Urb
long_urb = record in_urb { actual_length = 6 }

-- A connected port: request 5 for URB 7 was sent, request 6 for URB 8 was not.
abbrev pub port_with : List ℕ → Vdev (List ℕ)
port_with bytes = record {
  udev = some 1;
  devid = 65538;
  speed = 3;
  rhport = 0;
  ud = record {
    side = vhci;
    status = vdev_used;
    tcp_socket = some bytes;
    tcp_rx = true;
    tcp_tx = true;
    event = no_event;
  };
  priv_tx = record { seqnum = 6; urb = 8 } ∷ [];
  priv_rx = record { seqnum = 5; urb = 7 } ∷ [];
  unlink_tx = [];
  unlink_rx = record { seqnum = 9; unlink_seqnum = 5 } ∷ [];
}

abbrev pub controller_with : List ℕ → Hcd (List ℕ)
controller_with bytes = record {
  seqnum = 9;
  port_status = λ p bit. bit == 0;
  resuming = false;
  re_timeout = 0;
  suspended = false;
  vdev = λ p. port_with bytes;
  urb = λ u. in_urb;
  hcpriv = λ u. some (record { port = 0; seqnum = 5 });
  given_back = [];
}

abbrev pub controller : Hcd (List ℕ)
controller = controller_with (1 ∷ 2 ∷ 3 ∷ 4 ∷ 5 ∷ 6 ∷ [])

-- A controller whose connection is closed by the peer, and one that has none.
abbrev pub closing : Hcd (List ℕ)
closing = controller_with []

abbrev pub disconnected : Hcd (List ℕ)
disconnected = record controller {
  vdev = λ p. record (port_with []) { ud = record (port_with []).ud { tcp_socket = none } };
}

-- The reply to request 5, with four bytes of data, and the reply to unlink request 9.
abbrev pub reply : Header
reply = record {
  base = record zero_header.base { command = ret_submit; seqnum = 5 };
  u = record zero_header.u { word1 = 4 };
}

abbrev pub unlinked : Header
unlinked = record zero_header {
  base = record zero_header.base { command = ret_unlink; seqnum = 9 };
}

-- A device that works on request 5, with URB 7.
abbrev pub exported : Sdev (List ℕ)
exported = record {
  devid = 65538;
  devnum = 2;
  ep_in = λ e. some bulk;
  ep_out = λ e. some bulk;
  ud = record {
    side = stub;
    status = sdev_used;
    tcp_socket = some [];
    tcp_rx = true;
    tcp_tx = true;
    event = no_event;
  };
  priv_init = record { seqnum = 5; urb = 7; unlinking = false } ∷ [];
  priv_tx = [];
  priv_free = [];
  unlink_tx = [];
  unlink_free = [];
  next_urb = 8;
  urb = λ u. record in_urb { status = 0 };
  submitted = 7 ∷ [];
}

-- The request to unlink request 5.
abbrev pub unlink_request : Header
unlink_request = record {
  base = record zero_header.base { command = cmd_unlink; seqnum = 9 };
  u = record zero_header.u { word0 = 5 };
}

-- Bus id "1-2" is marked as added, "1-3" as allocated, and one entry is free.
abbrev pub busid_added : List ℕ
busid_added = b'1' ∷ b'-' ∷ b'2' ∷ []

abbrev pub busid_alloc : List ℕ
busid_alloc = b'1' ∷ b'-' ∷ b'3' ∷ []

abbrev pub busid_new : List ℕ
busid_new = b'1' ∷ b'-' ∷ b'4' ∷ []

abbrev pub free_entry : BusIdPriv
free_entry = record {
  name = [];
  status = other;
  interf_count = 0;
  sdev = false;
  shutdown_busid = false;
}

abbrev pub entry_added : BusIdPriv
entry_added = record free_entry { name = busid_added; status = added }

abbrev pub busids : List BusIdPriv
busids =
    entry_added
    ∷ record free_entry { name = busid_alloc; status = alloc; sdev = true }
    ∷ free_entry
    ∷ []

-- A controller whose ports are free.
abbrev pub idle : Hcd (List ℕ)
idle = record controller {
  vdev = λ p. record (port_with []) {
    udev = none;
    ud = record (port_with []).ud { status = vdev_null; tcp_socket = none };
  };
}
