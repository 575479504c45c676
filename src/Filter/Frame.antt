-- ===== src/Filter/Frame.antt =====
-- filter_ptp.c: the frame buffer of the PTP filter, a ring of bytes, and the URBs that fill and
-- empty it.
pub mod Produce
pub mod Room
pub mod Serve
pub mod Consume
pub mod Request
pub mod Ring
pub mod Bounds
pub mod Placing
pub mod Fifo
pub mod Filling
pub mod Stale
pub mod Probe
use usbip.Base.{
  ℕ, ◌+◌, ◌-◌, ◌*◌, ◌/◌, ◌%◌, ◌^◌, Bool, true, false, List, [], ◌∷◌, ◌++◌, Option, none, some, u32,
  leb, ltb, ◌==◌, if◌then◌else◌,
}
use usbip.Filter.Ptp.{Ptp, Machine, Waiting, Which, rx, tx, self, send, change_state, FilterState}

-- The completion function of an URB: stub_complete for one of the client, ptp_cmd_complete or
-- ptp_data_complete for one of the filter.
pub data Completion : Type 0 where
  stub_complete cmd_complete data_complete : Completion

-- What the filter uses of an URB. The buffer of an URB with data_complete lies at `start` in the
-- frame buffer; `bytes` is the buffer of any other, as far as it is filled.
pub record FrameUrb : Type 0 where
  pub pipeout : Bool
  pub bulk : Bool
  pub complete : Completion
  pub status : ℕ
  pub transfer_buffer_length : ℕ
  pub actual_length : ℕ
  pub bytes : List ℕ
  pub start : ℕ

-- `struct ptp_filter` with its frame buffer. An `int` is its 32-bit pattern. Of in_pipe and out_pipe
-- it is kept whether they are set: the pipe 0 is a control pipe out. `submitted` are the
-- URBs given to stub_submit_urb, `returned` those of the client that stub_complete has queued.
pub record Frames : Type 0 where
  pub ptp : Ptp
  pub tx_machine : Machine
  pub rx_machine : Machine
  pub self_machine : Machine
  pub send_machine : Machine
  pub urb : ℕ → FrameUrb
  pub frame_count : ℕ
  pub frame_serving : Bool
  pub has_in_pipe : Bool
  pub has_out_pipe : Bool
  pub out_pipe_size : ℕ
  pub has_frame_buffer : Bool
  pub frame_buffer : ℕ → ℕ
  pub frame_head : ℕ
  pub frame_tail : ℕ
  pub frame_length : ℕ
  pub frame_pdu_end : Bool
  pub frame_rx_length : ℕ
  pub frame_rx_pdu_end : Bool
  pub frame_buffer_size : ℕ
  pub frame_rx_tail : ℕ
  pub frame_rx_tail2 : ℕ
  pub client_queue : List ℕ
  pub busy_queue : List ℕ
  pub frame_serving_urb : Option ℕ
  pub trigger_jiffies : ℕ
  pub trigger_pdu : List ℕ
  pub submitted : List ℕ
  pub returned : List ℕ

-- ptp_framebuf_full_size
abbrev pub full_size : ℕ
full_size = 1048576

-- The `int` -1.
abbrev pub none_int : ℕ
none_int = 2 ^ 32 - 1

-- `a <= b` and `a < b` at two `int`s, and `a - b`.
abbrev pub int_leb : ℕ → ℕ → Bool
int_leb a b = leb (u32 (a + 2 ^ 31)) (u32 (b + 2 ^ 31))

abbrev pub int_ltb : ℕ → ℕ → Bool
int_ltb a b = ltb (u32 (a + 2 ^ 31)) (u32 (b + 2 ^ 31))

abbrev pub int_sub : ℕ → ℕ → ℕ
int_sub a b = u32 (a + (2 ^ 32 - b))

-- ptp_framebuf_align
unfoldable pub framebuf_align : ℕ → ℕ
framebuf_align pt = if pt % 64 == 0 then pt else u32 ((pt / 64 + 1) * 64)

-- ptp_framebuf_to_end_count, ptp_framebuf_to_end_space and ptp_framebuf_space
unfoldable pub to_end_count : ℕ → ℕ → ℕ → ℕ
to_end_count size head tail = if int_leb tail head then int_sub head tail else int_sub size tail

unfoldable pub to_end_space : ℕ → ℕ → ℕ → ℕ
to_end_space size head tail = if int_leb tail head then int_sub size head else int_sub tail head

unfoldable pub framebuf_space : ℕ → ℕ → ℕ → ℕ
framebuf_space size head tail =
    if int_leb tail head then u32 (int_sub size head + tail) else int_sub tail head

-- PTP_TRANSFER_LENGTH
unfoldable pub transfer_length : ℕ → ℕ → ℕ
transfer_length out_pipe_size n = n / out_pipe_size * out_pipe_size

abbrev pub machine_of : Which → Frames → Machine
machine_of tx f = f.tx_machine
machine_of rx f = f.rx_machine
machine_of self f = f.self_machine
machine_of send f = f.send_machine

abbrev pub set_machine : Which → Machine → Frames → Frames
set_machine tx m f = record f { tx_machine = m }
set_machine rx m f = record f { rx_machine = m }
set_machine self m f = record f { self_machine = m }
set_machine send m f = record f { send_machine = m }

abbrev pub set_state : Frames → FilterState → Frames
set_state f st = record f { ptp = change_state f.ptp st }

abbrev pub set_urb : Frames → ℕ → FrameUrb → Frames
set_urb f u urb = record f { urb = λ v. if v == u then urb else f.urb v }

abbrev pub is_cmd_complete : Completion → Bool
is_cmd_complete cmd_complete = true
is_cmd_complete _ = false

abbrev pub is_stub_complete : Completion → Bool
is_stub_complete stub_complete = true
is_stub_complete _ = false

abbrev pub is_data_complete : Completion → Bool
is_data_complete data_complete = true
is_data_complete _ = false

pub without : ℕ → List ℕ → List ℕ
without u [] = []
without u (v ∷ vs) = let rest : List ℕ = without u vs in if v == u then rest else v ∷ rest

pub without_waiting : ℕ → List Waiting → List Waiting
without_waiting u [] = []
without_waiting u (w ∷ ws) =
    let rest : List Waiting = without_waiting u ws in if w.urb == u then rest else w ∷ rest

-- list_move_tail: an URB leaves the list that it is on, and is put at the end of another. Out of the
-- filter's own lists it goes to `priv_init` of the device, which is with the stub.
unfoldable pub take_out : Frames → ℕ → Frames
unfolding without without_waiting
take_out f u = record f {
  ptp = record f.ptp {
    request_queue = without_waiting u f.ptp.request_queue;
    free_list = without_waiting u f.ptp.free_list;
  };
  client_queue = without u f.client_queue;
  busy_queue = without u f.busy_queue;
}

abbrev pub waiting : Frames → ℕ → Waiting
waiting f u = record { urb = u; is_command = is_cmd_complete (f.urb u).complete }

unfoldable pub move_request : Frames → ℕ → Frames
unfolding take_out
move_request f u =
    let f' : Frames = take_out f u in
    record f' { ptp = record f'.ptp { request_queue = f'.ptp.request_queue ++ waiting f u ∷ [] } }

unfoldable pub move_free : Frames → ℕ → Frames
unfolding take_out
move_free f u =
    let f' : Frames = take_out f u in
    record f' { ptp = record f'.ptp { free_list = f'.ptp.free_list ++ waiting f u ∷ [] } }

unfoldable pub move_busy : Frames → ℕ → Frames
unfolding take_out
move_busy f u = let f' : Frames = take_out f u in record f' { busy_queue = f'.busy_queue ++ u ∷ [] }

unfoldable pub move_client : Frames → ℕ → Frames
unfolding take_out
move_client f u =
    let f' : Frames = take_out f u in record f' { client_queue = f'.client_queue ++ u ∷ [] }

-- The lock: `none` is a wait without end.
unfoldable pub lock : Frames → Option Frames
lock f = if f.ptp.locked then none else some (record f { ptp = record f.ptp { locked = true } })

abbrev pub unlock : Frames → Frames
unlock f = record f { ptp = record f.ptp { locked = false } }

-- The `n` bytes of the frame buffer from `start`.
pub segment : (ℕ → ℕ) → ℕ → ℕ → List ℕ
segment buffer start ℕ.zero = []
segment buffer start (ℕ.suc n) = buffer start ∷ segment buffer (start + 1) n

abbrev pub is_urb : Option ℕ → ℕ → Bool
is_urb none u = false
is_urb (some v) u = v == u
