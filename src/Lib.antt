-- ===== src/Lib.antt =====
-- usbip: a USB device exported over TCP.
--
-- The stub driver (stub_*.c) runs where the device is plugged in: it receives requests, submits them
-- to the device and sends the results. The virtual host controller (vhci_*.c) runs at the other end:
-- it takes URBs of the local USB core, sends them as requests, and gives them back when the replies
-- come. usbip_common.c and usbip_event.c serve both. A filter (filter_ptp.c) may read ahead the frames
-- of a camera for the client. usbipd and the usbip command (userspace/src) open the connection and hand
-- it to the drivers; libusbip (userspace/client) is a client without drivers.
--
-- Which file models what:
--   Base          helpers: Boolean tests, lists over the native numbers, 32-bit words.
--   Proto.Header  usbip_struct.h: the header, whose union is five words and `setup`, and its bytes.
--   Proto.Endian  usbip_common.c: usbip_header_correct_endian and its parts.
--   Proto.Urb     the fields of the kernel's `struct urb`.
--   Proto.Pack    usbip_common.c: usbip_pack_pdu.
--   Core.Events   usbip_common.h, usbip_event.c: the event bits and event_handler.
--   Core.Device   usbip_common.h: `struct usbip_device`.
--   Core.Socket   what the drivers rely on of kernel_recvmsg and kernel_sendmsg.
--   Core.Sending  no code of its own: what it means that messages were sent over a socket.
--   Core.Recv     usbip_common.c: usbip_recv, usbip_recv_xbuff.
--   Core.Iso      usbip_common.c: usbip_alloc_iso_desc_pdu, usbip_recv_iso.
--   Core.Pad      usbip_common.c: usbip_pad_iso.
--   Vhci.State    vhci.h: the controller (`Hcd`), its ports (`Vdev`) and the waiting requests.
--   Vhci.Hcd      vhci_hcd.c: vhci_urb_enqueue (urb_enqueue), vhci_tx_urb (tx_urb),
--                 vhci_urb_dequeue (urb_dequeue), vhci_device_unlink_cleanup (unlink_cleanup).
--   Vhci.Connection  vhci_hcd.c, vhci_sysfs.c: attaching, detaching and resetting a port; its
--                 `port_status` is a function from the number of a bit.
--   Vhci.RootHub  vhci_hcd.c: vhci_hub_status, vhci_hub_control, vhci_start, vhci_bus_suspend and
--                 vhci_bus_resume.
--   Vhci.Rx       vhci_rx.c: vhci_rx_pdu (rx_pdu) and what it calls.
--   Vhci.Tx       vhci_tx.c: vhci_send_cmd_submit and vhci_send_cmd_unlink.
--   Vhci.Trace    no code of its own: the runs of the controller.
--   Stub.State    stub.h: an exported device (`Sdev`) and its requests.
--   Stub.Requests stub_rx.c: the special control requests, get_pipe, masking_bogus_flags.
--   Stub.Rx       stub_rx.c: stub_rx_pdu (rx_pdu) and what it calls.
--   Stub.Tx       stub_tx.c: stub_complete (complete), stub_send_ret_submit, stub_send_ret_unlink.
--   Stub.Busid    stub_main.c: the table of bus ids; stub_dev.c: the first test of stub_probe.
--   Stub.Connection  stub_dev.c, stub_main.c: store_sockfd, and how a device is shut down, cleaned up
--                 and reset.
--   Stub.Probe    stub_dev.c: stub_probe (probe) and stub_disconnect (disconnect).
--   Filter.Registry  usbip_common.c: the filter drivers and the filters of a device.
--   Filter.Ptp    filter_ptp.c: the states of the PTP filter; Filter.Ptp.Parse: ptp_parse (parse), on
--                 the bytes of an URB; Filter.Ptp.Container: streams of PTP containers.
--   Filter.Frame  filter_ptp.c: the frame buffer; Filter.Frame.Produce, Filter.Frame.Room and
--                 Filter.Frame.Serve: ptp_produce_, ptp_on_tx and the parts of ptp_consume_;
--                 Filter.Frame.Consume: ptp_consume_ (consume), ptp_data_complete (data_completed),
--                 ptp_cmd_complete (cmd_completed), ptp_timer (timer); Filter.Frame.Request: ptp_on_rx
--                 (on_rx); Filter.Frame.Probe: ptp_probe and ptp_remove.
--   Userspace.Client  userspace/client/client.c: device_loop, with a round of its loop as the step, and
--                 device_urb_transfer.
--   Userspace.Network  userspace/src/usbip_network.c: usbip_net_recv, usbip_net_send_op_common
--                 (send_op_common: the bytes it sends) and usbip_net_recv_op_common
--                 (net_recv_op_common). The socket is the one of the drivers: recv with MSG_WAITALL
--                 obeys the same laws.
--   Userspace.Devices  userspace/libsrc/usbip_struct.h: the devices in the messages of usbipd, and how
--                 they are packed.
--   Userspace.Usbipd  userspace/src/usbipd.c: recv_pdu and the requests that it answers.
--   Userspace.Attach  userspace/src/usbip_attach.c: query_import_device.
--   Userspace.Ports  userspace/libsrc/vhci_driver.c: usbip_vhci_get_free_port (get_free_port) and
--                 usbip_vhci_attach_device (attach_device); userspace/src/usbip_attach.c: import_device.
--   Userspace.Listing  userspace/src/usbip_list.c: get_exported_devices.
--   Link          no code of its own: what each end reads of what the other sends.
-- The other modules below these hold theorems; Examples holds a machine, a socket and states, and
-- the theorems at them.
--
-- How the code is modelled. An operation is a function from the old state to the new one and the
-- result; what it holds a lock for is one step. An `int` is its 32-bit pattern; `unsigned long` has 64
-- bits. An URB or an entry is named by its address, and the memory of the URBs is part of the state.
-- The events that a function raises are set in the device's `event`; event_handler takes them from
-- there. Whether an allocation succeeds is an argument. The stream of a socket is a parameter with the
-- laws that a receive of `n` bytes gives between 1 and `n` bytes, the next ones of the stream, or 0 or
-- an error; the byte order of the machine is one with the laws of cpu_to_be32.
--
-- Fuel. usbip_recv and usbip_net_recv read a byte at least in each round, so they are run on as much
-- fuel as they want bytes; the sending loops take one entry from a queue in each round, so one more
-- than its length is enough; on a stream of containers ptp_parse takes a header at least in each round, so one more than
-- its bytes is enough; event_handler needs two rounds if the operations raise no events. The data of a
-- reply that device_loop drops is read a byte at least at a time, so it takes one more than its bytes.
-- The fuel of ptp_consume_ is an argument: `none` is a lack of fuel or a wait without end.
--
-- Not modelled: the endless loops of the threads, registration with the kernel, and the other code of
-- the programs below userspace/, which is glue around the kernel or is still to come: the works of
-- libusbip and the parsing of sysfs; debugging output, which changes no state;
-- and the copies of other projects (gphoto2/, userspace/client/libusb0, userspace/client/deps).
pub mod Base
pub mod Core
pub mod Examples
pub mod Filter
pub mod Link
pub mod Proto
pub mod Stub
pub mod Userspace
pub mod Vhci
