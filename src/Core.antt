-- ===== src/Core.antt =====
-- The common module usbip_core: the part of a device that both drivers share, its event handler,
-- and what it reads from its socket.
pub mod Events
pub mod Device
pub mod Socket
pub mod Recv
pub mod Sending
pub mod Iso
pub mod Pad
