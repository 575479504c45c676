-- ===== src/Proto.antt =====
-- The wire protocol: usbip_struct.h, and the conversions of usbip_common.c.
pub mod Header
pub mod Endian
pub mod Urb
pub mod Pack
pub mod Wire
