-- ===== src/Userspace.antt =====
-- The userspace programs (userspace/src).
pub mod Network
pub mod Client
pub mod Devices
pub mod Usbipd
pub mod Attach
pub mod Listing
pub mod Ports
