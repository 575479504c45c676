-- ===== src/Stub.antt =====
-- The server: the stub driver usbip-host.
pub mod State
pub mod Requests
pub mod Rx
pub mod Tx
pub mod Gather
pub mod Owed
pub mod Connection
pub mod Rounds
pub mod Sending
pub mod Busid
pub mod Probe
