-- ===== src/Vhci.antt =====
-- The client: the virtual host controller vhci_hcd.
pub mod State
pub mod Hcd
pub mod Connection
pub mod RootHub
pub mod Rx
pub mod Tx
pub mod Balance
pub mod Replies
pub mod Order
pub mod Rounds
pub mod Sending
pub mod Trace
