-- ===== src/Filter.antt =====
-- The filters, which may take over the URBs of the stub.
pub mod Registry
pub mod Ptp
pub mod Frame
