-- ===== src/Transfer.antt =====
-- The Transfer Center (paxalia/transfer_center/): resumable transfers between a browser and the fixed
-- exchange directory.
pub mod Settings
pub mod Model
pub mod Chunks
pub mod Exchange
pub mod Service
pub mod Control
pub mod Create
pub mod Receive
pub mod Finalize
pub mod Maintenance
pub mod Lifecycle
mod Tests
mod Runs
