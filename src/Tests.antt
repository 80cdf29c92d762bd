-- ===== src/Tests.antt =====
-- The theorems on concrete runs of the code.
pub mod Commands
pub mod Journal
pub mod Hub
pub mod Timing
pub mod Seats
pub mod Ledger
pub mod Upload
pub mod Senders
pub mod Center
pub mod Ingest
pub mod Intake
pub mod Watcher
pub mod Cdp
