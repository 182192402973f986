-- ===== src/Tests.antt =====
-- The theorems at concrete inputs, and runs of the definitions.
pub mod Transfers
pub mod Calls
pub mod Groups
pub mod Chat
pub mod Files
pub mod Signals
pub mod Hashes
pub mod Sending
pub mod Network
pub mod History
