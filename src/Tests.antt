-- ===== src/Tests.antt =====
-- The theorems at concrete inputs.
pub mod Storage
pub mod Log
pub mod Wire
pub mod Service
pub mod Whole
pub mod Restart
