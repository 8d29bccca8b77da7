-- ===== src/Filter.antt =====
-- The embedded Python blocks that build a filter from their parameters.
pub mod Kit
pub mod Custom
pub mod Embedded
mod Tests
