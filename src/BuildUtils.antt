-- ===== src/BuildUtils.antt =====
-- python/build_utils.py
pub mod Settings
pub mod Template
pub mod Log
pub mod Dicts
pub mod Generate
mod Tests
