-- ===== src/Realness.antt =====
-- The checks of the quality gate in python/adapters/common.py that read the adapters' sources.
pub mod Syntax
pub mod Check
pub mod Ownership
mod Tests
