-- ===== src/Adapter.antt =====
-- python/adapters/common.py: the seam between the daemon's request and an engine adapter.
pub mod Request
pub mod Context
pub mod Configure
pub mod Process
pub mod Run
pub mod Setup
mod Tests
