-- ===== src/Artifact.antt =====
-- The object keys of generated artifacts, in python/adapters/common.py.
pub mod Key
pub mod Upload
mod Tests
