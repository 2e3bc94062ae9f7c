-- ===== src/Bootstrap.antt =====
-- python/adapters/model_bootstrap.py: the coordinator's job that fills a model's prefix in MinIO.
pub mod Store
pub mod Delete
pub mod Payload
pub mod Validity
pub mod Retry
pub mod Staging
pub mod Main
mod Tests
