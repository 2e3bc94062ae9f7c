-- ===== src/Engine.antt =====
-- The engines of python/adapters: vllm_python.py, transformers_python.py, diffusers_python.py and
-- pytorch_python.py.
pub mod Vllm
pub mod Local
pub mod Transformers
pub mod Diffusers
pub mod Pytorch
mod Tests
mod LocalTests
