-- ===== src/Runner.antt =====
-- python/native-runners/apple_native_runner.py: the command that the daemon starts for a native
-- engine.
pub mod Isolation
pub mod Smoke
pub mod Output
pub mod Engines
pub mod Main
pub mod Notes
pub mod Midi
mod Tests
use infernix.Prelude.{ℕ, ◌≡◌, refl, Bool, true, false, Option, List}
use infernix.Prelude.Text.{Text}

-- Python's `int`, over the native numbers.
pub data ℤ : Type 0 where
  pos negsuc : ℕ → ℤ

-- `RunnerArgs`, with paths as their text, less `engine_name`, `selected_engine`, `family`,
-- `install_root` and `input_object_ref`, which nothing reads.
pub record RunnerArgs : Type 0 where
  pub adapter_id : Text
  pub model_id : Text
  pub generation_bound : ℤ
  pub input_text : Text
  pub input_file : Text
  pub model_cache_root : Option Text
  pub output_dir : Option Text
  pub expected_python_prefix : Text
  pub expected_unavailable_source_directories : List Text
  pub expected_unavailable_source_files : List Text
  pub expected_unavailable_source_write_probe : Option Text
  pub source_isolation_receipt : Text
  pub smoke_only : Bool

-- What a `RunnerFailure` is about.
pub data Reason : Type 0 where
  invalid_isolation_contract sentinel_unreadable sentinel_empty : Reason
  source_directory_empty source_directory_denial source_directory_readable : Text → Reason
  source_file_denial source_file_readable : Text → Reason
  write_probe_denial write_probe_writable : Text → Reason
  direct_target unsupported_adapter unsupported_smoke runtime_import : Text → Reason
  outside_prefix no_compute_devices : Reason
  mlx_observed : ℕ → Reason
  nonpositive_bound no_cache_root no_input_file no_output_dir : Reason
  cache_not_populated payload_missing unsupported_model : Text → Reason
  no_model_directory empty_output : Reason
  output_symlink artifact_outside artifact_symlink artifact_escapes : Reason
  artifact_missing artifact_empty no_notes : Reason

-- How a call ends: it returns, it raises a `RunnerFailure`, or it raises anything else.
pub data Ended (A : Type 0) : Type 0 where
  returned : A → Ended A
  failed : Reason → ℕ → Ended A
  crashed : Ended A

-- A call that returns nothing.
pub data Done : Type 0 where
  done : Done

-- The statements after a call.
abbrev pub and_then : {A B : Type 0} → Ended A → (A → Ended B) → Ended B
and_then (returned a) next = next a
and_then (failed why code) next = failed why code
and_then crashed next = crashed

pub and_then_inv :
    {A B : Type 0} (e : Ended A) (next : A → Ended B) (b : B)
    → and_then e next ≡ returned b
    → (a : A) × (e ≡ returned a) × (next a ≡ returned b)
and_then_inv (returned a) next b h = (a, refl, h)
and_then_inv (failed why code) next b h = absurd (cc h)
and_then_inv crashed next b h = absurd (cc h)

-- `if not test: raise RunnerFailure(...)`
abbrev pub require : Bool → Reason → ℕ → Ended Done
require true why code = returned done
require false why code = failed why code

pub require_inv :
    (b : Bool) (why : Reason) (code : ℕ) (u : Done) → require b why code ≡ returned u → b ≡ true
require_inv true why code u h = refl
require_inv false why code u h = absurd (cc h)
