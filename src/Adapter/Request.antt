-- ===== src/Adapter/Request.antt =====
-- The fields of the protobuf `WorkerRequest` that python/adapters/common.py reads. The message type
-- is generated code; a field that is not set reads as zero or as the empty text.
use infernix.Prelude.{ℕ, Bool, List}
use infernix.Prelude.Text.{Text}

-- The `claim` of the memory budget.
pub data Claim : Type 0 where
  no_claim : Claim
  host_resident : ℕ → Claim
  host_and_device : ℕ → ℕ → Claim

pub record ExecutionShape : Type 0 where
  pub context_length : ℕ
  pub batch_size : ℕ
  pub generation_bound : ℕ
  pub cache_element_width : ℕ
  pub stream_weights_to_device : Bool

pub record ConversationTurn : Type 0 where
  pub role : Text
  pub text : Text

pub record WorkerRequest : Type 0 where
  pub adapter_id : Text
  pub runtime_mode : Text
  pub request_model_id : Text
  pub display_name : Text
  pub family : Text
  pub selected_engine : Text
  pub artifact_type : Text
  pub runtime_lane : Text
  pub input_text : Text
  pub input_object_ref : Text
  pub generated_output_object_prefix : Text
  pub engine_install_root : Text
  pub memory_claim : Claim
  pub execution_shape : ExecutionShape
  pub conversation_prefix : List ConversationTurn
  pub conversation_prefix_hash : Text
  pub kv_cache_disposition : Text
  pub model_cache_root : Text
  pub model_cache_quota_bytes : ℕ
  pub minio_endpoint : Text
  pub minio_models_bucket : Text
  pub minio_demo_artifacts_bucket : Text
  pub minio_region : Text
  pub minio_access_key : Text
  pub minio_secret_key : Text
