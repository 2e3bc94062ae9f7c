-- ===== src/Adapter/Context.antt =====
-- `AdapterContext` and `load_adapter_context` of python/adapters/common.py.
pub mod Prompt
pub mod Turns
use infernix.Prelude.{ℕ, Bool, true, false, Option, none, some, List, [], ◌∷◌, ◌++◌, not}
use infernix.Prelude.Text.{Text, codes, join, text_eq}
use infernix.Prelude.Words.{words}
use infernix.Adapter.Request.{
  Claim, no_claim, host_resident, host_and_device, ConversationTurn, WorkerRequest,
}

pub record AdapterContext : Type 0 where
  pub adapter_id : Text
  pub runtime_mode : Text
  pub model_id : Text
  pub display_name : Text
  pub family : Text
  pub selected_engine : Text
  pub artifact_type : Text
  pub runtime_lane : Text
  pub input_text : Text
  pub input_object_ref : Text
  pub generated_output_object_prefix : Text
  pub bootstrap_ready : Bool
  pub bootstrap_manifest_path : Text
  pub host_residency_mib : ℕ
  pub device_mib : Option ℕ
  pub context_length : ℕ
  pub batch_size : ℕ
  pub generation_bound : ℕ
  pub cache_element_width : ℕ
  pub stream_weights_to_device : Bool
  pub conversation_prefix : List ConversationTurn
  pub conversation_prefix_hash : Text
  pub kv_cache_disposition : Text

unfoldable pub normalized_input_text : Text → Text
normalized_input_text value = join (codes " ") (words value)

-- `AdapterContext.prompt_turns`
unfoldable pub prompt_turns : AdapterContext → List ConversationTurn
prompt_turns c = elim (c.conversation_prefix) [
  | [] ↦ record { role = codes "user"; text = c.input_text } ∷ []
  | turn ∷ turns ↦ turn ∷ turns
]

-- `AdapterContext.replays_prefix`
unfoldable pub replays_prefix : AdapterContext → Bool
unfolding text_eq
replays_prefix c = not (text_eq c.kv_cache_disposition (codes "reuse"))

-- `AdapterContext.require_device_mib`: `none` is the RuntimeError.
unfoldable pub require_device_mib : AdapterContext → Option ℕ
require_device_mib c = c.device_mib

-- With no claim, protobuf reads the host-resident quantity as zero.
unfoldable pub request_host_residency_mib : Claim → ℕ
request_host_residency_mib (host_and_device host device) = host
request_host_residency_mib (host_resident host) = host
request_host_residency_mib no_claim = 0

unfoldable pub request_device_mib : Claim → Option ℕ
request_device_mib (host_and_device host device) = some device
request_device_mib (host_resident host) = none
request_device_mib no_claim = none

-- `exists` tells which paths exist on the host.
unfoldable pub load_adapter_context : (Text → Bool) → WorkerRequest → AdapterContext
load_adapter_context exists request =
    let bootstrap_path = request.engine_install_root ++ codes "/bootstrap.json" in
    record {
      adapter_id = request.adapter_id;
      runtime_mode = request.runtime_mode;
      model_id = request.request_model_id;
      display_name = request.display_name;
      family = request.family;
      selected_engine = request.selected_engine;
      artifact_type = request.artifact_type;
      runtime_lane = request.runtime_lane;
      input_text = normalized_input_text request.input_text;
      input_object_ref = request.input_object_ref;
      generated_output_object_prefix = request.generated_output_object_prefix;
      bootstrap_ready = exists bootstrap_path;
      bootstrap_manifest_path = bootstrap_path;
      host_residency_mib = request_host_residency_mib request.memory_claim;
      device_mib = request_device_mib request.memory_claim;
      context_length = request.execution_shape.context_length;
      batch_size = request.execution_shape.batch_size;
      generation_bound = request.execution_shape.generation_bound;
      cache_element_width = request.execution_shape.cache_element_width;
      stream_weights_to_device = request.execution_shape.stream_weights_to_device;
      conversation_prefix = request.conversation_prefix;
      conversation_prefix_hash = request.conversation_prefix_hash;
      kv_cache_disposition = request.kv_cache_disposition;
    }
