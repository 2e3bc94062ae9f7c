-- ===== src/Engine/Tests.antt =====
-- Runs of the vLLM adapter, and its theorems at concrete data.
use infernix.Prelude.{ℕ, ◌*◌, ◌+◌, ◌≡◌, refl, Bool, true, false, Option, none, some, List, [], ◌∷◌}
use infernix.Prelude.Text.{Text, codes, text_eq, join}
use infernix.Prelude.Dict.{lookup}
use infernix.Cache.Disk.{Disk, dir, is_dir, is_file, file_at}
use infernix.Cache.Config.{default_config}
use infernix.Cache.Populate.{Download, complete, Page}
use infernix.Cache.Access.{Around, is_ready, get_model_path}
use infernix.Adapter.Context.{AdapterContext, prompt_turns, require_device_mib}
use infernix.Engine.Vllm.{
  done, mib, observed_device_envelope_mib, device_arena_fraction, LlmOptions, replayed_prompt, Vllm,
  transform,
}
use infernix.Engine.Vllm.Arena.{IsArena, device_arena_fraction-IsArena}
use infernix.Engine.Vllm.Release.{EndsWell, transform-EndsWell}

abbrev chat_context : AdapterContext
chat_context = record {
  adapter_id = codes "vllm-python";
  runtime_mode = codes "linux-gpu";
  model_id = codes "qwen-awq";
  display_name = codes "Turbo";
  family = codes "llm";
  selected_engine = codes "diffusers";
  artifact_type = codes "llm";
  runtime_lane = codes "gpu";
  input_text = codes "hello";
  input_object_ref = [];
  generated_output_object_prefix = codes "users/ann/contexts/chat/generated/";
  bootstrap_ready = true;
  bootstrap_manifest_path = codes "/engine/bootstrap.json";
  host_residency_mib = 2048;
  device_mib = some 4096;
  context_length = 2048;
  batch_size = 1;
  generation_bound = 64;
  cache_element_width = 2;
  stream_weights_to_device = false;
  conversation_prefix =
      record { role = codes "user"; text = codes "hi" }
      ∷ record { role = codes "assistant"; text = codes "hello" }
      ∷ [];
  conversation_prefix_hash = [];
  kv_cache_disposition = [];
}

-- A card of 24 GiB and a little.
abbrev card : ℕ
card = 24 * 1024 * mib + 5

arena_asked :
    device_arena_fraction (some card) chat_context
    ≡ done (record { numerator = 4096; denominator = 24576 })
unfolding device_arena_fraction require_device_mib observed_device_envelope_mib
arena_asked = refl

device_arena_fraction-IsArena_example :
    (require_device_mib chat_context ≡ some 4096)
    × IsArena card (record { numerator = 4096; denominator = 24576 })
device_arena_fraction-IsArena_example =
    device_arena_fraction-IsArena card chat_context
      (record { numerator = 4096; denominator = 24576 }) arena_asked

abbrev no_pages : Text → Text → Option (List Page)
no_pages bucket prefix = none

abbrev no_body : Text → Text → Download
no_body bucket key = complete []

abbrev around : Around
around = record {
  config = some default_config;
  boto3 = true;
  client = record { paginate = no_pages; download_fileobj = no_body };
  now = 5;
  read_only = false;
  stuck = λ name. false;
}

abbrev ready_disk : Disk
ready_disk =
    (codes "qwen-awq", record { atime = 1; node = dir ((codes ".ready", codes "x") ∷ []) }) ∷ []

abbrev always : LlmOptions → Bool
always options = true

abbrev echoes : LlmOptions → Text → ℕ → Option Text
echoes options prompt bound = some prompt

abbrev vllm : Vllm
vllm = record {
  installed = true;
  total_memory = some card;
  constructs = always;
  generates = echoes;
}

replays_turns :
    (transform vllm around chat_context ready_disk).0.result
    ≡ done (codes "user: hi\nassistant: hello")
unfolding transform get_model_path is_ready is_dir is_file file_at lookup text_eq
    device_arena_fraction require_device_mib observed_device_envelope_mib replayed_prompt
    prompt_turns join
replays_turns = refl

transform-EndsWell_example :
    EndsWell vllm chat_context
      (get_model_path around (codes "qwen-awq") ready_disk).0
      (transform vllm around chat_context ready_disk).0
transform-EndsWell_example = transform-EndsWell vllm chat_context around ready_disk
