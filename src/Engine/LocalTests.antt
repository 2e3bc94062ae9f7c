-- ===== src/Engine/LocalTests.antt =====
-- Runs of the transformers and pytorch adapters, and their theorems at concrete data.
use infernix.Prelude.{ℕ, ◌≡◌, refl, true, false, none, some, [], ◌∷◌, ◌++◌}
use infernix.Prelude.Text.{codes, text_eq, join}
use infernix.Prelude.Dict.{lookup, put, erase}
use infernix.Cache.Disk.{Disk, dir, is_dir, is_file, file_at}
use infernix.Cache.Config.{default_config}
use infernix.Cache.Populate.{complete}
use infernix.Cache.Access.{Around, ModelDir, is_ready, get_model_path}
use infernix.Adapter.Context.{AdapterContext, prompt_turns}
use infernix.Engine.Local.{TorchDevice, Torch, preferred_torch_device, made}
use infernix.Engine.Transformers.{Ids, type_error, flattened, tokenize_prompt, Transformers}
use infernix.Engine.Transformers.Continuation.{IsContinuation, transform-IsContinuation}
use infernix.Engine.Transformers as Transformers
use infernix.Engine.Pytorch.{Pytorch, transform}
use infernix.Engine.Pytorch.Compat.{
  Args, Kwargs, setdefault, rename_past, forward_call, HasPosition, forward_call-HasPosition,
}

abbrev bark_context : AdapterContext
bark_context = record {
  adapter_id = codes "pytorch-python";
  runtime_mode = codes "linux-gpu";
  model_id = codes "audio-bark";
  display_name = codes "Bark";
  family = codes "audio";
  selected_engine = codes "pytorch";
  artifact_type = codes "audio";
  runtime_lane = codes "gpu";
  input_text = codes "hello";
  input_object_ref = [];
  generated_output_object_prefix = codes "users/ann/contexts/chat/generated/";
  bootstrap_ready = true;
  bootstrap_manifest_path = codes "/engine/bootstrap.json";
  host_residency_mib = 2048;
  device_mib = none;
  context_length = 2048;
  batch_size = 1;
  generation_bound = 64;
  cache_element_width = 2;
  stream_weights_to_device = false;
  conversation_prefix = [];
  conversation_prefix_hash = [];
  kv_cache_disposition = [];
}

abbrev around : Around
around = record {
  config = some default_config;
  boto3 = true;
  client = record {
    paginate = λ bucket prefix. none;
    download_fileobj = λ bucket key. complete [];
  };
  now = 5;
  read_only = false;
  stuck = λ name. false;
}

abbrev ready_disk : Disk
ready_disk =
    (codes "audio-bark", record { atime = 1; node = dir ((codes ".ready", codes "x") ∷ []) }) ∷ []

abbrev no_accelerator : Torch
no_accelerator = record { mps_available = none; cuda_available = some false }

-- The model adds one token, and the template takes no such arguments.
abbrev chatty : Transformers
chatty = record {
  installed = true;
  torch = no_accelerator;
  load = λ weights_dir device. some (record {
    chat_template = true;
    apply_chat_template = λ messages. type_error;
    tokenize = λ text. some text;
    decode = λ ids. some ids;
  });
  generate = λ weights_dir device ids bound. some (ids ++ (33 ∷ []));
}

chatty_begins :
    (weights_dir : ModelDir) (device : TorchDevice) (ids more : Ids) (bound : ℕ)
    → chatty.generate weights_dir device ids bound ≡ some more
    → (new : Ids) × (more ≡ ids ++ new)
chatty_begins weights_dir device ids more bound h = (33 ∷ [], inside ids more h)
  where
    inside : (ids more : Ids) → some (ids ++ (33 ∷ [])) ≡ some more → more ≡ ids ++ (33 ∷ [])
    inside ids more h = cc h

one_more : (Transformers.transform chatty around bark_context ready_disk).0 ≡ made (codes "!")
unfolding Transformers.transform preferred_torch_device tokenize_prompt flattened prompt_turns join
    get_model_path is_ready is_dir is_file file_at lookup text_eq
one_more = refl

transform-IsContinuation_example : IsContinuation chatty around bark_context ready_disk (codes "!")
transform-IsContinuation_example =
    transform-IsContinuation chatty around bark_context ready_disk (codes "!") chatty_begins
      one_more

abbrev speaker : Pytorch
speaker = record {
  bark_installed = true;
  demucs_installed = false;
  unmix_installed = false;
  mt3_installed = false;
  piano_installed = false;
  torch = no_accelerator;
  boto3 = true;
  fetch = λ bucket key. none;
  speak = λ weights_dir device half prompt bound. some prompt;
  load_demucs = λ weights_dir. none;
  separate = λ model device audio. none;
  load_unmix = λ weights_dir device. none;
  estimate = λ separator device audio. none;
  transcribe_mt3 = λ weights_dir model device audio. none;
  transcribe_piano = λ weights_dir device audio. none;
  zip_archive = λ stems. [];
}

-- Five positional arguments, no cache position, and the plural keyword.
abbrev few_args : Args
few_args = none ∷ none ∷ none ∷ none ∷ none ∷ []

abbrev plural : Kwargs
plural = (codes "past_key_values", some (codes "states")) ∷ []

renamed_call : forward_call true (codes "arange") few_args plural ≡ (
  few_args,
  (codes "past_key_value", some (codes "states"))
      ∷ (codes "cache_position", some (codes "arange"))
      ∷ [],
)
unfolding forward_call rename_past setdefault lookup put erase text_eq
renamed_call = refl

forward_call-HasPosition_example : HasPosition (forward_call true (codes "arange") few_args plural)
forward_call-HasPosition_example = forward_call-HasPosition true (codes "arange") few_args plural
