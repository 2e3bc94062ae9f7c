-- ===== src/Adapter/Tests.antt =====
-- Runs of the seam that every adapter shares, and its theorems at concrete data.
use infernix.Prelude.{
  List, arith, zero, suc, ℕ, ◌≡◌, ◌⊎◌, refl, Bool, true, false, Option, none, some, [], ◌∷◌, ◌++◌,
}
use infernix.Prelude.Text.{Text, codes}
use infernix.Cache.Config.{ModelCacheConfig}
use infernix.Adapter.Request.{WorkerRequest, host_and_device}
use infernix.Adapter.Context.{AdapterContext, load_adapter_context}
use infernix.Adapter.Configure.{
  configure_model_cache_from_request, IsUsable, configure_from_request, IsBlank, TakesFrom,
}
use infernix.Adapter.Setup.{finished, manifest_text, setup_step, run_setup_bootstrap, before_setup}
use infernix.Adapter.Setup.Atomic.{setup_atomic, setup_finishes}
use infernix.Adapter.Process.{Process, stdout_pipe, stderr_pipe, infinity, at_bytes}
use infernix.Artifact.Upload.{ArtifactResult, PutObject}
use infernix.Adapter.Run.{
  WorkerResponse, Failure, engine_raised, returned, raised, Behaviour, Runtime, acknowledgement,
  run_context_adapter, run_artifact_adapter,
}
use infernix.Adapter.Run.Artifact.{AnswersArtifact, run_artifact_adapter-Answered}
use infernix.Adapter.Run.Frame.{IsFresh, Answered, AnswersText, run_context_adapter-Answered}

abbrev chat_request : WorkerRequest
chat_request = record {
  adapter_id = codes "vllm-python";
  runtime_mode = codes "linux-gpu";
  request_model_id = codes "qwen";
  display_name = codes "Qwen";
  family = codes "llm";
  selected_engine = codes "vllm";
  artifact_type = codes "text";
  runtime_lane = codes "gpu";
  input_text = codes "  hello   world ";
  input_object_ref = [];
  generated_output_object_prefix = codes "users/u/contexts/c/generated/";
  engine_install_root = codes "/engine";
  memory_claim = host_and_device 2048 4096;
  execution_shape = record {
    context_length = 4096;
    batch_size = 1;
    generation_bound = 256;
    cache_element_width = 2;
    stream_weights_to_device = false;
  };
  conversation_prefix = [];
  conversation_prefix_hash = [];
  kv_cache_disposition = [];
  model_cache_root = codes "/cache";
  model_cache_quota_bytes = 1000;
  minio_endpoint = codes "http://minio";
  minio_models_bucket = [];
  minio_demo_artifacts_bucket = [];
  minio_region = [];
  minio_access_key = codes "key";
  minio_secret_key = codes "secret";
}

abbrev nothing_exists : Text → Bool
nothing_exists _ = false

configure_from_request_example :
    (IsBlank chat_request × (configure_model_cache_from_request chat_request none ≡ none))
    ⊎ ((¬ IsBlank chat_request)
        × (c : ModelCacheConfig) × (configure_model_cache_from_request chat_request none ≡ some c)
        × IsUsable c
        × TakesFrom chat_request c)
configure_from_request_example = configure_from_request chat_request none

abbrev summary_of : Failure → Text
summary_of _ = codes "RuntimeError: boom"

abbrev trace_of : Failure → Text
trace_of _ = codes "Traceback"

abbrev same_text : Text → Text
same_text text = text

abbrev serialized : WorkerResponse → Text
serialized w = w.error_code ++ (codes "|" ++ w.output_text)

abbrev test_runtime : Runtime
test_runtime = record {
  summary = summary_of;
  traceback = trace_of;
  decode = same_text;
  serialize = serialized;
  exists = nothing_exists;
  soft_limit = at_bytes 4096;
  hard_limit = infinity;
}

abbrev started : Process
started = record {
  fd1 = stdout_pipe;
  fd2 = stderr_pipe;
  out_buffer = codes "boot";
  err_buffer = [];
  saved = none;
  log_path = false;
  stdout_bytes = [];
  stderr_bytes = [];
  log = none;
  log_stuck = false;
}

started-IsFresh : IsFresh started
started-IsFresh = record { fd1 = refl; fd2 = refl; saved = refl }

-- An engine that prints on both descriptors and then fails, its cache cold.
abbrev noisy : AdapterContext → Option ModelCacheConfig → Behaviour Text
noisy context config = record {
  writes = (true, codes "loading") ∷ (false, codes "warning") ∷ [];
  outcome = raised (engine_raised true (codes "cold"));
}

run_context_adapter-Answered_example :
    (w : WorkerResponse) × Answered test_runtime
      (codes "boot")
      []
      w
      (run_context_adapter test_runtime noisy chat_request none started).0
    × AnswersText test_runtime (raised (engine_raised true (codes "cold"))) w
    × ((run_context_adapter test_runtime noisy chat_request none started).1 ≡ 0)
run_context_adapter-Answered_example =
    run_context_adapter-Answered test_runtime started started-IsFresh noisy chat_request none

abbrev no_alnum : ℕ → Bool
no_alnum _ = false

abbrev empty_digest : Text → Text
empty_digest _ = []

abbrev takes_all : PutObject → Bool
takes_all _ = true

abbrev drawn : AdapterContext → Option ModelCacheConfig → Behaviour ArtifactResult
drawn context config = record {
  writes = (true, codes "loading") ∷ [];
  outcome =
      returned
        (record { body = codes "PNG"; content_type = codes "image/png"; suffix = codes ".png" });
}

run_artifact_adapter-Answered_example :
    let run =
      run_artifact_adapter no_alnum empty_digest true takes_all test_runtime drawn chat_request none
        started in
    (w : WorkerResponse) × Answered test_runtime (codes "boot") [] w run.0
    × AnswersArtifact
        (configure_model_cache_from_request chat_request none)
        true
        takes_all
        (load_adapter_context nothing_exists chat_request)
        (drawn
          (load_adapter_context nothing_exists chat_request)
          (configure_model_cache_from_request chat_request none)).outcome
        w
        run.1
    × (w.ceiling_acknowledgement ≡ acknowledgement test_runtime)
    × (run.2 ≡ 0)
run_artifact_adapter-Answered_example =
    run_artifact_adapter-Answered no_alnum empty_digest true takes_all test_runtime started
      started-IsFresh drawn chat_request none

abbrev vllm_manifest : Text
vllm_manifest = manifest_text (codes "\"vllm-python\"")

-- So many writes of one byte.
abbrev single_bytes : ℕ → List ℕ
single_bytes zero = []
single_bytes (suc n) = 0 ∷ single_bytes n

-- Interrupted in the middle of the write, the old manifest is there.
interrupted :
    (run_setup_bootstrap vllm_manifest
      (single_bytes 9)
      (before_setup none (some (codes "{}")))).manifest
    ≡ some (codes "{}")
unfolding run_setup_bootstrap setup_step
interrupted = refl

setup_atomic_example :
    let reached =
      run_setup_bootstrap vllm_manifest (single_bytes 9) (before_setup none (some (codes "{}"))) in
    (reached.manifest ≡ some (codes "{}"))
    ⊎ ((reached.manifest ≡ some vllm_manifest) × (reached.content_durable ≡ true))
setup_atomic_example = setup_atomic (some (codes "{}")) vllm_manifest none (single_bytes 9)

setup_finishes_example :
    let reached = run_setup_bootstrap vllm_manifest (single_bytes 90) (before_setup none none) in
    (reached.phase ≡ finished)
    × (reached.manifest ≡ some vllm_manifest)
    × (reached.content_durable ≡ true)
    × (reached.directory_durable ≡ true)
setup_finishes_example = setup_finishes none vllm_manifest none (single_bytes 90) (omega arith)
