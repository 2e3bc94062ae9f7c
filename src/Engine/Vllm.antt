-- ===== src/Engine/Vllm.antt =====
-- python/adapters/vllm_python.py. The vLLM package and torch are outside the repository: whether they
-- import, what the device reports, and what the engine answers are arguments.
pub mod Arena
pub mod Release
pub mod Cleanup
use infernix.Prelude.{
  ℕ, ◌*◌, ◌/◌, Bool, true, false, Option, none, some, List, [], ◌∷◌, ◌++◌, map, ltb, not,
  if◌then◌else◌,
}
use infernix.Prelude.Text.{Text, codes, ends_with, join}
use infernix.Cache.Config.{CacheError, Result, ok, err}
use infernix.Cache.Disk.{Disk}
use infernix.Cache.Access.{Around, ModelDir, get_model_path}
use infernix.Adapter.Request.{ConversationTurn}
use infernix.Adapter.Context.{AdapterContext, prompt_turns, require_device_mib}

pub data EngineError : Type 0 where
  vllm_missing no_admitted_device no_cuda_device empty_envelope engine_raised : EngineError
  over_envelope : ℕ → ℕ → EngineError
  cache_failed : CacheError → EngineError

pub data Step (A : Type 0) : Type 0 where
  done : A → Step A
  failed : EngineError → Step A

-- The quotient that the source computes in floating point.
pub record Fraction : Type 0 where
  pub numerator : ℕ
  pub denominator : ℕ

abbrev pub mib : ℕ
mib = 1024 * 1024

-- `_observed_device_envelope_mib`, given `total_memory` where CUDA is available.
unfoldable pub observed_device_envelope_mib : Option ℕ → Step ℕ
observed_device_envelope_mib none = failed no_cuda_device
observed_device_envelope_mib (some total_bytes) = done (total_bytes / mib)

abbrev pub divide_arena : Bool → Bool → ℕ → ℕ → Step Fraction
divide_arena false fits admitted_mib envelope_mib = failed empty_envelope
divide_arena true true admitted_mib envelope_mib = failed (over_envelope admitted_mib envelope_mib)
divide_arena true false admitted_mib envelope_mib =
    done (record { numerator = admitted_mib; denominator = envelope_mib })

abbrev pub check_arena : ℕ → Step ℕ → Step Fraction
check_arena admitted_mib (failed e) = failed e
check_arena admitted_mib (done envelope_mib) =
    divide_arena (ltb 0 envelope_mib) (ltb envelope_mib admitted_mib) admitted_mib envelope_mib

abbrev pub arena_of : Option ℕ → Option ℕ → Step Fraction
arena_of none total_memory = failed no_admitted_device
arena_of (some admitted_mib) total_memory =
    check_arena admitted_mib (observed_device_envelope_mib total_memory)

-- `_device_arena_fraction`
unfoldable pub device_arena_fraction : Option ℕ → AdapterContext → Step Fraction
device_arena_fraction total_memory context = arena_of (require_device_mib context) total_memory

-- `llm_options`; the quantization comes with the `half` dtype.
pub record LlmOptions : Type 0 where
  pub model : ModelDir
  pub max_model_len : ℕ
  pub gpu_memory_utilization : Fraction
  pub quantization : Option Text

unfoldable pub quantization_of : Text → Option Text
unfolding ends_with
quantization_of model_id =
    if ends_with model_id (codes "-awq")
    then some (codes "awq")
    else if ends_with model_id (codes "-gptq")
    then some (codes "gptq")
    else none

abbrev pub llm_options : AdapterContext → ModelDir → Fraction → LlmOptions
llm_options context weights_dir fraction = record {
  model = weights_dir;
  max_model_len = context.context_length;
  gpu_memory_utilization = fraction;
  quantization = quantization_of context.model_id;
}

-- The conversation as one text: a line `role: text` for each turn.
unfoldable pub replayed_prompt : AdapterContext → Text
unfolding prompt_turns join
replayed_prompt context = join (codes "\n") (
    map (λ (turn : ConversationTurn). turn.role ++ (codes ": " ++ turn.text))
      (prompt_turns context))

-- What the engine is asked to do, in order. `release` is `_release_vllm_engine` of the engine that
-- was constructed with these options; `none` is its argument `None`, which releases no engine.
pub data EngineCall : Type 0 where
  construct : LlmOptions → EngineCall
  generate : Text → ℕ → EngineCall
  release : Option LlmOptions → EngineCall

-- Whether vLLM imports, the memory of the device, whether `LLM(...)` returns, and what `generate`
-- gives.
pub record Vllm : Type 0 where
  pub installed : Bool
  pub total_memory : Option ℕ
  pub constructs : LlmOptions → Bool
  pub generates : LlmOptions → Text → ℕ → Option Text

pub record Served : Type 0 where
  pub result : Step Text
  pub calls : List EngineCall

abbrev pub refused : EngineError → Served
refused e = record { result = failed e; calls = [] }

abbrev pub answer : Option Text → Step Text
answer none = failed engine_raised
answer (some continuation) = done continuation

-- The `try` with its `finally`: `engine` is still `None` there when `LLM(...)` raised.
abbrev pub serve_constructed : Bool → Vllm → LlmOptions → AdapterContext → Served
serve_constructed false vllm options context = record {
  result = failed engine_raised;
  calls = construct options ∷ release none ∷ [];
}
serve_constructed true vllm options context =
    let prompt = replayed_prompt context in
    record {
      result = answer (vllm.generates options prompt context.generation_bound);
      calls =
          construct options
          ∷ generate prompt context.generation_bound
          ∷ release (some options)
          ∷ [];
    }

abbrev pub serve_arena : Vllm → AdapterContext → ModelDir → Step Fraction → Served
serve_arena vllm context weights_dir (failed e) = refused e
serve_arena vllm context weights_dir (done fraction) =
    serve_constructed (vllm.constructs (llm_options context weights_dir fraction)) vllm
      (llm_options context weights_dir fraction) context

abbrev pub serve_weights : Vllm → AdapterContext → Result ModelDir → Served
serve_weights vllm context (err e) = refused (cache_failed e)
serve_weights vllm context (ok weights_dir) =
    serve_arena vllm context weights_dir (device_arena_fraction vllm.total_memory context)

abbrev pub serve_path : Vllm → AdapterContext → Result ModelDir × Disk → Served × Disk
serve_path vllm context (found, d) = (serve_weights vllm context found, d)

abbrev pub serve_installed : Bool → Vllm → Around → AdapterContext → Disk → Served × Disk
serve_installed false vllm around context d = (refused vllm_missing, d)
serve_installed true vllm around context d =
    serve_path vllm context (get_model_path around context.model_id d)

-- `transform`, with the model cache as it leaves it.
unfoldable pub transform : Vllm → Around → AdapterContext → Disk → Served × Disk
transform vllm around context d = serve_installed vllm.installed vllm around context d
