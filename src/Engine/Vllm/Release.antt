-- ===== src/Engine/Vllm/Release.antt =====
-- The calls that python/adapters/vllm_python.py makes of its engine, by how the request ends.
use infernix.Prelude.{
  ◌≡◌, ◌≢◌, inl, inr, refl, ap, ℕ, Bool, true, false, Option, none, some, List, [], ◌∷◌, ◌++◌,
  Bool-cases,
}
use infernix.Prelude.Text.{Text, codes, ends_with, ends_with_inv, ends_with_append}
use infernix.Cache.Config.{CacheError, Result, ok, err}
use infernix.Cache.Disk.{Disk}
use infernix.Cache.Access.{Around, ModelDir, get_model_path}
use infernix.Adapter.Request.{ConversationTurn}
use infernix.Adapter.Context.{AdapterContext, prompt_turns}
use infernix.Adapter.Context.Turns.{Asks, IsTranscript, prompt_turns-Asks, join-IsTranscript}
use infernix.Engine.Vllm.{
  Step, done, failed, EngineError, vllm_missing, engine_raised, cache_failed, Fraction,
  device_arena_fraction, LlmOptions, quantization_of, llm_options, replayed_prompt, EngineCall,
  construct, generate, release, Vllm, Served, answer, serve_constructed, serve_arena, serve_weights,
  serve_installed, transform,
}

-- The quantization that the end of a model id asks for.
pub data IsQuantized (model_id : Text) : Option Text → Type 0 where
  awq : (base : Text) → model_id ≡ base ++ codes "-awq" → IsQuantized model_id (some (codes "awq"))
  gptq :
      (base : Text) → model_id ≡ base ++ codes "-gptq" → IsQuantized model_id (some (codes "gptq"))
  plain :
      ((base : Text) → model_id ≢ base ++ codes "-awq")
      → ((base : Text) → model_id ≢ base ++ codes "-gptq")
      → IsQuantized model_id none

-- The options of an engine on a directory, with a share of the device.
pub record Configures (context : AdapterContext) (dir : ModelDir) (f : Fraction)
    (options : LlmOptions) : Type 0 where
  pub on_weights : options.model ≡ dir
  pub window : options.max_model_len ≡ context.context_length
  pub share : options.gpu_memory_utilization ≡ f
  pub quantized : IsQuantized context.model_id options.quantization

-- How an answered request went.
pub record IsAnswered (vllm : Vllm) (context : AdapterContext) (found : Result ModelDir)
    (text : Text) (calls : List EngineCall) : Type 0 where
  pub dir : ModelDir
  pub fraction : Fraction
  pub options : LlmOptions
  pub turns : List ConversationTurn
  pub prompt : Text
  pub cached : found ≡ ok dir
  pub admitted : device_arena_fraction vllm.total_memory context ≡ done fraction
  pub configured : Configures context dir fraction options
  pub asked : Asks context turns
  pub whole : IsTranscript turns prompt
  pub constructed : vllm.constructs options ≡ true
  pub answered : vllm.generates options prompt context.generation_bound ≡ some text
  pub made :
      calls
      ≡ construct options ∷ generate prompt context.generation_bound ∷ release (some options) ∷ []

-- Why a request is refused, and its calls: none where vLLM does not import, the cache raised or the
-- device has no admitted share; where the engine could not be constructed nothing is released; and
-- where it was constructed and did not answer, it is released.
pub data IsRefused (vllm : Vllm) (context : AdapterContext) (found : Result ModelDir)
    : EngineError → List EngineCall → Type 0 where
  not_installed : vllm.installed ≡ false → IsRefused vllm context found vllm_missing []
  not_cached : (e : CacheError) → found ≡ err e → IsRefused vllm context found (cache_failed e) []
  not_admitted :
      (e : EngineError)
      → device_arena_fraction vllm.total_memory context ≡ failed e
      → IsRefused vllm context found e []
  not_built :
      (options : LlmOptions)
      → vllm.constructs options ≡ false
      → IsRefused vllm context found engine_raised (construct options ∷ release none ∷ [])
  not_answered :
      (options : LlmOptions) (prompt : Text) (bound : ℕ)
      → vllm.constructs options ≡ true
      → vllm.generates options prompt bound ≡ none
      → IsRefused vllm context found engine_raised
          (construct options ∷ generate prompt bound ∷ release (some options) ∷ [])

abbrev pub EndsWell : Vllm → AdapterContext → Result ModelDir → Served → Type 0
EndsWell vllm context found served = elim served.result [
  | done text ↦ IsAnswered vllm context found text served.calls
  | failed e ↦ IsRefused vllm context found e served.calls
]

no_suffix : (s p : Text) → ends_with s p ≡ false → (base : Text) → s ≢ base ++ p
no_suffix s p h base e = cc (h, ap (λ (t : Text). ends_with t p) e, ends_with_append base p)

quantization_of-IsQuantized : (model_id : Text) → IsQuantized model_id (quantization_of model_id)
unfolding quantization_of
quantization_of-IsQuantized model_id = elim (Bool-cases (ends_with model_id (codes "-awq"))) [
  | inl y ↦ let (base, e) = ends_with_inv model_id (codes "-awq") y in rw y (awq base e)
  | inr n ↦ elim (Bool-cases (ends_with model_id (codes "-gptq"))) [
    | inl y ↦ let (base, e) = ends_with_inv model_id (codes "-gptq") y in rw (n, y) (gptq base e)
    | inr m ↦
        rw (n, m)
          (plain (no_suffix model_id (codes "-awq") n) (no_suffix model_id (codes "-gptq") m))
  ]
]

module _ (vllm : Vllm) (context : AdapterContext) where
  llm_options-Configures :
      (dir : ModelDir) (f : Fraction) → Configures context dir f (llm_options context dir f)
  llm_options-Configures dir f = record {
    on_weights = refl;
    window = refl;
    share = refl;
    quantized = quantization_of-IsQuantized context.model_id;
  }

  whole_prompt : IsTranscript (prompt_turns context) (replayed_prompt context)
  unfolding replayed_prompt
  whole_prompt = join-IsTranscript (prompt_turns context)

  constructed-EndsWell :
      (dir : ModelDir) (f : Fraction)
      → device_arena_fraction vllm.total_memory context ≡ done f
      → (b : Bool) → vllm.constructs (llm_options context dir f) ≡ b
      → EndsWell vllm context
          (ok dir)
          (serve_constructed b vllm (llm_options context dir f) context)
  constructed-EndsWell dir f e false c = not_built (llm_options context dir f) c
  constructed-EndsWell dir f e true c =
      pick
        (vllm.generates (llm_options context dir f) (replayed_prompt context)
          context.generation_bound)
        refl
    where
      calls : List EngineCall
      calls =
          construct (llm_options context dir f)
          ∷ generate (replayed_prompt context) context.generation_bound
          ∷ release (some (llm_options context dir f))
          ∷ []

      pick :
          (o : Option Text)
          → vllm.generates
              (llm_options context dir f)
              (replayed_prompt context)
              context.generation_bound
            ≡ o
          → EndsWell vllm context (ok dir) (record { result = answer o; calls = calls })
      pick none g =
          not_answered (llm_options context dir f) (replayed_prompt context)
            context.generation_bound c g
      pick (some text) g = record {
        dir = dir;
        fraction = f;
        options = llm_options context dir f;
        turns = prompt_turns context;
        prompt = replayed_prompt context;
        cached = refl;
        admitted = e;
        configured = llm_options-Configures dir f;
        asked = prompt_turns-Asks context;
        whole = whole_prompt;
        constructed = c;
        answered = g;
        made = refl;
      }

  weights-EndsWell :
      (found : Result ModelDir) → EndsWell vllm context found (serve_weights vllm context found)
  weights-EndsWell (err e) = not_cached e refl
  weights-EndsWell (ok dir) = pick (device_arena_fraction vllm.total_memory context) refl
    where
      pick :
          (s : Step Fraction)
          → device_arena_fraction vllm.total_memory context ≡ s
          → EndsWell vllm context (ok dir) (serve_arena vllm context dir s)
      pick (failed e) q = not_admitted e q
      pick (done f) q =
          constructed-EndsWell dir f q (vllm.constructs (llm_options context dir f)) refl

  -- A vLLM request that is answered was answered by an engine on the weights that the model cache
  -- gave, with the admitted share of the device, the request's window and the quantization that the
  -- model id ends in; the engine was asked once, for the lines `role: text` of the whole conversation
  -- prefix in order, or of the user's input where there is none, with the request's bound. It was
  -- released by the last call. A request is refused only where vLLM does not import, the cache raised,
  -- the device has no admitted share, or the engine raised; an engine that was constructed is
  -- released by the last call too, and one that could not be constructed leaves nothing to release.
  pub transform-EndsWell :
      (around : Around) (d : Disk)
      → EndsWell vllm context
          (get_model_path around context.model_id d).0
          (transform vllm around context d).0
  unfolding transform
  transform-EndsWell around d = pick vllm.installed refl
    where
      pick :
          (b : Bool)
          → vllm.installed ≡ b
          → EndsWell vllm context
              (get_model_path around context.model_id d).0
              (serve_installed b vllm around context d).0
      pick false missing = not_installed missing
      pick true there = weights-EndsWell (get_model_path around context.model_id d).0
