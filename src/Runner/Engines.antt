-- ===== src/Runner/Engines.antt =====
-- `_require_model_cache_ready`, `_run_inference` and the runs of single engines in
-- python/native-runners/apple_native_runner.py. The engines' packages and the file system are
-- arguments, and so is the run of ONNX as a whole, whose notes Runner/Notes is about.
use infernix.Prelude.{
  ℕ, zero, suc, Bool, true, false, Option, none, some, List, [], ◌∷◌, ◌++◌, map, if◌then◌else◌,
}
use infernix.Prelude.Text.{Text, codes, text_or, is_set, contains_text, join, lstrip, rstrip}
use infernix.Runner.{
  ℤ, pos, negsuc, RunnerArgs, direct_target, unsupported_adapter, nonpositive_bound, no_cache_root,
  no_input_file, no_output_dir, cache_not_populated, payload_missing, unsupported_model,
  no_model_directory, empty_output, Reason, Ended, returned, failed, crashed, Done, done, and_then,
  require,
}
use infernix.Runner.Smoke.{Kind, ctranslate2, onnx_runtime, mlx, coreml, direct, unknown, kind_of}
use infernix.Runner.Output.{Parts, Filesystem, require_nonempty_output}

-- `none`, and `false` of the two that return nothing, is a call that raises.
pub record Engines : Type 0 where
  pub is_space : ℕ → Bool
  pub is_file : Text → Bool
  pub is_dir : Text → Bool
  pub make_directory : Text → Bool
  pub parts : Text → Parts
  pub text_of : Parts → Text
  pub stem : Text → Text
  pub files : Filesystem
  pub transcribe : Text → Text → Option (List Text)
  pub generate : Text → Text → ℤ → Option Text
  pub predict_and_save : Text → Text → Bool
  pub paint : Text → Text → Text → Option Text
  pub onnx : RunnerArgs → Ended Text

abbrev pub below : Text → Text → Text
below root name = root ++ (codes "/" ++ name)

abbrev pub native_artifact_prefix : Text
native_artifact_prefix = codes "infernix-native-artifact-file:"

unfoldable pub is_positive : ℤ → Bool
is_positive (pos zero) = false
is_positive (pos (suc n)) = true
is_positive (negsuc n) = false

unfoldable pub require_execution_shape : RunnerArgs → Ended Done
unfolding is_positive
require_execution_shape args = require (is_positive args.generation_bound) nonpositive_bound 64

abbrev pub ready_path : RunnerArgs → Text → Text
ready_path args root = below (below root args.model_id) (codes ".ready")

abbrev pub ready_below : (Text → Bool) → RunnerArgs → Option Text → Ended Done
ready_below is_file args none = returned done
ready_below is_file args (some root) =
    require (is_file (ready_path args root)) (cache_not_populated (ready_path args root)) 75

unfoldable pub require_model_cache_ready : Engines → RunnerArgs → Ended Done
require_model_cache_ready engines args = ready_below engines.is_file args args.model_cache_root

abbrev given : Option Text → Reason → ℕ → Ended Text
given none why code = failed why code
given (some t) why code = returned t

-- The value of a call of a package.
abbrev of_package : {A : Type 0} → Option A → Ended A
of_package none = crashed
of_package (some a) = returned a

abbrev unless_raised : Bool → Ended Done
unless_raised true = returned done
unless_raised false = crashed

abbrev pub model_dir : RunnerArgs → Ended Text
model_dir args =
    and_then (given args.model_cache_root no_cache_root 70)
      (λ root. returned (below root args.model_id))

abbrev pub require_file : Engines → Text → Ended Text
require_file engines path =
    and_then (require (engines.is_file path) (payload_missing path) 70) (λ u. returned path)

abbrev pub require_input_file : Engines → RunnerArgs → Ended Text
require_input_file engines args =
    and_then (require (is_set args.input_file) no_input_file 70)
      (λ u. require_file engines args.input_file)

abbrev pub require_output_dir : Engines → RunnerArgs → Ended Text
require_output_dir engines args = and_then (given args.output_dir no_output_dir 64) (λ output_dir.
    and_then (unless_raised (engines.make_directory output_dir)) (λ u. returned output_dir))

abbrev pub strip_text : (ℕ → Bool) → Text → Text
strip_text is_space s = rstrip is_space (lstrip is_space s)

abbrev nonempty : Text → Ended Text
nonempty text = and_then (require (is_set text) empty_output 70) (λ u. returned text)

unfoldable pub run_ctranslate2 : Engines → RunnerArgs → Ended Text
unfolding join lstrip rstrip
run_ctranslate2 engines args = and_then (model_dir args) (λ directory.
    and_then (require_file engines (below directory (codes "model.bin"))) (λ weights.
      and_then (require_input_file engines args) (λ input_file.
        and_then (of_package (engines.transcribe directory input_file)) (λ segments. nonempty (
          strip_text engines.is_space (
            join (codes " ")
              (map (λ (segment : Text). strip_text engines.is_space segment) segments)))))))

unfoldable pub run_mlx_lm : Engines → RunnerArgs → Ended Text
unfolding lstrip rstrip
run_mlx_lm engines args = and_then (model_dir args) (λ directory.
    and_then
      (of_package (
        engines.generate directory (text_or args.input_text (codes "Hello from Infernix"))
          args.generation_bound))
      (λ output. nonempty (strip_text engines.is_space output)))

-- The artifact of a run, checked, as the daemon reads it.
abbrev pub artifact_output : Engines → Text → Text → Ended Text
artifact_output engines output_dir path =
    and_then (require_nonempty_output engines.files (engines.parts output_dir) (engines.parts path))
      (λ resolved. returned (native_artifact_prefix ++ engines.text_of resolved))

unfoldable pub run_basic_pitch_coreml : Engines → RunnerArgs → Ended Text
run_basic_pitch_coreml engines args = and_then (require_input_file engines args) (λ input_file.
    and_then (require_output_dir engines args) (λ output_dir.
      and_then (unless_raised (engines.predict_and_save input_file output_dir)) (λ u.
        artifact_output engines output_dir
          (below output_dir (engines.stem input_file ++ codes "_basic_pitch.mid")))))

-- `_first_existing_dir`, on the candidates below the root.
unfoldable pub first_existing_dir : (Text → Bool) → List Text → Ended Text
first_existing_dir is_dir [] = failed no_model_directory 70
first_existing_dir is_dir (candidate ∷ candidates) =
    let rest = first_existing_dir is_dir candidates in
    if is_dir candidate then returned candidate else rest

-- `root / "."` is `root`.
abbrev model_roots : Text → List Text
model_roots root =
    below root (codes "original/packages") ∷ below root (codes "split_einsum/packages") ∷ root ∷ []

unfoldable pub run_coreml_stable_diffusion : Engines → RunnerArgs → Ended Text
unfolding first_existing_dir
run_coreml_stable_diffusion engines args = and_then (model_dir args) (λ directory.
    and_then (first_existing_dir engines.is_dir (model_roots directory)) (λ model_root.
      and_then (require_output_dir engines args) (λ output_dir.
        and_then
          (of_package (
            engines.paint (text_or args.input_text (codes "a small red cube on a white table"))
              model_root output_dir))
          (λ image_path. artifact_output engines output_dir image_path))))

unfoldable pub run_coreml : Engines → RunnerArgs → Ended Text
unfolding contains_text
run_coreml engines args =
    if contains_text args.model_id (codes "basic-pitch")
    then run_basic_pitch_coreml engines args
    else if contains_text args.model_id (codes "stable-diffusion")
    then run_coreml_stable_diffusion engines args
    else failed (unsupported_model args.model_id) 64

abbrev pub inference_by_kind : Engines → RunnerArgs → Kind → Ended Text
inference_by_kind engines args ctranslate2 = run_ctranslate2 engines args
inference_by_kind engines args onnx_runtime = engines.onnx args
inference_by_kind engines args mlx = run_mlx_lm engines args
inference_by_kind engines args coreml = run_coreml engines args
inference_by_kind engines args direct = failed (direct_target args.adapter_id) 70
inference_by_kind engines args unknown = failed (unsupported_adapter args.adapter_id) 64

unfoldable pub run_inference : Engines → RunnerArgs → Ended Text
unfolding kind_of
run_inference engines args = inference_by_kind engines args (kind_of args.adapter_id)
