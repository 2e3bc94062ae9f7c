-- ===== src/Runner/Smoke.antt =====
-- `_run_smoke`, `_smoke_python_runtime` and `_path_is_under` of
-- python/native-runners/apple_native_runner.py. The interpreter and its packages are arguments.
use infernix.Prelude.{
  ℕ, ◌≡◌, Bool, true, false, ◌&&◌, Option, none, some, List, [], ◌∷◌, ◌==◌, all_of, if◌then◌else◌,
}
use infernix.Prelude.Text.{Text, codes, text_eq, one_of}
use infernix.Runner.{
  RunnerArgs, direct_target, unsupported_adapter, unsupported_smoke, runtime_import, outside_prefix,
  no_compute_devices, mlx_observed, Ended, returned, failed, and_then, and_then_inv, require,
  require_inv,
}

-- The adapters that the runner tells apart.
pub data Kind : Type 0 where
  ctranslate2 onnx_runtime mlx coreml direct unknown : Kind

abbrev pub direct_targets : List Text
direct_targets = codes "llama-cpp-cli" ∷ codes "whisper-cpp-cli" ∷ codes "jvm-native" ∷ []

unfoldable pub kind_of : Text → Kind
kind_of adapter_id =
    if text_eq adapter_id (codes "ctranslate2-native")
    then ctranslate2
    else if text_eq adapter_id (codes "onnx-runtime-native")
    then onnx_runtime
    else if text_eq adapter_id (codes "mlx-native")
    then mlx
    else if text_eq adapter_id (codes "coreml-native")
    then coreml
    else if one_of adapter_id direct_targets
    then direct
    else unknown

-- `prefix` and `resolve` give the parts of resolved paths; `mlx_item` is what the GPU makes of 41 +
-- 1.
pub record Runtime : Type 0 where
  pub prefix : List Text
  pub resolve : Text → List Text
  pub importable : Text → Bool
  pub version : Text → Option Text
  pub mlx_item : ℕ
  pub compute_devices : List Text
  pub coremltools_version : Text

abbrev pub Packages : Type 0
Packages = List (Text × Text)

-- `_path_is_under`, on the parts of the paths.
unfoldable pub path_is_under : List Text → List Text → Bool
path_is_under path [] = true
path_is_under [] (r ∷ root) = false
path_is_under (p ∷ path) (r ∷ root) = text_eq p r && path_is_under path root

abbrev pub imports_of : Kind → List Text
imports_of ctranslate2 = codes "ctranslate2" ∷ codes "faster_whisper" ∷ []
imports_of onnx_runtime = codes "onnxruntime" ∷ []
imports_of mlx = codes "mlx.core" ∷ codes "mlx_lm" ∷ []
imports_of coreml =
    codes "basic_pitch" ∷ codes "coremltools" ∷ codes "python_coreml_stable_diffusion.pipeline" ∷ []
imports_of direct = []
imports_of unknown = []

abbrev add_version : Text → Option Text → Option Packages → Option Packages
add_version name none rest = none
add_version name (some v) none = none
add_version name (some v) (some rest) = some ((name, v) ∷ rest)

-- `importlib.metadata.version` of each; a package that is not installed is an `ImportError`.
unfoldable pub versions : (Text → Option Text) → List Text → Option Packages
versions version [] = some []
versions version (name ∷ names) = add_version name (version name) (versions version names)

abbrev pub or_import_error : Text → Option Packages → Ended Packages
or_import_error adapter_id none = failed (runtime_import adapter_id) 70
or_import_error adapter_id (some packages) = returned packages

abbrev has_devices : List Text → Bool
has_devices [] = false
has_devices (d ∷ ds) = true

abbrev add_coremltools : Text → Packages → Ended Packages
add_coremltools v packages = returned ((codes "coremltools", v) ∷ packages)

-- What follows the imports. That MLX's default device is changed, and put back by the `finally`, is
-- left out.
abbrev pub report_of : Runtime → Text → Kind → Ended Packages
report_of runtime adapter_id ctranslate2 =
    or_import_error adapter_id
      (versions runtime.version (codes "ctranslate2" ∷ codes "faster-whisper" ∷ []))
report_of runtime adapter_id onnx_runtime =
    or_import_error adapter_id (versions runtime.version (codes "onnxruntime" ∷ []))
report_of runtime adapter_id mlx =
    and_then (require (runtime.mlx_item == 42) (mlx_observed runtime.mlx_item) 70) (λ u.
      or_import_error adapter_id (versions runtime.version (codes "mlx" ∷ codes "mlx-lm" ∷ [])))
report_of runtime adapter_id coreml =
    and_then (require (has_devices runtime.compute_devices) no_compute_devices 70) (λ u.
      and_then
        (or_import_error adapter_id (
          versions runtime.version
            (codes "python-coreml-stable-diffusion" ∷ codes "basic-pitch" ∷ [])))
        (add_coremltools runtime.coremltools_version))
report_of runtime adapter_id direct = failed (unsupported_smoke adapter_id) 64
report_of runtime adapter_id unknown = failed (unsupported_smoke adapter_id) 64

unfoldable pub smoke_python_runtime : Runtime → RunnerArgs → Ended Packages
unfolding path_is_under kind_of versions
smoke_python_runtime runtime args =
    and_then
      (require (path_is_under runtime.prefix (runtime.resolve args.expected_python_prefix))
        outside_prefix 70)
      (λ u.
        and_then
          (require (all_of runtime.importable (imports_of (kind_of args.adapter_id)))
            (runtime_import args.adapter_id) 70)
          (λ v. report_of runtime args.adapter_id (kind_of args.adapter_id)))

abbrev pub smoke_by_kind : Runtime → RunnerArgs → Kind → Ended Packages
smoke_by_kind runtime args direct = failed (direct_target args.adapter_id) 70
smoke_by_kind runtime args unknown = failed (unsupported_adapter args.adapter_id) 64
smoke_by_kind runtime args _ = smoke_python_runtime runtime args

-- The packages that `_run_smoke` prints with the adapter id, sorted by name.
unfoldable pub run_smoke : Runtime → RunnerArgs → Ended Packages
unfolding kind_of
run_smoke runtime args = smoke_by_kind runtime args (kind_of args.adapter_id)

pub data IsPython : Kind → Type 0 where
  by_ctranslate2 : IsPython ctranslate2
  by_onnx_runtime : IsPython onnx_runtime
  by_mlx : IsPython mlx
  by_coreml : IsPython coreml

smoke_by_kind_inv :
    (runtime : Runtime) (args : RunnerArgs) (k : Kind) (packages : Packages)
    → smoke_by_kind runtime args k ≡ returned packages
    → IsPython k × (smoke_python_runtime runtime args ≡ returned packages)
smoke_by_kind_inv runtime args ctranslate2 packages h = (by_ctranslate2, h)
smoke_by_kind_inv runtime args onnx_runtime packages h = (by_onnx_runtime, h)
smoke_by_kind_inv runtime args mlx packages h = (by_mlx, h)
smoke_by_kind_inv runtime args coreml packages h = (by_coreml, h)
smoke_by_kind_inv runtime args direct packages h = absurd (cc h)
smoke_by_kind_inv runtime args unknown packages h = absurd (cc h)

-- A smoke run succeeds only for an adapter that runs in Python, under its sealed interpreter
-- prefix, with every package that its engine needs importable.
pub smoke_is_honest :
    (runtime : Runtime) (args : RunnerArgs) (packages : Packages)
    → run_smoke runtime args ≡ returned packages
    → IsPython (kind_of args.adapter_id)
      × (path_is_under runtime.prefix (runtime.resolve args.expected_python_prefix) ≡ true)
      × (all_of runtime.importable (imports_of (kind_of args.adapter_id)) ≡ true)
unfolding run_smoke smoke_python_runtime
smoke_is_honest runtime args packages h =
    let (python, g) = smoke_by_kind_inv runtime args (kind_of args.adapter_id) packages h in
    let under = path_is_under runtime.prefix (runtime.resolve args.expected_python_prefix) in
    let there = all_of runtime.importable (imports_of (kind_of args.adapter_id)) in
    let (u, e, g1) = and_then_inv (require under outside_prefix 70) _ packages g in
    let (v, f, g2) =
      and_then_inv (require there (runtime_import args.adapter_id) 70) _ packages g1 in
    (
      python,
      require_inv under outside_prefix 70 u e,
      require_inv there (runtime_import args.adapter_id) 70 v f,
    )
