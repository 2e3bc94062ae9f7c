-- ===== src/Runner/Main.antt =====
-- `main` of python/native-runners/apple_native_runner.py, after its argument parser.
use infernix.Prelude.{ℕ, ◌≡◌, refl, ap, ◌∙◌, Bool, true, false, Option, none, some}
use infernix.Prelude.Text.{Text}
use infernix.Runner.{
  RunnerArgs, Ended, returned, failed, crashed, Done, done, and_then, and_then_inv, require_inv,
  nonpositive_bound, cache_not_populated,
}
use infernix.Runner.Isolation.{Sources, verify_expected_source_isolation}
use infernix.Runner.Smoke.{
  Kind, ctranslate2, onnx_runtime, mlx, coreml, direct, unknown, kind_of, Runtime, Packages,
  run_smoke, IsPython, by_ctranslate2, by_onnx_runtime, by_mlx, by_coreml,
}
use infernix.Runner.Engines.{
  Engines, is_positive, ready_path, ready_below, require_execution_shape, require_model_cache_ready,
  inference_by_kind, run_inference,
}

pub data Printed : Type 0 where
  smoke_report : Packages → Printed
  model_output : Text → Printed

-- The exit code, standard output, and the receipt on standard error.
pub record Finish : Type 0 where
  pub exit_code : ℕ
  pub printed : Option Printed
  pub receipt : Option (ℕ × Text)

unfoldable pub execute : Engines → RunnerArgs → Ended Printed
execute engines args = and_then (require_execution_shape args) (λ a.
    and_then (require_model_cache_ready engines args)
      (λ b. and_then (run_inference engines args) (λ output. returned (model_output output))))

abbrev pub smoke : Runtime → RunnerArgs → Ended Printed
smoke runtime args =
    and_then (run_smoke runtime args) (λ packages. returned (smoke_report packages))

abbrev pub serve : Bool → Ended Printed → Ended Printed → Ended Printed
serve true smoked executed = smoked
serve false smoked executed = executed

-- An exception that is no `RunnerFailure` leaves the interpreter, which exits with 1.
abbrev pub finish : Option (ℕ × Text) → Ended Printed → Finish
finish receipt (returned output) = record {
  exit_code = 0;
  printed = some output;
  receipt = receipt;
}
finish receipt (failed why code) = record { exit_code = code; printed = none; receipt = receipt }
finish receipt crashed = record { exit_code = 1; printed = none; receipt = receipt }

abbrev pub after_isolation : Ended (Option (ℕ × Text)) → Ended Printed → Finish
after_isolation (returned receipt) body = finish receipt body
after_isolation (failed why code) body = finish none (failed why code)
after_isolation crashed body = finish none crashed

unfoldable pub main : Sources → Runtime → Engines → RunnerArgs → Finish
main sources runtime engines args =
    after_isolation (verify_expected_source_isolation sources args)
      (serve args.smoke_only (smoke runtime args) (execute engines args))

finish_inv :
    (receipt : Option (ℕ × Text)) (e : Ended Printed) (output : Printed)
    → (finish receipt e).printed ≡ some output
    → (e ≡ returned output) × ((finish receipt e).exit_code ≡ 0)
finish_inv receipt (returned output') output h = (ap (λ (p : Printed). returned p) (cc h), refl)
finish_inv receipt (failed why code) output h = absurd (cc h)
finish_inv receipt crashed output h = absurd (cc h)

after_isolation_inv :
    (i : Ended (Option (ℕ × Text))) (body : Ended Printed) (output : Printed)
    → (after_isolation i body).printed ≡ some output
    → (body ≡ returned output) × ((after_isolation i body).exit_code ≡ 0)
after_isolation_inv (returned receipt) body output h = finish_inv receipt body output h
after_isolation_inv (failed why code) body output h = absurd (cc h)
after_isolation_inv crashed body output h = absurd (cc h)

smoke_inv :
    (e : Ended Packages) (text : Text)
    → and_then e (λ packages. returned (smoke_report packages)) ≡ returned (model_output text)
    → ⊥
smoke_inv (returned packages) text h = cc h
smoke_inv (failed why code) text h = cc h
smoke_inv crashed text h = cc h

serve_inv :
    (b : Bool) (smoked executed : Ended Printed) (output : Printed)
    → (smoked ≡ returned output → ⊥)
    → serve b smoked executed ≡ returned output
    → (b ≡ false) × (executed ≡ returned output)
serve_inv true smoked executed output n h = absurd (n h)
serve_inv false smoked executed output n h = (refl, h)

kind_inv :
    (engines : Engines) (args : RunnerArgs) (k : Kind) (text : Text)
    → inference_by_kind engines args k ≡ returned text
    → IsPython k
kind_inv engines args ctranslate2 text h = by_ctranslate2
kind_inv engines args onnx_runtime text h = by_onnx_runtime
kind_inv engines args mlx text h = by_mlx
kind_inv engines args coreml text h = by_coreml
kind_inv engines args direct text h = absurd (cc h)
kind_inv engines args unknown text h = absurd (cc h)

-- The model's sentinel is there, where there is a cache to look in.
abbrev pub IsReady : (Text → Bool) → RunnerArgs → Option Text → Type 0
IsReady is_file args none = Done
IsReady is_file args (some root) = is_file (ready_path args root) ≡ true

ready_below-IsReady :
    (is_file : Text → Bool) (args : RunnerArgs) (root : Option Text) (u : Done)
    → ready_below is_file args root ≡ returned u
    → IsReady is_file args root
ready_below-IsReady is_file args none u h = done
ready_below-IsReady is_file args (some root) u h =
    require_inv (is_file (ready_path args root)) (cache_not_populated (ready_path args root)) 75 u h

-- Where the command prints a model's output, its exit code is 0, it was no smoke run, the
-- generation bound was positive, the adapter is one that runs in Python, and the sentinel of the
-- model was there, if there is a cache root.
pub output_means-IsReady :
    (sources : Sources) (runtime : Runtime) (engines : Engines) (args : RunnerArgs) (text : Text)
    → (main sources runtime engines args).printed ≡ some (model_output text)
    → ((main sources runtime engines args).exit_code ≡ 0)
      × (args.smoke_only ≡ false)
      × (is_positive args.generation_bound ≡ true)
      × IsPython (kind_of args.adapter_id)
      × IsReady engines.is_file args args.model_cache_root
      × (run_inference engines args ≡ returned text)
unfolding main execute require_execution_shape require_model_cache_ready run_inference
output_means-IsReady sources runtime engines args text h =
    let (body, code) =
      after_isolation_inv (verify_expected_source_isolation sources args)
        (serve args.smoke_only (smoke runtime args) (execute engines args)) (model_output text) h in
    let (real, g) =
      serve_inv args.smoke_only (smoke runtime args) (execute engines args) (model_output text)
        (smoke_inv (run_smoke runtime args) text) body in
    let (a, shape, g1) = and_then_inv (require_execution_shape args) _ (model_output text) g in
    let (b, ready, g2) =
      and_then_inv (require_model_cache_ready engines args) _ (model_output text) g1 in
    let (output, run, g3) = and_then_inv (run_inference engines args) _ (model_output text) g2 in
    (
      code,
      real,
      require_inv (is_positive args.generation_bound) nonpositive_bound 64 a shape,
      kind_inv engines args (kind_of args.adapter_id) output run,
      ready_below-IsReady engines.is_file args args.model_cache_root b ready,
      run ∙ out output g3,
    )
  where
    out :
        (output : Text)
        → returned (model_output output) ≡ returned (model_output text)
        → returned output ≡ returned text
    out output e = cc e

-- A run that asks for no isolation, is no smoke run and finds no sentinel of its model below the
-- cache root prints nothing; it exits with 75, or with 64 if its generation bound is not positive.
pub refusal_codes :
    (sources : Sources) (runtime : Runtime) (engines : Engines) (args : RunnerArgs) (root : Text)
    → verify_expected_source_isolation sources args ≡ returned none
    → args.smoke_only ≡ false
    → args.model_cache_root ≡ some root
    → engines.is_file (ready_path args root) ≡ false
    → (b : Bool) → is_positive args.generation_bound ≡ b
    → main sources runtime engines args
      ≡ record { exit_code = elim b [ true ↦ 75 | false ↦ 64 ]; printed = none; receipt = none }
unfolding main execute require_execution_shape require_model_cache_ready
refusal_codes sources runtime engines args root i s c f true p =
    rw i (rw s (rw p (rw c (rw f refl))))
refusal_codes sources runtime engines args root i s c f false p = rw i (rw s (rw p refl))
