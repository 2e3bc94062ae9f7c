-- ===== src/Runner/Tests.antt =====
-- Runs of the native runner, and its theorems at them.
use infernix.Prelude.{
  ℕ, ◌+◌, ◌<◌, ◌≡◌, refl, Bool, true, false, none, some, [], ◌∷◌, ◌++◌, ltb, arith, All,
}
use mathlib.Core.List.{Perm}
use infernix.Prelude.Text.{Text, codes, text_eq, one_of, starts_with, has_char, lstrip, rstrip}
use infernix.Runner.{pos, RunnerArgs, returned, failed, no_input_file}
use infernix.Runner.Isolation.{
  denied, Sources, is_contract, remove_prefix, verify_expected_source_isolation, IsDenied,
  receipt_means-IsDenied,
}
use infernix.Runner.Smoke.{
  kind_of, Runtime, path_is_under, versions, smoke_python_runtime, run_smoke, IsPython,
}
use infernix.Runner.Output.{
  Parts, Filesystem, relative_to, check_parts, require_nonempty_output, IsDirect, accepted_output,
}
use infernix.Runner.Engines.{
  Engines, is_positive, require_execution_shape, require_model_cache_ready, run_mlx_lm,
  run_inference,
}
use infernix.Runner.Main.{model_output, execute, main, IsReady, output_means-IsReady}
use infernix.Runner.Notes.{
  Roll, Settings, basic_pitch, Note, clear_band, clear_cell, extend, onset_step, onset_notes,
  best_column, best_row, forwards, backwards, peak_step, peak_frame, peak_freq, peak_notes, segment,
}
use infernix.Runner.Notes.Bounds.{IsPlayable, segment-IsPlayable}
use infernix.Runner.Notes.Quiet.{IsQuiet, segment-IsQuiet}
use infernix.Runner.Midi.{raw_events, track}
use infernix.Runner.Midi.Track.{replay, IsSorted, IsMidi, track_replays, segment-IsMidi}

abbrev digest : Text
digest = codes "0123456789abcdef0123456789abcdef0123456789abcdef0123456789abcdef"

abbrev smoking : RunnerArgs
smoking = record {
  adapter_id = codes "onnx-runtime-native";
  model_id = codes "basic-pitch";
  generation_bound = pos 0;
  input_text = [];
  input_file = [];
  model_cache_root = none;
  output_dir = none;
  expected_python_prefix = codes "/venv";
  expected_unavailable_source_directories = codes "/src" ∷ [];
  expected_unavailable_source_files = codes "/src/a.py" ∷ [];
  expected_unavailable_source_write_probe = some (codes "/src/a.py");
  source_isolation_receipt = codes "sha256:" ++ digest;
  smoke_only = true;
}

abbrev sealed : Sources
sealed = record {
  sentinel = some (codes "f");
  list_directory = λ path. denied;
  open_file = λ path. denied;
  open_for_writing = λ path. denied;
}

receipt_written :
    verify_expected_source_isolation sealed smoking ≡ returned (some (2, codes "sha256:" ++ digest))
unfolding verify_expected_source_isolation is_contract remove_prefix one_of text_eq starts_with
    has_char
receipt_written = refl

receipt_means-IsDenied_example : IsDenied sealed smoking 2 (codes "sha256:" ++ digest)
receipt_means-IsDenied_example =
    receipt_means-IsDenied sealed smoking 2 (codes "sha256:" ++ digest) receipt_written

abbrev interpreter : Runtime
interpreter = record {
  prefix = codes "/" ∷ codes "venv" ∷ [];
  resolve = λ path. codes "/" ∷ codes "venv" ∷ [];
  importable = λ name. true;
  version = λ name. some (codes "1.0");
  mlx_item = 42;
  compute_devices = [];
  coremltools_version = codes "8.0";
}

smoke_passes : run_smoke interpreter smoking ≡ returned ((codes "onnxruntime", codes "1.0") ∷ [])
unfolding run_smoke smoke_python_runtime path_is_under kind_of versions text_eq one_of
smoke_passes = refl

abbrev one_file : Filesystem
one_file = record {
  is_symlink = λ path. false;
  absolute = λ path. path;
  resolve = λ path. path;
  size = λ path. some 3;
  is_regular = λ path. true;
}

abbrev out_dir : Parts
out_dir = codes "/" ∷ codes "out" ∷ []

abbrev out_file : Parts
out_file = codes "/" ∷ codes "out" ∷ codes "a.mid" ∷ []

output_passes : require_nonempty_output one_file out_dir out_file ≡ returned out_file
unfolding require_nonempty_output relative_to check_parts path_is_under text_eq
output_passes = refl

accepted_output_example :
    (out_file ≡ out_file)
    × (false ≡ false)
    × ((parts : Parts) × (out_file ≡ out_dir ++ parts) × IsDirect one_file.is_symlink out_dir parts)
    × (path_is_under out_file out_dir ≡ true)
    × (true ≡ true)
    × ((n : ℕ) × (some 3 ≡ some n) × 0 < n)
accepted_output_example = accepted_output one_file out_dir out_file out_file output_passes

abbrev chatting : RunnerArgs
chatting = record smoking {
  adapter_id = codes "mlx-native";
  model_id = codes "m";
  generation_bound = pos 5;
  input_text = codes "hi";
  model_cache_root = some (codes "/c");
  expected_unavailable_source_directories = [];
  expected_unavailable_source_files = [];
  expected_unavailable_source_write_probe = none;
  source_isolation_receipt = [];
  smoke_only = false;
}

abbrev packages : (Text → Bool) → Engines
packages is_file = record {
  is_space = λ c. ltb c 33;
  is_file = is_file;
  is_dir = λ path. false;
  make_directory = λ path. true;
  parts = λ path. [];
  text_of = λ path. [];
  stem = λ path. path;
  files = one_file;
  transcribe = λ directory path. none;
  generate = λ directory prompt bound. some (prompt ++ codes " there ");
  predict_and_save = λ path directory. true;
  paint = λ prompt root directory. none;
  onnx = λ args. failed no_input_file 70;
}

abbrev present : Text → Bool
present path = true

abbrev absent : Text → Bool
absent path = false

chat_printed :
    (main sealed interpreter (packages present) chatting).printed
    ≡ some (model_output (codes "hi there"))
unfolding main execute verify_expected_source_isolation require_execution_shape is_positive
    require_model_cache_ready run_inference run_mlx_lm kind_of text_eq one_of lstrip rstrip
chat_printed = refl

output_means-IsReady_example :
    ((main sealed interpreter (packages present) chatting).exit_code ≡ 0)
    × (false ≡ false)
    × (is_positive (pos 5) ≡ true)
    × IsPython (kind_of (codes "mlx-native"))
    × IsReady present chatting (some (codes "/c"))
    × (run_inference (packages present) chatting ≡ returned (codes "hi there"))
output_means-IsReady_example =
    output_means-IsReady sealed interpreter (packages present) chatting (codes "hi there")
      chat_printed

-- Three columns and eight frames: a note from an onset in column 0, one found as a peak in column 2.
abbrev small : Settings
small = record {
  n_frames = 8;
  frame_thresh = 30;
  energy_tol = 2;
  max_freq_idx = 2;
  min_note_len = 1;
}

abbrev low : ℕ → ℕ
low i = elim (ltb 0 i) [ true ↦ elim (ltb i 4) [ true ↦ 60 | false ↦ 0 ] | false ↦ 0 ]

abbrev high : ℕ → ℕ
high i = elim (ltb 3 i) [ true ↦ elim (ltb i 7) [ true ↦ 50 | false ↦ 0 ] | false ↦ 0 ]

abbrev sounds : Roll
sounds i g = elim (ltb g 1) [ true ↦ low i | false ↦ elim (ltb 1 g) [ true ↦ high i | false ↦ 0 ] ]

abbrev first_note : Note
first_note = record { start_frame = 1; end_frame = 4; pitch = 21 }

abbrev second_note : Note
second_note = record { start_frame = 4; end_frame = 6; pitch = 23 }

small_notes : (segment small sounds ((1, 0) ∷ [])).0 ≡ first_note ∷ second_note ∷ []
unfolding segment onset_notes onset_step extend clear_band peak_notes peak_step peak_frame peak_freq
    best_row best_column forwards backwards clear_cell
small_notes = refl

segment-IsPlayable_example : All (IsPlayable small) ((segment small sounds ((1, 0) ∷ [])).0)
segment-IsPlayable_example =
    segment-IsPlayable small sounds ((1, 0) ∷ []) (omega arith) (omega arith, tt)

segment-IsQuiet_example : IsQuiet small ((segment small sounds ((1, 0) ∷ [])).1)
segment-IsQuiet_example = segment-IsQuiet small sounds ((1, 0) ∷ []) (omega arith)

abbrev tick_of : ℕ → ℕ
tick_of frame = frame + frame

abbrev loudness_of : Note → ℕ
loudness_of note = 90

track_replays_example :
    Perm
      (replay 0 (track small tick_of loudness_of (first_note ∷ [])))
      (raw_events small tick_of loudness_of (first_note ∷ []))
    × IsSorted (replay 0 (track small tick_of loudness_of (first_note ∷ [])))
track_replays_example = track_replays small tick_of loudness_of (first_note ∷ [])

segment-IsMidi_example : All IsMidi (
    replay 0 (
      track
        (basic_pitch 8 30)
        tick_of
        loudness_of
        ((segment (basic_pitch 8 30) sounds ((1, 0) ∷ [])).0)))
segment-IsMidi_example =
    segment-IsMidi 8 30 sounds ((1, 0) ∷ []) tick_of loudness_of (omega arith) (omega arith, tt)
