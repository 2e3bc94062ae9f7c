-- ===== src/Runner/Notes.antt =====
-- The two loops of `_run_basic_pitch_onnx` in python/native-runners/apple_native_runner.py that make
-- notes of the model's activations. An activation is a number: the code compares them and sets
-- them to zero. The amplitude of a note is left to what reads the notes.
pub mod Peak
pub mod Scans
pub mod Bounds
pub mod Quiet
use infernix.Prelude.{
  ℕ, zero, suc, ◌+◌, ◌-◌, ◌*◌, Bool, true, false, ◌&&◌, ◌||◌, Option, none, some, List, [], ◌∷◌,
  ◌++◌, ltb, leb, ◌==◌, if◌then◌else◌,
}

-- `remaining[frame, freq]`
abbrev pub Roll : Type 0
Roll = ℕ → ℕ → ℕ

-- The constants of the function; there are `max_freq_idx + 1` columns.
pub record Settings : Type 0 where
  pub n_frames : ℕ
  pub frame_thresh : ℕ
  pub energy_tol : ℕ
  pub max_freq_idx : ℕ
  pub min_note_len : ℕ

abbrev pub basic_pitch : ℕ → ℕ → Settings
basic_pitch n_frames frame_thresh = record {
  n_frames = n_frames;
  frame_thresh = frame_thresh;
  energy_tol = 11;
  max_freq_idx = 87;
  min_note_len = 11;
}

abbrev pub midi_offset : ℕ
midi_offset = 21

abbrev pub last_frame : Settings → ℕ
last_frame s = s.n_frames - 1

pub record Note : Type 0 where
  pub start_frame : ℕ
  pub end_frame : ℕ
  pub pitch : ℕ

-- The column and, where there are any, its neighbours.
abbrev pub is_near : Settings → ℕ → ℕ → Bool
is_near s freq g =
    (g == freq) || ((ltb freq s.max_freq_idx && (g == suc freq)) || (ltb 0 freq && (suc g == freq)))

-- The rows from `start` to before `end` of the column and its neighbours are set to zero.
unfoldable pub clear_band : Settings → ℕ → ℕ → ℕ → Roll → Roll
clear_band s start end freq roll i g =
    if leb start i && (ltb i end && is_near s freq g) then 0 else roll i g

unfoldable pub clear_cell : ℕ → ℕ → Roll → Roll
clear_cell row freq roll i g = if (i == row) && (g == freq) then 0 else roll i g

-- How many frames in a row were quiet.
abbrev pub next_quiet : Settings → ℕ → ℕ → ℕ
next_quiet s value k = if ltb value s.frame_thresh then suc k else 0

-- `while i < n_frames - 1 and k < energy_tol` of the first loop, on fuel.
unfoldable pub extend : Settings → ℕ → Roll → ℕ → ℕ → ℕ → ℕ × ℕ
extend s zero roll freq i k = (i, k)
extend s (suc fuel) roll freq i k = elim (ltb i (last_frame s) && ltb k s.energy_tol) [
  | true ↦ extend s fuel roll freq (suc i) (next_quiet s (roll i freq) k)
  | false ↦ (i, k)
]

-- A step of either loop: the note it adds, if any, and what remains.
pub record Step : Type 0 where
  pub note : Option Note
  pub remaining : Roll

abbrev pub unless_short : Settings → ℕ → ℕ → ℕ → Roll → Roll → Step
unless_short s start end freq skipped remaining =
    if leb (end - start) s.min_note_len
    then record { note = none; remaining = skipped }
    else record {
      note = some (record { start_frame = start; end_frame = end; pitch = freq + midi_offset });
      remaining = remaining;
    }

-- The body of the first loop after its scan, which ended at `i` with `k` quiet frames.
abbrev pub take_onset : Settings → ℕ → ℕ → Roll → ℕ × ℕ → Step
take_onset s start freq roll (i, k) =
    unless_short s start (i - k) freq roll (clear_band s start (i - k) freq roll)

unfoldable pub onset_step : Settings → Roll → ℕ → ℕ → Step
unfolding extend clear_band
onset_step s roll note_start freq =
    if leb (last_frame s) note_start
    then record { note = none; remaining = roll }
    else take_onset s note_start freq roll (extend s s.n_frames roll freq (suc note_start) 0)

abbrev pub add_note : Option Note → List Note → List Note
add_note none notes = notes
add_note (some note) notes = note ∷ notes

-- The first loop, over the onsets in the order it takes them.
unfoldable pub onset_notes : Settings → Roll → List (ℕ × ℕ) → List Note × Roll
unfolding onset_step
onset_notes s roll [] = ([], roll)
onset_notes s roll ((note_start, freq) ∷ onsets) =
    let step = onset_step s roll note_start freq in
    let rest = onset_notes s step.remaining onsets in (add_note step.note (rest.0), rest.1)

-- The cell that `np.argmax` finds: the first of the largest.
unfoldable pub best_column : ℕ → (ℕ → ℕ) → ℕ
best_column zero row = 0
best_column (suc m) row = let best = best_column m row in if ltb (row best) (row m) then m else best

unfoldable pub best_row : ℕ → ℕ → Roll → ℕ
unfolding best_column
best_row m zero roll = 0
best_row m (suc n) roll =
    let best = best_row m n roll in
    if ltb (roll best (best_column m (roll best))) (roll n (best_column m (roll n)))
    then n
    else best

-- Where a scan of the second loop stands.
pub record Scan : Type 0 where
  pub at : ℕ
  pub quiet : ℕ
  pub roll : Roll

-- The scan forwards, which clears what it has read; `at` is `i`.
unfoldable pub forwards : Settings → ℕ → ℕ → Scan → Scan
unfolding clear_band
forwards s zero freq scan = scan
forwards s (suc fuel) freq scan = elim (ltb scan.at (last_frame s) && ltb scan.quiet s.energy_tol) [
  | true ↦ forwards s fuel freq (record {
    at = suc scan.at;
    quiet = next_quiet s (scan.roll scan.at freq) scan.quiet;
    roll = clear_band s scan.at (suc scan.at) freq scan.roll;
  })
  | false ↦ scan
]

-- The scan backwards; `at` is `i + 1`, so that it is 0 where `i` is -1.
unfoldable pub backwards : Settings → ℕ → ℕ → Scan → Scan
unfolding clear_band
backwards s zero freq scan = scan
backwards s (suc fuel) freq scan = elim (ltb 1 scan.at && ltb scan.quiet s.energy_tol) [
  | true ↦ backwards s fuel freq (record {
    at = scan.at - 1;
    quiet = next_quiet s (scan.roll (scan.at - 1) freq) scan.quiet;
    roll = clear_band s (scan.at - 1) scan.at freq scan.roll;
  })
  | false ↦ scan
]

abbrev pub take_peak : Settings → ℕ → Scan → Scan → Step
take_peak s freq ahead behind =
    unless_short s (behind.at + behind.quiet) (ahead.at - 1 - ahead.quiet) freq behind.roll
      behind.roll

-- The body of the second loop, at the peak.
unfoldable pub peak_step : Settings → Roll → ℕ → ℕ → Step
unfolding clear_cell forwards backwards
peak_step s roll i_mid freq =
    let ahead =
      forwards s s.n_frames freq
        (record { at = suc i_mid; quiet = 0; roll = clear_cell i_mid freq roll }) in
    let behind = backwards s i_mid freq (record { at = i_mid; quiet = 0; roll = ahead.roll }) in
    take_peak s freq ahead behind

unfoldable pub peak_frame : Settings → Roll → ℕ
unfolding best_row
peak_frame s roll = best_row (suc s.max_freq_idx) s.n_frames roll

unfoldable pub peak_freq : Settings → Roll → ℕ
unfolding best_column
peak_freq s roll = best_column (suc s.max_freq_idx) (roll (peak_frame s roll))

-- `while np.max(remaining) > frame_thresh`, on fuel.
unfoldable pub peak_notes : Settings → ℕ → Roll → List Note × Roll
unfolding peak_step peak_frame peak_freq
peak_notes s zero roll = ([], roll)
peak_notes s (suc fuel) roll =
    elim (ltb s.frame_thresh (roll (peak_frame s roll) (peak_freq s roll))) [
      | true ↦
          let step = peak_step s roll (peak_frame s roll) (peak_freq s roll) in
          let rest = peak_notes s fuel step.remaining in (add_note step.note (rest.0), rest.1)
      | false ↦ ([], roll)
    ]

-- Both loops: the events, and what remains of the activations.
unfoldable pub segment : Settings → Roll → List (ℕ × ℕ) → List Note × Roll
unfolding onset_notes peak_notes
segment s frames onsets =
    let first = onset_notes s frames onsets in
    let second = peak_notes s (s.n_frames * suc s.max_freq_idx) (first.1) in
    (first.0 ++ second.0, second.1)
