-- ===== src/Runner/Notes/Bounds.antt =====
-- That the notes of `_run_basic_pitch_onnx` lie in the recording and on the keyboard.
use infernix.Prelude.{
  not_leb→lt, ℕ, zero, suc, ◌+◌, ◌-◌, ◌*◌, ◌≤◌, ◌<◌, Option, none, some, List, [], ◌∷◌, ◌++◌, ltb,
  leb, arith, All, Bool-cases, inl, inr,
}
use infernix.Runner.Notes.{
  Roll, Settings, last_frame, Note, midi_offset, clear_band, clear_cell, extend, unless_short,
  onset_step, add_note, onset_notes, Scan, forwards, backwards, peak_step, peak_frame, peak_freq,
  peak_notes, segment,
}
use infernix.Runner.Notes.Peak.{peak_frame_bound, peak_freq_bound}
use infernix.Runner.Notes.Scans.{extend_bounds, forwards_bounds}

-- Longer than the least length, ended by the last frame, and of one of the columns.
abbrev pub IsPlayable : Settings → Note → Type 0
IsPlayable s note =
    (note.start_frame + s.min_note_len < note.end_frame)
    × (note.end_frame ≤ last_frame s)
    × (midi_offset ≤ note.pitch)
    × (note.pitch ≤ s.max_freq_idx + midi_offset)

abbrev IsPlayableStep : Settings → Option Note → Type 0
IsPlayableStep s none = 0 ≤ 0
IsPlayableStep s (some note) = IsPlayable s note

unless_short-IsPlayable :
    (s : Settings) (start end freq : ℕ) (skipped remaining : Roll)
    → end ≤ last_frame s
    → freq ≤ s.max_freq_idx
    → IsPlayableStep s ((unless_short s start end freq skipped remaining).note)
unless_short-IsPlayable s start end freq skipped remaining h f =
    elim (Bool-cases (leb (end - start) s.min_note_len)) [
      | inl e ↦ rw e (omega arith)
      | inr e ↦
          let long = not_leb→lt (end - start) s.min_note_len e in
          rw e (omega (arith, long), h, omega arith, omega (arith, f))
    ]

onset_step-IsPlayable :
    (s : Settings) (roll : Roll) (note_start freq : ℕ)
    → freq ≤ s.max_freq_idx
    → IsPlayableStep s ((onset_step s roll note_start freq).note)
unfolding onset_step
onset_step-IsPlayable s roll note_start freq h = elim (Bool-cases (leb (last_frame s) note_start)) [
  | inl e ↦ rw e (omega arith)
  | inr e ↦
      let (a, b, c) = extend_bounds s s.n_frames roll freq (suc note_start) 0 in
      let scan = extend s s.n_frames roll freq (suc note_start) 0 in
      rw e (
        unless_short-IsPlayable s note_start (scan.0 - scan.1) freq roll
          (clear_band s note_start (scan.0 - scan.1) freq roll)
          (omega (arith, b, not_leb→lt (last_frame s) note_start e)) h)
]

peak_step-IsPlayable :
    (s : Settings) (roll : Roll) (i_mid freq : ℕ)
    → i_mid < s.n_frames
    → freq ≤ s.max_freq_idx
    → IsPlayableStep s ((peak_step s roll i_mid freq).note)
unfolding peak_step
peak_step-IsPlayable s roll i_mid freq h f =
    let first : Scan = record { at = suc i_mid; quiet = 0; roll = clear_cell i_mid freq roll } in
    let ahead = forwards s s.n_frames freq first in
    let (a, b, c) = forwards_bounds s s.n_frames freq first in
    let behind = backwards s i_mid freq (record { at = i_mid; quiet = 0; roll = ahead.roll }) in
    unless_short-IsPlayable s (behind.at + behind.quiet) (ahead.at - 1 - ahead.quiet) freq
      behind.roll behind.roll (omega (arith, b)) f

add_note-All :
    (s : Settings) (note : Option Note) (notes : List Note)
    → IsPlayableStep s note
    → All (IsPlayable s) notes
    → All (IsPlayable s) (add_note note notes)
add_note-All s none notes h all = all
add_note-All s (some note) notes h all = (h, all)

pub onset_notes-IsPlayable :
    (s : Settings) (roll : Roll) (onsets : List (ℕ × ℕ))
    → All (λ (onset : ℕ × ℕ). onset.1 ≤ s.max_freq_idx) onsets
    → All (IsPlayable s) ((onset_notes s roll onsets).0)
unfolding onset_notes
onset_notes-IsPlayable s roll [] h = tt
onset_notes-IsPlayable s roll ((note_start, freq) ∷ onsets) h =
    add_note-All s ((onset_step s roll note_start freq).note) _
      (onset_step-IsPlayable s roll note_start freq (h.0))
      (onset_notes-IsPlayable s ((onset_step s roll note_start freq).remaining) onsets (h.1))

pub peak_notes-IsPlayable :
    (s : Settings) (fuel : ℕ) (roll : Roll)
    → 0 < s.n_frames
    → All (IsPlayable s) ((peak_notes s fuel roll).0)
unfolding peak_notes
peak_notes-IsPlayable s zero roll h = tt
peak_notes-IsPlayable s (suc fuel) roll h =
    elim (Bool-cases (ltb s.frame_thresh (roll (peak_frame s roll) (peak_freq s roll)))) [
      | inl e ↦
          rw (e, peak_notes)
            (add_note-All s ((peak_step s roll (peak_frame s roll) (peak_freq s roll)).note) _
              (peak_step-IsPlayable s roll (peak_frame s roll) (peak_freq s roll)
                (peak_frame_bound s roll h) (omega (arith, peak_freq_bound s roll)))
              (peak_notes-IsPlayable s fuel
                ((peak_step s roll (peak_frame s roll) (peak_freq s roll)).remaining) h))
      | inr e ↦ rw (e, peak_notes) tt
    ]

All-append :
    (s : Settings) (xs ys : List Note)
    → All (IsPlayable s) xs
    → All (IsPlayable s) ys
    → All (IsPlayable s) (xs ++ ys)
All-append s [] ys h k = k
All-append s (x ∷ xs) ys h k = (h.0, All-append s xs ys (h.1) k)

-- Where the recording has a frame and the onsets are of the columns there are, every note starts
-- more than the least length before it ends, ends by the last frame, so that the code's bound on
-- the index changes nothing, and has a pitch of the columns' range.
pub segment-IsPlayable :
    (s : Settings) (frames : Roll) (onsets : List (ℕ × ℕ))
    → 0 < s.n_frames
    → All (λ (onset : ℕ × ℕ). onset.1 ≤ s.max_freq_idx) onsets
    → All (IsPlayable s) ((segment s frames onsets).0)
unfolding segment
segment-IsPlayable s frames onsets h k =
    All-append s ((onset_notes s frames onsets).0) _ (onset_notes-IsPlayable s frames onsets k) (
      peak_notes-IsPlayable s (s.n_frames * suc s.max_freq_idx) ((onset_notes s frames onsets).1) h)
