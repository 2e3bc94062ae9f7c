-- ===== src/Runner/Notes/Quiet.antt =====
-- That the loop over the peaks in `_run_basic_pitch_onnx` ends: each round lowers an activation that
-- was above the threshold, and none is raised.
use infernix.Prelude.{
  not_ltb→le, lt_suc_cases, ℕ, zero, suc, ◌+◌, ◌-◌, ◌*◌, ◌≤◌, ◌<◌, ◌≡◌, inl, inr, refl, true, ltb,
  leb, ◌==◌, arith, Bool-cases, ltb→lt, if◌then◌else◌, List,
}
use infernix.Runner.Notes.{
  Roll, Settings, clear_cell, Scan, unless_short, forwards, backwards, peak_step, peak_frame,
  peak_freq, peak_notes, onset_notes, segment,
}
use infernix.Runner.Notes.Peak.{peak_max, peak_frame_bound, peak_freq_bound}
use infernix.Runner.Notes.Scans.{clear_cell_le, forwards_le, backwards_le}

-- How many of the first columns of a row, and of the first rows, are above the threshold.
abbrev loud : ℕ → ℕ → ℕ
loud thresh v = if ltb thresh v then 1 else 0

loud_in_row : ℕ → ℕ → (ℕ → ℕ) → ℕ
loud_in_row thresh zero row = 0
loud_in_row thresh (suc m) row = loud_in_row thresh m row + loud thresh (row m)

loud_cells : ℕ → ℕ → ℕ → Roll → ℕ
loud_cells thresh m zero roll = 0
loud_cells thresh m (suc n) roll = loud_cells thresh m n roll + loud_in_row thresh m (roll n)

loud_le : (thresh a b : ℕ) → a ≤ b → loud thresh a ≤ loud thresh b
loud_le thresh a b h = ground arith

loud_one : (thresh a : ℕ) → loud thresh a ≤ 1
loud_one thresh a = ground arith

loud_lt : (thresh a b : ℕ) → a ≤ thresh → thresh < b → loud thresh a < loud thresh b
loud_lt thresh a b h k = ground arith

row_bound : (thresh m : ℕ) (row : ℕ → ℕ) → loud_in_row thresh m row ≤ m
unfolding loud_in_row
row_bound thresh zero row = omega arith
row_bound thresh (suc m) row = omega (arith, row_bound thresh m row, loud_one thresh (row m))

row_le :
    (thresh m : ℕ) (after before : ℕ → ℕ)
    → ((g : ℕ) → after g ≤ before g)
    → loud_in_row thresh m after ≤ loud_in_row thresh m before
unfolding loud_in_row
row_le thresh zero after before h = omega arith
row_le thresh (suc m) after before h =
    omega (arith, row_le thresh m after before h, loud_le thresh (after m) (before m) (h m))

row_lt :
    (thresh m : ℕ) (after before : ℕ → ℕ) (at : ℕ)
    → ((g : ℕ) → after g ≤ before g)
    → at < m
    → after at ≤ thresh
    → thresh < before at
    → loud_in_row thresh m after < loud_in_row thresh m before
unfolding loud_in_row
row_lt thresh zero after before at h i a b = absurd (omega arith)
row_lt thresh (suc m) after before at h i a b = elim (lt_suc_cases at m i) [
  | inl j ↦
      omega
        (arith, row_lt thresh m after before at h j a b, loud_le thresh (after m) (before m) (h m))
  | inr e ↦ omega (
    arith,
    row_le thresh m after before h,
    loud_lt thresh (after m) (before m) (rw e at a) (rw e at b),
  )
]

module _ (thresh m : ℕ) (after before : Roll) (lowers : (i g : ℕ) → after i g ≤ before i g) where
  cells_le : (n : ℕ) → loud_cells thresh m n after ≤ loud_cells thresh m n before
  unfolding loud_cells
  cells_le zero = omega arith
  cells_le (suc n) = omega (arith, cells_le n, row_le thresh m (after n) (before n) (lowers n))

  cells_lt :
      (n at freq : ℕ)
      → at < n
      → freq < m
      → after at freq ≤ thresh
      → thresh < before at freq
      → loud_cells thresh m n after < loud_cells thresh m n before
  unfolding loud_cells
  cells_lt zero at freq i j a b = absurd (omega arith)
  cells_lt (suc n) at freq i j a b = elim (lt_suc_cases at n i) [
    | inl k ↦
        omega (arith, cells_lt n at freq k j a b, row_le thresh m (after n) (before n) (lowers n))
    | inr e ↦ omega (
      arith,
      cells_le n,
      row_lt thresh m (after n) (before n) freq (lowers n) j (rw e at a) (rw e at b),
    )
  ]

cells_bound : (thresh m n : ℕ) (roll : Roll) → loud_cells thresh m n roll ≤ n * m
unfolding loud_cells
cells_bound thresh m zero roll = omega arith
cells_bound thresh m (suc n) roll =
    grind (arith, cells_bound thresh m n roll, row_bound thresh m (roll n))

-- No cell is above the threshold.
abbrev pub IsQuiet : Settings → Roll → Type 0
IsQuiet s roll = (i g : ℕ) → i < s.n_frames → g < suc s.max_freq_idx → roll i g ≤ s.frame_thresh

clear_cell_zero : (row freq : ℕ) (roll : Roll) → clear_cell row freq roll row freq ≡ 0
unfolding clear_cell
clear_cell_zero row freq roll = rw (same row) (rw (same freq) refl)
  where
    same : (a : ℕ) → (a == a) ≡ true
    same a = ground arith

unless_short_remaining :
    (s : Settings) (start end freq : ℕ) (roll : Roll)
    → (unless_short s start end freq roll roll).remaining ≡ roll
unless_short_remaining s start end freq roll =
    elim (Bool-cases (leb (end - start) s.min_note_len)) [ inl e ↦ rw e refl | inr e ↦ rw e refl ]

-- A round leaves zero at the peak and raises nothing.
peak_step_lowers :
    (s : Settings) (roll : Roll) (i_mid freq i g : ℕ)
    → (peak_step s roll i_mid freq).remaining i g ≤ clear_cell i_mid freq roll i g
unfolding peak_step
peak_step_lowers s roll i_mid freq i g =
    let first : Scan = record { at = suc i_mid; quiet = 0; roll = clear_cell i_mid freq roll } in
    let ahead = forwards s s.n_frames freq first in
    let second : Scan = record { at = i_mid; quiet = 0; roll = ahead.roll } in
    let behind = backwards s i_mid freq second in
    rw
      (unless_short_remaining s (behind.at + behind.quiet) (ahead.at - 1 - ahead.quiet) freq
        behind.roll)
      (omega (arith, forwards_le s s.n_frames freq first i g, backwards_le s i_mid freq second i g))

none_loud :
    (s : Settings) (roll : Roll)
    → loud_cells s.frame_thresh (suc s.max_freq_idx) s.n_frames roll ≤ 0
    → IsQuiet s roll
none_loud s roll k i g hi hg = elim (Bool-cases (ltb s.frame_thresh (roll i g))) [
  | inl e ↦ absurd (
      omega (
        arith,
        k,
        cells_lt s.frame_thresh (suc s.max_freq_idx) (λ a b. 0) roll (λ a b. omega arith) s.n_frames
            i g hi hg (omega arith) (ltb→lt s.frame_thresh (roll i g) e),
      ))
  | inr e ↦ not_ltb→le s.frame_thresh (roll i g) e
]

peak_notes-IsQuiet :
    (s : Settings) (fuel : ℕ) (roll : Roll)
    → 0 < s.n_frames
    → loud_cells s.frame_thresh (suc s.max_freq_idx) s.n_frames roll ≤ fuel
    → IsQuiet s ((peak_notes s fuel roll).1)
unfolding peak_notes
peak_notes-IsQuiet s zero roll h k = none_loud s roll (omega arith)
peak_notes-IsQuiet s (suc fuel) roll h k =
    let at = peak_frame s roll in
    let freq = peak_freq s roll in
    elim (Bool-cases (ltb s.frame_thresh (roll at freq))) [
      | inl e ↦
          let left = (peak_step s roll at freq).remaining in
          let fewer =
            cells_lt s.frame_thresh (suc s.max_freq_idx) left roll
              (λ a b.
                omega (arith, peak_step_lowers s roll at freq a b, clear_cell_le at freq roll a b))
              s.n_frames at freq (peak_frame_bound s roll h) (peak_freq_bound s roll)
              (omega (arith, peak_step_lowers s roll at freq at freq, clear_cell_zero at freq roll))
              (ltb→lt s.frame_thresh (roll at freq) e) in
          rw (e, peak_notes) (peak_notes-IsQuiet s fuel left h (omega (arith, fewer)))
      | inr e ↦
          rw (e, peak_notes)
            (λ i g hi hg.
              omega (arith, peak_max s roll i g hi hg, not_ltb→le s.frame_thresh (roll at freq) e))
    ]

-- The loop over the peaks has ended by itself within as many rounds as the activations have cells:
-- nothing that remains is above the threshold.
pub segment-IsQuiet :
    (s : Settings) (frames : Roll) (onsets : List (ℕ × ℕ))
    → 0 < s.n_frames
    → IsQuiet s ((segment s frames onsets).1)
unfolding segment
segment-IsQuiet s frames onsets h =
    let first = (onset_notes s frames onsets).1 in
    peak_notes-IsQuiet s (s.n_frames * suc s.max_freq_idx) first h
      (cells_bound s.frame_thresh (suc s.max_freq_idx) s.n_frames first)
