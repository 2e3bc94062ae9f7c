-- ===== src/Runner/Notes/Peak.antt =====
-- The search for the largest activation in `_run_basic_pitch_onnx`.
use infernix.Prelude.{
  not_ltb→le, lt_suc_cases, ℕ, zero, suc, ◌≤◌, ◌<◌, ◌≡◌, ◌⊎◌, inl, inr, ap, ltb, arith, Bool-cases,
  ltb→lt,
}
use infernix.Runner.Notes.{Roll, Settings, best_column, best_row, peak_frame, peak_freq}

-- The old best against the value at `m`.
above :
    (row : ℕ → ℕ) (g best m : ℕ)
    → row best < row m
    → (g < m) ⊎ (g ≡ m)
    → (g < m → row g ≤ row best)
    → row g ≤ row m
above row g best m l (inl i) h = omega (arith, h i)
above row g best m l (inr e) h = omega (arith, ap row e)

under :
    (row : ℕ → ℕ) (g best m : ℕ)
    → row m ≤ row best
    → (g < m) ⊎ (g ≡ m)
    → (g < m → row g ≤ row best)
    → row g ≤ row best
under row g best m l (inl i) h = h i
under row g best m l (inr e) h = omega (arith, ap row e)

pub best_column_bound : (m : ℕ) (row : ℕ → ℕ) → best_column (suc m) row < suc m
unfolding best_column
best_column_bound zero row = elim (Bool-cases (ltb (row 0) (row 0))) [
  | inl e ↦ rw e (omega arith)
  | inr e ↦ rw e (omega arith)
]
best_column_bound (suc m) row =
    let below = best_column_bound m row in
    elim (Bool-cases (ltb (row (best_column (suc m) row)) (row (suc m)))) [
      | inl e ↦ rw e (omega arith)
      | inr e ↦ rw e (omega (arith, below))
    ]

pub best_column_max : (m : ℕ) (row : ℕ → ℕ) (g : ℕ) → g < m → row g ≤ row (best_column m row)
unfolding best_column
best_column_max zero row g h = absurd (omega arith)
best_column_max (suc m) row g h =
    let best = best_column m row in
    elim (Bool-cases (ltb (row best) (row m))) [
      | inl e ↦ rw e (
          above row g best m (ltb→lt (row best) (row m) e) (lt_suc_cases g m h)
            (λ i. best_column_max m row g i))
      | inr e ↦ rw e (
          under row g best m (not_ltb→le (row best) (row m) e) (lt_suc_cases g m h)
            (λ i. best_column_max m row g i))
    ]

module _ (m : ℕ) (roll : Roll) where
  abbrev top : ℕ → ℕ
  top i = roll i (best_column m (roll i))

  pub best_row_bound : (n : ℕ) → best_row m (suc n) roll < suc n
  unfolding best_row
  best_row_bound zero = elim (Bool-cases (ltb (top 0) (top 0))) [
    | inl e ↦ rw e (omega arith)
    | inr e ↦ rw e (omega arith)
  ]
  best_row_bound (suc n) =
      let below = best_row_bound n in
      elim (Bool-cases (ltb (top (best_row m (suc n) roll)) (top (suc n)))) [
        | inl e ↦ rw e (omega arith)
        | inr e ↦ rw e (omega (arith, below))
      ]

  best_row_max : (n i : ℕ) → i < n → top i ≤ top (best_row m n roll)
  unfolding best_row
  best_row_max zero i h = absurd (omega arith)
  best_row_max (suc n) i h = elim (Bool-cases (ltb (top (best_row m n roll)) (top n))) [
    | inl e ↦ rw e (
        above top i (best_row m n roll) n (ltb→lt (top (best_row m n roll)) (top n) e)
          (lt_suc_cases i n h) (λ j. best_row_max n i j))
    | inr e ↦ rw e (
        under top i (best_row m n roll) n (not_ltb→le (top (best_row m n roll)) (top n) e)
          (lt_suc_cases i n h) (λ j. best_row_max n i j))
  ]

-- No activation is above the one that the search finds.
pub peak_max :
    (s : Settings) (roll : Roll) (i g : ℕ)
    → i < s.n_frames
    → g < suc s.max_freq_idx
    → roll i g ≤ roll (peak_frame s roll) (peak_freq s roll)
unfolding peak_frame peak_freq
peak_max s roll i g hi hg = omega (
  arith,
  best_column_max (suc s.max_freq_idx) (roll i) g hg,
  best_row_max (suc s.max_freq_idx) roll s.n_frames i hi,
)

pub peak_frame_bound :
    (s : Settings) (roll : Roll) → 0 < s.n_frames → peak_frame s roll < s.n_frames
unfolding peak_frame best_row
peak_frame_bound s roll h = bound s.n_frames h
  where
    bound : (n : ℕ) → 0 < n → best_row (suc s.max_freq_idx) n roll < n
    bound zero h = absurd (omega arith)
    bound (suc n) h = best_row_bound (suc s.max_freq_idx) roll n

pub peak_freq_bound : (s : Settings) (roll : Roll) → peak_freq s roll < suc s.max_freq_idx
unfolding peak_freq best_column
peak_freq_bound s roll = best_column_bound s.max_freq_idx (roll (peak_frame s roll))
