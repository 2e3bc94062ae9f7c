-- ===== src/Runner/Notes/Scans.antt =====
-- Where the scans of the note loops in `_run_basic_pitch_onnx` end, and what they clear.
use infernix.Prelude.{
  ℕ, zero, suc, ◌+◌, ◌-◌, ◌≤◌, ◌<◌, ◌≡◌, ◌⊎◌, inl, inr, true, false, ◌&&◌, ltb, leb, ◌==◌, arith,
  Bool-cases, max,
}
use infernix.Runner.Notes.{
  Roll, Settings, last_frame, is_near, clear_band, clear_cell, next_quiet, extend, Scan, forwards,
  backwards,
}

-- The loop's test, where it holds and where it does not.
pub both_lt : (a b c d : ℕ) → (ltb a b && ltb c d) ≡ true → (a < b) × (c < d)
both_lt a b c d h = (ground arith, ground arith)

pub not_both_lt : (a b c d : ℕ) → (ltb a b && ltb c d) ≡ false → (b ≤ a) ⊎ (d ≤ c)
not_both_lt a b c d h = ground arith

pub next_quiet_le : (s : Settings) (v k : ℕ) → next_quiet s v k ≤ suc k
next_quiet_le s v k = elim (Bool-cases (ltb v s.frame_thresh)) [
  | inl e ↦ rw e (omega arith)
  | inr e ↦ rw e (omega arith)
]

-- The scan of the first loop goes forwards, not past the last frame, and has seen at most as many
-- quiet frames as it has passed.
pub extend_bounds :
    (s : Settings) (fuel : ℕ) (roll : Roll) (freq i k : ℕ)
    → (i ≤ (extend s fuel roll freq i k).0)
      × ((extend s fuel roll freq i k).0 ≤ max i (last_frame s))
      × ((extend s fuel roll freq i k).1 + i ≤ (extend s fuel roll freq i k).0 + k)
unfolding extend
extend_bounds s zero roll freq i k = (omega arith, omega arith, omega arith)
extend_bounds s (suc fuel) roll freq i k =
    elim (Bool-cases (ltb i (last_frame s) && ltb k s.energy_tol)) [
      | inl e ↦
          let (a, b, c) = extend_bounds s fuel roll freq (suc i) (next_quiet s (roll i freq) k) in
          let (inside, tolerated) = both_lt i (last_frame s) k s.energy_tol e in
          rw (e, extend)
            (
              omega (arith, a),
              omega (arith, b, inside),
              omega (arith, c, next_quiet_le s (roll i freq) k),
            )
      | inr e ↦ rw (e, extend) (omega arith, omega arith, omega arith)
    ]

-- It has stopped because its test fails, never because of the fuel.
pub extend_stops :
    (s : Settings) (fuel : ℕ) (roll : Roll) (freq i k : ℕ)
    → last_frame s ≤ fuel + i
    → (last_frame s ≤ (extend s fuel roll freq i k).0)
      ⊎ (s.energy_tol ≤ (extend s fuel roll freq i k).1)
unfolding extend
extend_stops s zero roll freq i k h = inl (omega arith)
extend_stops s (suc fuel) roll freq i k h =
    elim (Bool-cases (ltb i (last_frame s) && ltb k s.energy_tol)) [
      | inl e ↦
          rw (e, extend)
            (extend_stops s fuel roll freq (suc i) (next_quiet s (roll i freq) k) (omega arith))
      | inr e ↦ rw (e, extend) (not_both_lt i (last_frame s) k s.energy_tol e)
    ]

pub forwards_bounds :
    (s : Settings) (fuel freq : ℕ) (scan : Scan)
    → (scan.at ≤ (forwards s fuel freq scan).at)
      × ((forwards s fuel freq scan).at ≤ max scan.at (last_frame s))
      × ((forwards s fuel freq scan).quiet + scan.at ≤ (forwards s fuel freq scan).at + scan.quiet)
unfolding forwards
forwards_bounds s zero freq scan = (omega arith, omega arith, omega arith)
forwards_bounds s (suc fuel) freq scan =
    elim (Bool-cases (ltb scan.at (last_frame s) && ltb scan.quiet s.energy_tol)) [
      | inl e ↦
          let (a, b, c) = forwards_bounds s fuel freq (record {
            at = suc scan.at;
            quiet = next_quiet s (scan.roll scan.at freq) scan.quiet;
            roll = clear_band s scan.at (suc scan.at) freq scan.roll;
          }) in
          let (inside, tolerated) = both_lt scan.at (last_frame s) scan.quiet s.energy_tol e in
          rw (e, forwards)
            (
              omega (arith, a),
              omega (arith, b, inside),
              omega (arith, c, next_quiet_le s (scan.roll scan.at freq) scan.quiet),
            )
      | inr e ↦ rw (e, forwards) (omega arith, omega arith, omega arith)
    ]

pub forwards_stops :
    (s : Settings) (fuel freq : ℕ) (scan : Scan)
    → last_frame s ≤ fuel + scan.at
    → (last_frame s ≤ (forwards s fuel freq scan).at)
      ⊎ (s.energy_tol ≤ (forwards s fuel freq scan).quiet)
unfolding forwards
forwards_stops s zero freq scan h = inl (omega arith)
forwards_stops s (suc fuel) freq scan h =
    elim (Bool-cases (ltb scan.at (last_frame s) && ltb scan.quiet s.energy_tol)) [
      | inl e ↦
          rw (e, forwards)
            (forwards_stops s fuel freq
              (record {
                at = suc scan.at;
                quiet = next_quiet s (scan.roll scan.at freq) scan.quiet;
                roll = clear_band s scan.at (suc scan.at) freq scan.roll;
              })
              (omega arith))
      | inr e ↦ rw (e, forwards) (not_both_lt scan.at (last_frame s) scan.quiet s.energy_tol e)
    ]

-- Backwards, the first frame of the note does not lie past where the scan began.
pub backwards_bounds :
    (s : Settings) (fuel freq : ℕ) (scan : Scan)
    → (backwards s fuel freq scan).at + (backwards s fuel freq scan).quiet ≤ scan.at + scan.quiet
unfolding backwards
backwards_bounds s zero freq scan = omega arith
backwards_bounds s (suc fuel) freq scan =
    elim (Bool-cases (ltb 1 scan.at && ltb scan.quiet s.energy_tol)) [
      | inl e ↦
          let a = backwards_bounds s fuel freq (record {
            at = scan.at - 1;
            quiet = next_quiet s (scan.roll (scan.at - 1) freq) scan.quiet;
            roll = clear_band s (scan.at - 1) scan.at freq scan.roll;
          }) in
          let (inside, tolerated) = both_lt 1 scan.at scan.quiet s.energy_tol e in
          rw (e, backwards)
            (omega (arith, a, inside, next_quiet_le s (scan.roll (scan.at - 1) freq) scan.quiet))
      | inr e ↦ rw (e, backwards) (omega arith)
    ]

pub backwards_stops :
    (s : Settings) (fuel freq : ℕ) (scan : Scan)
    → scan.at ≤ fuel
    → ((backwards s fuel freq scan).at ≤ 1) ⊎ (s.energy_tol ≤ (backwards s fuel freq scan).quiet)
unfolding backwards
backwards_stops s zero freq scan h = inl (omega arith)
backwards_stops s (suc fuel) freq scan h =
    elim (Bool-cases (ltb 1 scan.at && ltb scan.quiet s.energy_tol)) [
      | inl e ↦
          rw (e, backwards)
            (backwards_stops s fuel freq
              (record {
                at = scan.at - 1;
                quiet = next_quiet s (scan.roll (scan.at - 1) freq) scan.quiet;
                roll = clear_band s (scan.at - 1) scan.at freq scan.roll;
              })
              (omega (arith, (both_lt 1 scan.at scan.quiet s.energy_tol e).0)))
      | inr e ↦ rw (e, backwards) (not_both_lt 1 scan.at scan.quiet s.energy_tol e)
    ]

-- Every scan only ever lowers the activations.
pub clear_band_le :
    (s : Settings) (start end freq : ℕ) (roll : Roll) (i g : ℕ)
    → clear_band s start end freq roll i g ≤ roll i g
unfolding clear_band
clear_band_le s start end freq roll i g =
    elim (Bool-cases (leb start i && (ltb i end && is_near s freq g))) [
      | inl e ↦ rw e (omega arith)
      | inr e ↦ rw e (omega arith)
    ]

pub clear_cell_le : (row freq : ℕ) (roll : Roll) (i g : ℕ) → clear_cell row freq roll i g ≤ roll i g
unfolding clear_cell
clear_cell_le row freq roll i g = elim (Bool-cases ((i == row) && (g == freq))) [
  | inl e ↦ rw e (omega arith)
  | inr e ↦ rw e (omega arith)
]

pub forwards_le :
    (s : Settings) (fuel freq : ℕ) (scan : Scan) (i g : ℕ)
    → (forwards s fuel freq scan).roll i g ≤ scan.roll i g
unfolding forwards
forwards_le s zero freq scan i g = omega arith
forwards_le s (suc fuel) freq scan i g =
    elim (Bool-cases (ltb scan.at (last_frame s) && ltb scan.quiet s.energy_tol)) [
      | inl e ↦
          let a =
            forwards_le s fuel freq
              (record {
                at = suc scan.at;
                quiet = next_quiet s (scan.roll scan.at freq) scan.quiet;
                roll = clear_band s scan.at (suc scan.at) freq scan.roll;
              })
              i g in
          rw (e, forwards)
            (omega (arith, a, clear_band_le s scan.at (suc scan.at) freq scan.roll i g))
      | inr e ↦ rw (e, forwards) (omega arith)
    ]

pub backwards_le :
    (s : Settings) (fuel freq : ℕ) (scan : Scan) (i g : ℕ)
    → (backwards s fuel freq scan).roll i g ≤ scan.roll i g
unfolding backwards
backwards_le s zero freq scan i g = omega arith
backwards_le s (suc fuel) freq scan i g =
    elim (Bool-cases (ltb 1 scan.at && ltb scan.quiet s.energy_tol)) [
      | inl e ↦
          let a =
            backwards_le s fuel freq
              (record {
                at = scan.at - 1;
                quiet = next_quiet s (scan.roll (scan.at - 1) freq) scan.quiet;
                roll = clear_band s (scan.at - 1) scan.at freq scan.roll;
              })
              i g in
          rw (e, backwards)
            (omega (arith, a, clear_band_le s (scan.at - 1) scan.at freq scan.roll i g))
      | inr e ↦ rw (e, backwards) (omega arith)
    ]
