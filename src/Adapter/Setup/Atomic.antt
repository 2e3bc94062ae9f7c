-- ===== src/Adapter/Setup/Atomic.antt =====
-- What a crash of `run_setup_bootstrap` of python/adapters/common.py can leave.
use infernix.Prelude.{
  ℕ, ◌+◌, ◌-◌, ◌≤◌, ◌≡◌, ◌⊎◌, inl, inr, refl, ap, sym, ◌∙◌, subst, true, Option, some, List, [],
  ◌∷◌, ◌++◌, arith, length, take, drop,
}
use mathlib.Core.List.{append_assoc, append-nil}
use infernix.Prelude.Text.{Text}
use infernix.Adapter.Process.Log.{take-drop, length-drop}
use infernix.Adapter.Setup.{
  Phase, opening, writing, syncing, replacing, syncing_directory, finished, Setup, append_staging,
  step_phase, setup_step, run_setup_bootstrap, before_setup,
}

-- What holds where the function stands, of a manifest that was `old` and is to be `payload`.
abbrev StandsAt : Option Text → Text → Phase → Setup → Type 0
StandsAt old payload opening s = s.manifest ≡ old
StandsAt old payload (writing rest) s =
    (s.manifest ≡ old) × (written : Text) × (s.staging ≡ some written) × (payload ≡ written ++ rest)
StandsAt old payload syncing s = (s.manifest ≡ old) × (s.staging ≡ some payload)
StandsAt old payload replacing s =
    (s.manifest ≡ old) × (s.staging ≡ some payload) × (s.content_durable ≡ true)
StandsAt old payload syncing_directory s = (s.manifest ≡ some payload) × (s.content_durable ≡ true)
StandsAt old payload finished s =
    (s.manifest ≡ some payload) × (s.content_durable ≡ true) × (s.directory_durable ≡ true)

-- The steps that are left at most.
abbrev rank : Text → Phase → ℕ
rank payload opening = length payload + 5
rank payload (writing rest) = length rest + 4
rank payload syncing = 3
rank payload replacing = 2
rank payload syncing_directory = 1
rank payload finished = 0

module _ (old : Option Text) (payload : Text) where
  abbrev Stands : Setup → Type 0
  Stands s = StandsAt old payload s.phase s

  step_phase-Stands :
      (amount : ℕ) (p : Phase) (s : Setup)
      → s.phase ≡ p
      → StandsAt old payload p s
      → Stands (step_phase payload amount p s)
  step_phase-Stands amount opening s i h = (h, [], refl, refl)
  step_phase-Stands amount (writing []) s i (m, w, g, e) =
      (m, g ∙ ap (λ (t : Text). some t) (sym (append-nil w) ∙ sym e))
  step_phase-Stands amount (writing (c ∷ rest)) s i (m, w, g, e) = (
    m,
    w ++ (c ∷ take amount rest),
    ap (append_staging (c ∷ take amount rest)) g,
    e
        ∙ ap (λ (t : Text). w ++ (c ∷ t)) (take-drop amount rest)
        ∙ sym (append_assoc w (c ∷ take amount rest) (drop amount rest)),
  )
  step_phase-Stands amount syncing s i (m, g) = (m, g, refl)
  step_phase-Stands amount replacing s i (m, g, d) = (g, d)
  step_phase-Stands amount syncing_directory s i (m, d) = (m, d, refl)
  step_phase-Stands amount finished s i h =
      subst (λ (p : Phase). StandsAt old payload p s) (sym i) h

  step_phase-rank :
      (amount : ℕ) (p : Phase) (s : Setup)
      → s.phase ≡ p
      → rank payload (step_phase payload amount p s).phase ≤ rank payload p - 1
  step_phase-rank amount opening s e = omega arith
  step_phase-rank amount (writing []) s e = omega arith
  step_phase-rank amount (writing (c ∷ rest)) s e = omega (arith, length-drop amount rest)
  step_phase-rank amount syncing s e = omega arith
  step_phase-rank amount replacing s e = omega arith
  step_phase-rank amount syncing_directory s e = omega arith
  step_phase-rank amount finished s e = rw e (omega arith)

  run-Stands :
      (amounts : List ℕ) (s : Setup) → Stands s → Stands (run_setup_bootstrap payload amounts s)
  unfolding run_setup_bootstrap setup_step
  run-Stands [] s h = h
  run-Stands (amount ∷ rest) s h =
      run-Stands rest (step_phase payload amount s.phase s)
        (step_phase-Stands amount s.phase s refl h)

  run-rank :
      (amounts : List ℕ) (s : Setup)
      → rank payload (run_setup_bootstrap payload amounts s).phase
        ≤ rank payload s.phase - length amounts
  unfolding run_setup_bootstrap setup_step
  run-rank [] s = omega arith
  run-rank (amount ∷ rest) s =
      let next = step_phase payload amount s.phase s in
      omega (arith, run-rank rest next, step_phase-rank amount s.phase s refl)

  -- Whatever stands: the old manifest, or the whole new one.
  read_off :
      (p : Phase) (s : Setup)
      → StandsAt old payload p s
      → (s.manifest ≡ old) ⊎ ((s.manifest ≡ some payload) × (s.content_durable ≡ true))
  read_off opening s h = inl h
  read_off (writing rest) s (m, w, g, e) = inl m
  read_off syncing s (m, g) = inl m
  read_off replacing s (m, g, d) = inl m
  read_off syncing_directory s (m, d) = inr (m, d)
  read_off finished s (m, d, g) = inr (m, d)

  ended : (p : Phase) → rank payload p ≡ 0 → p ≡ finished
  ended opening h = absurd (omega arith)
  ended (writing rest) h = absurd (omega arith)
  ended syncing h = absurd (omega arith)
  ended replacing h = absurd (omega arith)
  ended syncing_directory h = absurd (omega arith)
  ended finished h = refl

  module _ (staging : Option Text) (amounts : List ℕ) where
    abbrev reached : Setup
    reached = run_setup_bootstrap payload amounts (before_setup staging old)

    -- Wherever the setup is interrupted, and however its writes were cut, the manifest is the one
    -- from before or the whole new one, and then its bytes are on the disk: never a part of it.
    pub setup_atomic :
        (reached.manifest ≡ old)
        ⊎ ((reached.manifest ≡ some payload) × (reached.content_durable ≡ true))
    setup_atomic =
        read_off reached.phase reached (run-Stands amounts (before_setup staging old) refl)

    -- After as many steps as the manifest has bytes, and five more, the setup has finished: the new
    -- manifest is in place, and it and its directory are on the disk.
    pub setup_finishes :
        length payload + 5 ≤ length amounts
        → (reached.phase ≡ finished)
          × (reached.manifest ≡ some payload)
          × (reached.content_durable ≡ true)
          × (reached.directory_durable ≡ true)
    setup_finishes enough =
        let e =
          ended reached.phase
            (omega (arith, run-rank amounts (before_setup staging old), enough)) in
        let (m, c, d) =
          subst (λ (p : Phase). StandsAt old payload p reached) e
            (run-Stands amounts (before_setup staging old) refl) in
        (e, m, c, d)
