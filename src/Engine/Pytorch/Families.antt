-- ===== src/Engine/Pytorch/Families.antt =====
-- What `transform` of python/adapters/pytorch_python.py does for each family.
use infernix.Prelude.{◌≡◌, inl, inr, refl, some, [], ◌∷◌, Bool-cases, In, one_of_inv, if◌then◌else◌}
use infernix.Prelude.Text.{codes, text_eq, text_eq_iff, one_of, contains_text}
use infernix.Cache.Config.{ok}
use infernix.Cache.Disk.{Disk}
use infernix.Cache.Access.{Around, ModelDir, get_model_path}
use infernix.Adapter.Context.{AdapterContext}
use infernix.Artifact.Upload.{ArtifactResult}
use infernix.Engine.Local.{Made}
use infernix.Engine.Pytorch.{
  Family, mt3, piano, mt3_without_variant, no_family, family_of, Pytorch, Mt3Model, mr_mt3,
  mt3_pytorch, mt3_model,
}
use infernix.Engine.Pytorch.Work.{IsWork}

module _ (p : Pytorch) (around : Around) (context : AdapterContext) where
  -- What an artifact says of the call that made it: the disk is as the cache left it, and the
  -- artifact is the work of the model id's family on the directory that the cache gave.
  abbrev pub IsServed : Disk → ArtifactResult → Disk → Type 0
  IsServed d artifact after =
      (after ≡ (get_model_path around context.model_id d).1)
      × (weights_dir : ModelDir) × ((get_model_path around context.model_id d).0 ≡ ok weights_dir)
      × IsWork p around context weights_dir (family_of context.model_id) artifact

module _ (p : Pytorch) (around : Around) (context : AdapterContext) (d : Disk)
    (artifact : ArtifactResult) where
  -- What a run on the disk says, for a family.
  abbrev ServedBy : Family → Made ArtifactResult × Disk → Type 0
  ServedBy f run =
      (run.1 ≡ (get_model_path around context.model_id d).1)
      × (weights_dir : ModelDir) × ((get_model_path around context.model_id d).0 ≡ ok weights_dir)
      × IsWork p around context weights_dir f artifact

  -- A model id that `transform` gives to the MT3 function has an MT3 model, so that the error of that
  -- function for other ids is never raised.
  pub mt3_model_found :
      family_of context.model_id ≡ mt3
      → (model : Mt3Model) × (mt3_model p around context ≡ some model)
  unfolding family_of
  mt3_model_found h = elim (Bool-cases (contains_text context.model_id (codes "bark"))) [
    | inl y ↦ absurd (cc (rw y at h))
    | inr n ↦ elim (Bool-cases (contains_text context.model_id (codes "demucs"))) [
      | inl y ↦ absurd (cc (rw (n, y) at h))
      | inr n2 ↦ elim (Bool-cases (contains_text context.model_id (codes "unmix"))) [
        | inl y ↦ absurd (cc (rw (n, n2, y) at h))
        | inr n3 ↦
            elim (Bool-cases
              (one_of context.model_id (codes "music-mt3-infer" ∷ codes "music-mr-mt3" ∷ []))) [
                | inl y ↦ chosen (
                    one_of_inv context.model_id
                      (codes "music-mt3-infer" ∷ codes "music-mr-mt3" ∷ []) y)
                | inr n4 ↦ absurd (later (rw (n, n2, n3, n4) at h))
              ]
      ]
    ]
  ]
    where
      chosen :
          In context.model_id (codes "music-mt3-infer" ∷ codes "music-mr-mt3" ∷ [])
          → (model : Mt3Model) × (mt3_model p around context ≡ some model)
      chosen m = elim (Bool-cases (text_eq context.model_id (codes "music-mr-mt3"))) [
        | inl y ↦ (mr_mt3, rw y refl)
        | inr n ↦ elim m [
          | inl e ↦ (
            mt3_pytorch,
            rw n (rw ((text_eq_iff context.model_id (codes "music-mt3-infer")).1 e) refl),
          )
          | inr (inl e) ↦ absurd (cc (n, (text_eq_iff context.model_id (codes "music-mr-mt3")).1 e))
          | inr (inr z) ↦ absurd z
        ]
      ]

      later :
          (if contains_text context.model_id (codes "omnizart")
              then piano
              else if contains_text context.model_id (codes "mt3")
              then mt3_without_variant
              else no_family)
            ≡ mt3
          → ⊥
      later e = elim (Bool-cases (contains_text context.model_id (codes "omnizart"))) [
        | inl y ↦ cc (rw y at e)
        | inr n ↦ elim (Bool-cases (contains_text context.model_id (codes "mt3"))) [
          | inl y ↦ cc (rw (n, y) at e)
          | inr n2 ↦ cc (rw (n, n2) at e)
        ]
      ]
