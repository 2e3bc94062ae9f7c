-- ===== src/Engine/Pytorch/Work.antt =====
-- How the artifact of each family of python/adapters/pytorch_python.py is made.
use infernix.Prelude.{
  ◌≡◌, ◌≢◌, inl, inr, refl, subst, map, ◌++◌, Bool, true, false, Option, none, some, Bool-cases,
}
use mathlib.Core.Option.{some-injective}
use infernix.Prelude.Text.{Text, codes, text_eq, text_eq_iff}
use infernix.Cache.Access.{Around, ModelDir}
use infernix.Adapter.Context.{AdapterContext}
use infernix.Artifact.Upload.{ArtifactResult, Downloaded, payload, download_failed}
use infernix.Engine.Local.{
  TorchDevice, mps, is_half, FamilyError, Made, made, raised, from_engine, from_loader, from_input,
  if_installed, preferred_torch_device,
}
use infernix.Engine.Pytorch.{
  Family, bark, demucs, open_unmix, mt3, piano, Pytorch, Stems, Mt3Model, mr_mt3, mt3_device,
  mt3_pytorch, mt3_model, transcribe_model, speak_weights, separate_weights, estimate_weights,
  piano_weights, zip_stems, input_audio,
}

-- Whatever is made satisfies `P`; an error is one of the adapter's.
pub data Gives (P : ArtifactResult → Type 0) : Made ArtifactResult → Type 0 where
  gives : {a : ArtifactResult} → P a → Gives P (made a)
  errs : {e : FamilyError} → Gives P (raised e)

module _ (P : ArtifactResult → Type 0) where
  module _ {A : Type 0} where
    loader-Gives :
        (o : Option A) (next : A → Made ArtifactResult)
        → ((a : A) → o ≡ some a → Gives P (next a))
        → Gives P (from_loader o next)
    loader-Gives none next h = errs
    loader-Gives (some a) next h = h a refl

    engine-Gives :
        (o : Option A) (next : A → Made ArtifactResult)
        → ((a : A) → o ≡ some a → Gives P (next a))
        → Gives P (from_engine o next)
    engine-Gives none next h = errs
    engine-Gives (some a) next h = h a refl

  input-Gives :
      (o : Downloaded) (next : Text → Made ArtifactResult)
      → ((audio : Text) → o ≡ payload audio → Gives P (next audio))
      → Gives P (from_input o next)
  input-Gives (download_failed e) next h = errs
  input-Gives (payload body) next h = h body refl

  installed-Gives :
      (b : Bool) (rest : Made ArtifactResult) → Gives P rest → Gives P (if_installed b rest)
  installed-Gives true rest h = h
  installed-Gives false rest h = errs

  pub gives_inv : (m : Made ArtifactResult) (a : ArtifactResult) → Gives P m → m ≡ made a → P a
  gives_inv (made x) a (gives h) e = subst P (inside x a e) h
    where
      inside : (x a : ArtifactResult) → made x ≡ made a → x ≡ a
      inside x a q = cc q
  gives_inv (raised x) a g e = absurd (cc e)

-- The MT3 model of a model id.
pub data IsMt3 (model_id : Text) : Mt3Model → Type 0 where
  from_payload :
      model_id ≡ codes "music-mr-mt3"
      → IsMt3 model_id (record { name = codes "mr_mt3"; payload = true; without_cache = false })
  from_directory :
      model_id ≡ codes "music-mt3-infer"
      → IsMt3 model_id
          (record { name = codes "mt3_pytorch"; payload = false; without_cache = true })

module _ (p : Pytorch) (around : Around) (context : AdapterContext) where
  -- How an artifact of a family is made of a model's directory and the request's input: the bytes
  -- are those that the family's package answered with for that directory.
  pub data IsWork (weights_dir : ModelDir) : Family → ArtifactResult → Type 0 where
    spoken :
        (device : TorchDevice) (bytes : Text)
        → device ≡ preferred_torch_device p.torch
        → p.speak weights_dir device (is_half device) context.input_text context.generation_bound
          ≡ some bytes
        → IsWork weights_dir bark
            (record { body = bytes; content_type = codes "audio/wav"; suffix = codes ".wav" })
    separated :
        (audio : Text) (model : ModelDir) (stems : Stems)
        → input_audio p around context ≡ payload audio
        → p.load_demucs weights_dir ≡ some model
        → p.separate model (preferred_torch_device p.torch) audio ≡ some stems
        → IsWork weights_dir demucs (record {
          body =
              p.zip_archive (map (λ (stem : Text × Text). (stem.0 ++ codes ".wav", stem.1)) stems);
          content_type = codes "application/zip";
          suffix = codes ".zip";
        })
    unmixed :
        (audio : Text) (separator : ModelDir) (stems : Stems)
        → input_audio p around context ≡ payload audio
        → p.load_unmix weights_dir (preferred_torch_device p.torch) ≡ some separator
        → p.estimate separator (preferred_torch_device p.torch) audio ≡ some stems
        → IsWork weights_dir open_unmix (record {
          body =
              p.zip_archive (map (λ (stem : Text × Text). (stem.0 ++ codes ".wav", stem.1)) stems);
          content_type = codes "application/zip";
          suffix = codes ".zip";
        })
    transcribed :
        (audio : Text) (model : Mt3Model) (device : TorchDevice) (bytes : Text)
        → input_audio p around context ≡ payload audio
        → IsMt3 context.model_id model
        → device ≢ mps
        → p.transcribe_mt3 weights_dir model device audio ≡ some bytes
        → IsWork weights_dir mt3
            (record { body = bytes; content_type = codes "audio/midi"; suffix = codes ".mid" })
    played :
        (audio bytes : Text)
        → input_audio p around context ≡ payload audio
        → p.transcribe_piano weights_dir (preferred_torch_device p.torch) audio ≡ some bytes
        → IsWork weights_dir piano
            (record { body = bytes; content_type = codes "audio/midi"; suffix = codes ".mid" })

  cuda_or_cpu_not_mps : (o : Option Bool) → mt3_device p around context o ≢ mps
  cuda_or_cpu_not_mps (some true) e = cc e
  cuda_or_cpu_not_mps (some false) e = cc e
  cuda_or_cpu_not_mps none e = cc e

  mt3_model-IsMt3 :
      (model : Mt3Model) → mt3_model p around context ≡ some model → IsMt3 context.model_id model
  mt3_model-IsMt3 model h = elim (Bool-cases (text_eq context.model_id (codes "music-mr-mt3"))) [
    | inl y ↦
        subst (λ (m : Mt3Model). IsMt3 context.model_id m) (some-injective mr_mt3 model (rw y at h))
          (from_payload ((text_eq_iff context.model_id (codes "music-mr-mt3")).0 y))
    | inr n ↦ elim (Bool-cases (text_eq context.model_id (codes "music-mt3-infer"))) [
      | inl y ↦
          subst (λ (m : Mt3Model). IsMt3 context.model_id m)
            (some-injective mt3_pytorch model (rw (n, y) at h))
            (from_directory ((text_eq_iff context.model_id (codes "music-mt3-infer")).0 y))
      | inr k ↦ absurd (cc (rw (n, k) at h))
    ]
  ]

  module _ (w : ModelDir) where
    pub speaks : Gives (IsWork w bark) (speak_weights p around context w)
    speaks =
        installed-Gives (IsWork w bark) p.bark_installed _
          (engine-Gives (IsWork w bark) _ _ (λ bytes e. gives (spoken _ bytes refl e)))

    pub separates : Gives (IsWork w demucs) (separate_weights p around context w)
    separates = input-Gives (IsWork w demucs) (input_audio p around context) _ (λ audio i.
        loader-Gives (IsWork w demucs) (p.load_demucs w) _ (λ model l.
          engine-Gives (IsWork w demucs) _ (zip_stems p around context)
            (λ stems e. gives (separated audio model stems i l e))))

    pub unmixes : Gives (IsWork w open_unmix) (estimate_weights p around context w)
    unmixes = input-Gives (IsWork w open_unmix) (input_audio p around context) _ (λ audio i.
        loader-Gives (IsWork w open_unmix) (p.load_unmix w (preferred_torch_device p.torch)) _
          (λ separator l.
            engine-Gives (IsWork w open_unmix)
              (p.estimate separator (preferred_torch_device p.torch) audio)
              (zip_stems p around context)
              (λ stems e. gives (unmixed audio separator stems i l e))))

    pub transcribes :
        (o : Option Mt3Model)
        → mt3_model p around context ≡ o
        → Gives (IsWork w mt3) (transcribe_model p around context o w)
    transcribes none chosen = errs
    transcribes (some model) chosen =
        input-Gives (IsWork w mt3) (input_audio p around context) _ (λ audio i.
          engine-Gives (IsWork w mt3) _ _ (λ bytes e. gives (
            transcribed audio model _ bytes i (mt3_model-IsMt3 model chosen)
              (cuda_or_cpu_not_mps p.torch.cuda_available) e)))

    pub plays : Gives (IsWork w piano) (piano_weights p around context w)
    plays =
        input-Gives (IsWork w piano) (input_audio p around context) _
          (λ audio i. engine-Gives (IsWork w piano) _ _ (λ bytes e. gives (played audio bytes i e)))
