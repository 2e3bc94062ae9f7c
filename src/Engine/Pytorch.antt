-- ===== src/Engine/Pytorch.antt =====
-- python/adapters/pytorch_python.py: the families of artifact engines and the choice between them.
-- The packages are arguments, each as what its engine makes of the model's directory and the input.
pub mod Work
pub mod Families
pub mod Compat
use infernix.Prelude.{
  ℕ, ◌≡◌, Bool, true, false, Option, none, some, List, [], ◌∷◌, ◌++◌, map, if◌then◌else◌,
}
use infernix.Prelude.Text.{Text, codes, text_eq, one_of, contains_text}
use infernix.Cache.Config.{Configured}
use infernix.Cache.Disk.{Disk}
use infernix.Cache.Access.{Around, ModelDir}
use infernix.Adapter.Context.{AdapterContext}
use infernix.Artifact.Upload.{ArtifactResult, Downloaded, download_demo_object}
use infernix.Engine.Local.{
  TorchDevice, mps, cuda, cpu, Torch, preferred_torch_device, is_half, unsupported_mt3, unwired_mt3,
  unwired_family, Made, made, raised, from_engine, from_loader, from_input, if_installed,
  with_weights, after_imports,
}

-- The families of `transform`.
pub data Family : Type 0 where
  bark demucs open_unmix mt3 piano : Family
  mt3_without_variant no_family : Family

-- The tests of `transform`, in their order.
unfoldable pub family_of : Text → Family
family_of model_id =
    if contains_text model_id (codes "bark")
    then bark
    else if contains_text model_id (codes "demucs")
    then demucs
    else if contains_text model_id (codes "unmix")
    then open_unmix
    else if one_of model_id (codes "music-mt3-infer" ∷ codes "music-mr-mt3" ∷ [])
    then mt3
    else if contains_text model_id (codes "omnizart")
    then piano
    else if contains_text model_id (codes "mt3")
    then mt3_without_variant
    else no_family

-- The stems of a separation: a name and the bytes of its WAV.
abbrev pub Stems : Type 0
Stems = List (Text × Text)

-- An MT3 model as `load_model` is asked for it: `payload` tells that the checkpoint is that file and
-- not the directory, and `without_cache` that `_disable_mt3_generation_cache` is applied.
pub record Mt3Model : Type 0 where
  pub name : Text
  pub payload : Bool
  pub without_cache : Bool

abbrev pub mr_mt3 : Mt3Model
mr_mt3 = record { name = codes "mr_mt3"; payload = true; without_cache = false }

abbrev pub mt3_pytorch : Mt3Model
mt3_pytorch = record { name = codes "mt3_pytorch"; payload = false; without_cache = true }

-- The packages, with the devices they see; `fetch` is `get_object` of the client, its body read.
pub record Pytorch : Type 0 where
  pub bark_installed : Bool
  pub demucs_installed : Bool
  pub unmix_installed : Bool
  pub mt3_installed : Bool
  pub piano_installed : Bool
  pub torch : Torch
  pub boto3 : Bool
  pub fetch : Text → Text → Option Text
  pub speak : ModelDir → TorchDevice → Bool → Text → ℕ → Option Text
  pub load_demucs : ModelDir → Option ModelDir
  pub separate : ModelDir → TorchDevice → Text → Option Stems
  pub load_unmix : ModelDir → TorchDevice → Option ModelDir
  pub estimate : ModelDir → TorchDevice → Text → Option Stems
  pub transcribe_mt3 : ModelDir → Mt3Model → TorchDevice → Text → Option Text
  pub transcribe_piano : ModelDir → TorchDevice → Text → Option Text
  pub zip_archive : Stems → Text

abbrev pub wav_result : Text → ArtifactResult
wav_result bytes = record { body = bytes; content_type = codes "audio/wav"; suffix = codes ".wav" }

abbrev pub zip_result : Text → ArtifactResult
zip_result bytes = record {
  body = bytes;
  content_type = codes "application/zip";
  suffix = codes ".zip";
}

abbrev pub midi_result : Text → ArtifactResult
midi_result bytes = record {
  body = bytes;
  content_type = codes "audio/midi";
  suffix = codes ".mid";
}

abbrev named_wav : Text × Text → Text × Text
named_wav stem = (stem.0 ++ codes ".wav", stem.1)

module _ (p : Pytorch) (around : Around) (context : AdapterContext) where
  abbrev pub input_audio : Downloaded
  input_audio = download_demo_object around.config p.boto3 p.fetch context.input_object_ref

  abbrev pub speak_weights : ModelDir → Made ArtifactResult
  speak_weights weights_dir =
      let device = preferred_torch_device p.torch in
      if_installed p.bark_installed (
        from_engine
          (p.speak weights_dir device (is_half device) context.input_text context.generation_bound)
          (λ bytes. made (wav_result bytes)))

  -- `_generate_bark`: the weights come before the imports.
  unfoldable pub generate_bark : Disk → Made ArtifactResult × Disk
  unfolding preferred_torch_device
  generate_bark d = with_weights around context.model_id d speak_weights

  abbrev pub zip_stems : Stems → Made ArtifactResult
  zip_stems stems = made (zip_result (p.zip_archive (map named_wav stems)))

  abbrev pub separate_weights : ModelDir → Made ArtifactResult
  separate_weights weights_dir = from_input input_audio (λ audio.
      from_loader (p.load_demucs weights_dir)
        (λ model. from_engine (p.separate model (preferred_torch_device p.torch) audio) zip_stems))

  -- `_separate_sources`
  unfoldable pub separate_sources : Disk → Made ArtifactResult × Disk
  unfolding preferred_torch_device
  separate_sources d =
      after_imports p.demucs_installed d (with_weights around context.model_id d separate_weights)

  abbrev pub estimate_weights : ModelDir → Made ArtifactResult
  estimate_weights weights_dir =
      let device = preferred_torch_device p.torch in
      from_input input_audio (λ audio.
        from_loader (p.load_unmix weights_dir device)
          (λ separator. from_engine (p.estimate separator device audio) zip_stems))

  -- `_separate_open_unmix`
  unfoldable pub separate_open_unmix : Disk → Made ArtifactResult × Disk
  unfolding preferred_torch_device
  separate_open_unmix d =
      after_imports p.unmix_installed d (with_weights around context.model_id d estimate_weights)

  -- The choice of the MT3 model; `none` is the error of an id that is neither.
  abbrev pub mt3_model : Option Mt3Model
  mt3_model =
      if text_eq context.model_id (codes "music-mr-mt3")
      then some mr_mt3
      else if text_eq context.model_id (codes "music-mt3-infer")
      then some mt3_pytorch
      else none

  -- Neither `mps` nor a device that is not there.
  abbrev pub mt3_device : Option Bool → TorchDevice
  mt3_device (some true) = cuda
  mt3_device (some false) = cpu
  mt3_device none = cpu

  abbrev pub transcribe_model : Option Mt3Model → ModelDir → Made ArtifactResult
  transcribe_model none weights_dir = raised (unsupported_mt3 context.model_id)
  transcribe_model (some model) weights_dir = from_input input_audio (λ audio.
      from_engine (p.transcribe_mt3 weights_dir model (mt3_device p.torch.cuda_available) audio)
        (λ bytes. made (midi_result bytes)))

  -- `_transcribe_mt3`
  unfoldable pub transcribe_mt3 : Disk → Made ArtifactResult × Disk
  unfolding text_eq
  transcribe_mt3 d = after_imports p.mt3_installed d (
      with_weights around context.model_id d
        (λ weights_dir. transcribe_model mt3_model weights_dir))

  abbrev pub piano_weights : ModelDir → Made ArtifactResult
  piano_weights weights_dir = from_input input_audio (λ audio.
      from_engine (p.transcribe_piano weights_dir (preferred_torch_device p.torch) audio)
        (λ bytes. made (midi_result bytes)))

  -- `_transcribe_piano`
  unfoldable pub transcribe_piano : Disk → Made ArtifactResult × Disk
  unfolding preferred_torch_device
  transcribe_piano d =
      after_imports p.piano_installed d (with_weights around context.model_id d piano_weights)

  abbrev pub run_family : Family → Disk → Made ArtifactResult × Disk
  run_family bark d = generate_bark d
  run_family demucs d = separate_sources d
  run_family open_unmix d = separate_open_unmix d
  run_family mt3 d = transcribe_mt3 d
  run_family piano d = transcribe_piano d
  run_family mt3_without_variant d = (raised (unwired_mt3 context.model_id), d)
  run_family no_family d = (raised (unwired_family context.model_id), d)

unfoldable pub transform : Pytorch → Around → AdapterContext → Disk → Made ArtifactResult × Disk
unfolding family_of
transform p around context d = run_family p around context (family_of context.model_id) d
