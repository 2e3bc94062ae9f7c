-- ===== src/Engine/Diffusers.antt =====
-- python/adapters/diffusers_python.py. The diffusers package is an argument: what its pipeline
-- gives for a prompt is the bytes of the image, or of the video that is exported and read back.
use infernix.Prelude.{Bool, true, false, Option, none, some}
use infernix.Prelude.Text.{Text, codes, text_eq}
use infernix.Cache.Disk.{Disk}
use infernix.Cache.Access.{Around, ModelDir}
use infernix.Adapter.Context.{AdapterContext}
use infernix.Artifact.Upload.{ArtifactResult}
use infernix.Engine.Local.{
  TorchDevice, Torch, preferred_torch_device, is_half, Made, made, from_engine, if_installed,
  with_weights,
}

-- `load_options`; `local_files_only` is always set.
pub record LoadOptions : Type 0 where
  pub half : Bool
  pub variant : Option Text
  pub use_safetensors : Bool

abbrev options_of : Bool → Bool → LoadOptions
options_of half true = record { half = half; variant = some (codes "fp16"); use_safetensors = true }
options_of half false = record { half = half; variant = none; use_safetensors = false }

unfoldable pub load_options : TorchDevice → AdapterContext → LoadOptions
load_options device context =
    options_of (is_half device) (text_eq context.model_id (codes "image-sdxl-turbo"))

pub record Diffusers : Type 0 where
  pub installed : Bool
  pub torch : Torch
  pub image : ModelDir → LoadOptions → TorchDevice → Text → Option Text
  pub video : ModelDir → LoadOptions → TorchDevice → Text → Option Text

abbrev image_result : Text → ArtifactResult
image_result bytes = record {
  body = bytes;
  content_type = codes "image/png";
  suffix = codes ".png";
}

abbrev video_result : Text → ArtifactResult
video_result bytes = record {
  body = bytes;
  content_type = codes "video/mp4";
  suffix = codes ".mp4";
}

-- `_render_video` or `_render_image`, after the pipeline is loaded.
abbrev pub render :
    Bool → Diffusers → ModelDir → LoadOptions → TorchDevice → Text → Made ArtifactResult
render true p weights_dir options device prompt =
    from_engine (p.video weights_dir options device prompt) (λ bytes. made (video_result bytes))
render false p weights_dir options device prompt =
    from_engine (p.image weights_dir options device prompt) (λ bytes. made (image_result bytes))

abbrev pub run_pipeline : Diffusers → AdapterContext → ModelDir → Made ArtifactResult
run_pipeline p context weights_dir =
    let device = preferred_torch_device p.torch in
    render (text_eq context.family (codes "video")) p weights_dir (load_options device context)
      device context.input_text

-- `transform`: the weights come before the imports.
unfoldable pub transform : Diffusers → Around → AdapterContext → Disk → Made ArtifactResult × Disk
unfolding preferred_torch_device load_options text_eq
transform p around context d =
    with_weights around context.model_id d
      (λ weights_dir. if_installed p.installed (run_pipeline p context weights_dir))
