-- ===== src/Artifact/Tests.antt =====
-- Runs of the object keys and of the transfers, and their theorems at concrete data.
use infernix.Prelude.{
  ℕ, ◌≡◌, refl, Bool, true, false, ◌&&◌, ◌||◌, Option, some, [], arith, All, leb,
}
use infernix.Prelude.Text.{
  Text, codes, text_eq, starts_with, ends_with, contains_text, has_char, lstrip, rstrip,
}
use infernix.Cache.Config.{default_config, configured, require_config}
use infernix.Adapter.Context.{AdapterContext}
use infernix.Artifact.Key.{
  accepted, refused, prefix_invalid, is_bad_prefix, validated_generated_output_prefix, is_kept,
  sanitized, safe_object_key_segment, safe_artifact_suffix,
}
use infernix.Artifact.Key.Safe.{IsAlnum}
use infernix.Artifact.Key.Prefix.{IsSegment, missing_context_accepted}
use infernix.Artifact.Upload.{
  ArtifactResult, PutObject, object_ref, Upload, send, object_name, upload_demo_object, payload,
  download_demo_object,
}
use infernix.Artifact.Upload.Contained.{
  NotSlash, IsHexDigest, IsContained, upload-IsContained, upload_download,
}

-- The ASCII letters and digits.
abbrev is_ascii_alnum : ℕ → Bool
is_ascii_alnum c =
    (leb b'a' c && leb c b'z') || ((leb b'A' c && leb c b'Z') || (leb b'0' c && leb c b'9'))

ascii-IsAlnum : IsAlnum is_ascii_alnum
ascii-IsAlnum = record { letters = λ c low high. ground arith; slash = refl }

keeps_words :
    safe_object_key_segment is_ascii_alnum (codes "-Stable Diffusion/XL-")
    ≡ codes "Stable-Diffusion-XL"
unfolding safe_object_key_segment sanitized is_kept has_char lstrip rstrip
keeps_words = refl

refuses_parent :
    validated_generated_output_prefix (codes "users/../contexts/c/generated/")
    ≡ refused prefix_invalid
unfolding validated_generated_output_prefix is_bad_prefix starts_with contains_text ends_with
    text_eq
refuses_parent = refl

ann-IsSegment : IsSegment (codes "ann")
unfolding contains_text starts_with
ann-IsSegment = (refl, (refl, (refl, (refl, tt))), refl)

chat-IsSegment : IsSegment (codes "chat")
unfolding contains_text starts_with
chat-IsSegment = (refl, (refl, (refl, (refl, (refl, tt)))), refl)

missing_context_accepted_example :
    validated_generated_output_prefix (codes "users/ann/contexts/generated/")
    ≡ accepted (codes "users/ann/contexts/generated/")
missing_context_accepted_example = missing_context_accepted (codes "ann") ann-IsSegment

abbrev digest : Text → Text
digest body = codes "ab12"

digest-IsHexDigest : IsHexDigest digest
digest-IsHexDigest body = (refl, (refl, (refl, (refl, tt))))

abbrev image_context : AdapterContext
image_context = record {
  adapter_id = codes "diffusers-python";
  runtime_mode = codes "linux-gpu";
  model_id = codes "sd/turbo";
  display_name = codes "Turbo";
  family = codes "image";
  selected_engine = codes "diffusers";
  artifact_type = codes "image";
  runtime_lane = codes "gpu";
  input_text = codes "a cat";
  input_object_ref = [];
  generated_output_object_prefix = codes "users/ann/contexts/chat/generated/";
  bootstrap_ready = true;
  bootstrap_manifest_path = codes "/engine/bootstrap.json";
  host_residency_mib = 2048;
  device_mib = some 4096;
  context_length = 0;
  batch_size = 1;
  generation_bound = 1;
  cache_element_width = 2;
  stream_weights_to_device = false;
  conversation_prefix = [];
  conversation_prefix_hash = [];
  kv_cache_disposition = [];
}

abbrev image : ArtifactResult
image = record { body = codes "PNG"; content_type = codes "image/png"; suffix = codes "png" }

abbrev image_put : PutObject
image_put = record {
  bucket = codes "infernix-demo-objects";
  key = codes "users/ann/contexts/chat/generated/image-sd-turbo-sha256-ab12.png";
  body = codes "PNG";
  content_type = codes "image/png";
}

abbrev takes_any : PutObject → Bool
takes_any _ = true

abbrev image_upload : Upload
image_upload =
    upload_demo_object is_ascii_alnum digest (some default_config) true takes_any image_context
      image

abbrev image_reference : Text
image_reference =
    codes "infernix-demo-objects/users/ann/contexts/chat/generated/image-sd-turbo-sha256-ab12.png"

image_sent : image_upload ≡ record { sent = some image_put; result = object_ref image_reference }
unfolding upload_demo_object configured require_config validated_generated_output_prefix
    is_bad_prefix starts_with contains_text ends_with text_eq send object_name
    safe_object_key_segment safe_artifact_suffix sanitized is_kept has_char lstrip rstrip
image_sent = refl

image_is_put : image_upload.sent ≡ some image_put
image_is_put = rw image_sent refl

image_is_referred : image_upload.result ≡ object_ref image_reference
image_is_referred = rw image_sent refl

upload-IsContained_example : IsContained image_context image image_put
upload-IsContained_example =
    upload-IsContained is_ascii_alnum ascii-IsAlnum digest digest-IsHexDigest image_context image
      true takes_any image_put (some default_config) image_is_put

abbrev one_image : Text → Text → Option Text
one_image bucket key = some (codes "PNG")

bucket-NotSlash : All NotSlash (codes "infernix-demo-objects")
bucket-NotSlash = (
  refl,
  (
    refl,
    (
      refl,
      (
        refl,
        (
          refl,
          (
            refl,
            (
              refl,
              (
                refl,
                (
                  refl,
                  (
                    refl,
                    (
                      refl,
                      (
                        refl,
                        (refl, (refl, (refl, (refl, (refl, (refl, (refl, (refl, (refl, tt))))))))),
                      ),
                    ),
                  ),
                ),
              ),
            ),
          ),
        ),
      ),
    ),
  ),
)

upload_download_example :
    download_demo_object (some default_config) true one_image image_reference
    ≡ payload (codes "PNG")
upload_download_example =
    upload_download is_ascii_alnum ascii-IsAlnum digest digest-IsHexDigest image_context image true
      takes_any image_put (some default_config) default_config one_image image_reference
      bucket-NotSlash image_is_put image_is_referred refl
