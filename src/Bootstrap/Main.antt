-- ===== src/Bootstrap/Main.antt =====
-- `run_model_bootstrap_from_argv` of python/adapters/model_bootstrap.py, its arguments parsed and its
-- client made. The directories it makes are lists of entries, in the order of `sorted`.
pub mod Quiet
pub mod Published
use infernix.Prelude.{ℕ, Bool, true, false, Option, none, some, List, [], ◌∷◌, ◌++◌}
use infernix.Prelude.Text.{Text, codes}
use infernix.Bootstrap.Store.{
  Command, Bucket, Run, pure, raise, ◌>>=◌, ◌>>◌, write_ready_sentinel, upload_one,
}
use infernix.Bootstrap.Payload.{
  Response, ParsedUrl, download_single_payload, is_open_unmix_umxhq, is_mt3_pytorch_pretrained,
  is_package_backed_native_model, hugging_face_repo_id, snapshot_allow_patterns,
}
use infernix.Bootstrap.Validity.{Readers, existing_model_cache_ready}
use infernix.Bootstrap.Retry.{
  Attempt, Tries, download_hugging_face_snapshot, download_mt3_pytorch_pretrained,
}
use infernix.Bootstrap.Staging.{Entry, upload_directory}

-- The libraries and the network, as the job meets them: `urlopen` and `snapshot_download` by the
-- attempt, the latter with the entries that `sorted(root.rglob("*"))` then finds.
pub record Upstream : Type 0 where
  pub urlopen : ℕ → Text → Option Response
  pub urlparse : Text → Option ParsedUrl
  pub lower : Text → Text
  pub snapshot_download : Text → List Text → Option (List Text) → ℕ → Attempt (List Entry)
  pub readers : Readers

-- `ignore_patterns` of `_download_hugging_face_snapshot`
abbrev pub ignore_patterns : List Text
ignore_patterns =
    codes ".gitattributes"
    ∷ codes "*.md"
    ∷ codes "*.png"
    ∷ codes "*.jpg"
    ∷ codes "*.jpeg"
    ∷ codes "*.gif"
    ∷ codes "*.h5"
    ∷ codes "*.msgpack"
    ∷ codes "*.onnx"
    ∷ codes "*.onnx_data"
    ∷ codes "*.ot"
    ∷ codes "*.tflite"
    ∷ []

abbrev pub file_named : Text → Text → Entry
file_named name body = record { parts = name ∷ []; body = some body }

-- `_download_open_unmix_umxhq`: the files of the four targets; none where a download raises.
abbrev pub open_unmix_url : Text → Text
open_unmix_url file = codes "https://zenodo.org/records/3370489/files/" ++ file

abbrev pub four_files : Option Text → Option Text → Option Text → Option Text → Option (List Entry)
four_files (some vocals) (some drums) (some bass) (some other) = some (
    file_named (codes "bass.pth") bass
    ∷ file_named (codes "drums.pth") drums
    ∷ file_named (codes "other.pth") other
    ∷ file_named (codes "vocals.pth") vocals
    ∷ [])
four_files _ _ _ _ = none

unfoldable pub download_open_unmix_umxhq : (Text → Option Response) → Option (List Entry)
download_open_unmix_umxhq urlopen =
    four_files (download_single_payload urlopen (open_unmix_url (codes "vocals-b62c91ce.pth")))
      (download_single_payload urlopen (open_unmix_url (codes "drums-9619578f.pth")))
      (download_single_payload urlopen (open_unmix_url (codes "bass-8d85a5bd.pth")))
      (download_single_payload urlopen (open_unmix_url (codes "other-b52fbbf7.pth")))

abbrev pub mt3_entries : Option (Text × Text) → Option (List Entry)
mt3_entries none = none
mt3_entries (some (config, checkpoint)) =
    some (file_named (codes "config.json") config ∷ file_named (codes "mt3.pth") checkpoint ∷ [])

-- A snapshot that was downloaded is uploaded; one that raised ends the job.
abbrev pub put_snapshot : (Command → Bool) → Text → Option (List Entry) → Run (Unit {0})
put_snapshot takes model_id none = raise
put_snapshot takes model_id (some entries) = upload_directory takes model_id entries

abbrev pub put_payload : (Command → Bool) → Text → Option Text → Run (Unit {0})
put_payload takes model_id none = raise
put_payload takes model_id (some body) = upload_one takes model_id body (codes "payload")

abbrev pub stage_repo : Upstream → (Command → Bool) → Text → Text → Option Text → Run (Unit {0})
stage_repo up takes model_id download_url none =
    put_payload takes model_id (download_single_payload (up.urlopen 0) download_url)
stage_repo up takes model_id download_url (some repo_id) =
    let patterns = snapshot_allow_patterns up.lower repo_id in
    put_snapshot takes model_id
      (download_hugging_face_snapshot
        (up.snapshot_download repo_id ignore_patterns patterns)).result

-- `urlparse` raises on some malformed addresses, and that ends the job.
abbrev pub stage_parsed :
    Upstream → (Command → Bool) → Text → Text → Option ParsedUrl → Run (Unit {0})
stage_parsed up takes model_id download_url none = raise
stage_parsed up takes model_id download_url (some parsed) =
    stage_repo up takes model_id download_url
      (hugging_face_repo_id (λ _. parsed) up.lower download_url)

abbrev pub stage_kind : Upstream → (Command → Bool) → Text → Text → Bool → Bool → Run (Unit {0})
stage_kind up takes model_id download_url true _ =
    put_snapshot takes model_id
      (mt3_entries (download_mt3_pytorch_pretrained up.readers up.urlopen).result)
stage_kind up takes model_id download_url false true =
    put_snapshot takes model_id (download_open_unmix_umxhq (up.urlopen 0))
stage_kind up takes model_id download_url false false =
    stage_parsed up takes model_id download_url (up.urlparse download_url)

-- The body of the `with` block.
unfoldable pub stage_model : Upstream → (Command → Bool) → Text → Text → Run (Unit {0})
stage_model up takes model_id download_url =
    stage_kind up takes model_id download_url (is_mt3_pytorch_pretrained download_url)
      (is_open_unmix_umxhq download_url)

abbrev pub unless_package_backed : Upstream → (Command → Bool) → Text → Text → Bool → Run (Unit {0})
unless_package_backed up takes model_id download_url true = pure tt
unless_package_backed up takes model_id download_url false =
    stage_model up takes model_id download_url

-- What is done before the sentinel is written, given whether the earlier cache is ready.
abbrev pub unless_ready : Upstream → (Command → Bool) → Text → Text → Bool → Run (Unit {0})
unless_ready up takes model_id download_url true = pure tt
unless_ready up takes model_id download_url false =
    unless_package_backed up takes model_id download_url (is_package_backed_native_model model_id)

-- `run_model_bootstrap_from_argv`: each of its three ways to return writes the sentinel first.
unfoldable pub run_model_bootstrap : Upstream → Bucket → Text → Text → Run (Unit {0})
run_model_bootstrap up bucket model_id download_url =
    (existing_model_cache_ready up.readers bucket model_id download_url >>= λ ready.
    unless_ready up bucket.takes model_id download_url ready)
    >> write_ready_sentinel bucket.takes model_id
