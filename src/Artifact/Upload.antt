-- ===== src/Artifact/Upload.antt =====
-- `_upload_demo_object` and `download_demo_object` of python/adapters/common.py. boto3 and SHA-256
-- are outside the repository: the client is a test of which requests it takes, the digest a function.
pub mod Ends
pub mod Contained
use infernix.Prelude.{
  ℕ, Bool, true, false, Option, none, some, List, [], ◌∷◌, ◌++◌, not, ◌==◌, if◌then◌else◌,
}
use infernix.Prelude.Text.{Text, codes, text_or}
use infernix.Cache.Config.{CacheError, ok, err, ModelCacheConfig, Configured, configured}
use infernix.Adapter.Context.{AdapterContext}
use infernix.Artifact.Key.{
  PrefixError, accepted, refused, validated_generated_output_prefix, safe_object_key_segment,
  safe_artifact_suffix,
}

pub record ArtifactResult : Type 0 where
  pub body : Text
  pub content_type : Text
  pub suffix : Text

-- The arguments of `put_object`.
pub record PutObject : Type 0 where
  pub bucket : Text
  pub key : Text
  pub body : Text
  pub content_type : Text

pub data TransferError : Type 0 where
  unconfigured : CacheError → TransferError
  boto3_unavailable client_raised : TransferError
  bad_prefix : PrefixError → TransferError

pub data Uploaded : Type 0 where
  object_ref : Text → Uploaded
  upload_failed : TransferError → Uploaded

-- The request that was sent, if any, and how the call ended.
pub record Upload : Type 0 where
  pub sent : Option PutObject
  pub result : Uploaded

abbrev pub demo_objects_bucket : Text
demo_objects_bucket = codes "infernix-demo-objects"

-- `put_object` and the reference that is returned after it.
unfoldable pub send : (PutObject → Bool) → PutObject → Upload
send takes put = record {
  sent = some put;
  result =
      if takes put
      then object_ref (put.bucket ++ (codes "/" ++ put.key))
      else upload_failed client_raised;
}

module _ (is_alnum : ℕ → Bool) (sha256_hex : Text → Text) where
  -- The object key below the prefix.
  unfoldable pub object_name : AdapterContext → ArtifactResult → Text
  object_name context artifact =
      safe_object_key_segment is_alnum context.family
      ++ (codes "-"
          ++ (safe_object_key_segment is_alnum context.model_id
              ++ (codes "-sha256-"
                  ++ (sha256_hex artifact.body ++ safe_artifact_suffix is_alnum artifact.suffix))))

  unfoldable pub upload_demo_object :
      Configured → Bool → (PutObject → Bool) → AdapterContext → ArtifactResult → Upload
  upload_demo_object config boto3 takes context artifact = elim (configured config) [
    | err e ↦ record { sent = none; result = upload_failed (unconfigured e) }
    | ok c ↦
        if not boto3
        then record { sent = none; result = upload_failed boto3_unavailable }
        else elim (validated_generated_output_prefix context.generated_output_object_prefix) [
          | refused e ↦ record { sent = none; result = upload_failed (bad_prefix e) }
          | accepted prefix ↦ send takes (record {
            bucket = text_or c.demo_artifacts_bucket demo_objects_bucket;
            key = prefix ++ object_name context artifact;
            body = artifact.body;
            content_type = artifact.content_type;
          })
        ]
  ]

-- `text.partition(separator)`, without the separator in the middle.
unfoldable pub partition : ℕ → Text → Text × Text
partition separator [] = ([], [])
partition separator (c ∷ s) =
    let rest = partition separator s in if c == separator then ([], s) else (c ∷ (rest.0), rest.1)

pub data Downloaded : Type 0 where
  payload : Text → Downloaded
  download_failed : TransferError → Downloaded

-- `get` is `get_object` with its body read: bucket, then key; `none` is what it raises.
unfoldable pub download_demo_object :
    Configured → Bool → (Text → Text → Option Text) → Text → Downloaded
download_demo_object config boto3 get reference = elim (configured config) [
  | err e ↦ download_failed (unconfigured e)
  | ok c ↦
      if not boto3
      then download_failed boto3_unavailable
      else let (bucket, key) = partition b'/' reference in
        elim (get bucket key) [ none ↦ download_failed client_raised | some body ↦ payload body ]
]
