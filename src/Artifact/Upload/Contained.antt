-- ===== src/Artifact/Upload/Contained.antt =====
-- Where an uploaded artifact lands, and that its reference leads back to it.
use infernix.Prelude.{
  ℕ, ◌≡◌, inl, inr, refl, ap, sym, ◌∙◌, Bool, true, false, Option, none, some, [], ◌∷◌, ◌++◌, not,
  ◌==◌, ==_iff, leb, ◌&&◌, ◌||◌, arith, Bool-cases, All, All-append, All-weaken,
}
use infernix.Prelude.Text.{Text, is_set, text_or, has_char}
use mathlib.Core.Option.{some-injective}
use infernix.Cache.Config.{ModelCacheConfig, Configured, configured, require_config}
use infernix.Adapter.Context.{AdapterContext}
use infernix.Artifact.Key.{
  accepted, validated_generated_output_prefix, is_kept, safe_object_key_segment,
  safe_artifact_suffix,
}
use infernix.Artifact.Key.Safe.{IsAlnum, safe_object_key_segment-IsSafe, safe_artifact_suffix_safe}
use infernix.Artifact.Upload.{
  ArtifactResult, PutObject, object_ref, Upload, object_name, send, upload_demo_object, partition,
  payload, download_demo_object, demo_objects_bucket,
}
use infernix.Artifact.Upload.Ends.{validated_cases, validated_same}

abbrev pub NotSlash : ℕ → Type 0
NotSlash c = (c == b'/') ≡ false

abbrev pub is_hex : ℕ → Bool
is_hex c = (leb b'0' c && leb c b'9') || (leb b'a' c && leb c b'f')

-- What the code relies on in `hashlib.sha256(...).hexdigest()`: hexadecimal digits.
abbrev pub IsHexDigest : (Text → Text) → Type 0
IsHexDigest sha256_hex = (body : Text) → All (λ c. is_hex c ≡ true) (sha256_hex body)

is_hex-NotSlash : (c : ℕ) → is_hex c ≡ true → NotSlash c
is_hex-NotSlash c h = ground arith

pub partition-append :
    (bucket key : Text)
    → All NotSlash bucket
    → partition b'/' (bucket ++ b'/' ∷ key) ≡ (bucket, key)
unfolding partition
partition-append [] key h = refl
partition-append (c ∷ s) key h = rw (h.0, partition-append s key h.1, partition)

-- What the request holds: it goes to the configured bucket or to the default one, and its key is
-- the accepted prefix with a name below it that has no slash and is not empty.
pub record IsContained (context : AdapterContext) (artifact : ArtifactResult) (put : PutObject)
    : Type 0 where
  pub name : Text
  pub key : put.key ≡ context.generated_output_object_prefix ++ name
  pub named : is_set name ≡ true
  pub flat : All NotSlash name
  pub checked :
      validated_generated_output_prefix context.generated_output_object_prefix
      ≡ accepted context.generated_output_object_prefix
  pub body : put.body ≡ artifact.body

module _ (is_alnum : ℕ → Bool) (laws : IsAlnum is_alnum) (sha256_hex : Text → Text)
    (hex : IsHexDigest sha256_hex) where
  slash_not_kept : is_kept is_alnum b'/' ≡ false
  unfolding is_kept has_char
  slash_not_kept = rw (laws.slash)

  kept-NotSlash : (c : ℕ) → is_kept is_alnum c ≡ true → NotSlash c
  kept-NotSlash c h = elim (Bool-cases (c == b'/')) [
    | inl same ↦
        let e : c ≡ b'/' = (==_iff c b'/').0 same in cc (h, slash_not_kept, ap (is_kept is_alnum) e)
    | inr other ↦ other
  ]

  segment_flat : (value : Text) → All NotSlash (safe_object_key_segment is_alnum value)
  segment_flat value =
      All-weaken (λ c. is_kept is_alnum c ≡ true) NotSlash (safe_object_key_segment is_alnum value)
        kept-NotSlash (safe_object_key_segment-IsSafe is_alnum laws value).1

  module _ (context : AdapterContext) (artifact : ArtifactResult) where
    abbrev name : Text
    name = object_name is_alnum sha256_hex context artifact

    name_flat : All NotSlash name
    unfolding object_name
    name_flat =
        All-append NotSlash (safe_object_key_segment is_alnum context.family) _
          (segment_flat context.family)
          (
            refl,
            All-append NotSlash (safe_object_key_segment is_alnum context.model_id) _
                (segment_flat context.model_id)
                (
                  refl,
                  (
                    refl,
                    (
                      refl,
                      (
                        refl,
                        (
                          refl,
                          (
                            refl,
                            (
                              refl,
                              (
                                refl,
                                All-append NotSlash (sha256_hex artifact.body) _
                                    (All-weaken (λ c. is_hex c ≡ true) NotSlash
                                      (sha256_hex artifact.body) is_hex-NotSlash
                                      (hex artifact.body))
                                    (All-weaken (λ c. is_kept is_alnum c ≡ true) NotSlash
                                      (safe_artifact_suffix is_alnum artifact.suffix) kept-NotSlash
                                      (safe_artifact_suffix_safe is_alnum laws artifact.suffix).2),
                              ),
                            ),
                          ),
                        ),
                      ),
                    ),
                  ),
                ),
          )

    set_append : (s t : Text) → is_set s ≡ true → is_set (s ++ t) ≡ true
    set_append [] t h = cc h
    set_append (c ∷ s) t h = refl

    name_set : is_set name ≡ true
    unfolding object_name
    name_set =
        set_append (safe_object_key_segment is_alnum context.family) _
          (safe_object_key_segment-IsSafe is_alnum laws context.family).0

    sent-IsContained :
        (takes : PutObject → Bool) (put made : PutObject) (prefix : Text)
        → made ≡ record {
          bucket = made.bucket;
          key = prefix ++ name;
          body = artifact.body;
          content_type = artifact.content_type;
        }
        → validated_generated_output_prefix context.generated_output_object_prefix ≡ accepted prefix
        → (send takes made).sent ≡ some put
        → IsContained context artifact put
    unfolding send
    sent-IsContained takes put made prefix shape valid h =
        let same = validated_same context.generated_output_object_prefix prefix valid in
        let e : made ≡ put = some-injective made put h in
        record {
          name = name;
          key =
              sym (ap (λ (p : PutObject). p.key) e)
              ∙ ap (λ (p : PutObject). p.key) shape
              ∙ ap (λ (p : Text). p ++ name) same;
          named = name_set;
          flat = name_flat;
          checked = valid ∙ ap accepted same;
          body = sym (ap (λ (p : PutObject). p.body) e) ∙ ap (λ (p : PutObject). p.body) shape;
        }

    module _ (boto3 : Bool) (takes : PutObject → Bool) (put : PutObject) where
      -- Where the digest is hexadecimal, and the ASCII letters are alphanumeric and the slash is
      -- not: whatever an upload sends, it sends the artifact's bytes under a key that lies directly
      -- below the request's output prefix, and that prefix has passed the check.
      pub upload-IsContained :
          (config : Configured)
          → (upload_demo_object is_alnum sha256_hex config boto3 takes context artifact).sent
            ≡ some put
          → IsContained context artifact put
      unfolding upload_demo_object configured require_config
      upload-IsContained none = λ h. cc h
      upload-IsContained (some c) = elim (Bool-cases (not boto3)) [
        | inl absent ↦ rw (absent, upload_demo_object) (λ h. cc h)
        | inr there ↦
            elim (validated_cases
              (validated_generated_output_prefix context.generated_output_object_prefix)) [
                | inr (e, bad) ↦ rw (there, upload_demo_object, bad) (λ h. cc h)
                | inl (prefix, good) ↦
                    rw (there, upload_demo_object, good)
                      (sent-IsContained takes put (request c prefix) prefix refl good)
              ]
      ]
        where
          request : ModelCacheConfig → Text → PutObject
          request c prefix = record {
            bucket = text_or c.demo_artifacts_bucket demo_objects_bucket;
            key = prefix ++ name;
            body = artifact.body;
            content_type = artifact.content_type;
          }

      -- The reference of what was sent.
      abbrev RefersTo : Text → Upload → Type 0
      RefersTo reference u =
          u.sent ≡ some put
          → u.result ≡ object_ref reference
          → reference ≡ put.bucket ++ b'/' ∷ put.key

      send-RefersTo : (made : PutObject) (reference : Text) → RefersTo reference (send takes made)
      unfolding send
      send-RefersTo made reference sent result = elim (Bool-cases (takes made)) [
        | inl yes_taken ↦
            let e : made ≡ put = some-injective made put sent in
            let f : object_ref (made.bucket ++ b'/' ∷ made.key) ≡ object_ref reference =
              rw yes_taken at result in
            ground (arith, f, e)
        | inr no_taken ↦ cc (rw no_taken at result)
      ]

      upload-RefersTo :
          (config : Configured) (reference : Text)
          → RefersTo reference
              (upload_demo_object is_alnum sha256_hex config boto3 takes context artifact)
      unfolding upload_demo_object configured require_config
      upload-RefersTo none reference = λ h g. cc h
      upload-RefersTo (some c) reference = elim (Bool-cases (not boto3)) [
        | inl absent ↦ rw (absent, upload_demo_object) (λ h g. cc h)
        | inr there ↦
            elim (validated_cases
              (validated_generated_output_prefix context.generated_output_object_prefix)) [
                | inr (e, bad) ↦ rw (there, upload_demo_object, bad) (λ h g. cc h)
                | inl (prefix, good) ↦
                    rw (there, upload_demo_object, good) (send-RefersTo _ reference)
              ]
      ]

      -- Where the digest is hexadecimal, the ASCII letters are alphanumeric and the slash is not,
      -- and the bucket's name has no slash: a later download of the reference that an upload
      -- returned, from a store that serves what was put there, gives the artifact back.
      pub upload_download :
          (config : Configured) (c : ModelCacheConfig) (get : Text → Text → Option Text)
          (reference : Text)
          → All NotSlash put.bucket
          → (upload_demo_object is_alnum sha256_hex config boto3 takes context artifact).sent
            ≡ some put
          → (upload_demo_object is_alnum sha256_hex config boto3 takes context artifact).result
            ≡ object_ref reference
          → get put.bucket put.key ≡ some put.body
          → download_demo_object (some c) true get reference ≡ payload artifact.body
      unfolding download_demo_object configured require_config
      upload_download config c get reference flat sent result served =
          let split : partition b'/' reference ≡ (put.bucket, put.key) =
            ap (partition b'/') (upload-RefersTo config reference sent result)
            ∙ partition-append put.bucket put.key flat in
          rw (split, served, (upload-IsContained config sent).body) refl
