-- ===== src/Artifact/Upload/Ends.antt =====
-- How `_upload_demo_object` of python/adapters/common.py ends.
use infernix.Prelude.{
  ℕ, ◌≡◌, ◌⊎◌, inl, inr, refl, ap, Bool, true, false, none, some, ◌++◌, not, arith, Bool-cases,
}
use infernix.Prelude.Text.{Text, codes}
use infernix.Cache.Config.{CacheError, err, not_configured, Configured, configured, require_config}
use infernix.Adapter.Context.{AdapterContext}
use infernix.Artifact.Key.{
  PrefixError, Checked, accepted, refused, validated_generated_output_prefix,
}
use infernix.Artifact.Upload.{
  ArtifactResult, PutObject, TransferError, unconfigured, boto3_unavailable, bad_prefix,
  client_raised, object_ref, upload_failed, Upload, object_name, send, upload_demo_object,
}

pub validated_cases :
    (c : Checked) → ((q : Text) × (c ≡ accepted q)) ⊎ ((e : PrefixError) × (c ≡ refused e))
validated_cases (accepted q) = inl (q, refl)
validated_cases (refused e) = inr (e, refl)

-- The request is for this artifact: its bytes and type, under a key that begins with the prefix.
pub record IsFor (context : AdapterContext) (artifact : ArtifactResult) (put : PutObject)
    : Type 0 where
  pub name : Text
  pub key : put.key ≡ context.generated_output_object_prefix ++ name
  pub body : put.body ≡ artifact.body
  pub content_type : put.content_type ≡ artifact.content_type

-- Why nothing is sent: no configuration, no boto3, or a prefix that does not pass the check.
pub data IsHindered (config : Configured) (boto3 : Bool) (context : AdapterContext)
    : TransferError → Type 0 where
  no_configuration :
      (e : CacheError)
      → configured config ≡ err e
      → IsHindered config boto3 context (unconfigured e)
  no_boto3 : boto3 ≡ false → IsHindered config boto3 context boto3_unavailable
  no_prefix :
      (e : PrefixError)
      → validated_generated_output_prefix context.generated_output_object_prefix ≡ refused e
      → IsHindered config boto3 context (bad_prefix e)

-- How an upload ends: with the reference of what the store took; with an error before anything was
-- sent; or with the store's error for what was sent.
pub data Ends (config : Configured) (boto3 : Bool) (takes : PutObject → Bool)
    (context : AdapterContext) (artifact : ArtifactResult) : Upload → Type 0 where
  stored :
      (put : PutObject)
      → IsFor context artifact put
      → takes put ≡ true
      → Ends config boto3 takes context artifact
          (record { sent = some put; result = object_ref (put.bucket ++ (codes "/" ++ put.key)) })
  unsent :
      (e : TransferError)
      → IsHindered config boto3 context e
      → Ends config boto3 takes context artifact (record { sent = none; result = upload_failed e })
  untaken :
      (put : PutObject)
      → IsFor context artifact put
      → takes put ≡ false
      → Ends config boto3 takes context artifact
          (record { sent = some put; result = upload_failed client_raised })

not-true : (b : Bool) → not b ≡ true → b ≡ false
not-true true h = absurd (cc h)
not-true false h = refl

pub validated_same : (p q : Text) → validated_generated_output_prefix p ≡ accepted q → q ≡ p
unfolding validated_generated_output_prefix
validated_same p q h = ground arith

module _ (is_alnum : ℕ → Bool) (sha256_hex : Text → Text) (boto3 : Bool) (takes : PutObject → Bool)
    (context : AdapterContext) (artifact : ArtifactResult) where
  send-Ends :
      (config : Configured) (put : PutObject)
      → IsFor context artifact put
      → Ends config boto3 takes context artifact (send takes put)
  unfolding send
  send-Ends config put made = elim (Bool-cases (takes put)) [
    | inl taken ↦ rw taken (stored put made taken)
    | inr left ↦ rw left (untaken put made left)
  ]

  pub upload_cases :
      (config : Configured)
      → Ends config boto3 takes context artifact
          (upload_demo_object is_alnum sha256_hex config boto3 takes context artifact)
  unfolding upload_demo_object configured require_config
  upload_cases none = unsent (unconfigured not_configured) (no_configuration not_configured refl)
  upload_cases (some c) = elim (Bool-cases (not boto3)) [
    | inl absent ↦
        rw (absent, upload_demo_object)
          (unsent boto3_unavailable (no_boto3 (not-true boto3 absent)))
    | inr there ↦
        elim (validated_cases
          (validated_generated_output_prefix context.generated_output_object_prefix)) [
            | inr (e, bad) ↦
                rw (there, upload_demo_object, bad) (unsent (bad_prefix e) (no_prefix e bad))
            | inl (prefix, good) ↦
                rw (there, upload_demo_object, good)
                  (send-Ends (some c) _ (record {
                    name = object_name is_alnum sha256_hex context artifact;
                    key =
                        ap (λ (q : Text). q ++ object_name is_alnum sha256_hex context artifact)
                          (validated_same context.generated_output_object_prefix prefix good);
                    body = refl;
                    content_type = refl;
                  }))
          ]
  ]
