-- ===== src/Adapter/Configure.antt =====
-- `_configure_model_cache_from_request` of python/adapters/common.py.
use infernix.Prelude.{
  ℕ, ◌<◌, ◌≡◌, ◌≢◌, ◌⊎◌, inl, inr, refl, Bool, true, false, some, [], ◌∷◌, ltb, not, if◌then◌else◌,
  any_of, arith, Bool-cases, neither,
}
use infernix.Prelude.Text.{Text, is_set, text_or}
use infernix.Cache.Config.{ModelCacheConfig, Configured, default_config, configure}
use infernix.Adapter.Request.{WorkerRequest}

-- `bool(n)`, and `n if n else d`
abbrev nonzero : ℕ → Bool
nonzero n = ltb 0 n

abbrev number_or : ℕ → ℕ → ℕ
number_or n d = if nonzero n then n else d

unfoldable pub worker_request_has_model_cache_config : WorkerRequest → Bool
worker_request_has_model_cache_config request =
    any_of (λ set. set)
      (is_set request.model_cache_root
        ∷ nonzero request.model_cache_quota_bytes
        ∷ is_set request.minio_endpoint
        ∷ is_set request.minio_models_bucket
        ∷ is_set request.minio_demo_artifacts_bucket
        ∷ is_set request.minio_region
        ∷ is_set request.minio_access_key
        ∷ is_set request.minio_secret_key
        ∷ [])

unfoldable pub configure_model_cache_from_request : WorkerRequest → Configured → Configured
configure_model_cache_from_request request before =
    if not (worker_request_has_model_cache_config request)
    then before
    else configure
        (record {
          cache_root = text_or request.model_cache_root default_config.cache_root;
          quota_bytes = number_or request.model_cache_quota_bytes default_config.quota_bytes;
          models_bucket = text_or request.minio_models_bucket default_config.models_bucket;
          demo_artifacts_bucket =
              text_or request.minio_demo_artifacts_bucket default_config.demo_artifacts_bucket;
          minio_endpoint = request.minio_endpoint;
          minio_access_key = request.minio_access_key;
          minio_secret_key = request.minio_secret_key;
          minio_region = text_or request.minio_region default_config.minio_region;
        })
        before

-- A configuration that the helpers can use: no empty name and a positive quota.
pub record IsUsable (c : ModelCacheConfig) : Type 0 where
  pub cache_root : is_set c.cache_root ≡ true
  pub quota_bytes : 0 < c.quota_bytes
  pub models_bucket : is_set c.models_bucket ≡ true
  pub demo_artifacts_bucket : is_set c.demo_artifacts_bucket ≡ true
  pub minio_region : is_set c.minio_region ≡ true

is_set-text_or : (s d : Text) → is_set d ≡ true → is_set (text_or s d) ≡ true
is_set-text_or [] d h = h
is_set-text_or (c ∷ s) d h = refl

number_or_positive : (n d : ℕ) → 0 < d → 0 < number_or n d
number_or_positive n d h = ground arith

-- None of the eight fields is set.
pub record IsBlank (request : WorkerRequest) : Type 0 where
  pub model_cache_root : request.model_cache_root ≡ []
  pub model_cache_quota_bytes : request.model_cache_quota_bytes ≡ 0
  pub minio_endpoint : request.minio_endpoint ≡ []
  pub minio_models_bucket : request.minio_models_bucket ≡ []
  pub minio_demo_artifacts_bucket : request.minio_demo_artifacts_bucket ≡ []
  pub minio_region : request.minio_region ≡ []
  pub minio_access_key : request.minio_access_key ≡ []
  pub minio_secret_key : request.minio_secret_key ≡ []

-- The value of a field: what the request sets, or the default for a field that it leaves unset.
abbrev pub IsTaken : {A : Type 0} → A → A → A → A → Type 0
IsTaken unset asked default value =
    ((asked ≡ unset) × (value ≡ default)) ⊎ ((asked ≢ unset) × (value ≡ asked))

pub record TakesFrom (request : WorkerRequest) (c : ModelCacheConfig) : Type 0 where
  pub cache_root : IsTaken [] request.model_cache_root default_config.cache_root c.cache_root
  pub quota_bytes :
      IsTaken 0 request.model_cache_quota_bytes default_config.quota_bytes c.quota_bytes
  pub models_bucket :
      IsTaken [] request.minio_models_bucket default_config.models_bucket c.models_bucket
  pub demo_artifacts_bucket :
      IsTaken [] request.minio_demo_artifacts_bucket default_config.demo_artifacts_bucket
        c.demo_artifacts_bucket
  pub minio_region : IsTaken [] request.minio_region default_config.minio_region c.minio_region
  pub minio_endpoint : c.minio_endpoint ≡ request.minio_endpoint
  pub minio_access_key : c.minio_access_key ≡ request.minio_access_key
  pub minio_secret_key : c.minio_secret_key ≡ request.minio_secret_key

text_or-IsTaken : (s d : Text) → IsTaken [] s d (text_or s d)
text_or-IsTaken [] d = inl (refl, refl)
text_or-IsTaken (c ∷ s) d = inr ((λ e. cc e), refl)

number_or-IsTaken : (n d : ℕ) → IsTaken 0 n d (number_or n d)
number_or-IsTaken n d = ground arith

IsBlank-unset :
    (request : WorkerRequest)
    → IsBlank request
    → worker_request_has_model_cache_config request ≡ false
unfolding worker_request_has_model_cache_config
IsBlank-unset request b =
    rw
      (
        b.model_cache_root, b.model_cache_quota_bytes, b.minio_endpoint, b.minio_models_bucket,
        b.minio_demo_artifacts_bucket, b.minio_region, b.minio_access_key, b.minio_secret_key,
      )
      refl

unset_text : (s : Text) → is_set s ≡ false → s ≡ []
unset_text [] h = refl
unset_text (c ∷ s) h = cc h

unset_number : (n : ℕ) → nonzero n ≡ false → n ≡ 0
unset_number n h = ground arith

unset-IsBlank :
    (request : WorkerRequest)
    → worker_request_has_model_cache_config request ≡ false
    → IsBlank request
unfolding worker_request_has_model_cache_config
unset-IsBlank request h =
    let (root, h1) = neither (is_set request.model_cache_root) _ h in
    let (quota, h2) = neither (nonzero request.model_cache_quota_bytes) _ h1 in
    let (endpoint, h3) = neither (is_set request.minio_endpoint) _ h2 in
    let (models, h4) = neither (is_set request.minio_models_bucket) _ h3 in
    let (artifacts, h5) = neither (is_set request.minio_demo_artifacts_bucket) _ h4 in
    let (region, h6) = neither (is_set request.minio_region) _ h5 in
    let (access, h7) = neither (is_set request.minio_access_key) _ h6 in
    let (secret, h8) = neither (is_set request.minio_secret_key) _ h7 in
    record {
      model_cache_root = unset_text request.model_cache_root root;
      model_cache_quota_bytes = unset_number request.model_cache_quota_bytes quota;
      minio_endpoint = unset_text request.minio_endpoint endpoint;
      minio_models_bucket = unset_text request.minio_models_bucket models;
      minio_demo_artifacts_bucket = unset_text request.minio_demo_artifacts_bucket artifacts;
      minio_region = unset_text request.minio_region region;
      minio_access_key = unset_text request.minio_access_key access;
      minio_secret_key = unset_text request.minio_secret_key secret;
    }

-- A request in which none of the eight cache fields is set leaves the configuration as it was. Any
-- other replaces it: the root, the quota, the buckets and the region are the request's, or the
-- defaults where it leaves them unset, so none of them is empty; the endpoint and the two keys are
-- the request's as they are.
pub configure_from_request :
    (request : WorkerRequest) (before : Configured)
    → (IsBlank request × (configure_model_cache_from_request request before ≡ before))
      ⊎ ((¬ IsBlank request)
          × (c : ModelCacheConfig) × (configure_model_cache_from_request request before ≡ some c)
          × IsUsable c
          × TakesFrom request c)
unfolding configure_model_cache_from_request configure
configure_from_request request before =
    elim (Bool-cases (worker_request_has_model_cache_config request)) [
      | inr blank ↦
          inl (unset-IsBlank request blank, rw (blank, configure_model_cache_from_request) refl)
      | inl wired ↦ inr (
        (λ b. cc (wired, IsBlank-unset request b)),
        record {
          cache_root = text_or request.model_cache_root default_config.cache_root;
          quota_bytes = number_or request.model_cache_quota_bytes default_config.quota_bytes;
          models_bucket = text_or request.minio_models_bucket default_config.models_bucket;
          demo_artifacts_bucket =
              text_or request.minio_demo_artifacts_bucket default_config.demo_artifacts_bucket;
          minio_endpoint = request.minio_endpoint;
          minio_access_key = request.minio_access_key;
          minio_secret_key = request.minio_secret_key;
          minio_region = text_or request.minio_region default_config.minio_region;
        },
        rw (wired, configure_model_cache_from_request) refl,
        record {
          cache_root = is_set-text_or request.model_cache_root default_config.cache_root refl;
          quota_bytes =
              number_or_positive request.model_cache_quota_bytes default_config.quota_bytes
                (omega arith);
          models_bucket =
              is_set-text_or request.minio_models_bucket default_config.models_bucket refl;
          demo_artifacts_bucket =
              is_set-text_or request.minio_demo_artifacts_bucket
                default_config.demo_artifacts_bucket refl;
          minio_region = is_set-text_or request.minio_region default_config.minio_region refl;
        },
        record {
          cache_root = text_or-IsTaken request.model_cache_root default_config.cache_root;
          quota_bytes =
              number_or-IsTaken request.model_cache_quota_bytes default_config.quota_bytes;
          models_bucket = text_or-IsTaken request.minio_models_bucket default_config.models_bucket;
          demo_artifacts_bucket =
              text_or-IsTaken request.minio_demo_artifacts_bucket
                default_config.demo_artifacts_bucket;
          minio_region = text_or-IsTaken request.minio_region default_config.minio_region;
          minio_endpoint = refl;
          minio_access_key = refl;
          minio_secret_key = refl;
        },
      )
    ]
