-- ===== src/Cache/Config.antt =====
-- `ModelCacheConfig` and the module variable `_CONFIG` of python/adapters/model_cache.py.
use infernix.Prelude.{ℕ, ◌*◌, Bool, true, false, Option, none, some}
use infernix.Prelude.Text.{Text, codes}

-- What the helpers raise. All but `empty_model_id` (a ValueError), `path_blocked` (an OSError) and
-- `client_failed` (whatever boto3 raised) are `ModelCacheNotPopulated`.
pub data CacheError : Type 0 where
  empty_model_id not_configured details_missing boto3_missing : CacheError
  sentinel_missing not_published path_blocked client_failed : CacheError

abbrev pub is_not_populated : CacheError → Bool
is_not_populated empty_model_id = false
is_not_populated path_blocked = false
is_not_populated client_failed = false
is_not_populated _ = true

pub data Result {ℓ} (A : Type ℓ) : Type ℓ where
  ok : A → Result A
  err : CacheError → Result A

pub record ModelCacheConfig : Type 0 where
  pub cache_root : Text
  pub quota_bytes : ℕ
  pub models_bucket : Text
  pub demo_artifacts_bucket : Text
  pub minio_endpoint : Text
  pub minio_access_key : Text
  pub minio_secret_key : Text
  pub minio_region : Text

abbrev pub default_model_cache_root : Text
default_model_cache_root = codes "/model-cache"

abbrev pub default_quota_bytes : ℕ
default_quota_bytes = 32 * 1024 * 1024 * 1024

abbrev pub default_config : ModelCacheConfig
default_config = record {
  cache_root = default_model_cache_root;
  quota_bytes = default_quota_bytes;
  models_bucket = codes "infernix-models";
  demo_artifacts_bucket = codes "infernix-demo-objects";
  minio_endpoint = codes "";
  minio_access_key = codes "";
  minio_secret_key = codes "";
  minio_region = codes "us-east-1";
}

-- `_CONFIG`: `none` until `configure` is called.
abbrev pub Configured : Type 0
Configured = Option ModelCacheConfig

unfoldable pub configure : ModelCacheConfig → Configured → Configured
configure config _ = some config

unfoldable pub require_config : Configured → Result ModelCacheConfig
require_config none = err not_configured
require_config (some config) = ok config

-- `configured()` passes the call on.
unfoldable pub configured : Configured → Result ModelCacheConfig
unfolding require_config
configured c = require_config c

unfoldable pub model_cache_root : Configured → Text
model_cache_root none = default_model_cache_root
model_cache_root (some config) = config.cache_root

unfoldable pub cache_quota_bytes : Configured → ℕ
cache_quota_bytes none = default_quota_bytes
cache_quota_bytes (some config) = config.quota_bytes
