-- ===== src/Cache/Access.antt =====
-- `get_model_path` of python/adapters/model_cache.py, with the times at which it runs.
pub mod Path
pub mod Evicted
pub mod Reachable
pub mod History
use infernix.Prelude.{ℕ, Bool, true, false, Option, none, some, ◌&&◌, not, if◌then◌else◌}
use infernix.Prelude.Text.{Text, is_set}
use infernix.Prelude.Dict.{lookup, put}
use infernix.Cache.Disk.{Disk, Entry, is_dir, is_file}
use infernix.Cache.Config.{
  CacheError, empty_model_id, not_published, Result, ok, err, Configured, model_cache_root,
  cache_quota_bytes,
}
use infernix.Cache.Lru.{enforce_lru_quota}
use infernix.Cache.Populate.{Client, ready_sentinel_name, populate_from_minio}

-- What a call finds around it: the configuration, whether boto3 imports, the client, the clock,
-- whether `os.utime` is refused, and the trees that `rmtree` cannot remove.
pub record Around : Type 0 where
  pub config : Configured
  pub boto3 : Bool
  pub client : Client
  pub now : ℕ
  pub read_only : Bool
  pub stuck : Text → Bool

-- `_touch_access_time`; a refused `utime` is passed over.
unfoldable pub touch_access_time : Bool → ℕ → Text → Disk → Disk
touch_access_time read_only now name d = elim (lookup name d) [
  | none ↦ d
  | some e ↦ if read_only then d else put name (record e { atime = now }) d
]

-- The test of `get_model_path` before and after the populate.
unfoldable pub is_ready : Text → Disk → Bool
is_ready name d = is_dir name d && is_file name ready_sentinel_name d

-- `cache_root / model_id`
pub record ModelDir : Type 0 where
  pub root : Text
  pub model_id : Text

-- The part after the populate.
unfoldable pub after_populate : Around → Text → Result (Unit {0}) × Disk → Result ModelDir × Disk
after_populate a name (err e, d) = (err e, d)
after_populate a name (ok _, d) =
    if is_ready name d
    then (
      ok (record { root = model_cache_root a.config; model_id = name }),
      enforce_lru_quota a.stuck (cache_quota_bytes a.config) d,
    )
    else (err not_published, d)

unfoldable pub get_model_path : Around → Text → Disk → Result ModelDir × Disk
get_model_path a name d =
    if not (is_set name)
    then (err empty_model_id, d)
    else if is_ready name d
    then (
      ok (record { root = model_cache_root a.config; model_id = name }),
      touch_access_time a.read_only a.now name d,
    )
    else after_populate a name (populate_from_minio a.config a.boto3 a.client a.now name d)
