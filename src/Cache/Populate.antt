-- ===== src/Cache/Populate.antt =====
-- `_populate_from_minio` and what it calls, of python/adapters/model_cache.py. A model id names one
-- directory below the cache root. An exception leaves the disk as the code had made it by then.
pub mod Ready
pub mod Complete
pub mod Frame
use infernix.Prelude.{
  ℕ, Bool, true, false, Option, none, some, List, [], ◌∷◌, ◌++◌, map, drop, length, ◌&&◌, not,
  if◌then◌else◌,
}
use infernix.Prelude.Text.{Text, codes, text_eq, is_set, starts_with, one_of}
use infernix.Prelude.Dict.{Dict, lookup, put, erase}
use infernix.Cache.Disk.{Disk, Entry, Node, file, dir}
use infernix.Cache.Config.{
  CacheError, not_configured, details_missing, boto3_missing, sentinel_missing, path_blocked,
  client_failed, Result, ok, err, ModelCacheConfig, Configured, require_config,
}

-- What `download_fileobj` does: it writes the whole body, or raises after a part of it.
pub data Download : Type 0 where
  complete broken : Text → Download

-- One page of `list_objects_v2`: its `Contents`, if it has any, as the `Key` of each item.
abbrev pub Page : Type 0
Page = Option (List (Option Text))

-- The boto3 client, as the bucket stands during one call: bucket, then prefix or key.
pub record Client : Type 0 where
  pub paginate : Text → Text → Option (List Page)
  pub download_fileobj : Text → Text → Download

abbrev pub ready_sentinel_name : Text
ready_sentinel_name = codes ".ready"

abbrev pub keys_of_items : List (Option Text) → List Text
keys_of_items [] = []
keys_of_items (none ∷ items) = keys_of_items items
keys_of_items (some [] ∷ items) = keys_of_items items
keys_of_items (some (c ∷ key) ∷ items) = (c ∷ key) ∷ keys_of_items items

abbrev pub keys_of_pages : List Page → List Text
keys_of_pages [] = []
keys_of_pages (none ∷ pages) = keys_of_pages pages
keys_of_pages (some items ∷ pages) = keys_of_items items ++ keys_of_pages pages

unfoldable pub list_minio_objects : Client → Text → Text → Option (List Text)
list_minio_objects client bucket prefix = elim (client.paginate bucket prefix) [
  | none ↦ none
  | some pages ↦ some (keys_of_pages pages)
]

unfoldable pub strip_prefix : Text → Text → Text
strip_prefix key prefix = if starts_with key prefix then drop (length prefix) key else key

abbrev pub Files : Type 0
Files = Dict Text

abbrev pub temp_name : Text → Text
temp_name path = path ++ codes ".tmp"

-- `temp_path.replace(dest_path)`, the temporary file holding `body`.
unfoldable pub replace_file : Text → Text → Text → Files → Files
replace_file source target body files = put target body (erase source files)

-- What `_download_minio_object` leaves, given what the client did.
unfoldable pub settle : Text → Files → Download → Result (Unit {0}) × Files
settle relative files (broken part) = (err client_failed, put (temp_name relative) part files)
settle relative files (complete body) =
    (ok tt, replace_file (temp_name relative) relative body (put (temp_name relative) body files))

-- `_download_minio_object`, into the path `relative` below the model's directory.
unfoldable pub download_minio_object :
    Client → Text → Text → Text → Files → Result (Unit {0}) × Files
download_minio_object client bucket key relative files =
    settle relative files (client.download_fileobj bucket key)

abbrev pub and_then :
    Result (Unit {0}) × Files → (Files → Result (Unit {0}) × Files) → Result (Unit {0}) × Files
and_then (ok _, files) rest = rest files
and_then (err e, files) rest = (err e, files)

-- The download loop, over each key with its relative key; the sentinel is passed over.
unfoldable pub download_all : Client → Text → List (Text × Text) → Files → Result (Unit {0}) × Files
download_all client bucket [] files = (ok tt, files)
download_all client bucket ((key, relative) ∷ rest) files =
    elim (text_eq relative ready_sentinel_name) [
      | true ↦ download_all client bucket rest files
      | false ↦
          and_then (download_minio_object client bucket key relative files)
            (λ more. download_all client bucket rest more)
    ]

-- The sentinel is written beside its place, and moved there.
unfoldable pub write_sentinel : Files → Files
unfolding replace_file
write_sentinel files =
    let body = codes "populated-from-minio\n" in
    replace_file (temp_name ready_sentinel_name) ready_sentinel_name body
      (put (temp_name ready_sentinel_name) body files)

-- `dest_dir.mkdir(parents=True, exist_ok=True)` at the time `now`: the directory's files.
unfoldable pub make_directory : ℕ → Text → Disk → Option (Files × Entry)
make_directory now name d = elim (lookup name d) [
  | none ↦ some ([], record { atime = now; node = dir [] })
  | some e ↦ elim (e.node) [ file _ ↦ none | dir files ↦ some (files, e) ]
]

abbrev pub with_files : Text → Entry → Files → Disk → Disk
with_files name e files d = put name (record { atime = e.atime; node = dir files }) d

abbrev pub finish : Text → Entry → Disk → Result (Unit {0}) × Files → Result (Unit {0}) × Disk
finish name e d (ok _, files) = (ok tt, with_files name e (write_sentinel files) d)
finish name e d (err x, files) = (err x, with_files name e files d)

abbrev pub relative_pairs : Text → List Text → List (Text × Text)
relative_pairs prefix keys = map (λ key. (key, strip_prefix key prefix)) keys

-- From the listing on.
unfoldable pub fetch_listed : Client → Text → Text → ℕ → List Text → Disk → Result (Unit {0}) × Disk
fetch_listed client bucket name now keys d =
    let prefix = name ++ codes "/" in
    if one_of ready_sentinel_name (map (λ key. strip_prefix key prefix) keys)
    then elim (make_directory now name d) [
      | none ↦ (err path_blocked, d)
      | some (files, e) ↦
          finish name e d (download_all client bucket (relative_pairs prefix keys) files)
    ]
    else (err sentinel_missing, d)

abbrev pub has_details : ModelCacheConfig → Bool
has_details c = is_set c.minio_endpoint && is_set c.minio_access_key && is_set c.minio_secret_key

-- `boto3` tells whether the import succeeds.
unfoldable pub populate_from_minio :
    Configured → Bool → Client → ℕ → Text → Disk → Result (Unit {0}) × Disk
populate_from_minio config boto3 client now name d = elim (require_config config) [
  | err e ↦ (err e, d)
  | ok c ↦
      if not (has_details c)
      then (err details_missing, d)
      else if not boto3
      then (err boto3_missing, d)
      else elim (list_minio_objects client c.models_bucket (name ++ codes "/")) [
        | none ↦ (err client_failed, d)
        | some keys ↦ fetch_listed client c.models_bucket name now keys d
      ]
]
