-- ===== src/Cache/Tests.antt =====
-- Runs of the model cache, and its theorems at concrete data.
use infernix.Prelude.{
  ℕ, ◌≤◌, ◌<◌, ◌≡◌, ◌≢◌, ◌⊎◌, refl, sym, Bool, true, false, Option, none, some, List, [], ◌∷◌, ◌++◌,
  arith, length, All, if◌then◌else◌, not,
}
use infernix.Prelude.Text.{Text, codes, text_eq, text_eq_iff, one_of, starts_with, is_set}
use infernix.Prelude.Dict.{Distinct, lookup, put, erase}
use infernix.Cache.Disk.{
  Disk, Entry, file, dir, directories, directory_size_bytes, disk_bytes, is_dir, is_file, file_at,
}
use infernix.Cache.Config.{
  ok, err, sentinel_missing, empty_model_id, ModelCacheConfig, default_config, require_config,
  cache_quota_bytes,
}
use infernix.Cache.Lru.{enforce_lru_quota}
use infernix.Cache.Lru.Quota.{enforce_fits, enforce_order}
use infernix.Cache.Populate.{
  Client, complete, broken, list_minio_objects, strip_prefix, replace_file, settle,
  download_minio_object, download_all, write_sentinel, make_directory, fetch_listed, relative_pairs,
  populate_from_minio,
}
use infernix.Cache.Populate.Ready.{ReadyAfter, populate-ReadyAfter}
use infernix.Cache.Populate.Complete.{IsListing, Stored, populate_complete}
use infernix.Cache.Access.Reachable.{IsCache, Reachable, empty_cache, called}
use infernix.Cache.Access.History.{WasPopulated, Reachable-IsKept}
use infernix.Cache.Access.{Around, is_ready, after_populate, get_model_path}
use infernix.Cache.Access.Path.{populated, as_dir, get_model_path_result}
use infernix.Cache.Access.Evicted.{returned_is_ready, stale_model_evicted}

abbrev works_always : Text → Bool
works_always _ = false

abbrev weights : Text → ℕ → Entry
weights bytes time = record {
  atime = time;
  node = dir ((codes "w.bin", bytes) ∷ (codes ".ready", codes "x") ∷ []);
}

abbrev three_models : Disk
three_models =
    (codes "b", weights (codes "12345") 7)
    ∷ (codes "note", record { atime = 1; node = file (codes "n") })
    ∷ (codes "a", weights (codes "1234") 3)
    ∷ (codes "c", weights (codes "123") 9)
    ∷ []

three_models-Distinct : Distinct three_models
unfolding lookup text_eq
three_models-Distinct = (refl, (refl, (refl, (refl, tt))))

evicts_oldest : enforce_lru_quota works_always 11 three_models ≡ erase (codes "a") three_models
unfolding enforce_lru_quota erase text_eq directory_size_bytes
evicts_oldest = refl

enforce_fits_example :
    (disk_bytes (enforce_lru_quota works_always 11 three_models) ≤ 11)
    ⊎ (length (directories (enforce_lru_quota works_always 11 three_models)) ≤ 1)
enforce_fits_example = enforce_fits works_always (λ k. refl) 11 three_models three_models-Distinct

a_gone : lookup (codes "a") (enforce_lru_quota works_always 11 three_models) ≡ none
unfolding enforce_lru_quota erase lookup text_eq directory_size_bytes
a_gone = refl

b_stays :
    lookup (codes "b") (enforce_lru_quota works_always 11 three_models)
    ≡ some (weights (codes "12345") 7)
unfolding enforce_lru_quota erase lookup text_eq directory_size_bytes
b_stays = refl

a_there : lookup (codes "a") three_models ≡ some (weights (codes "1234") 3)
unfolding lookup text_eq
a_there = refl

c_there : lookup (codes "c") three_models ≡ some (weights (codes "123") 9)
unfolding lookup text_eq
c_there = refl

enforce_order_example : ◌≤◌ 3 7
enforce_order_example =
    enforce_order works_always (λ k. refl) 11 three_models three_models-Distinct (codes "a")
      (codes "b") (weights (codes "1234") 3) (weights (codes "12345") 7) a_there a_gone b_stays refl

c_is_latest : (j : Text) (f : Entry) → lookup j three_models ≡ some f → j ≢ codes "c" → f.atime < 9
unfolding lookup
c_is_latest j f h ne = ground (arith, text_eq_iff (codes "c") j, λ (p : codes "c" ≡ j). ne (sym p))

abbrev bucket_keys : Text → List (Option Text)
bucket_keys prefix =
    some (prefix ++ codes ".ready")
    ∷ none
    ∷ some (prefix ++ codes "cfg")
    ∷ some (prefix ++ codes "w.bin")
    ∷ []

abbrev bucket_client : Client
bucket_client = record {
  paginate = λ bucket prefix. some (none ∷ some (bucket_keys prefix) ∷ []);
  download_fileobj = λ bucket key. complete (key ++ codes "!");
}

abbrev empty_client : Client
empty_client = record {
  paginate = λ bucket prefix. some (none ∷ []);
  download_fileobj = λ bucket key. broken [];
}

abbrev wired : ModelCacheConfig
wired = record default_config {
  quota_bytes = 40;
  minio_endpoint = codes "http://minio";
  minio_access_key = codes "k";
  minio_secret_key = codes "s";
}

abbrev around : Around
around = record {
  config = some wired;
  boto3 = true;
  client = bucket_client;
  now = 20;
  read_only = false;
  stuck = works_always;
}

abbrev model : Text
model = codes "m"

-- A left-over of a failed populate: one file, no sentinel, and the oldest access time.
abbrev with_stale : Disk
with_stale =
    (model, record { atime = 2; node = dir ((codes "cfg", codes "old") ∷ []) })
    ∷ (codes "b", weights (codes "12345") 7)
    ∷ []

with_stale-Distinct : Distinct with_stale
unfolding lookup text_eq
with_stale-Distinct = (refl, (refl, tt))

abbrev stored_m : Disk
stored_m =
    (
      model,
      record {
        atime = 20;
        node = dir (
            (codes "cfg", codes "m/cfg!")
            ∷ (codes "w.bin", codes "m/w.bin!")
            ∷ (codes ".ready", codes "populated-from-minio\n")
            ∷ []);
      },
    )
    ∷ []

run_populate : (populated around model []) ≡ (ok tt, stored_m)
unfolding populate_from_minio require_config list_minio_objects fetch_listed one_of starts_with
    strip_prefix make_directory lookup put erase text_eq download_all download_minio_object settle
    replace_file write_sentinel
run_populate = refl

run_missing :
    (get_model_path (record around { client = empty_client }) model []).0 ≡ err sentinel_missing
unfolding get_model_path after_populate populate_from_minio require_config list_minio_objects
    fetch_listed one_of starts_with strip_prefix is_ready is_dir lookup
run_missing = refl

abbrev around_empty : Around
around_empty = record around { client = empty_client }

populate-ReadyAfter_example : ReadyAfter model [] (populated around model [])
populate-ReadyAfter_example =
    populate-ReadyAfter around.config around.boto3 around.client around.now model []

abbrev listed_keys : List Text
listed_keys = codes "m/.ready" ∷ codes "m/cfg" ∷ codes "m/w.bin" ∷ []

listed :
    list_minio_objects bucket_client wired.models_bucket (model ++ codes "/") ≡ some listed_keys
unfolding list_minio_objects
listed = refl

listing : IsListing (relative_pairs (model ++ codes "/") listed_keys)
unfolding strip_prefix starts_with
listing = ((refl, (refl, tt)), λ e. cc e, ((refl, tt), λ e. cc e, (tt, λ e. cc e, tt)))

populate_complete_example :
    All
      (Stored bucket_client wired.models_bucket model (populated around model []).1)
      (relative_pairs (model ++ codes "/") listed_keys)
populate_complete_example =
    populate_complete wired true bucket_client 20 model [] listed_keys listed listing
      (λ i. (run_populate i).0)

get_model_path_result_example : (get_model_path around model []).0 ≡ (
    if not (is_set model)
    then err empty_model_id
    else if is_ready model []
    then as_dir around model (ok tt)
    else as_dir around model (populated around model []).0)
get_model_path_result_example = get_model_path_result around model []

failed : (get_model_path around_empty model with_stale).0 ≡ err sentinel_missing
unfolding get_model_path after_populate is_ready is_dir is_file populate_from_minio require_config
    list_minio_objects fetch_listed one_of starts_with strip_prefix make_directory lookup put erase
    text_eq download_all download_minio_object settle replace_file write_sentinel
failed = refl

returned_is_ready_example : is_ready model (get_model_path around model []).1 ≡ true
unfolding lookup
returned_is_ready_example =
    returned_is_ready around (λ k. refl) model [] tt refl refl (λ j f h. cc h)
      (λ i. (run_populate i).0)

stale_populate_ok : (populated around model with_stale).0 ≡ ok tt
unfolding populate_from_minio require_config list_minio_objects fetch_listed one_of starts_with
    strip_prefix make_directory lookup put erase text_eq download_all download_minio_object settle
    replace_file write_sentinel
stale_populate_ok = refl

stale_not_ready : is_ready model with_stale ≡ false
unfolding is_ready is_dir is_file lookup text_eq
stale_not_ready = refl

stale_there :
    lookup model with_stale
    ≡ some (record { atime = 2; node = dir ((codes "cfg", codes "old") ∷ []) })
unfolding lookup text_eq
stale_there = refl

others_newer : (j : Text) (f : Entry) → lookup j with_stale ≡ some f → j ≢ model → 2 < f.atime
unfolding lookup
others_newer j f h ne = ground (arith, text_eq_iff model j, λ (p : model ≡ j). ne (sym p))

stale_over : cache_quota_bytes around.config < disk_bytes (populated around model with_stale).1
unfolding populate_from_minio require_config list_minio_objects fetch_listed one_of starts_with
    strip_prefix make_directory lookup put erase text_eq download_all download_minio_object settle
    replace_file write_sentinel disk_bytes directories directory_size_bytes cache_quota_bytes
stale_over = omega arith

stale_many : 1 < length (directories (populated around model with_stale).1)
unfolding populate_from_minio require_config list_minio_objects fetch_listed one_of starts_with
    strip_prefix make_directory lookup put erase text_eq download_all download_minio_object settle
    replace_file write_sentinel directories
stale_many = omega arith

stale_model_evicted_example :
    ((get_model_path around model with_stale).0 ≡ as_dir around model (ok tt))
    × (lookup model (get_model_path around model with_stale).1 ≡ none)
stale_model_evicted_example =
    stale_model_evicted around (λ k. refl) model with_stale with_stale-Distinct
      (record { atime = 2; node = dir ((codes "cfg", codes "old") ∷ []) }) refl stale_not_ready
      stale_there others_newer stale_populate_ok stale_over stale_many

-- The model was populated, and a second call found it there.
populated_twice : Reachable ((get_model_path around model ((get_model_path around model []).1)).1)
populated_twice = called around model (called around model empty_cache)

Reachable-IsKept_example :
    let d = (get_model_path around model ((get_model_path around model []).1)).1 in
    IsCache d
    × ((file_at model (codes ".ready") d ≡ none)
        ⊎ ((file_at model (codes ".ready") d ≡ some (codes "populated-from-minio\n"))
            × WasPopulated model d populated_twice))
Reachable-IsKept_example =
    Reachable-IsKept ((get_model_path around model ((get_model_path around model []).1)).1)
      populated_twice model
