-- ===== src/Bootstrap/Tests.antt =====
-- Runs of the model bootstrap, and its theorems at concrete data.
use infernix.Prelude.{
  inl, ℕ, zero, suc, ◌<◌, ◌≡◌, ◌≢◌, refl, ap, ◌∙◌, Bool, true, false, Option, none, some, List, [],
  ◌∷◌, ◌++◌, arith, length, length-append, All, if◌then◌else◌, ==_iff, ◌==◌, map, ◌&&◌,
}
use infernix.Prelude.Text.{join, Text, codes, text_eq, starts_with, contains_text, one_of, lstrip}
use infernix.Bootstrap.Store.{Command, Listing, Bucket, issue, sentinel_exists, upload_one}
use infernix.Bootstrap.Delete.{
  delete_loop, flush_pending, delete_model_prefix, IsBatch, deleted, delete_model_prefix_complete,
}
use infernix.Bootstrap.Payload.{
  Response, ParsedUrl, looks_like_html, copy_chunks, stage_chunks, download_single_payload,
  is_mt3_pytorch_pretrained,
}
use infernix.Bootstrap.Payload.{split_path, hugging_face_repo_id}
use infernix.Bootstrap.Payload.Whole.{download_whole_or_refused, whole_body}
use infernix.Bootstrap.Payload.Repo.{IsRepo, hugging_face_repo_id-IsRepo}
use infernix.Bootstrap.Validity.{
  Readers, mt3_pth_bytes, mt3_pth_sha256, validate_mt3_pytorch_snapshot, mt3_pytorch_cache_validity,
  existing_model_cache_ready, Mismatch, existing_cache_deleted,
}
use infernix.Bootstrap.Retry.{
  Attempt, done, transient, mt3_config_url, mt3_checkpoint_url, mt3_attempt, check_files,
  accept_files, settle_mt3, mt3_loop, download_hugging_face_snapshot,
  download_mt3_pytorch_pretrained, EndsAfter, Fetched, snapshot_download_retried,
  mt3_staged_is_valid,
}
use infernix.Bootstrap.Staging.{
  Entry, skip_snapshot_file, kept, kept_files, upload_entries, put_index, upload_directory,
  index_of, upload_of, keys_of_files, upload_directory_indexed,
}
use infernix.Bootstrap.Main.{Upstream, ignore_patterns, run_model_bootstrap}
use infernix.Bootstrap.Main.Quiet.{IsStageable}
use infernix.Bootstrap.Main.Published.{PublishedLast, run_model_bootstrap-PublishedLast}

abbrev takes_all : Command → Bool
takes_all _ = true

-- The sizes of a broken MT3 cache: everything is there, the checkpoint is short.
abbrev short_sizes : Text → Option ℕ
short_sizes _ = some 200

abbrev no_file : Text → Option Text
no_file _ = none

abbrev two_keys : Text → Listing
two_keys prefix = record {
  items = some (codes "m/.ready") ∷ none ∷ some (codes "m/mt3.pth") ∷ [];
  breaks = false;
}

abbrev broken_cache : Bucket
broken_cache = record {
  head_object = short_sizes;
  list_objects = two_keys;
  download_file = no_file;
  takes = takes_all;
}

two_deleted : (delete_model_prefix broken_cache (codes "m")).result ≡ some tt
unfolding delete_model_prefix delete_loop flush_pending issue
two_deleted = refl

delete_model_prefix_complete_example :
    (false ≡ false)
    × (All (IsBatch 1000) (delete_model_prefix broken_cache (codes "m")).log)
    × (deleted (delete_model_prefix broken_cache (codes "m")).log
        ≡ codes "m/.ready" ∷ codes "m/mt3.pth" ∷ [])
delete_model_prefix_complete_example =
    delete_model_prefix_complete broken_cache (codes "m") tt two_deleted

abbrev mt3_url : Text
mt3_url = codes "https://github.com/kunato/mt3-pytorch"

abbrev parses : Text → Bool
parses _ = true

abbrev expected_digest : Text → Text
expected_digest _ = mt3_pth_sha256

abbrev good_archive : Text → Option (Option Text)
good_archive _ = some none

abbrev lenient : Readers
lenient = record { loads_json = parses; sha256_hex = expected_digest; testzip = good_archive }

cache_written : (existing_model_cache_ready lenient broken_cache (codes "m") mt3_url).log ≢ []
unfolding existing_model_cache_ready mt3_pytorch_cache_validity sentinel_exists
    is_mt3_pytorch_pretrained contains_text starts_with delete_model_prefix delete_loop
    flush_pending issue
cache_written h = cc h

existing_cache_deleted_example :
    (sentinel_exists broken_cache (codes "m") ≡ true)
    × (is_mt3_pytorch_pretrained mt3_url ≡ true)
    × Mismatch (some 200) (some 200) (some 200)
existing_cache_deleted_example =
    existing_cache_deleted lenient broken_cache (codes "m") mt3_url cache_written

-- `n` bytes.
abbrev fill : ℕ → Text
fill zero = []
fill (suc n) = b'x' ∷ fill n

length-fill : (n : ℕ) → length (fill n) ≡ n
length-fill zero = refl
length-fill (suc n) = ap suc (length-fill n)

abbrev binary : Text
binary = codes "application/octet-stream"

abbrev weights_response : Response
weights_response = record {
  content_type = binary;
  chunks = fill 512 ∷ codes "tail" ∷ [];
  breaks = false;
}

abbrev serves_weights : Text → Option Response
serves_weights _ = some weights_response

weights_staged :
    download_single_payload serves_weights (codes "https://w") ≡ some (fill 512 ++ codes "tail")
unfolding download_single_payload copy_chunks looks_like_html contains_text starts_with lstrip
weights_staged = refl

download_whole_or_refused_example :
    download_single_payload serves_weights (codes "https://w") ≡ whole_body weights_response
download_whole_or_refused_example =
    download_whole_or_refused serves_weights (codes "https://w") weights_response refl
      (refl, (refl, tt)) (inl (omega (arith, length-fill 512)))

abbrev throttled : ℕ → Attempt ℕ
throttled zero = transient
throttled (suc zero) = transient
throttled (suc (suc n)) = done 7

throttled_before : (j : ℕ) → j < 2 → throttled j ≡ transient
throttled_before zero h = refl
throttled_before (suc zero) h = refl
throttled_before (suc (suc n)) h = absurd (omega arith)

snapshot_download_retried_example :
    EndsAfter throttled 7 2 (download_hugging_face_snapshot throttled)
snapshot_download_retried_example =
    snapshot_download_retried throttled 7 2 (omega arith) refl throttled_before

-- A checkpoint of the expected size.
unfoldable big : Text
big = fill mt3_pth_bytes

abbrev mt3_site : ℕ → Text → Option Response
mt3_site attempt url = some record {
  content_type = binary;
  chunks = (if text_eq url mt3_config_url then codes "{}" else big) ∷ [];
  breaks = false;
}

big_is_binary : looks_like_html big ≡ false
unfolding big looks_like_html starts_with lstrip
big_is_binary = refl

big-length : length big ≡ mt3_pth_bytes
unfolding big
big-length = length-fill mt3_pth_bytes

big_size : (length (big ++ []) == mt3_pth_bytes) ≡ true
big_size =
    (==_iff (length (big ++ [])) mt3_pth_bytes).1 (omega (arith, length-append big [], big-length))

big_is_valid : validate_mt3_pytorch_snapshot lenient (codes "{}") (big ++ []) ≡ true
unfolding validate_mt3_pytorch_snapshot text_eq
big_is_valid = ap (λ (b : Bool). b && (text_eq mt3_pth_sha256 mt3_pth_sha256 && true)) big_size

config_staged : download_single_payload (mt3_site 0) mt3_config_url ≡ some (codes "{}")
unfolding download_single_payload looks_like_html copy_chunks contains_text starts_with lstrip
    text_eq
config_staged = refl

checkpoint_staged : download_single_payload (mt3_site 0) mt3_checkpoint_url ≡ some (big ++ [])
unfolding download_single_payload copy_chunks contains_text starts_with lstrip text_eq
checkpoint_staged = ap (λ (refuse : Bool). stage_chunks refuse big [] false) big_is_binary

first_attempt : mt3_attempt lenient (mt3_site 0) ≡ some (codes "{}", big ++ [])
unfolding mt3_attempt
first_attempt =
    ap
      (λ (c : Option Text).
        check_files lenient c (download_single_payload (mt3_site 0) mt3_checkpoint_url))
      config_staged
    ∙ ap (λ (c : Option Text). check_files lenient (some (codes "{}")) c) checkpoint_staged
    ∙ ap (λ (b : Bool). accept_files b (codes "{}") (big ++ [])) big_is_valid

mt3_fetched :
    (download_mt3_pytorch_pretrained lenient mt3_site).result ≡ some (codes "{}", big ++ [])
unfolding download_mt3_pytorch_pretrained mt3_loop
mt3_fetched =
    ap (λ (o : Option (Text × Text)). (settle_mt3 o 0 (mt3_loop lenient mt3_site 2 1)).result)
      first_attempt

mt3_staged_is_valid_example :
    (k : ℕ) × (k < 3) × Fetched lenient (mt3_site k) (codes "{}") (big ++ [])
mt3_staged_is_valid_example =
    mt3_staged_is_valid lenient mt3_site (codes "{}") (big ++ []) mt3_fetched

abbrev snapshot : List Entry
snapshot =
    record { parts = codes ".cache" ∷ codes "lock" ∷ []; body = some (codes "l") }
    ∷ record { parts = codes "unet" ∷ []; body = none }
    ∷ record { parts = codes "unet" ∷ codes "w.bin" ∷ []; body = some (codes "w") }
    ∷ []

snapshot_sent : (upload_directory takes_all (codes "m") snapshot).result ≡ some tt
unfolding upload_directory upload_entries kept skip_snapshot_file one_of text_eq upload_one issue
    put_index
snapshot_sent = refl

upload_directory_indexed_example :
    (upload_directory takes_all (codes "m") snapshot).log
    ≡ map (upload_of (codes "m")) (kept_files snapshot)
      ++ (index_of (codes "m") (keys_of_files (kept_files snapshot)) ∷ [])
upload_directory_indexed_example =
    upload_directory_indexed takes_all (codes "m") snapshot tt snapshot_sent

abbrev no_parts : Text → ParsedUrl
no_parts _ = record { scheme = codes "https"; netloc = codes "zenodo.org"; path = [] }

abbrev same_text : Text → Text
same_text text = text

abbrev no_snapshot : Text → List Text → Option (List Text) → ℕ → Attempt (List Entry)
no_snapshot repo ignored patterns attempt = transient

abbrev upstream : Upstream
upstream = record {
  urlopen = λ attempt. serves_weights;
  urlparse = λ url. some (no_parts url);
  lower = same_text;
  snapshot_download = no_snapshot;
  readers = lenient;
}

no_snapshot-IsStageable :
    (repo_id : Text) (patterns : Option (List Text)) (k : ℕ) (entries : List Entry)
    → no_snapshot repo_id ignore_patterns patterns k ≡ done entries
    → All IsStageable (kept_files entries)
no_snapshot-IsStageable repo_id patterns k entries h = absurd (cc h)

abbrev absent : Text → Option ℕ
absent _ = none

abbrev empty_bucket : Bucket
empty_bucket = record {
  head_object = absent;
  list_objects = two_keys;
  download_file = no_file;
  takes = takes_all;
}

run_model_bootstrap-PublishedLast_example :
    PublishedLast
      (codes "m")
      (run_model_bootstrap upstream empty_bucket (codes "m") (codes "https://w"))
run_model_bootstrap-PublishedLast_example =
    run_model_bootstrap-PublishedLast upstream empty_bucket (codes "m") (codes "https://w")
      no_snapshot-IsStageable

abbrev hub_parts : Text → ParsedUrl
hub_parts _ = record {
  scheme = codes "https";
  netloc = codes "huggingface.co";
  path = codes "/owner/model//tree/main";
}

hub_repo : hugging_face_repo_id hub_parts same_text (codes "u") ≡ some (codes "owner/model")
unfolding hugging_face_repo_id split_path one_of join text_eq
hub_repo = refl

hugging_face_repo_id-IsRepo_example :
    (one_of (codes "https") (codes "http" ∷ codes "https" ∷ []) ≡ true)
    × (text_eq (codes "huggingface.co") (codes "huggingface.co") ≡ true)
    × IsRepo (codes "owner/model")
hugging_face_repo_id-IsRepo_example =
    hugging_face_repo_id-IsRepo hub_parts same_text (codes "u") (codes "owner/model") hub_repo
