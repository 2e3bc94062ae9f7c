-- ===== src/Bootstrap/Validity.antt =====
-- Whether the cache that an earlier job left is kept: `_existing_model_cache_ready` and the checks of
-- the MT3 checkpoint. The JSON, SHA-256 and zip readers are arguments.
use infernix.Prelude.{
  ℕ, ◌*◌, ◌≡◌, ◌≢◌, refl, Bool, true, false, ◌&&◌, Option, none, some, [], length, ◌==◌, leb, ltb,
}
use infernix.Prelude.Text.{Text, codes, text_eq}
use infernix.Bootstrap.Store.{
  Bucket, Run, pure, ◌>>◌, object_key, sentinel_exists, native_snapshot_index_name,
}
use infernix.Bootstrap.Delete.{delete_model_prefix}
use infernix.Bootstrap.Payload.{is_mt3_pytorch_pretrained}

pub data CacheValidity : Type 0 where
  valid corrupt unverifiable : CacheValidity

-- `json.load` on a file, `hexdigest`, and `testzip`: `none` where the file is no archive, else the
-- bad member, if there is one.
pub record Readers : Type 0 where
  pub loads_json : Text → Bool
  pub sha256_hex : Text → Text
  pub testzip : Text → Option (Option Text)

abbrev pub mt3_pth_bytes : ℕ
mt3_pth_bytes = 183672643

abbrev pub mt3_pth_sha256 : Text
mt3_pth_sha256 = codes "b8a3807ed265059abd25ad7f68142c06c35e8f6144dcaa45bd55946a3745398f"

abbrev pub archive_is_good : Option (Option Text) → Bool
archive_is_good none = false
archive_is_good (some none) = true
archive_is_good (some (some bad)) = false

-- `_validate_mt3_pytorch_snapshot`: whether it returns, on the contents of the two files.
unfoldable pub validate_mt3_pytorch_snapshot : Readers → Text → Text → Bool
unfolding text_eq
validate_mt3_pytorch_snapshot readers config checkpoint =
    readers.loads_json config
    && (length checkpoint == mt3_pth_bytes
        && (text_eq (readers.sha256_hex checkpoint) mt3_pth_sha256
            && archive_is_good (readers.testzip checkpoint)))

-- The sizes that a staged MT3 checkpoint has.
abbrev pub expected_shape : ℕ → ℕ → ℕ → Bool
expected_shape config_size checkpoint_size index_size =
    (leb 100 config_size && leb config_size (1024 * 1024))
    && (checkpoint_size == mt3_pth_bytes && ltb 0 index_size)

abbrev pub judge : Bool → CacheValidity
judge true = valid
judge false = unverifiable

abbrev pub deep_check : Readers → Option Text → Option Text → CacheValidity
deep_check readers none checkpoint = unverifiable
deep_check readers (some config) none = unverifiable
deep_check readers (some config) (some checkpoint) =
    judge (validate_mt3_pytorch_snapshot readers config checkpoint)

abbrev pub shape_check : Bool → CacheValidity → CacheValidity
shape_check true deep = deep
shape_check false deep = corrupt

-- The verdict on the three sizes, `none` where `head_object` raised.
abbrev pub sizes_check : Option ℕ → Option ℕ → Option ℕ → CacheValidity → CacheValidity
sizes_check none _ _ deep = unverifiable
sizes_check (some config_size) none _ deep = unverifiable
sizes_check (some config_size) (some checkpoint_size) none deep = unverifiable
sizes_check (some config_size) (some checkpoint_size) (some index_size) deep =
    shape_check (expected_shape config_size checkpoint_size index_size) deep

-- `_mt3_pytorch_cache_validity`
unfoldable pub mt3_pytorch_cache_validity : Readers → Bucket → Text → CacheValidity
mt3_pytorch_cache_validity readers bucket model_id =
    let config = object_key model_id (codes "config.json") in
    let checkpoint = object_key model_id (codes "mt3.pth") in
    sizes_check (bucket.head_object config) (bucket.head_object checkpoint)
      (bucket.head_object (object_key model_id native_snapshot_index_name))
      (deep_check readers (bucket.download_file config) (bucket.download_file checkpoint))

abbrev pub act_on : CacheValidity → Bucket → Text → Run Bool
act_on valid bucket model_id = pure true
act_on unverifiable bucket model_id = pure true
act_on corrupt bucket model_id = delete_model_prefix bucket model_id >> pure false

abbrev pub revalidate : Bool → Bool → CacheValidity → Bucket → Text → Run Bool
revalidate false is_mt3 validity bucket model_id = pure false
revalidate true false validity bucket model_id = pure true
revalidate true true validity bucket model_id = act_on validity bucket model_id

-- `_existing_model_cache_ready`
unfoldable pub existing_model_cache_ready : Readers → Bucket → Text → Text → Run Bool
existing_model_cache_ready readers bucket model_id download_url =
    revalidate (sentinel_exists bucket model_id) (is_mt3_pytorch_pretrained download_url)
      (mt3_pytorch_cache_validity readers bucket model_id) bucket model_id

judge-not_corrupt : (b : Bool) → judge b ≢ corrupt
judge-not_corrupt true h = cc h
judge-not_corrupt false h = cc h

deep_check-not_corrupt :
    (readers : Readers) (config checkpoint : Option Text)
    → deep_check readers config checkpoint ≢ corrupt
deep_check-not_corrupt readers none checkpoint h = cc h
deep_check-not_corrupt readers (some config) none h = cc h
deep_check-not_corrupt readers (some config) (some checkpoint) h =
    judge-not_corrupt (validate_mt3_pytorch_snapshot readers config checkpoint) h

-- The three sizes were read, and they are not those of a staged checkpoint.
abbrev pub Mismatch : Option ℕ → Option ℕ → Option ℕ → Type 0
Mismatch config checkpoint index =
    (a b c : ℕ) × (config ≡ some a)
    × (checkpoint ≡ some b)
    × (index ≡ some c)
    × (expected_shape a b c ≡ false)

shape_check_inv :
    (b : Bool) (deep : CacheValidity) → deep ≢ corrupt → shape_check b deep ≡ corrupt → b ≡ false
shape_check_inv true deep n h = absurd (n h)
shape_check_inv false deep n h = refl

sizes_check_inv :
    (config checkpoint index : Option ℕ) (deep : CacheValidity)
    → deep ≢ corrupt
    → sizes_check config checkpoint index deep ≡ corrupt
    → Mismatch config checkpoint index
sizes_check_inv none checkpoint index deep n h = absurd (cc h)
sizes_check_inv (some a) none index deep n h = absurd (cc h)
sizes_check_inv (some a) (some b) none deep n h = absurd (cc h)
sizes_check_inv (some a) (some b) (some c) deep n h =
    (a, b, c, refl, refl, refl, shape_check_inv (expected_shape a b c) deep n h)

act_on_inv :
    (v : CacheValidity) (bucket : Bucket) (model_id : Text)
    → (act_on v bucket model_id).log ≢ []
    → v ≡ corrupt
act_on_inv valid bucket model_id h = absurd (h refl)
act_on_inv unverifiable bucket model_id h = absurd (h refl)
act_on_inv corrupt bucket model_id h = refl

revalidate_inv :
    (exists is_mt3 : Bool) (v : CacheValidity) (bucket : Bucket) (model_id : Text)
    → (revalidate exists is_mt3 v bucket model_id).log ≢ []
    → (exists ≡ true) × (is_mt3 ≡ true) × (v ≡ corrupt)
revalidate_inv false is_mt3 v bucket model_id h = absurd (h refl)
revalidate_inv true false v bucket model_id h = absurd (h refl)
revalidate_inv true true v bucket model_id h = (refl, refl, act_on_inv v bucket model_id h)

-- A retained cache is written to (anything of it is deleted) only where its sentinel is there, its
-- model is the MT3 one, and the sizes of its three objects were all read and are not those of a
-- staged checkpoint: a read or a deep check that fails deletes nothing.
pub existing_cache_deleted :
    (readers : Readers) (bucket : Bucket) (model_id download_url : Text)
    → (existing_model_cache_ready readers bucket model_id download_url).log ≢ []
    → (sentinel_exists bucket model_id ≡ true)
      × (is_mt3_pytorch_pretrained download_url ≡ true)
      × Mismatch
          (bucket.head_object (object_key model_id (codes "config.json")))
          (bucket.head_object (object_key model_id (codes "mt3.pth")))
          (bucket.head_object (object_key model_id native_snapshot_index_name))
unfolding existing_model_cache_ready mt3_pytorch_cache_validity
existing_cache_deleted readers bucket model_id download_url h =
    let config = object_key model_id (codes "config.json") in
    let checkpoint = object_key model_id (codes "mt3.pth") in
    let deep = deep_check readers (bucket.download_file config) (bucket.download_file checkpoint) in
    let (s, m, v) =
      revalidate_inv (sentinel_exists bucket model_id) (is_mt3_pytorch_pretrained download_url)
        (mt3_pytorch_cache_validity readers bucket model_id) bucket model_id h in
    (
      s,
      m,
      sizes_check_inv (bucket.head_object config) (bucket.head_object checkpoint)
          (bucket.head_object (object_key model_id native_snapshot_index_name)) deep
          (deep_check-not_corrupt readers (bucket.download_file config)
            (bucket.download_file checkpoint))
          v,
    )
