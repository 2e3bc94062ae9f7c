-- ===== src/Publish/Loads.antt =====
-- That a populate from a bucket which holds a model's sentinel returns.
use infernix.Prelude.{
  ℕ, ◌≡◌, refl, ap, sym, ◌∙◌, true, some, List, [], ◌∷◌, ◌++◌, map, In, length, drop, Bool-cases,
  inl, inr,
}
use mathlib.Core.List.{append_assoc}
use infernix.Prelude.Text.{
  Text, codes, text_eq, text_eq_refl, one_of, starts_with, starts_with_append,
}
use infernix.Prelude.Dict.{lookup}
use infernix.Bootstrap.Store.{object_key}
use infernix.Cache.Config.{Result, ok, err, ModelCacheConfig, require_config}
use infernix.Cache.Disk.{Disk}
use infernix.Cache.Disk as Disk
use infernix.Cache.Populate.{
  Client, complete, Files, ready_sentinel_name, strip_prefix, download_minio_object, settle,
  download_all, relative_pairs, make_directory, finish, fetch_listed, has_details,
  list_minio_objects, keys_of_pages, populate_from_minio,
}
use infernix.Publish.{Objects, Serves}

drop-append : (s t : Text) → drop (length s) (s ++ t) ≡ t
drop-append [] t = refl
drop-append (c ∷ s) t = drop-append s t

pub strip_prefix-append : (p t : Text) → strip_prefix (p ++ t) p ≡ t
unfolding strip_prefix
strip_prefix-append p t = rw (starts_with_append p t) (drop-append p t)

one_of-map :
    (f : Text → Text) (s key : Text) (keys : List Text)
    → In key keys
    → f key ≡ s
    → one_of s (map f keys) ≡ true
unfolding one_of
one_of-map f s key [] m e = absurd m
one_of-map f s key (k ∷ keys) (inl same) e = rw (sym e ∙ ap f same) (rw (text_eq_refl (f k)) refl)
one_of-map f s key (k ∷ keys) (inr m) e = elim (Bool-cases (text_eq s (f k))) [
  | inl y ↦ rw y refl
  | inr n ↦ rw n (one_of-map f s key keys m e)
]

complete_all :
    (client : Client) (bucket prefix : Text) (keys : List Text)
    → ((key : Text)
        → In key keys
        → (body : Text) × (client.download_fileobj bucket key ≡ complete body))
    → (files : Files) → (download_all client bucket (relative_pairs prefix keys) files).0 ≡ ok tt
unfolding download_all download_minio_object settle
complete_all client bucket prefix [] h files = refl
complete_all client bucket prefix (key ∷ keys) h files =
    elim (Bool-cases (text_eq (strip_prefix key prefix) ready_sentinel_name)) [
      | inl same ↦
          rw (same, download_all)
            (complete_all client bucket prefix keys (λ k m. h k (inr m)) files)
      | inr other ↦
          let (body, e) = h key (inl refl) in
          rw (other, download_all, e)
            (complete_all client bucket prefix keys (λ k m. h k (inr m))
              ((settle (strip_prefix key prefix) files (complete body)).1))
    ]

finish_ok :
    (name : Text) (e : Disk.Entry) (d : Disk) (m : Result (Unit {0}) × Files)
    → m.0 ≡ ok tt
    → (finish name e d m).0 ≡ ok tt
finish_ok name e d (ok u, files) h = refl
finish_ok name e d (err x, files) h = absurd (cc h)

-- A populate from a bucket that holds the sentinel of the model returns, where the configuration
-- has the store's details and no file stands in the way of the directory.
pub populate_loads :
    (c : ModelCacheConfig) (client : Client) (objects : Objects) (now : ℕ) (name : Text) (d : Disk)
    (files : Files) (e : Disk.Entry) (body : Text)
    → Serves client c.models_bucket objects
    → has_details c ≡ true
    → make_directory now name d ≡ some (files, e)
    → lookup (object_key name ready_sentinel_name) objects ≡ some body
    → (populate_from_minio (some c) true client now name d).0 ≡ ok tt
unfolding populate_from_minio require_config list_minio_objects fetch_listed
populate_loads c client objects now name d files e body s details made there =
    let prefix = name ++ codes "/" in
    let keys = keys_of_pages (s.pages prefix) in
    let split : object_key name ready_sentinel_name ≡ prefix ++ ready_sentinel_name =
      sym (append_assoc name (codes "/") ready_sentinel_name) in
    let under : starts_with (object_key name ready_sentinel_name) prefix ≡ true =
      ap (λ (k : Text). starts_with k prefix) split
      ∙ starts_with_append prefix ready_sentinel_name in
    let stripped : strip_prefix (object_key name ready_sentinel_name) prefix ≡ ready_sentinel_name =
      ap (λ (k : Text). strip_prefix k prefix) split
      ∙ strip_prefix-append prefix ready_sentinel_name in
    let listed =
      one_of-map (λ (key : Text). strip_prefix key prefix) ready_sentinel_name
        (object_key name ready_sentinel_name) keys
        (s.lists prefix (object_key name ready_sentinel_name) body there under) stripped in
    rw (details, populate_from_minio, s.paginates prefix, listed, fetch_listed, made)
      (finish_ok name e d (download_all client c.models_bucket (relative_pairs prefix keys) files) (
        complete_all client c.models_bucket prefix keys
          (λ key m. let (b, held) = s.holds prefix key m in (b, s.downloads key b held)) files))
