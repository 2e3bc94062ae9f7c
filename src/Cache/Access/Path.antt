-- ===== src/Cache/Access/Path.antt =====
-- What `get_model_path` returns, and what it leaves on the disk.
use infernix.Prelude.{◌≡◌, inl, inr, refl, Bool-cases, if◌then◌else◌, not}
use infernix.Prelude.Text.{Text, is_set}
use infernix.Cache.Disk.{Disk, file_at}
use infernix.Cache.Config.{CacheError, empty_model_id, Result, ok, err, model_cache_root}
use infernix.Cache.Populate.{ready_sentinel_name, populate_from_minio}
use infernix.Cache.Populate.Ready.{ReadyAfter, populate-ReadyAfter}
use infernix.Cache.Access.{Around, ModelDir, is_ready, after_populate, get_model_path}

abbrev pub populated : Around → Text → Disk → Result (Unit {0}) × Disk
populated a name d = populate_from_minio a.config a.boto3 a.client a.now name d

-- The directory for a populate that returned, its error for one that raised.
abbrev pub as_dir : Around → Text → Result (Unit {0}) → Result ModelDir
as_dir a name (ok _) = ok (record { root = model_cache_root a.config; model_id = name })
as_dir a name (err e) = err e

after_populate_result :
    (a : Around) (name : Text) (d : Disk) (m : Result (Unit {0}) × Disk)
    → ReadyAfter name d m
    → (after_populate a name m).0 ≡ as_dir a name m.0
unfolding after_populate is_ready
after_populate_result a name d (ok _, after) (is, there, text) = rw (is, there) refl
after_populate_result a name d (err e, after) r = refl

-- The result of a call: an empty id is refused; a model whose sentinel is on the disk is returned
-- with no use of the client; any other call returns or raises exactly as its populate does, so the
-- second look at the sentinel never fails.
pub get_model_path_result :
    (a : Around) (name : Text) (d : Disk)
    → (get_model_path a name d).0 ≡ (
        if not (is_set name)
        then err empty_model_id
        else if is_ready name d
        then as_dir a name (ok tt)
        else as_dir a name (populated a name d).0)
unfolding get_model_path
get_model_path_result a name d = elim (Bool-cases (not (is_set name))) [
  | inl empty ↦ rw (empty, get_model_path) refl
  | inr given ↦ elim (Bool-cases (is_ready name d)) [
    | inl hit ↦ rw (given, get_model_path, hit) refl
    | inr miss ↦
        rw (given, get_model_path, miss)
          (after_populate_result a name d (populated a name d)
            (populate-ReadyAfter a.config a.boto3 a.client a.now name d))
  ]
]

failed_populate_keeps :
    (a : Around) (name : Text) (d : Disk) (m : Result (Unit {0}) × Disk) (e : CacheError)
    → ReadyAfter name d m
    → (after_populate a name m).0 ≡ err e
    → file_at name ready_sentinel_name (after_populate a name m).1
      ≡ file_at name ready_sentinel_name d
unfolding after_populate is_ready
failed_populate_keeps a name d (ok _, after) e (is, there, text) h = cc (h, is, there)
failed_populate_keeps a name d (err x, after) e r h = r

-- A call that raises leaves the model's sentinel as it was.
pub get_model_path_failed :
    (a : Around) (name : Text) (d : Disk) (e : CacheError)
    → (get_model_path a name d).0 ≡ err e
    → file_at name ready_sentinel_name (get_model_path a name d).1
      ≡ file_at name ready_sentinel_name d
unfolding get_model_path
get_model_path_failed a name d e = elim (Bool-cases (not (is_set name))) [
  | inl empty ↦ rw (empty, get_model_path) (λ h. refl)
  | inr given ↦ elim (Bool-cases (is_ready name d)) [
    | inl hit ↦ rw (given, get_model_path, hit) (λ h. cc h)
    | inr miss ↦
        rw (given, get_model_path, miss)
          (failed_populate_keeps a name d (populated a name d) e
            (populate-ReadyAfter a.config a.boto3 a.client a.now name d))
  ]
]
