-- ===== src/Cache/Populate/Ready.antt =====
-- When the local `.ready` sentinel appears: never on a failed populate, always on a finished one.
use infernix.Prelude.{
  ℕ, ◌≡◌, refl, ap, ◌∙◌, Bool, true, false, Option, none, some, List, [], ◌∷◌, ◌++◌, arith, length,
  length-append, not, All, ◌⊎◌, Bool-cases, Option-cases, inl, inr, map, if◌then◌else◌,
}
use infernix.Prelude.Text.{Text, codes, text_eq, text_eq_iff, text_eq_refl, one_of}
use infernix.Prelude.Dict.{lookup, put, erase, lookup-put, lookup-put_self, lookup-erase}
use infernix.Cache.Disk.{Disk, Entry, dir, file_at, is_file, is_dir}
use infernix.Cache.Config.{Result, ok, err, Configured, require_config}
use infernix.Cache.Populate.{
  Client, Download, complete, broken, Files, ready_sentinel_name, temp_name, replace_file,
  download_minio_object, download_all, and_then, write_sentinel, make_directory, finish, settle,
  fetch_listed, has_details, relative_pairs, strip_prefix, populate_from_minio, list_minio_objects,
}

pub temp_name-ne-ready : (path : Text) → text_eq (temp_name path) ready_sentinel_name ≡ false
unfolding text_eq
temp_name-ne-ready [] = refl
temp_name-ne-ready (a ∷ []) = ground arith
temp_name-ne-ready (a ∷ b ∷ []) = ground arith
temp_name-ne-ready (a ∷ b ∷ c ∷ r) = elim (Bool-cases (text_eq long ready_sentinel_name)) [
  | inl same ↦
      let e : long ≡ ready_sentinel_name = (text_eq_iff long ready_sentinel_name).0 same in
      absurd (omega (arith, ap (λ (t : Text). length t) e, length-append r (codes ".tmp")))
  | inr other ↦ other
]
  where
    long : Text
    long = temp_name (a ∷ b ∷ c ∷ r)

pub lookup-replace_file :
    (source target body j : Text) (files : Files)
    → lookup j (replace_file source target body files)
      ≡ (if text_eq target j then some body else if text_eq source j then none else lookup j files)
unfolding replace_file
lookup-replace_file source target body j files =
    ground (arith, lookup-put target j body (erase source files), lookup-erase source j files)

-- The download of the pair does not write to `path`.
abbrev pub Avoids : Text → Text × Text → Type 0
Avoids path (_, relative) =
    (text_eq relative ready_sentinel_name ≡ true)
    ⊎ ((text_eq relative path ≡ false) × (text_eq (temp_name relative) path ≡ false))

pub settle_keeps :
    (path relative : Text) (files : Files) (done : Download)
    → text_eq relative path ≡ false
    → text_eq (temp_name relative) path ≡ false
    → lookup path (settle relative files done).1 ≡ lookup path files
unfolding settle
settle_keeps path relative files (broken part) other apart =
    ground (arith, lookup-put (temp_name relative) path part files)
settle_keeps path relative files (complete body) other apart = ground (
  arith,
  lookup-put (temp_name relative) path body files,
  lookup-replace_file (temp_name relative) relative body path (put (temp_name relative) body files),
)

and_then_keeps :
    (path : Text) (m : Result (Unit {0}) × Files) (rest : Files → Result (Unit {0}) × Files)
    (found : Option Text)
    → lookup path m.1 ≡ found
    → ((files : Files) → lookup path (rest files).1 ≡ lookup path files)
    → lookup path (and_then m rest).1 ≡ found
and_then_keeps path (ok _, files) rest found h keep = keep files ∙ h
and_then_keeps path (err e, files) rest found h keep = h

pub download_all_keeps :
    (path : Text) (client : Client) (bucket : Text) (pairs : List (Text × Text)) (files : Files)
    → All (Avoids path) pairs
    → lookup path (download_all client bucket pairs files).1 ≡ lookup path files
unfolding download_all download_minio_object
download_all_keeps path client bucket [] files avoids = refl
download_all_keeps path client bucket ((key, relative) ∷ rest) files avoids =
    elim (Bool-cases (text_eq relative ready_sentinel_name)) [
      | inl same ↦
          rw (same, download_all) (download_all_keeps path client bucket rest files avoids.1)
      | inr other ↦ elim (avoids.0) [
        | inl same ↦ cc (same, other)
        | inr (apart, temp_apart) ↦
            rw (other, download_all)
              (and_then_keeps path (settle relative files (client.download_fileobj bucket key))
                (download_all client bucket rest) (lookup path files)
                (settle_keeps path relative files (client.download_fileobj bucket key) apart
                  temp_apart)
                (λ more. download_all_keeps path client bucket rest more avoids.1))
      ]
    ]

avoid_ready : (pairs : List (Text × Text)) → All (Avoids ready_sentinel_name) pairs
avoid_ready [] = tt
avoid_ready ((key, relative) ∷ rest) = (
  elim (Bool-cases (text_eq relative ready_sentinel_name)) [
    | inl same ↦ inl same
    | inr other ↦ inr (other, temp_name-ne-ready relative)
  ],
  avoid_ready rest,
)

download_all-keeps_ready :
    (client : Client) (bucket : Text) (pairs : List (Text × Text)) (files : Files)
    → lookup ready_sentinel_name (download_all client bucket pairs files).1
      ≡ lookup ready_sentinel_name files
download_all-keeps_ready client bucket pairs files =
    download_all_keeps ready_sentinel_name client bucket pairs files (avoid_ready pairs)

pub write_sentinel_ready :
    (files : Files)
    → lookup ready_sentinel_name (write_sentinel files) ≡ some (codes "populated-from-minio\n")
unfolding write_sentinel
write_sentinel_ready files = ground (
  arith,
  text_eq_refl ready_sentinel_name,
  lookup-replace_file (temp_name ready_sentinel_name) ready_sentinel_name
      (codes "populated-from-minio\n") ready_sentinel_name
      (put (temp_name ready_sentinel_name) (codes "populated-from-minio\n") files),
)

-- What a run of the populate steps leaves: the sentinel appears only with success.
abbrev pub ReadyAfter : Text → Disk → Result (Unit {0}) × Disk → Type 0
ReadyAfter name before (ok _, after) =
    (is_dir name after ≡ true)
    × (is_file name ready_sentinel_name after ≡ true)
    × (file_at name ready_sentinel_name after ≡ some (codes "populated-from-minio\n"))
ReadyAfter name before (err e, after) =
    file_at name ready_sentinel_name after ≡ file_at name ready_sentinel_name before

pub file_at-with_files :
    (name path : Text) (e : Entry) (files : Files) (d : Disk)
    → file_at name path (put name (record { atime = e.atime; node = dir files }) d)
      ≡ lookup path files
unfolding file_at
file_at-with_files name path e files d =
    ground (arith, lookup-put_self name (record { atime = e.atime; node = dir files }) d)

is_dir-with_files :
    (name : Text) (e : Entry) (files : Files) (d : Disk)
    → is_dir name (put name (record { atime = e.atime; node = dir files }) d) ≡ true
unfolding is_dir
is_dir-with_files name e files d =
    ground (arith, lookup-put_self name (record { atime = e.atime; node = dir files }) d)

finish-ReadyAfter :
    (name : Text) (e : Entry) (d : Disk) (m : Result (Unit {0}) × Files)
    → lookup ready_sentinel_name m.1 ≡ file_at name ready_sentinel_name d
    → ReadyAfter name d (finish name e d m)
unfolding is_file
finish-ReadyAfter name e d (ok _, files) h = (
  is_dir-with_files name e (write_sentinel files) d,
  rw (
    file_at-with_files name ready_sentinel_name e (write_sentinel files) d,
    write_sentinel_ready files,
  ),
  file_at-with_files name ready_sentinel_name e (write_sentinel files) d
      ∙ write_sentinel_ready files,
)
finish-ReadyAfter name e d (err x, files) h =
    file_at-with_files name ready_sentinel_name e files d ∙ h

make_directory-files :
    (now : ℕ) (name : Text) (d : Disk) (files : Files) (e : Entry)
    → make_directory now name d ≡ some (files, e)
    → lookup ready_sentinel_name files ≡ file_at name ready_sentinel_name d
unfolding make_directory file_at lookup
make_directory-files now name d files e h = ground arith

fetch_listed-ReadyAfter :
    (client : Client) (bucket name : Text) (now : ℕ) (keys : List Text) (d : Disk)
    → ReadyAfter name d (fetch_listed client bucket name now keys d)
unfolding fetch_listed
fetch_listed-ReadyAfter client bucket name now keys d =
    let prefix = name ++ codes "/" in
    elim (Bool-cases (one_of ready_sentinel_name (map (λ key. strip_prefix key prefix) keys))) [
      | inl listed ↦ elim (Option-cases (make_directory now name d)) [
        | inl blocked ↦ rw (listed, fetch_listed, blocked) refl
        | inr ((files, e), made) ↦
            rw (listed, fetch_listed, made)
              (finish-ReadyAfter name e d
                (download_all client bucket (relative_pairs prefix keys) files)
                (download_all-keeps_ready client bucket (relative_pairs prefix keys) files
                  ∙ make_directory-files now name d files e made))
      ]
      | inr unlisted ↦ rw (unlisted, fetch_listed) refl
    ]

-- Populating the cache makes the model's directory with its sentinel, whose text is the one that a
-- populate writes, or it raises, and then the sentinel is what it was: a failed download never
-- makes a model look ready.
pub populate-ReadyAfter :
    (config : Configured) (boto3 : Bool) (client : Client) (now : ℕ) (name : Text) (d : Disk)
    → ReadyAfter name d (populate_from_minio config boto3 client now name d)
unfolding populate_from_minio require_config
populate-ReadyAfter none boto3 client now name d = refl
populate-ReadyAfter (some c) boto3 client now name d = elim (Bool-cases (not (has_details c))) [
  | inl missing ↦ rw (missing, populate_from_minio) refl
  | inr known ↦ elim (Bool-cases (not boto3)) [
    | inl absent ↦ rw (known, populate_from_minio, absent) refl
    | inr there ↦
        elim (Option-cases (list_minio_objects client c.models_bucket (name ++ codes "/"))) [
          | inl failed ↦ rw (known, populate_from_minio, there, failed) refl
          | inr (keys, listed) ↦
              rw (known, populate_from_minio, there, listed)
                (fetch_listed-ReadyAfter client c.models_bucket name now keys d)
        ]
  ]
]
